-- ===== src/Tests/RunTable.antt =====
-- Runs and dead letters of the tables of src/myloware/storage/models.py.
use mylo_ware.Common.{false, none, some, List, [], ◌∷◌}
use mylo_ware.Common.Json.{Json, Fields}
use mylo_ware.Storage.Runs.{Run}
use mylo_ware.Storage.Runs.Status.{awaiting_publish_approval, running}
use mylo_ware.Storage.DeadLetters.{DeadLetter}

abbrev pub waiting_run : Run
waiting_run = record {
  id = 7;
  workflow_name = "aismr";
  vector_db_id = none;
  status = awaiting_publish_approval;
  current_step = some "publish_approval";
  user_id = some "u1";
  telegram_chat_id = none;
  input = "cats";
  artifacts = some (Fields.field "ideas" (Json.str "two cats") Fields.end);
  error = none;
  public_demo = false;
  public_token = none;
  created_at = 10;
  updated_at = some 20;
}

abbrev pub other_run : Run
other_run = record waiting_run { id = 8; status = running; input = "dogs" }

abbrev pub two_runs : List Run
two_runs = waiting_run ∷ other_run ∷ []

abbrev letter : DeadLetter
letter = record {
  id = 1;
  source = "sora";
  run_id = 7;
  payload = Json.null;
  error = some "timeout";
  attempts = 3;
  created_at = 10;
  last_attempt_at = some 10;
  resolved_at = none;
}

abbrev second_letter : DeadLetter
second_letter = record letter { id = 2; created_at = 20 }

abbrev two_letters : List DeadLetter
two_letters = letter ∷ second_letter ∷ []
