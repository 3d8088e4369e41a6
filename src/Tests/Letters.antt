-- ===== src/Tests/Letters.antt =====
-- Dead letters of src/myloware/storage/models.py, replayed.
use Prim.Native.String.{String}
use mylo_ware.Common.{◌≡◌, refl, Bool, true, Option, none, some, []}
use mylo_ware.Common.Json
use mylo_ware.Common.Json.{Json, Items, Fields, truthy}
use mylo_ware.Storage.Jobs.{Job}
use mylo_ware.Storage.DeadLetters.{DeadLetter}
use mylo_ware.Workers.Process.{Environment, webhook_source}
use mylo_ware.Workers.Laws.{letter_of}
use mylo_ware.Workflow.Replay.{
  Resume, after_videos, replayed_videos, failed, missing_video, replay_dead_letter,
}
use mylo_ware.Workflow.Replay.Laws.{Resumes, replay_dead_letter-Resumes, worker_letters_fail}
use mylo_ware.Tests.JobTable.{execute_job}

abbrev no_json : String → Option Json
no_json s = none

abbrev always : Resume → Bool
always c = true

abbrev one_url : Items
one_url = Items.cons (Json.str "u1") Items.nil

abbrev flat_letter : DeadLetter
flat_letter = record {
  id = 1;
  source = "sora";
  run_id = 7;
  payload = Json.obj (Fields.field "video_clips" (Json.arr one_url) Fields.end);
  error = none;
  attempts = 1;
  created_at = 10;
  last_attempt_at = none;
  resolved_at = none;
}

flat_letter_replayed :
    replay_dead_letter no_json always flat_letter ≡ (some (after_videos 7), replayed_videos one_url)
unfolding replay_dead_letter Json.get
flat_letter_replayed = refl

replay_dead_letter-Resumes_example :
    Resumes always 7 (replay_dead_letter no_json always flat_letter)
replay_dead_letter-Resumes_example = replay_dead_letter-Resumes no_json always flat_letter

abbrev render_job : Job
render_job = record execute_job {
  job_type = "webhook.remotion";
  payload = Fields.field "video_url" (Json.str "u1") Fields.end;
  attempts = 3;
}

abbrev worker : Environment
worker = record {
  worker_id = "w1";
  lease = 60;
  base_delay = 5;
  beat_times = [];
  now = 100;
  letter_id = 9;
  letter_stored = true;
  expired_message = "greenlet_spawn has not been called";
}

worker_letters_fail_example :
    replay_dead_letter no_json always (letter_of worker render_job "timeout")
    ≡ (none, failed missing_video)
unfolding webhook_source
worker_letters_fail_example = worker_letters_fail no_json always worker render_job "timeout"
