-- ===== src/Workflow/Cleanup.antt =====
-- src/myloware/workflows/cleanup.py: runs that wait too long are timed out. Times are microseconds.
-- The clock is read for the cutoff, `now`, and again for the runs, `later`; `str` writes a number.
pub mod Rows
pub mod Laws
use Prim.Native.String.{◌++◌ as text_append}
use mylo_ware.Common.{
  ℕ, ◌-◌, ◌*◌, ◌/◌, String, Bool, Option, none, some, List, [], ◌∷◌, ◌++◌, map, if◌then◌else◌,
  or_else,
}
use mylo_ware.Storage.Runs
use mylo_ware.Storage.Runs.{Run, status_text, error_is, find_by_status_and_age}
use mylo_ware.Storage.Runs.Status.{RunStatus, awaiting_video_generation, awaiting_render, value}

-- `AWAITING_STATUSES`
abbrev pub awaiting_statuses : List RunStatus
awaiting_statuses = awaiting_video_generation ∷ awaiting_render ∷ []

abbrev minute : ℕ
minute = 60000000

unfoldable pub cutoff : ℕ → ℕ → ℕ
cutoff timeout_minutes now = now - timeout_minutes * minute

unfoldable pub stuck_minutes : ℕ → Run → ℕ
stuck_minutes later r = (later - or_else r.updated_at r.created_at) / minute

-- An entry of the report of `get_stuck_runs`.
pub record StuckRun : Type 0 where
  pub id : ℕ
  pub status : RunStatus
  pub updated_at : ℕ
  pub stuck_for_minutes : ℕ

unfoldable pub report : ℕ → Run → StuckRun
unfolding stuck_minutes
report later r = record {
  id = r.id;
  status = r.status;
  updated_at = or_else r.updated_at r.created_at;
  stuck_for_minutes = stuck_minutes later r;
}

reports : ℕ → ℕ → List RunStatus → List Run → List StuckRun
unfolding find_by_status_and_age report
reports older_than later [] runs = []
reports older_than later (s ∷ ss) runs =
    map (report later) (find_by_status_and_age s older_than runs)
    ++ reports older_than later ss runs

unfoldable pub get_stuck_runs : ℕ → ℕ → ℕ → List Run → List StuckRun
unfolding reports cutoff
get_stuck_runs timeout_minutes now later runs =
    reports (cutoff timeout_minutes now) later awaiting_statuses runs

-- The error of a timed out run.
unfoldable pub timeout_message : (ℕ → String) → ℕ → Run → String
unfolding stuck_minutes
timeout_message str later r = text_append "Run timed out after " (
    text_append (str (stuck_minutes later r)) (
      text_append " minutes waiting in " (
        text_append (value r.status) ". External service webhook may have been missed or failed.")))

-- The update of one run, and of the runs of one query.
unfoldable pub time_out_run : (ℕ → String) → ℕ → Run → List Run → List Run
unfolding Runs.update timeout_message
time_out_run str later r runs =
    (Runs.update r.id (status_text "failed" ∷ error_is (some (timeout_message str later r)) ∷ [])
      later runs).1

unfoldable pub time_out_all : (ℕ → String) → ℕ → List Run → List Run → List Run
unfolding time_out_run
time_out_all str later [] runs = runs
time_out_all str later (r ∷ rs) runs = time_out_all str later rs (time_out_run str later r runs)

-- The loop over the statuses: the ids, and the table.
unfoldable pub time_out_statuses :
    (ℕ → String) → Bool → ℕ → ℕ → List RunStatus → List Run → List ℕ × List Run
unfolding find_by_status_and_age time_out_all
time_out_statuses str dry_run older_than later [] runs = ([], runs)
time_out_statuses str dry_run older_than later (s ∷ ss) runs =
    let found = find_by_status_and_age s older_than runs in
    let (ids, after) =
      time_out_statuses str dry_run older_than later ss
        (if dry_run then runs else time_out_all str later found runs) in
    (map (λ (r : Run). r.id) found ++ ids, after)

-- `timeout_stuck_runs`
unfoldable pub timeout_stuck_runs : (ℕ → String) → ℕ → Bool → ℕ → ℕ → List Run → List ℕ × List Run
unfolding time_out_statuses cutoff
timeout_stuck_runs str timeout_minutes dry_run now later runs =
    time_out_statuses str dry_run (cutoff timeout_minutes now) later awaiting_statuses runs
