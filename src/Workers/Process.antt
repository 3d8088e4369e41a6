-- ===== src/Workers/Process.antt =====
-- `_process_one_job` of src/myloware/workers/worker.py, on the tables of the database.
--
-- `handle_job` is an argument: how it ends, and what it makes of the job's session, in which it may
-- commit. The heartbeat commits in sessions of its own while the handler runs: the times of its
-- beats are an argument too, and they count as made before the handler starts. Where the handler
-- fails, its session is rolled back to what was committed. A rollback that ends a transaction
-- expires the objects of the session, and the next read of `job.attempts` raises `MissingGreenlet`:
-- SQLAlchemy documents both. `mark_failed_async` loads the job again, so a reschedule is not affected.
use mylo_ware.Common.{
  ℕ, ◌*◌, max, String, Bool, true, false, ◌&&◌, Option, none, some, List, [], ◌∷◌, if◌then◌else◌,
  is_some,
}
use mylo_ware.Common.Rows.{first_where}
use mylo_ware.Common.Text.{codes, starts_with, ends_with}
use mylo_ware.Common.Json.{Json, Fields}
use mylo_ware.Storage.Jobs.{
  Job, JobStatus, failed, has_id, touch_lease, mark_succeeded, mark_failed,
}
use mylo_ware.Workers.Session.{Tables, Session, Outcome, done, reschedule, raised, fresh}
use mylo_ware.Storage.DeadLetters
use mylo_ware.Storage.DeadLetters.{DeadLetter}

-- One heartbeat each, of the worker that runs the job.
unfoldable pub beats : ℕ → String → ℕ → List ℕ → List Job → List Job
beats i w lease [] jobs = jobs
beats i w lease (t ∷ ts) jobs = beats i w lease ts (touch_lease i w t lease jobs)

-- Whether a job that failed for good is written to the dead letters.
unfoldable pub is_webhook : Job → Bool
unfolding starts_with
is_webhook j = starts_with (codes j.job_type) (codes "webhook.") && is_some j.run_id

unfoldable pub webhook_source : Job → String
unfolding ends_with
webhook_source j = if ends_with (codes j.job_type) (codes "sora") then "sora" else "remotion"

-- The payload of the letter: {"job_type": ..., "payload": ...}.
unfoldable pub letter_payload : Job → Json
letter_payload j = Json.obj (
    Fields.field "job_type" (Json.str j.job_type)
      (Fields.field "payload" (Json.obj j.payload) Fields.end))

-- `dlq_repo.create_async`, under the `try`: `stored` says whether the insert went through.
unfoldable pub dead_letter : Bool → ℕ → ℕ → String → Job → List DeadLetter → List DeadLetter
unfolding is_webhook webhook_source letter_payload DeadLetters.create
dead_letter stored letter_id now error j letters =
    if is_webhook j && stored
    then (DeadLetters.create letter_id (webhook_source j) (elim j.run_id [ none ↦ 0 | some r ↦ r ])
        (letter_payload j) (some error) j.attempts now letters).1
    else letters

-- The failure of a job that is not rescheduled: the delay grows with the attempts.
unfoldable pub retry_delay : ℕ → ℕ → ℕ
retry_delay base attempts = base * max 1 attempts

abbrev pub is_failed : JobStatus → Bool
is_failed failed = true
is_failed _ = false

unfoldable pub fail_job : Bool → ℕ → ℕ → ℕ → String → Job → Tables → Tables
unfolding retry_delay dead_letter mark_failed
fail_job stored letter_id base now error j t =
    let (status, jobs) = mark_failed j.id error now (retry_delay base j.attempts) t.jobs in
    record t {
      jobs = jobs;
      letters =
          if is_failed status
          then dead_letter stored letter_id now error j t.letters
          else t.letters;
    }

-- What the parameters of one run of a job are.
pub record Environment : Type 0 where
  pub worker_id : String
  pub lease : ℕ
  pub base_delay : ℕ
  pub beat_times : List ℕ
  pub now : ℕ
  pub letter_id : ℕ
  pub letter_stored : Bool
  -- the text of `MissingGreenlet`
  pub expired_message : String

-- How `_process_one_job` ends, seen from its callers: what is committed; or an exception that it
-- did not handle, with what was committed before; or a cancellation.
pub data Ending : Type 0 where
  finished : Tables → Ending
  crashed : String → Tables → Ending
  cancelled : Ending

-- A handler returned. In a session that needs a rollback, `mark_succeeded_async` raises.
abbrev settle_done : Environment → Job → Option String → Session → Ending
settle_done env j none s =
    finished (record s.tables { jobs = mark_succeeded j.id env.now s.tables.jobs })
settle_done env j (some message) s = crashed message s.committed

-- A handler raised: after the rollback of a transaction, `job.attempts` cannot be read any more.
abbrev settle_raised : Environment → Job → String → Bool → Tables → Ending
settle_raised env j error true committed = crashed env.expired_message committed
settle_raised env j error false committed =
    finished (fail_job env.letter_stored env.letter_id env.base_delay env.now error j committed)

-- The outcome of the handler, put on record: the session is committed, or rolled back.
unfoldable pub settle : Environment → Job → Outcome → Session → Ending
unfolding fail_job mark_succeeded mark_failed
settle env j done s = settle_done env j s.broken s
settle env j (reschedule delay reason) s =
    finished
      (record s.committed { jobs = (mark_failed j.id reason env.now delay s.committed.jobs).1 })
settle env j (raised error) s = settle_raised env j error s.in_transaction s.committed

abbrev pub Handler : Type 0
Handler = Job → Session → Outcome × Session

-- `_process_one_job`: a job that is not there is passed over.
unfoldable pub process_one_job : Handler → Environment → ℕ → Tables → Ending
unfolding beats settle fresh
process_one_job handle_job env i t = elim (first_where (has_id i) t.jobs) [
  | none ↦ finished t
  | some j ↦
      let before = record t { jobs = beats i env.worker_id env.lease env.beat_times t.jobs } in
      let (outcome, after) = handle_job j (fresh before) in settle env j outcome after
]
