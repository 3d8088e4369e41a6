-- ===== src/Workers/Laws.antt =====
-- What a worker promises of the job that it runs.
use mylo_ware.Common.{
  ℕ, ◌+◌, ◌*◌, ◌<◌, ◌≤◌, max, String, ◌≡◌, ◌≢◌, refl, none, some, List, [], ◌∷◌, arith, leb,
  if◌then◌else◌,
}
use mylo_ware.Common.Rows.{first_where}
use mylo_ware.Storage.Jobs.{Job, JobStatus, pending, failed, has_id, held_by}
use mylo_ware.Storage.DeadLetters
use mylo_ware.Storage.DeadLetters.{DeadLetter}
use mylo_ware.Workers.Session.{Tables, Session, Outcome, done, reschedule, raised, fresh}
use mylo_ware.Workers.Process.{
  Handler, Ending, finished, crashed, cancelled, beats, webhook_source, letter_payload, Environment,
  settle, process_one_job,
}

-- The session of the job when the handler starts.
abbrev started : Environment → ℕ → Tables → Session
started env i t = fresh (record t { jobs = beats i env.worker_id env.lease env.beat_times t.jobs })

-- A failing or rescheduling handler leaves no trace but its outcome and what it committed: two
-- handlers that end in the same exception on the job, with the same tables committed, and both with a
-- transaction open or both with none, leave the same tables, whatever else they wrote before.
pub process_one_job_rolls_back :
    (h h' : Handler) (env : Environment) (i : ℕ) (t : Tables) {j : Job} (o : Outcome)
    → first_where (has_id i) t.jobs ≡ some j
    → (h j (started env i t)).0 ≡ o
    → (h' j (started env i t)).0 ≡ o
    → (h j (started env i t)).1.committed ≡ (h' j (started env i t)).1.committed
    → (h j (started env i t)).1.in_transaction ≡ (h' j (started env i t)).1.in_transaction
    → o ≢ done
    → process_one_job h env i t ≡ process_one_job h' env i t
unfolding process_one_job settle
process_one_job_rolls_back h h' env i t done found p q c k o = absurd (o refl)
process_one_job_rolls_back h h' env i t (reschedule d r) found p q c k o =
    ground (arith, found, p, q, c)
process_one_job_rolls_back h h' env i t (raised e) found p q c k o =
    ground (arith, found, p, q, c, k)

-- The letter of a job that failed for good.
abbrev pub letter_of : Environment → Job → String → DeadLetter
letter_of env j error = record {
  id = env.letter_id;
  source = webhook_source j;
  run_id = elim j.run_id [ none ↦ 0 | some r ↦ r ];
  payload = letter_payload j;
  error = some error;
  attempts = j.attempts;
  created_at = env.now;
  last_attempt_at = some env.now;
  resolved_at = none;
}

abbrev pub ending_letters : Ending → List DeadLetter
ending_letters (finished t) = t.letters
ending_letters (crashed error t) = t.letters
ending_letters cancelled = []

-- A job that a worker may claim at `now`.
pub record IsWaiting (now : ℕ) (j : Job) : Type 0 where
  pub is_pending : j.status ≡ pending
  pub no_lease : j.lease_expires_at ≡ none
  pub due : j.available_at ≤ now

-- The columns that decide what becomes of a failing job.
pub record SameJob (a b : Job) : Type 0 where
  pub id : a.id ≡ b.id
  pub attempts : a.attempts ≡ b.attempts
  pub max_attempts : a.max_attempts ≡ b.max_attempts

touched : String → ℕ → ℕ → ℕ → Job → Job
touched w i t lease j =
    if held_by i w j then record j { lease_expires_at = some (t + lease); updated_at = t } else j

-- The status and the time to run again after one more failed attempt.
abbrev status_after : ℕ → ℕ → JobStatus
status_after max_attempts attempts = if leb max_attempts attempts then failed else pending

abbrev next_time : Environment → ℕ → ℕ
next_time env attempts = env.now + env.base_delay * max 1 attempts

abbrev Failed : Environment → Job → Job → Type 0
Failed env j j' =
    (j'.status ≡ status_after j.max_attempts j.attempts)
    × (j'.attempts ≡ j.attempts)
    × (j'.max_attempts ≡ j.max_attempts)
    × (j'.lease_expires_at ≡ none)
    × (j.attempts < j.max_attempts → j'.available_at ≤ next_time env j.attempts)

-- The handler raises, on every job and in every session, and has committed nothing.
abbrev pub AlwaysRaises : Handler → Type 0
AlwaysRaises h =
    (j : Job) (s : Session)
    → (error : String) × ((h j s).0 ≡ raised error) × ((h j s).1.committed ≡ s.committed)

-- Each worker comes when the job may run again.
abbrev pub OnTime : List Environment → ℕ → ℕ → Type 0
OnTime [] due attempts = Unit
OnTime (env ∷ envs) due attempts =
    (due ≤ env.now) × OnTime envs (next_time env (attempts + 1)) (attempts + 1)
