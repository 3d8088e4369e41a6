-- ===== src/Tests/JobWorker.antt =====
-- A worker of src/myloware/workers/worker.py that runs a failing webhook job.
use mylo_ware.Common.{false, ℕ, ◌≡◌, refl, true, [], ◌∷◌}
use mylo_ware.Common.Rows.{first_where}
use mylo_ware.Storage.Jobs.{Job, running}
use mylo_ware.Workers.Session.{Tables, Session, Outcome, raised, fresh}
use mylo_ware.Workers.Process.{Environment, process_one_job}
use mylo_ware.Workers.Laws.{process_one_job_rolls_back}
use mylo_ware.Tests.JobTable.{execute_job}

abbrev webhook_job : Job
webhook_job = record execute_job { job_type = "webhook.sora"; max_attempts = 2 }

-- The worker `w1` at a time; the letter it may write has id 9.
abbrev pub at_time : ℕ → Environment
at_time t = record {
  worker_id = "w1";
  lease = 60;
  base_delay = 5;
  beat_times = t ∷ [];
  now = t;
  letter_id = 9;
  letter_stored = true;
  expired_message = "greenlet_spawn has not been called";
}

abbrev tables : Tables
tables = record { jobs = webhook_job ∷ []; letters = []; runs = []; artifacts = [] }

abbrev raise_at_once : Job → Session → Outcome × Session
raise_at_once j s = (raised "timeout", s)

-- It loses all jobs that the session shows, and then raises.
abbrev raise_late : Job → Session → Outcome × Session
raise_late j s = (raised "timeout", record s { tables = record s.tables { jobs = [] } })

process_one_job_rolls_back_example :
    process_one_job raise_at_once (at_time 100) 1 tables
    ≡ process_one_job raise_late (at_time 100) 1 tables
process_one_job_rolls_back_example =
    process_one_job_rolls_back raise_at_once raise_late (at_time 100) 1 tables {j = webhook_job}
      (raised "timeout") (unfold first_where in refl) refl refl refl refl (λ p. absurd (cc))

abbrev last_attempt : Job
last_attempt = record webhook_job { status = running; attempts = 2 }

abbrev last_tables : Tables
last_tables = record { jobs = last_attempt ∷ []; letters = []; runs = []; artifacts = [] }

-- The handler committed last.
abbrev committed_session : Session
committed_session = record (fresh last_tables) { in_transaction = false }
