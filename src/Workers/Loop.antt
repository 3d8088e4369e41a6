-- ===== src/Workers/Loop.antt =====
-- `run_worker(once=True)` and `_run_claimed` of src/myloware/workers/worker.py.
use mylo_ware.Common.{ℕ, Option, none, some, List, [], ◌∷◌}
use mylo_ware.Storage.Jobs.{Job, claim_postgres, mark_failed}
use mylo_ware.Workers.Session.{Tables}
use mylo_ware.Workers.Process.{
  Ending, finished, crashed, cancelled, Environment, Handler, process_one_job,
}

abbrev pub continue_with : Handler → Environment → Tables → Option Job → List Job → Ending
continue_with handle_job env t none jobs = finished (record t { jobs = jobs })
continue_with handle_job env t (some j) jobs =
    process_one_job handle_job env j.id (record t { jobs = jobs })

-- One job: the claim (`_claim_job`), on Postgres, and then the job, if there was one. An exception
-- goes on up to the operator.
unfoldable pub run_once : Handler → Environment → Tables → Ending
unfolding claim_postgres process_one_job
run_once handle_job env t =
    let (claimed, jobs) = claim_postgres [] env.worker_id env.now env.lease t.jobs in
    continue_with handle_job env t claimed jobs

-- `_run_claimed`: an exception that the worker did not handle fails the job with the plain delay,
-- from what was committed before; a cancellation goes on up.
unfoldable pub run_claimed : ℕ → ℕ → ℕ → Ending → Option Tables
unfolding mark_failed
run_claimed i base now (finished t) = some t
run_claimed i base now (crashed error committed) =
    some (record committed { jobs = (mark_failed i error now base committed.jobs).1 })
run_claimed i base now cancelled = none

-- What the next worker finds, if the last one did not stop on a cancellation.
abbrev pub stored : Tables → Ending → Tables
stored t (finished t') = t'
stored t (crashed error committed) = committed
stored t cancelled = t

abbrev pub run_if_claimed : Handler → Environment → Tables → Option Job → List Job → Option Tables
run_if_claimed handle_job env t none jobs = some (record t { jobs = jobs })
run_if_claimed handle_job env t (some j) jobs =
    run_claimed j.id env.base_delay env.now
      (process_one_job handle_job env j.id (record t { jobs = jobs }))

-- One turn of the loop of `run_worker`: the claim, on Postgres, and `_run_claimed`.
unfoldable pub turn : Handler → Environment → Tables → Option Tables
unfolding claim_postgres run_claimed process_one_job
turn handle_job env t =
    let (claimed, jobs) = claim_postgres [] env.worker_id env.now env.lease t.jobs in
    run_if_claimed handle_job env t claimed jobs

-- One turn after the other, each to its end before the next one starts, unless one is cancelled.
unfoldable pub run_each : Handler → List Environment → Tables → Option Tables
unfolding turn
run_each handle_job [] t = some t
run_each handle_job (env ∷ envs) t = elim (turn handle_job env t) [
  | none ↦ none
  | some t' ↦ run_each handle_job envs t'
]
