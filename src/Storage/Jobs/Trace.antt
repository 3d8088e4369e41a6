-- ===== src/Storage/Jobs/Trace.antt =====
-- The job table under any sequence of the repository's operations, by any number of workers. Each
-- operation is one committed transaction.
use mylo_ware.Common.{ℕ, String, Option, none, some, List, [], ◌∷◌}
use mylo_ware.Storage.Jobs.{
  Job, NewJob, enqueue, claim_postgres, claim_portable, touch_lease, mark_succeeded, mark_failed,
}

pub data Op : Type 0 where
  -- the new row, the time
  add : NewJob → ℕ → Op
  -- rows locked by others, the worker, the time, the lease
  claim : List ℕ → String → ℕ → ℕ → Op
  -- rows that the SELECT saw, the worker, the time, the lease
  claim_old : List Job → String → ℕ → ℕ → Op
  -- the job, the worker, the time, the lease
  touch : ℕ → String → ℕ → ℕ → Op
  -- the job, the time
  succeed : ℕ → ℕ → Op
  -- the job, the error, the time, the delay
  fail : ℕ → String → ℕ → ℕ → Op

abbrev pub kept : List Job → Option (List Job) → List Job
kept jobs none = jobs
kept jobs (some jobs') = jobs'

unfoldable pub apply : Op → List Job → List Job
apply (add n now) jobs = kept jobs (enqueue n now jobs)
apply (claim locked w now lease) jobs = (claim_postgres locked w now lease jobs).1
apply (claim_old seen w now lease) jobs = (claim_portable seen w now lease jobs).1
apply (touch i w now lease) jobs = touch_lease i w now lease jobs
apply (succeed i now) jobs = mark_succeeded i now jobs
apply (fail i error now delay) jobs = (mark_failed i error now delay jobs).1

unfoldable pub run : List Op → List Job → List Job
unfolding apply
run [] jobs = jobs
run (o ∷ ops) jobs = run ops (apply o jobs)
