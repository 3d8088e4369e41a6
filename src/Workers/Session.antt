-- ===== src/Workers/Session.antt =====
-- The database session that `_process_one_job` of src/myloware/workers/worker.py gives to a handler,
-- as the handlers of src/myloware/workers/handlers.py use it.
--
-- A session shows its own writes at once; `commit` makes them last. After a flush that failed, the
-- transaction is rolled back, and each statement raises `PendingRollbackError` until the session is
-- rolled back: SQLAlchemy documents both. A statement begins a transaction where none is open, and
-- `commit` ends it.
pub mod Preserves
pub mod After
pub mod Steps
use mylo_ware.Common.{ℕ, String, Bool, true, false, Option, none, some, ◌⊎◌, inl, inr, List}
use mylo_ware.Storage.Jobs.{Job, NewJob, enqueue}
use mylo_ware.Storage.DeadLetters.{DeadLetter}
use mylo_ware.Storage.Runs.{Run}
use mylo_ware.Storage.Artifacts.{Artifact}

pub record Tables : Type 0 where
  pub jobs : List Job
  pub letters : List DeadLetter
  pub runs : List Run
  pub artifacts : List Artifact

-- How a handler ends: it returned, it raised `JobReschedule` (its delay, its reason), or it raised.
pub data Outcome : Type 0 where
  done : Outcome
  reschedule : ℕ → String → Outcome
  raised : String → Outcome

-- `tables` is what the session shows, `committed` what a rollback leaves, `broken` the message of the
-- exception that a statement raises after a failed flush, `in_transaction` whether one is open.
pub record Session : Type 0 where
  pub tables : Tables
  pub committed : Tables
  pub broken : Option String
  pub in_transaction : Bool

abbrev pub begun : Session → Session
begun s = record s { in_transaction = true }

-- The session after the SELECT of the job.
unfoldable pub fresh : Tables → Session
fresh t = record { tables = t; committed = t; broken = none; in_transaction = true }

-- A statement of a handler: the handler goes on with a value, or ends.
pub data Flow (A : Type 0) : Type 0 where
  go : A → Flow A
  stop : Outcome → Flow A

abbrev pub Exec : Type 0 → Type 0
Exec A = Session → Flow A × Session

module _ {A : Type 0} where
  unfoldable pub pure : A → Exec A
  pure a s = (go a, s)

  unfoldable pub end_with : Outcome → Exec A
  end_with o s = (stop o, s)

  abbrev pub flow_of : Option String → A → Flow A
  flow_of none a = go a
  flow_of (some message) a = stop (raised message)

  -- A SELECT.
  unfoldable pub select_from : (Tables → A) → Exec A
  select_from f s = (flow_of s.broken (f s.tables), begun s)

  -- A call that returns a value or raises, and does not use the session.
  abbrev answered : String ⊎ A → Flow A
  answered (inl message) = stop (raised message)
  answered (inr a) = go a

  unfoldable pub attempt : String ⊎ A → Exec A
  attempt r s = (answered r, s)

  -- The statements of a handler in a session of its own: one that comes to its end has returned.
  abbrev outcome_of : Flow A → Outcome
  outcome_of (go a) = done
  outcome_of (stop o) = o

  unfoldable pub run_handler : Exec A → Session → Outcome × Session
  run_handler m s = let (r, s') = m s in (outcome_of r, s')

module _ {A B : Type 0} where
  abbrev pub continue : Flow A → (A → Exec B) → Exec B
  continue (go a) f s = f a s
  continue (stop o) f s = (stop o, s)

  infixl 10 ◌>>=◌ ◌>>◌
  -- unfolding this unfolds the statements above too
  unfoldable pub ◌>>=◌ : Exec A → (A → Exec B) → Exec B
  unfolding pure end_with select_from attempt
  ◌>>=◌ m f s = let (r, s') = m s in continue r f s'

  abbrev pub ◌>>◌ : Exec A → Exec B → Exec B
  m >> n = m >>= λ _. n

abbrev pub written : Option String → (Tables → Tables) → Session → Flow Unit × Session
written none f s = (go tt, record s { tables = f s.tables; in_transaction = true })
written (some message) f s = (stop (raised message), s)

-- An INSERT or an UPDATE.
unfoldable pub write : (Tables → Tables) → Exec Unit
write f s = written s.broken f s

abbrev pub committing : Option String → Session → Flow Unit × Session
committing none s = (go tt, record s { committed = s.tables; in_transaction = false })
committing (some message) s = (stop (raised message), s)

-- `session.commit()`
unfoldable pub commit : Exec Unit
commit s = committing s.broken s

abbrev pub enqueueing : Option String → String → Option (List Job) → Session → Flow Unit × Session
enqueueing none message (some jobs) s =
    (go tt, record s { tables = record s.tables { jobs = jobs }; in_transaction = true })
enqueueing none message none s =
    (go tt, record s { tables = s.committed; broken = some message; in_transaction = true })
enqueueing (some raised_before) message jobs s = (stop (raised raised_before), s)

-- `enqueue_async`, under a `try` that passes over its ValueError: `message` is that of the
-- `PendingRollbackError` which each later statement raises.
unfoldable pub try_enqueue : String → NewJob → ℕ → Exec Unit
unfolding enqueue
try_enqueue message n now s = enqueueing s.broken message (enqueue n now s.tables.jobs) s

-- A call of code that works in sessions of its own and commits them, from a handler that has not
-- written anything: what it made of the tables, which this session shows when it reads again, and
-- the message of what it raised.
abbrev after_call : Option String → Flow Unit
after_call none = go tt
after_call (some message) = stop (raised message)

unfoldable pub call : (Tables → Option String × Tables) → Exec Unit
call f s =
    let (problem, t) = f s.committed in (after_call problem, record s { tables = t; committed = t })

-- `raise ValueError(message)` where there is no value.
abbrev pub or_raise {ℓ} : {A : Type ℓ} → String → Option A → String ⊎ A
or_raise message none = inl message
or_raise message (some a) = inr a
