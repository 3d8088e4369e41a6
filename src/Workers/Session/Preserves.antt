-- ===== src/Workers/Session/Preserves.antt =====
-- Invariants of the statements of a handler, one rule for each way to build them.
use mylo_ware.Common.{ℕ, String, Bool, true, false, Option, none, some, List, if◌then◌else◌, ◌⊎◌}
use mylo_ware.Storage.Jobs.{Job, NewJob, enqueue}
use mylo_ware.Workers.Session.{
  Tables, Session, Exec, Flow, go, stop, Outcome, pure, end_with, select_from, attempt, ◌>>=◌,
  write, commit, try_enqueue, call, continue, enqueueing, written, committing, run_handler,
}

-- Where `P` holds of the session before the statement `m`, it holds after it, also if the handler ends.
pub record Preserves {A : Type 0} (P : Session → Type 0) (m : Exec A) : Type 0 where
  pub holds : {s : Session} → P s → P (m s).1

-- Statements that write nothing.
module _ {A : Type 0} {P : Session → Type 0} where
  pub Preserves-attempt : (r : String ⊎ A) → Preserves P (attempt r)
  unfolding attempt
  Preserves-attempt r = record { holds = λ h. h }

  pub Preserves-end_with : (o : Outcome) → Preserves P (end_with {A = A} o)
  unfolding end_with
  Preserves-end_with o = record { holds = λ h. h }

  pub Preserves-pure : (a : A) → Preserves P (pure a)
  unfolding pure
  Preserves-pure a = record { holds = λ h. h }

-- Both ways of a test, and a handler as a whole.
module _ {A : Type 0} {P : Session → Type 0} where
  choose :
      (test : Bool) {m n : Exec A}
      → Preserves P m
      → Preserves P n
      → Preserves P (if test then m else n)
  choose false k l = l
  choose true k l = k

  pub Preserves-if :
      (test : Bool) {m n : Exec A}
      → Preserves P m
      → Preserves P n
      → Preserves P (if test then m else n)
  Preserves-if test k l = choose test k l

  pub Preserves-run_handler :
      {m : Exec A} (s : Session) → Preserves P m → P s → P (run_handler m s).1
  unfolding run_handler
  Preserves-run_handler s k h = k.holds h

-- One statement after the other.
module _ {A B : Type 0} {P : Session → Type 0} where
  next_too :
      (flow : Flow A) {f : A → Exec B} (s : Session)
      → P s
      → ((a : A) → Preserves P (f a))
      → P (continue flow f s).1
  next_too (stop o) s h k = h
  next_too (go a) s h k = (k a).holds h

  pub Preserves-bind :
      {m : Exec A} {f : A → Exec B}
      → Preserves P m
      → ((a : A) → Preserves P (f a))
      → Preserves P (m >>= f)
  unfolding ◌>>=◌
  Preserves-bind {m} k l = record { holds = λ {s} h. next_too (m s).0 (m s).1 (k.holds h) l }

-- `Q` of what the session shows and of what is committed.
abbrev pub Both : (Tables → Type 0) → Session → Type 0
Both Q s = Q s.tables × Q s.committed

-- An enqueue writes to the table of jobs only.
abbrev pub JobsFree : (Tables → Type 0) → Type 0
JobsFree Q = (t : Tables) (jobs : List Job) → Q t → Q (record t { jobs = jobs })

module _ (Q : Tables → Type 0) where
  pub Preserves-select_from : {A : Type 0} (f : Tables → A) → Preserves (Both Q) (select_from f)
  unfolding select_from
  Preserves-select_from f = record { holds = λ h. h }

  keeps_written :
      (b : Option String) (f : Tables → Tables) (s : Session)
      → ((t : Tables) → Q t → Q (f t))
      → Both Q s
      → Both Q (written b f s).1
  keeps_written none f s k h = (k s.tables h.0, h.1)
  keeps_written (some message) f s k h = h

  pub Preserves-write :
      (f : Tables → Tables) → ((t : Tables) → Q t → Q (f t)) → Preserves (Both Q) (write f)
  unfolding write
  Preserves-write f k = record { holds = λ {s} h. keeps_written s.broken f s k h }

  keeps_committing : (b : Option String) (s : Session) → Both Q s → Both Q (committing b s).1
  keeps_committing none s h = (h.0, h.0)
  keeps_committing (some message) s h = h

  pub Preserves-commit : Preserves (Both Q) commit
  unfolding commit
  Preserves-commit = record { holds = λ {s} h. keeps_committing s.broken s h }

  keeps_enqueueing :
      (b : Option String) (message : String) (o : Option (List Job)) (s : Session)
      → JobsFree Q
      → Both Q s
      → Both Q (enqueueing b message o s).1
  keeps_enqueueing none message (some jobs) s free h = (free s.tables jobs h.0, h.1)
  keeps_enqueueing none message none s free h = (h.1, h.1)
  keeps_enqueueing (some m) message o s free h = h

  pub Preserves-try_enqueue :
      (message : String) (n : NewJob) (now : ℕ)
      → JobsFree Q
      → Preserves (Both Q) (try_enqueue message n now)
  unfolding try_enqueue
  Preserves-try_enqueue message n now free = record {
    holds = λ {s} h. keeps_enqueueing s.broken message (enqueue n now s.tables.jobs) s free h;
  }

  pub Preserves-call :
      (f : Tables → Option String × Tables)
      → ((t : Tables) → Q t → Q (f t).1)
      → Preserves (Both Q) (call f)
  unfolding call
  Preserves-call f k = record { holds = λ {s} h. (k s.committed h.1, k s.committed h.1) }

-- What `search` applies to the statements of a handler.
pub ruleset session_rules = (
  Preserves-bind, Preserves-if, Preserves-commit, Preserves-select_from, Preserves-attempt,
  Preserves-end_with, Preserves-pure,
)
