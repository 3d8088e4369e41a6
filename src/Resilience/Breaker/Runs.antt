-- ===== src/Resilience/Breaker/Runs.antt =====
-- Sequences of calls through a circuit breaker.
use mathlib.Core.Path.{ap₂}
use mylo_ware.Common.{
  sym, ◌∙◌, ℕ, suc, ◌+◌, ◌<◌, ◌≤◌, ◌≡◌, ◌≢◌, refl, none, some, List, [], ◌∷◌, arith, All, length,
  leb, if◌then◌else◌,
}
use mylo_ware.Resilience.Breaker.{
  CircuitState, closed, open_state, half_open, Breaker, Answer, returned, raised, cancelled, Reply,
  answer, rejected, Attempt, read_state, call, calls,
}
use mylo_ware.Resilience.Breaker.Invariant.{IsValid, call-IsValid}

pub calls-IsValid : (cs : List Attempt) (b : Breaker) → IsValid b → IsValid (calls cs b).0
unfolding calls
calls-IsValid [] b v = v
calls-IsValid (c ∷ cs) b v =
    calls-IsValid cs (call c.answers c.start c.now b).0 (call-IsValid c.answers c.start c.now b v)

abbrev pub Raises : Attempt → Type 0
Raises c = c.answers ≡ raised

-- The state and the count after failures of a closed breaker.
abbrev opened_at : ℕ → ℕ → CircuitState
opened_at threshold count = if leb threshold count then open_state else closed

abbrev pub Ran : Reply → Type 0
Ran r = r ≢ rejected

-- The breaker after one attempt, and the reply.
abbrev after : Attempt → Breaker → Breaker
after c b = (call c.answers c.start c.now b).0

abbrev reply : Attempt → Breaker → Reply
reply c b = (call c.answers c.start c.now b).1

closed_raise :
    (c : Attempt) (b : Breaker)
    → Raises c
    → b.state ≡ closed
    → ((after c b).state ≡ opened_at b.failure_threshold (b.failure_count + 1))
      × ((after c b).failure_count ≡ b.failure_count + 1)
      × ((after c b).failure_threshold ≡ b.failure_threshold)
      × Ran (reply c b)
unfolding call
closed_raise c b h cl = ground arith

open_reject :
    (c : Attempt) (b : Breaker) (t : ℕ)
    → b.state ≡ open_state
    → b.last_failure_time ≡ some t
    → c.start < t + b.recovery_timeout
    → (after c b ≡ b) × (reply c b ≡ rejected)
unfolding call
open_reject c b t o l h = ground arith

-- Failures in a row through a closed breaker, no more than it can take: each of them reaches the
-- function, and the breaker opens exactly with the one that makes the count reach the threshold.
pub opens_at_threshold :
    (cs : List Attempt) (b : Breaker)
    → IsValid b
    → b.state ≡ closed
    → All Raises cs
    → b.failure_count + length cs ≤ b.failure_threshold
    → ((calls cs b).0.state ≡ opened_at b.failure_threshold (b.failure_count + length cs))
      × All Ran (calls cs b).1
unfolding calls
opens_at_threshold [] b v c h le = (ground (arith, v.closed_below c), tt)
opens_at_threshold (a ∷ []) b v c h le =
    let (st, ct, th, ran) = closed_raise a b h.0 c in (st, (ran, tt))
opens_at_threshold (a ∷ a' ∷ cs) b v c h le =
    let (st, ct, th, ran) = closed_raise a b h.0 c in
    let still : (after a b).state ≡ closed = ground arith in
    let rest =
      opens_at_threshold (a' ∷ cs) (after a b) (call-IsValid a.answers a.start a.now b v) still h.1
        (omega (arith, ct, th)) in
    let goal : b.failure_count + suc (suc (length cs))
        ≡ (after a b).failure_count + suc (length cs) =
      omega (arith, ct) in
    (rest.0 ∙ ap₂ opened_at th (sym goal), (ran, rest.1))

-- An open breaker, before its timeout is over, rejects every call and does not change.
pub open_rejects :
    (cs : List Attempt) (b : Breaker) (t : ℕ)
    → b.state ≡ open_state
    → b.last_failure_time ≡ some t
    → All (λ c. c.start < t + b.recovery_timeout) cs
    → ((calls cs b).0 ≡ b) × All (λ r. r ≡ rejected) (calls cs b).1
unfolding calls
open_rejects [] b t o l h = (refl, tt)
open_rejects (c ∷ cs) b t o l h =
    let (same, rej) = open_reject c b t o l h.0 in
    let rest = open_rejects cs b t o l h.1 in rw same (rest.0, (rej, rest.1))

abbrev decided : Answer → CircuitState
decided returned = closed
decided _ = open_state

-- Once the timeout of an open breaker is over and probes are allowed, the next call reaches the
-- function. If that returns, the breaker is closed, with no failure on its count and none dated; if it
-- raises, the breaker is open again, with one more failure on its count, dated now.
probe_decides :
    (a : Answer) (start now : ℕ) (b : Breaker) (t : ℕ)
    → b.state ≡ open_state
    → b.last_failure_time ≡ some t
    → 0 < t
    → t + b.recovery_timeout ≤ start
    → 0 < b.half_open_max_calls
    → a ≢ cancelled
    → let b' = (call a start now b).0 in
      ((call a start now b).1 ≡ answer a)
      × (b'.state ≡ decided a)
      × (b'.failure_count ≡ elim a [ returned ↦ 0 | _ ↦ b.failure_count + 1 ])
      × (b'.last_failure_time ≡ elim a [ returned ↦ none | _ ↦ some now ])
unfolding call
probe_decides returned start now b t o l pos le max nc = ground arith
probe_decides raised start now b t o l pos le max nc = ground arith
probe_decides cancelled start now b t o l pos le max nc = absurd (nc refl)

-- Between calls of which none was cancelled, a half-open breaker has no probe on its count.
abbrev NoProbes : Breaker → Type 0
NoProbes b = (b.state ≡ half_open → ⊥) × (b.state ≡ closed → b.half_open_calls ≡ 0)

abbrev pub Answers : Attempt → Type 0
Answers c = c.answers ≢ cancelled

after-NoProbes :
    (c : Attempt) (b : Breaker)
    → Answers c
    → 0 < b.half_open_max_calls
    → NoProbes b
    → NoProbes (after c b)
unfolding call
after-NoProbes c b h max n = ground arith

max_calls_kept :
    (c : Attempt) (b : Breaker) → (after c b).half_open_max_calls ≡ b.half_open_max_calls
unfolding call
max_calls_kept c b = ground arith

reach_function :
    (c : Attempt) (b : Breaker)
    → 0 < b.half_open_max_calls
    → NoProbes b
    → (read_state c.start b).state ≢ open_state
    → reply c b ≡ answer c.answers
unfolding call read_state
reach_function c b max n o = ground arith

-- Where probes are allowed and no call was cancelled, a call is turned away only by an open
-- breaker: the limit on the probes is never met.
pub only_open_rejects :
    (cs : List Attempt) (c : Attempt) (b : Breaker)
    → 0 < b.half_open_max_calls
    → b.state ≢ half_open
    → (b.state ≡ closed → b.half_open_calls ≡ 0)
    → All Answers cs
    → (read_state c.start (calls cs b).0).state ≢ open_state
    → reply c (calls cs b).0 ≡ answer c.answers
unfolding calls
only_open_rejects [] c b max nh nc h o = reach_function c b max (nh, nc) o
only_open_rejects (a ∷ cs) c b max nh nc h o =
    let (nh', nc') = after-NoProbes a b h.0 max (nh, nc) in
    only_open_rejects cs c (after a b) (rw (max_calls_kept a b) max) nh' nc' h.1 o

abbrev pub Cancels : Attempt → Type 0
Cancels a = a.answers ≡ cancelled

cancelled_probe :
    (a : Attempt) (b : Breaker)
    → Cancels a
    → b.state ≡ half_open
    → b.half_open_calls < b.half_open_max_calls
    → ((after a b).state ≡ half_open)
      × ((after a b).half_open_calls ≡ b.half_open_calls + 1)
      × ((after a b).half_open_max_calls ≡ b.half_open_max_calls)
unfolding call
cancelled_probe a b h st lt = ground arith

probes_spent :
    (c : Attempt) (b : Breaker)
    → b.state ≡ half_open
    → b.half_open_calls ≡ b.half_open_max_calls
    → (reply c b ≡ rejected) × ((after c b).state ≡ open_state)
unfolding call
probes_spent c b h e = ground arith

-- Cancelled probes stay on the count: once as many were cancelled as are allowed, the next call,
-- with nothing wrong, is turned away and opens the breaker again.
pub cancelled_probes_use_up :
    (c : Attempt) (cs : List Attempt) (b : Breaker)
    → b.state ≡ half_open
    → All Cancels cs
    → b.half_open_calls + length cs ≡ b.half_open_max_calls
    → (reply c (calls cs b).0 ≡ rejected) × ((after c (calls cs b).0).state ≡ open_state)
unfolding calls
cancelled_probes_use_up c [] b h all full = probes_spent c b h (omega arith)
cancelled_probes_use_up c (a ∷ cs) b h all full =
    let (st, ct, mx) = cancelled_probe a b all.0 h (omega arith) in
    cancelled_probes_use_up c cs (after a b) st all.1 (omega (arith, ct, mx))
