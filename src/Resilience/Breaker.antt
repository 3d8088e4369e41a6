-- ===== src/Resilience/Breaker.antt =====
-- `CircuitBreaker` of src/myloware/resilience/circuit_breaker.py. Times and timeouts are numbers of
-- one unit; a call is given the clock readings that it makes. Calls do not overlap.
pub mod Invariant
pub mod Runs
use mylo_ware.Common.{
  ℕ, ◌+◌, Bool, true, false, ◌&&◌, Option, none, some, List, [], ◌∷◌, leb, ◌==◌, if◌then◌else◌,
}

pub data CircuitState : Type 0 where
  closed open_state half_open : CircuitState

pub record Breaker : Type 0 where
  pub failure_threshold : ℕ
  pub recovery_timeout : ℕ
  pub half_open_max_calls : ℕ
  pub state : CircuitState
  pub failure_count : ℕ
  pub last_failure_time : Option ℕ
  pub half_open_calls : ℕ
  pub success_count : ℕ

-- What the protected function does. `cancelled` is an exception that is no `Exception`, such as
-- asyncio's `CancelledError`: `except Exception` does not see it.
pub data Answer : Type 0 where
  returned raised cancelled : Answer

-- What the caller gets: a `CircuitBreakerError` is `rejected`.
pub data Reply : Type 0 where
  answer : Answer → Reply
  rejected : Reply

-- `x or default`: 0 and None are replaced.
abbrev number_or : Option ℕ → ℕ → ℕ
number_or none d = d
number_or (some n) d = if n == 0 then d else n

-- `__init__`: the settings' values stand in for a missing or zero threshold and timeout.
unfoldable pub new : ℕ → ℕ → Option ℕ → Option ℕ → ℕ → Breaker
new threshold_setting timeout_setting failure_threshold recovery_timeout half_open_max_calls =
    record {
      failure_threshold = number_or failure_threshold threshold_setting;
      recovery_timeout = number_or recovery_timeout timeout_setting;
      half_open_max_calls = half_open_max_calls;
      state = closed;
      failure_count = 0;
      last_failure_time = none;
      half_open_calls = 0;
      success_count = 0;
    }

-- Whether `now - t >= timeout`, written without the subtraction; `self._last_failure_time` is false
-- at None and at 0.
abbrev recovered : Option ℕ → ℕ → ℕ → Bool
recovered none timeout now = false
recovered (some t) timeout now = (if t == 0 then false else true) && leb (t + timeout) now

-- The property `state`: reading it may move the breaker to half-open.
refresh : CircuitState → ℕ → Breaker → Breaker
refresh open_state now b =
    if recovered b.last_failure_time b.recovery_timeout now
    then record b { state = half_open; half_open_calls = 0; success_count = 0 }
    else b
refresh _ now b = b

unfoldable pub read_state : ℕ → Breaker → Breaker
unfolding refresh
read_state now b = refresh b.state now b

-- `_on_success`
success : CircuitState → Breaker → Breaker
success half_open b =
    let t = record b { success_count = b.success_count + 1 } in
    if leb 1 t.success_count
    then record t {
      state = closed;
      failure_count = 0;
      half_open_calls = 0;
      success_count = 0;
      last_failure_time = none;
    }
    else t
success _ b = record b { failure_count = 0 }

unfoldable pub on_success : Breaker → Breaker
unfolding success
on_success b = success b.state b

-- `_on_failure`
failure : CircuitState → Breaker → Breaker
failure half_open b = record b { state = open_state; half_open_calls = 0; success_count = 0 }
failure _ b = if leb b.failure_threshold b.failure_count then record b { state = open_state } else b

unfoldable pub on_failure : ℕ → Breaker → Breaker
unfolding failure
on_failure now b =
    failure b.state (record b { failure_count = b.failure_count + 1; last_failure_time = some now })

-- The function runs, and its outcome is recorded.
execute : Answer → ℕ → Breaker → Breaker × Reply
unfolding on_success on_failure
execute returned now b = (on_success b, answer returned)
execute raised now b = (on_failure now b, answer raised)
execute cancelled now b = (b, answer cancelled)

-- The guards of `call`, once the state has been read.
admit : CircuitState → Answer → ℕ → Breaker → Breaker × Reply
unfolding execute
admit open_state a now b = (b, rejected)
admit half_open a now b =
    if leb b.half_open_max_calls b.half_open_calls
    then (record b { state = open_state; last_failure_time = some now }, rejected)
    else execute a now (record b { half_open_calls = b.half_open_calls + 1 })
admit closed a now b = execute a now b

-- `call`: the clock reads `start` at the state check and `now` when a failure is recorded.
unfoldable pub call : Answer → ℕ → ℕ → Breaker → Breaker × Reply
unfolding read_state admit
call a start now b = let b' = read_state start b in admit b'.state a now b'

-- Calls one after the other: what each answers, and the two clock readings that it makes.
pub record Attempt : Type 0 where
  pub answers : Answer
  pub start : ℕ
  pub now : ℕ

unfoldable pub calls : List Attempt → Breaker → Breaker × List Reply
unfolding call
calls [] b = (b, [])
calls (c ∷ cs) b =
    let (b', r) = call c.answers c.start c.now b in let (b'', rs) = calls cs b' in (b'', r ∷ rs)

-- `reset`
unfoldable pub reset : Breaker → Breaker
reset b = record b {
  state = closed;
  failure_count = 0;
  last_failure_time = none;
  half_open_calls = 0;
  success_count = 0;
}
