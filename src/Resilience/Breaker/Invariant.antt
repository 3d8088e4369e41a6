-- ===== src/Resilience/Breaker/Invariant.antt =====
-- What holds of a circuit breaker between two calls, and what one call does.
use mylo_ware.Common.{ℕ, ◌<◌, ◌≤◌, ◌≡◌, true, Option, none, some, arith, is_some}
use mylo_ware.Resilience.Breaker.{
  closed, open_state, Breaker, Answer, returned, raised, cancelled, new, call, reset,
}

-- The counters agree with the state.
pub record IsValid (b : Breaker) : Type 0 where
  pub threshold : 0 < b.failure_threshold
  pub closed_below : b.state ≡ closed → b.failure_count < b.failure_threshold
  pub open_dated : b.state ≡ open_state → is_some b.last_failure_time ≡ true
  pub probes_capped : b.half_open_calls ≤ b.half_open_max_calls
  pub closed_no_probes : b.state ≡ closed → b.half_open_calls ≡ 0
  pub no_success_kept : b.success_count ≡ 0

pub new-IsValid :
    (threshold_setting timeout_setting : ℕ) (threshold timeout : Option ℕ) (max_calls : ℕ)
    → 0 < threshold_setting
    → IsValid (new threshold_setting timeout_setting threshold timeout max_calls)
unfolding new
new-IsValid ts ms none timeout k h = ground arith
new-IsValid ts ms (some t) timeout k h = ground arith

-- Every call, whatever the function does and whenever it is made, keeps the counters in agreement
-- with the state: a closed breaker has fewer failures than its threshold and no probes, an open one
-- knows its last failure, the probes of a half-open one stay within their limit.
pub call-IsValid :
    (a : Answer) (start now : ℕ) (b : Breaker) → IsValid b → IsValid (call a start now b).0
unfolding call
call-IsValid returned start now b v = ground arith
call-IsValid raised start now b v = ground arith
call-IsValid cancelled start now b v = ground arith

pub reset-IsValid : (b : Breaker) → IsValid b → IsValid (reset b)
unfolding reset
reset-IsValid b v = ground arith
