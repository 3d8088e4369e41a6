-- ===== src/Tests/CircuitBreaker.antt =====
-- A circuit breaker of src/myloware/resilience/circuit_breaker.py with two failures allowed.
use mylo_ware.Common.{ℕ, ◌≡◌, refl, none, some, [], ◌∷◌, arith, All}
use mylo_ware.Resilience.Breaker.{
  closed, open_state, half_open, Breaker, Answer, returned, raised, cancelled, rejected, Attempt,
  new, call, calls,
}
use mylo_ware.Resilience.Breaker.Invariant.{IsValid, new-IsValid, call-IsValid}
use mylo_ware.Resilience.Breaker.Runs.{Ran, opens_at_threshold, cancelled_probes_use_up}

abbrev fresh : Breaker
fresh = record {
  failure_threshold = 2;
  recovery_timeout = 30;
  half_open_max_calls = 1;
  state = closed;
  failure_count = 0;
  last_failure_time = none;
  half_open_calls = 0;
  success_count = 0;
}

fresh-IsValid : IsValid fresh
unfolding new
fresh-IsValid = new-IsValid 5 30 (some 2) none 1 (omega arith)

abbrev tripped : Breaker
tripped = record fresh { state = open_state; failure_count = 2; last_failure_time = some 100 }

abbrev probing : Breaker
probing = record tripped { state = half_open }

abbrev attempt : Answer → ℕ → Attempt
attempt a t = record { answers = a; start = t; now = t }

call-IsValid_example : IsValid (call raised 90 91 fresh).0
call-IsValid_example = call-IsValid raised 90 91 fresh fresh-IsValid

opens_at_threshold_example :
    ((calls (attempt raised 90 ∷ attempt raised 100 ∷ []) fresh).0.state ≡ open_state)
    × All Ran (calls (attempt raised 90 ∷ attempt raised 100 ∷ []) fresh).1
opens_at_threshold_example =
    opens_at_threshold (attempt raised 90 ∷ attempt raised 100 ∷ []) fresh fresh-IsValid refl
      (refl, (refl, tt)) (omega arith)

cancelled_probes_use_up_example :
    let b' = (calls (attempt cancelled 130 ∷ []) probing).0 in
    ((call returned 140 140 b').1 ≡ rejected) × ((call returned 140 140 b').0.state ≡ open_state)
cancelled_probes_use_up_example =
    cancelled_probes_use_up (attempt returned 140) (attempt cancelled 130 ∷ []) probing refl
      (refl, tt) refl
