-- ===== src/Resilience/Retry.antt =====
-- The retry helpers of src/myloware/workflows/retry.py and src/myloware/workflows/retry_async.py.
-- Delays are numbers of one unit, the exponential base is a natural number, and the jitter, a random
-- number up to a tenth of the delay, is a parameter. What the function does in each attempt is a
-- parameter too, a function of the attempt's index.
pub mod Laws
pub mod Linear
use mathlib.Core.Option
use mylo_ware.Common.{
  ℕ, zero, suc, ◌+◌, ◌*◌, ◌/◌, ◌^◌, min, Option, none, some, List, [], ◌∷◌, leb, if◌then◌else◌,
}

-- One call of the function: it returns, raises one of `retryable_exceptions`, or raises another.
pub data Outcome {ℓ} (A E : Type ℓ) : Type ℓ where
  returns : A → Outcome A E
  fails : E → Outcome A E
  fatal : E → Outcome A E

-- `exceeded n e` is `MaxRetriesExceeded` after n attempts, the last of which raised e; `no_exception`
-- is the `RuntimeError` behind the loop.
pub data Result {ℓ} (A E : Type ℓ) : Type ℓ where
  ok : A → Result A E
  exceeded : ℕ → E → Result A E
  raised : E → Result A E
  no_exception : Result A E

pub record RetryConfig : Type 0 where
  pub max_attempts : ℕ
  pub base_delay : ℕ
  pub max_delay : ℕ
  pub exponential_base : ℕ

-- `_calculate_delay` without the jitter.
unfoldable pub backoff : ℕ → RetryConfig → ℕ
backoff attempt c = min (c.base_delay * c.exponential_base ^ attempt) c.max_delay

-- `random.uniform(0, bound)` in the attempt: `jitter attempt bound`.
unfoldable pub calculate_delay : (ℕ → ℕ → ℕ) → ℕ → RetryConfig → ℕ
unfolding backoff
calculate_delay jitter attempt c =
    let delay = backoff attempt c in delay + jitter attempt (delay / 10)

module _ {ℓ} {A E : Type ℓ} (jitter : ℕ → ℕ → ℕ) (c : RetryConfig) (func : ℕ → Outcome A E) where
  -- `for attempt in range(max_attempts)`: `left` attempts are left. The second part is the sleeps.
  unfoldable pub attempts_from : ℕ → ℕ → Result A E × List ℕ
  unfolding calculate_delay
  attempts_from zero attempt = (no_exception, [])
  attempts_from (suc left) attempt = elim (func attempt) [
    | returns a ↦ (ok a, [])
    | fatal e ↦ (raised e, [])
    | fails e ↦
        if leb c.max_attempts (attempt + 1)
        then (exceeded c.max_attempts e, [])
        else (let (r, sleeps) = attempts_from left (attempt + 1) in
            (r, calculate_delay jitter attempt c ∷ sleeps))
  ]

  -- `async_with_retry`
  unfoldable pub async_with_retry : Result A E × List ℕ
  unfolding attempts_from
  async_with_retry = attempts_from c.max_attempts 0

  -- `with_retry` has the same body, with `time.sleep`.
  unfoldable pub with_retry : Result A E × List ℕ
  unfolding attempts_from
  with_retry = attempts_from c.max_attempts 0

-- `AsyncRetryConfig` of retry_async.py
pub record AsyncRetryConfig : Type 0 where
  pub attempts : ℕ
  pub backoff_seconds : ℕ

-- What retry_async.py's `async_with_retry` gives: every exception is retried, and the last one is
-- raised as it is.
pub data LinearResult {ℓ} (A E : Type ℓ) : Type ℓ where
  returned : A → LinearResult A E
  reraised : E → LinearResult A E

-- The `except` branch, when the attempts after it give `rest`.
after_failure {ℓ} :
    {A E : Type ℓ}
    → AsyncRetryConfig
    → ℕ
    → E
    → Option (LinearResult A E × List ℕ)
    → Option (LinearResult A E × List ℕ)
after_failure c attempt e rest =
    if leb c.attempts (attempt + 1)
    then some (reraised e, [])
    else Option.map (λ p. (p.0, (c.backoff_seconds * (attempt + 1)) ∷ p.1)) rest

module _ {ℓ} {A E : Type ℓ} (c : AsyncRetryConfig) (fn : ℕ → Outcome A E) where
  -- The `while True`, with fuel, when `attempt` calls have failed.
  unfoldable pub linear_loop : ℕ → ℕ → Option (LinearResult A E × List ℕ)
  unfolding after_failure
  linear_loop zero attempt = none
  linear_loop (suc fuel) attempt = elim (fn attempt) [
    | returns a ↦ some (returned a, [])
    | fails e ↦ after_failure c attempt e (linear_loop fuel (attempt + 1))
    | fatal e ↦ after_failure c attempt e (linear_loop fuel (attempt + 1))
  ]

  -- The fuel is enough: the loop makes `attempts` calls at most, and one in any case.
  unfoldable pub linear_retry : Option (LinearResult A E × List ℕ)
  unfolding linear_loop
  linear_retry = linear_loop (suc c.attempts) 0
