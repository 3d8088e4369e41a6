-- ===== src/Resilience/Retry/Laws.antt =====
-- What the exponential retry helpers promise: src/myloware/workflows/retry.py.
use mathlib.Core.Path.{subst}
use native.Mathlib.Decide.{dec_lt}
use mylo_ware.Common.{
  sym, ap, ◌-◌, ℕ, zero, suc, ◌+◌, ◌/◌, ◌<◌, ◌≤◌, ◌≡◌, ◌≢◌, refl, List, [], ◌∷◌, arith, All, length,
}
use mylo_ware.Resilience.Retry.{
  Outcome, returns, fails, fatal, Result, ok, exceeded, raised, no_exception, RetryConfig, backoff,
  calculate_delay, attempts_from, async_with_retry, with_retry,
}

-- A delay is at least its backoff, and at most a tenth longer than `max_delay`, where the jitter
-- stays within its bound.
pub calculate_delay_bounds :
    (jitter : ℕ → ℕ → ℕ) (attempt : ℕ) (c : RetryConfig)
    → ((n bound : ℕ) → jitter n bound ≤ bound)
    → (backoff attempt c ≤ calculate_delay jitter attempt c)
      × (calculate_delay jitter attempt c ≤ c.max_delay + c.max_delay / 10)
unfolding calculate_delay backoff
calculate_delay_bounds jitter attempt c h = omega (arith, h attempt (backoff attempt c / 10))

-- The first `k` attempts raise retryable exceptions.
abbrev pub FailsBefore {ℓ} : {A E : Type ℓ} → (ℕ → Outcome A E) → ℕ → Type ℓ
FailsBefore {E = E} func k = (n : ℕ) → n < k → (e : E) × (func n ≡ fails e)

-- What ends the retries: the first attempt that does not fail, if it comes within the attempts.
abbrev pub Ends {ℓ} : {A E : Type ℓ} → Outcome A E → Result A E
Ends (returns a) = ok a
Ends (fatal e) = raised e
Ends (fails e) = no_exception

abbrev pub Decides {ℓ} : {A E : Type ℓ} → Outcome A E → Type ℓ
Decides {E = E} o = (e : E) → o ≢ fails e

module _ {ℓ} {A E : Type ℓ} (jitter : ℕ → ℕ → ℕ) (c : RetryConfig) (func : ℕ → Outcome A E) where
  abbrev Run : Type ℓ
  Run = Result A E × List ℕ

  decided :
      (left attempt : ℕ)
      → Decides (func attempt)
      → attempts_from jitter c func (suc left) attempt ≡ (Ends (func attempt), [])
  decided left attempt d = go (func attempt) refl
    where
      go :
          (o : Outcome A E)
          → func attempt ≡ o
          → attempts_from jitter c func (suc left) attempt ≡ (Ends (func attempt), [])
      go (returns a) p = unfold attempts_from in rw (p, attempts_from)
      go (fatal e) p = unfold attempts_from in rw (p, attempts_from)
      go (fails e) p = absurd (d e p)

  retried :
      (left attempt : ℕ) (e : E)
      → func attempt ≡ fails e
      → attempt + 1 < c.max_attempts
      → attempts_from jitter c func (suc left) attempt ≡ (
        (attempts_from jitter c func left (attempt + 1)).0,
        calculate_delay jitter attempt c ∷ (attempts_from jitter c func left (attempt + 1)).1,
      )
  unfolding attempts_from
  retried left attempt e h lt = ground (arith, h)

  given_up :
      (left attempt : ℕ) (e : E)
      → func attempt ≡ fails e
      → c.max_attempts ≤ attempt + 1
      → attempts_from jitter c func (suc left) attempt ≡ (exceeded c.max_attempts e, [])
  unfolding attempts_from
  given_up left attempt e h lt = ground (arith, h)

  abbrev Sleep : ℕ → Type 0
  Sleep d = d ≤ c.max_delay + c.max_delay / 10

  -- The attempts from `attempt` to before `last` fail.
  abbrev Failing : ℕ → ℕ → Type ℓ
  Failing attempt last = (n : ℕ) → attempt ≤ n → n < last → (e : E) × (func n ≡ fails e)

  -- From `attempt` on: a result, and so many sleeps, each bounded.
  abbrev Gives : ℕ → ℕ → Result A E → ℕ → Type ℓ
  Gives left attempt r sleeps =
      ((attempts_from jitter c func left attempt).0 ≡ r)
      × (length (attempts_from jitter c func left attempt).1 ≡ sleeps)
      × All Sleep (attempts_from jitter c func left attempt).1

  module _ (fair : (n bound : ℕ) → jitter n bound ≤ bound) where
    one_more :
        (left attempt sleeps : ℕ) (r : Result A E) (e : E)
        → func attempt ≡ fails e
        → attempt + 1 < c.max_attempts
        → Gives left (attempt + 1) r sleeps
        → Gives (suc left) attempt r (suc sleeps)
    one_more left attempt sleeps r e h lt (g, n, all) =
        rw (retried left attempt e h lt)
          (g, ap suc n, ((calculate_delay_bounds jitter attempt c fair).1, all))

    up_to_decision :
        (last left attempt : ℕ)
        → Failing attempt last
        → Decides (func last)
        → attempt ≤ last
        → last < c.max_attempts
        → last < attempt + left
        → Gives left attempt (Ends (func last)) (last - attempt)
    up_to_decision last zero attempt f d le lt room = absurd (omega arith)
    up_to_decision last (suc left) attempt f d le lt room = elim (dec_lt attempt last) [
      | yes more ↦
          let (e, h) = f attempt (omega arith) more in
          let rest =
            up_to_decision last left (attempt + 1) (λ n a b. f n (omega arith) b) d (omega arith) lt
              (omega arith) in
          let count : last - attempt ≡ suc (last - (attempt + 1)) = omega arith in
          rw count (one_more left attempt (last - (attempt + 1)) _ e h (omega arith) rest)
      | no done ↦
          let same : last ≡ attempt = omega arith in
          let zeroth : last - attempt ≡ 0 = omega arith in
          rw (zeroth, same)
            (rw (decided left attempt (subst (λ n. Decides (func n)) same d)) (refl, refl, tt))
    ]

    to_the_end :
        (left attempt : ℕ) (e : E)
        → Failing attempt (c.max_attempts - 1)
        → func (c.max_attempts - 1) ≡ fails e
        → attempt < c.max_attempts
        → c.max_attempts ≤ attempt + left
        → Gives left attempt (exceeded c.max_attempts e) (c.max_attempts - 1 - attempt)
    to_the_end zero attempt e f l lt room = absurd (omega arith)
    to_the_end (suc left) attempt e f l lt room = elim (dec_lt (attempt + 1) c.max_attempts) [
      | yes more ↦
          let (x, h) = f attempt (omega arith) (omega arith) in
          let rest =
            to_the_end left (attempt + 1) e (λ n a b. f n (omega arith) b) l more (omega arith) in
          let count : c.max_attempts - 1 - attempt ≡ suc (c.max_attempts - 1 - (attempt + 1)) =
            omega arith in
          rw count (one_more left attempt (c.max_attempts - 1 - (attempt + 1)) _ x h more rest)
      | no done ↦
          let same : attempt ≡ c.max_attempts - 1 = omega arith in
          let zeroth : c.max_attempts - 1 - attempt ≡ 0 = omega arith in
          rw
            (
              zeroth,
              given_up left attempt e (subst (λ n. func n ≡ fails e) (sym same) l) (omega arith),
            )
            (refl, refl, tt)
    ]

-- If the first attempt that does not raise a retryable exception comes within `max_attempts`, its
-- value is returned or its exception raised, after one sleep for each failed attempt, none longer
-- than `max_delay` and a tenth; the blocking version gives the same.
pub async_with_retry_first_decision {ℓ} :
    {A E : Type ℓ} (jitter : ℕ → ℕ → ℕ) (c : RetryConfig) (func : ℕ → Outcome A E) (k : ℕ)
    → ((n bound : ℕ) → jitter n bound ≤ bound)
    → FailsBefore func k
    → Decides (func k)
    → k < c.max_attempts
    → let (r, sleeps) = async_with_retry jitter c func in
      (r ≡ Ends (func k))
      × (length sleeps ≡ k)
      × All (λ d. d ≤ c.max_delay + c.max_delay / 10) sleeps
      × (with_retry jitter c func ≡ (r, sleeps))
unfolding async_with_retry with_retry
async_with_retry_first_decision jitter c func k fair f d lt =
    let (r, n, all) =
      up_to_decision jitter c func fair k c.max_attempts 0 (λ n a b. f n b) d (omega arith) lt
        (omega arith) in
    (r, omega (arith, n), all, refl)

-- If every attempt raises a retryable exception, `MaxRetriesExceeded` carries the number of
-- attempts and the last exception, after one sleep fewer than attempts.
pub async_with_retry_exhausts {ℓ} :
    {A E : Type ℓ} (jitter : ℕ → ℕ → ℕ) (c : RetryConfig) (func : ℕ → Outcome A E) (e : E)
    → ((n bound : ℕ) → jitter n bound ≤ bound)
    → FailsBefore func c.max_attempts
    → func (c.max_attempts - 1) ≡ fails e
    → 0 < c.max_attempts
    → let (r, sleeps) = async_with_retry jitter c func in
      (r ≡ exceeded c.max_attempts e) × (length sleeps + 1 ≡ c.max_attempts)
unfolding async_with_retry
async_with_retry_exhausts jitter c func e fair f l pos =
    let (r, n, all) =
      to_the_end jitter c func fair c.max_attempts 0 e (λ n a b. f n (omega arith)) l pos
        (omega arith) in
    (r, omega (arith, n))
