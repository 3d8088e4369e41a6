-- ===== src/Resilience/Retry/Linear.antt =====
-- What the linear retry helper promises: src/myloware/workflows/retry_async.py.
use mylo_ware.Common.{
  ◌-◌, ℕ, zero, suc, ◌+◌, ◌*◌, ◌<◌, ◌≤◌, ◌≡◌, refl, ◌⊎◌, inl, inr, Option, some, List, [], ◌∷◌,
  arith, length, leb, leb→le, Bool-cases,
}
use mylo_ware.Resilience.Retry.{
  Outcome, returns, fails, fatal, AsyncRetryConfig, LinearResult, returned, reraised, after_failure,
  linear_loop, linear_retry,
}

-- What `n` sleeps came before: the call whose value is returned, or the last call, whose exception
-- is raised as it is.
abbrev pub CameFrom {ℓ} :
    {A E : Type ℓ} → AsyncRetryConfig → (ℕ → Outcome A E) → ℕ → LinearResult A E → Type ℓ
CameFrom c fn n (returned a) = fn n ≡ returns a
CameFrom c fn n (reraised e) = (c.attempts ≤ n + 1) × ((fn n ≡ fails e) ⊎ (fn n ≡ fatal e))

module _ {ℓ} {A E : Type ℓ} (c : AsyncRetryConfig) (fn : ℕ → Outcome A E) where
  abbrev Finishes : ℕ → Option (LinearResult A E × List ℕ) → Type ℓ
  Finishes attempt o =
      (r : LinearResult A E) × (sleeps : List ℕ) × (o ≡ some (r, sleeps))
      × CameFrom c fn (attempt + length sleeps) r
      × (length sleeps ≤ c.attempts - 1 - attempt)

  caught :
      (attempt : ℕ) (e : E) (rest : Option (LinearResult A E × List ℕ))
      → (fn attempt ≡ fails e) ⊎ (fn attempt ≡ fatal e)
      → (attempt + 1 < c.attempts → Finishes (attempt + 1) rest)
      → Finishes attempt (after_failure c attempt e rest)
  unfolding after_failure
  caught attempt e rest h ih = elim (Bool-cases (leb c.attempts (attempt + 1))) [
    | inl stop ↦
        let n : attempt + 0 ≡ attempt = omega arith in
        rw stop (reraised e, [], refl, rw n (leb→le _ _ stop, h), omega arith)
    | inr go ↦
        let (r, sleeps, same, came, few) = ih (ground arith) in
        let n : attempt + suc (length sleeps) ≡ attempt + 1 + length sleeps = omega arith in
        rw (go, same)
          (r, (c.backoff_seconds * (attempt + 1)) ∷ sleeps, refl, rw n came, ground arith)
  ]

  step-Finishes :
      (fuel attempt : ℕ) (o : Outcome A E)
      → fn attempt ≡ o
      → (attempt + 1 < c.attempts → Finishes (attempt + 1) (linear_loop c fn fuel (attempt + 1)))
      → Finishes attempt (linear_loop c fn (suc fuel) attempt)
  unfolding linear_loop
  step-Finishes fuel attempt (returns a) p ih =
      let n : attempt + 0 ≡ attempt = omega arith in
      rw (p, linear_loop) (returned a, [], refl, rw n p, omega arith)
  step-Finishes fuel attempt (fails e) p ih =
      rw (p, linear_loop) (caught attempt e (linear_loop c fn fuel (attempt + 1)) (inl p) ih)
  step-Finishes fuel attempt (fatal e) p ih =
      rw (p, linear_loop) (caught attempt e (linear_loop c fn fuel (attempt + 1)) (inr p) ih)

  loop-Finishes :
      (fuel attempt : ℕ)
      → c.attempts < attempt + fuel
      → attempt ≤ c.attempts
      → Finishes attempt (linear_loop c fn fuel attempt)
  loop-Finishes zero attempt room le = absurd (omega arith)
  loop-Finishes (suc fuel) attempt room le =
      step-Finishes fuel attempt (fn attempt) refl
        (λ lt. loop-Finishes fuel (attempt + 1) (omega arith) (omega arith))

-- The linear helper always finishes, with fewer sleeps than attempts. What it returns is what the
-- call after its last sleep returned; what it raises is what that call raised, and then no attempt
-- is left.
pub linear_retry_total {ℓ} :
    {A E : Type ℓ} (c : AsyncRetryConfig) (fn : ℕ → Outcome A E)
    → (r : LinearResult A E) × (sleeps : List ℕ) × (linear_retry c fn ≡ some (r, sleeps))
      × CameFrom c fn (length sleeps) r
      × (length sleeps ≤ c.attempts - 1)
unfolding linear_retry
linear_retry_total c fn =
    let (r, sleeps, same, came, few) =
      loop-Finishes c fn (suc c.attempts) 0 (omega arith) (omega arith) in
    let n : 0 + length sleeps ≡ length sleeps = omega arith in
    (r, sleeps, same, rw n at came, omega (arith, few))
