-- ===== src/Tests/Retries.antt =====
-- The retry helpers of src/myloware/workflows at small configurations.
use mylo_ware.Common.{ℕ, zero, suc, ◌≤◌, String, ◌≡◌, refl, some, List, arith, All, length}
use mylo_ware.Resilience.Retry.{
  Outcome, returns, fails, ok, RetryConfig, async_with_retry, with_retry, AsyncRetryConfig,
  LinearResult, linear_retry,
}
use mylo_ware.Resilience.Retry.Laws.{FailsBefore, Decides, async_with_retry_first_decision}
use mylo_ware.Resilience.Retry.Linear.{CameFrom, linear_retry_total}

abbrev config : RetryConfig
config = record { max_attempts = 3; base_delay = 1000; max_delay = 3000; exponential_base = 2 }

-- The largest jitter that there is.
abbrev full_jitter : ℕ → ℕ → ℕ
full_jitter attempt bound = bound

full_jitter-fair : (n bound : ℕ) → full_jitter n bound ≤ bound
full_jitter-fair n bound = omega arith

-- It fails once, and then returns.
abbrev second_time : ℕ → Outcome String String
second_time zero = fails "busy"
second_time (suc n) = returns "video"

abbrev never : ℕ → Outcome String String
never n = fails "busy"

second_time-fails : FailsBefore second_time 1
second_time-fails zero h = ("busy", refl)
second_time-fails (suc n) h = absurd (omega arith)

second_time-Decides : Decides (second_time 1)
second_time-Decides e p = absurd (cc)

async_with_retry_first_decision_example :
    let (r, sleeps) = async_with_retry full_jitter config second_time in
    (r ≡ ok "video")
    × (length sleeps ≡ 1)
    × All (λ d. d ≤ 3300) sleeps
    × (with_retry full_jitter config second_time ≡ (r, sleeps))
async_with_retry_first_decision_example =
    async_with_retry_first_decision full_jitter config second_time 1 full_jitter-fair
      second_time-fails second_time-Decides (omega arith)

never-fails : FailsBefore never 3
never-fails n h = ("busy", refl)

abbrev linear_config : AsyncRetryConfig
linear_config = record { attempts = 3; backoff_seconds = 2 }

linear_retry_total_example :
    (r : LinearResult String String) × (sleeps : List ℕ) × (linear_retry linear_config second_time
      ≡ some (r, sleeps))
    × CameFrom linear_config second_time (length sleeps) r
    × (length sleeps ≤ 2)
linear_retry_total_example = linear_retry_total linear_config second_time
