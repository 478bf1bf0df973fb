-- ===== src/Scheduler/Retry/Delay.antt =====
-- The back-off of the retries (src/scheduler/mod.rs: `retry_delay`).
use llm.Base.{ℕ, ◌+◌, ◌-◌, ◌*◌, ◌≤◌, ◌≡◌, false, arith}
use llm.Scheduler.Retry.{RetryPolicyConfig, shifted_one, jitter, retry_delay}
use native.Mathlib.Nat.{pow-le-pow_right, mul-le-mul_left}

-- The delay never passes the configured maximum by more than the jitter of 30 ms.
pub retry_delay-le :
    (policy : RetryPolicyConfig) (attempt : ℕ)
    → retry_delay policy attempt ≤ policy.max_delay_ms + 30
unfolding retry_delay jitter
retry_delay-le policy attempt = ground arith

shifted_one_mono : (m n : ℕ) → m ≤ n → shifted_one m ≤ shifted_one n
unfolding shifted_one
shifted_one_mono m n h = ground (
  arith,
  pow-le-pow_right {n = 2} (omega arith) {i = m} {j = n},
  pow-le-pow_right {n = 2} (omega arith) {i = m} {j = 63},
)

-- Without jitter a later attempt never waits less than an earlier one.
pub retry_delay_mono :
    (policy : RetryPolicyConfig) (m n : ℕ)
    → policy.jitter_enabled ≡ false
    → m ≤ n
    → retry_delay policy m ≤ retry_delay policy n
unfolding retry_delay jitter
retry_delay_mono policy m n off h = ground (arith, shifted_one_mono (m - 1) (n - 1), scaled)
  where
    scaled : policy.base_delay_ms * shifted_one (m - 1) ≤ policy.base_delay_ms * shifted_one (n - 1)
    scaled = mul-le-mul_left policy.base_delay_ms (shifted_one_mono (m - 1) (n - 1) (omega arith))
