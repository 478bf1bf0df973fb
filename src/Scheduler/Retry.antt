-- ===== src/Scheduler/Retry.antt =====
-- Retries of `encode_batch` (src/scheduler/mod.rs: `encode_batch_with_retry` and its helpers).
-- Instants and durations are microseconds. What the clock and the engine do in each turn of the
-- loop is an `Attempt`, and the loop is run over a function that gives it for every turn.
pub mod Delay
pub mod Loop
pub mod Total
use llm.Base.{
  ℕ, zero, suc, ◌+◌, ◌-◌, ◌*◌, ◌%◌, ◌^◌, min, max, Bool, true, false, ◌&&◌, Option, none, some, ltb,
  leb, ◌==◌, if◌then◌else◌, u64_max, saturating_add, saturating_mul,
}
use llm.Error.{AstraError, Result, ok, err}

-- config::RetryPolicyConfig, with the fields that the scheduler reads.
pub record RetryPolicyConfig : Type 0 where
  pub enabled : Bool
  pub max_attempts : ℕ
  pub base_delay_ms : ℕ
  pub max_delay_ms : ℕ
  pub jitter_enabled : Bool
  pub retry_on_timeout : Bool
  pub retry_on_unavailable : Bool
  pub min_remaining_budget_ms : ℕ

-- `Duration::from_millis`, in microseconds.
abbrev pub from_millis : ℕ → ℕ
from_millis n = 1000 * n

-- 1u64.checked_shl(n).unwrap_or(u64::MAX)
unfoldable pub shifted_one : ℕ → ℕ
shifted_one n = if ltb n 64 then 2 ^ n else u64_max

unfoldable pub jitter : RetryPolicyConfig → ℕ → ℕ
jitter policy attempt = if policy.jitter_enabled then (attempt * 17) % 31 else 0

-- The delay in milliseconds.
unfoldable pub retry_delay : RetryPolicyConfig → ℕ → ℕ
retry_delay policy attempt =
    saturating_add
      (min (saturating_mul policy.base_delay_ms (shifted_one (attempt - 1))) policy.max_delay_ms)
      (jitter policy attempt)

unfoldable pub retry_budget_allows : RetryPolicyConfig → ℕ → ℕ → ℕ → Bool
retry_budget_allows policy deadline delay now =
    leb (delay + from_millis policy.min_remaining_budget_ms + from_millis 25) (deadline - now)

unfoldable pub is_retryable_inference_error : AstraError → RetryPolicyConfig → Bool
is_retryable_inference_error (AstraError.deadline_exceeded m) policy = policy.retry_on_timeout
is_retryable_inference_error (AstraError.unavailable m) policy = policy.retry_on_unavailable
is_retryable_inference_error _ policy = false

-- What `timeout(remaining, engine.encode_batch(..))` came to.
pub data Outcome {ℓ} (A : Type ℓ) : Type ℓ where
  finished : Result A → Outcome A
  elapsed : Outcome A

-- One turn of the loop: the clock at its head, the outcome, the clock when a retry is considered.
pub record Attempt {ℓ} (A : Type ℓ) : Type ℓ where
  pub started : ℕ
  pub outcome : Outcome A
  pub decided : ℕ

abbrev pub inference_deadline : AstraError
inference_deadline = AstraError.deadline_exceeded "inference deadline"

-- How a turn ends: before the engine is called, with a result, or with a delay before the next.
pub data Decision {ℓ} (A : Type ℓ) : Type ℓ where
  expired : Decision A
  stop : Result A → Decision A
  retry : ℕ → Decision A

unfoldable pub max_attempts : RetryPolicyConfig → ℕ
max_attempts policy = if policy.enabled then max policy.max_attempts 1 else 1

module _ {ℓ} {A : Type ℓ} (policy : RetryPolicyConfig) (deadline : ℕ) where
  retry_or : ℕ → Attempt A → AstraError → Decision A
  retry_or attempt a e =
      let delay = from_millis (retry_delay policy attempt) in
      if retry_budget_allows policy deadline delay a.decided then retry delay else stop (err e)

  -- The `match result`, arm by arm.
  on_outcome : ℕ → Attempt A → Outcome A → Decision A
  unfolding retry_or
  on_outcome attempt a (finished (ok outputs)) = stop (ok outputs)
  on_outcome attempt a (finished (err e)) =
      if is_retryable_inference_error e policy && ltb attempt (max_attempts policy)
      then retry_or attempt a e
      else stop (err e)
  on_outcome attempt a elapsed =
      if policy.retry_on_timeout && ltb attempt (max_attempts policy)
      then retry_or attempt a inference_deadline
      else stop (err inference_deadline)

  unfoldable pub decide : ℕ → Attempt A → Decision A
  unfolding on_outcome max_attempts
  decide attempt a = if (deadline - a.started) == 0 then expired else on_outcome attempt a a.outcome

-- The result with the number of engine calls and the time slept between them.
pub record Run {ℓ} (A : Type ℓ) : Type ℓ where
  pub result : Result A
  pub calls : ℕ
  pub slept : ℕ

module _ {ℓ} {A : Type ℓ} (policy : RetryPolicyConfig) (deadline : ℕ) (turn : ℕ → Attempt A) where
  -- `none` means that the fuel ran out.
  unfoldable pub encode_loop : ℕ → ℕ → ℕ → Option (Run A)
  encode_loop zero attempt slept = none
  encode_loop (suc fuel) attempt slept = elim (decide policy deadline attempt (turn attempt)) [
    | expired ↦
        some (record { result = err inference_deadline; calls = attempt - 1; slept = slept })
    | stop r ↦ some (record { result = r; calls = attempt; slept = slept })
    | retry delay ↦ encode_loop fuel (attempt + 1) (slept + delay)
  ]

  -- The attempts are numbered from 1.
  unfoldable pub encode_batch_with_retry : Option (Run A)
  unfolding encode_loop
  encode_batch_with_retry = encode_loop (max_attempts policy) 1 0
