-- ===== src/Scheduler/Retry/Total.antt =====
-- What `encode_batch_with_retry` guarantees its caller (src/scheduler/mod.rs).
use llm.Base.{ℕ, ◌+◌, ◌-◌, ◌≤◌, ◌≡◌, ◌⊎◌, inl, refl, some, arith}
use llm.Scheduler.Retry.{
  RetryPolicyConfig, from_millis, max_attempts, Attempt, Run, encode_batch_with_retry,
}
use llm.Scheduler.Retry.Loop.{Outcomes, encode_loop-Outcomes, IsTimely, encode_loop-Fits}

module _ {ℓ} {A : Type ℓ} (policy : RetryPolicyConfig) (deadline : ℕ) (turn : ℕ → Attempt A) where
  one-le-max_attempts : 1 ≤ max_attempts policy
  unfolding max_attempts
  one-le-max_attempts = ground arith

  -- The retry loop always ends: after at most the configured number of engine calls, with the
  -- outcome of the last call or the error "inference deadline", and only after calls that ended in
  -- a timeout or an error which the policy lets it retry.
  pub encode_batch_with_retry-Outcomes :
      (run : Run A) × (encode_batch_with_retry policy deadline turn ≡ some run)
      × Outcomes policy deadline turn 1 run
  unfolding encode_batch_with_retry
  encode_batch_with_retry-Outcomes =
      encode_loop-Outcomes policy deadline turn (max_attempts policy) 1 0 (omega arith)
        one-le-max_attempts (omega arith)

  -- If the clock does not go back and a sleep lasts at least as long as asked, then the sleeps
  -- between the attempts together with the policy's minimum budget and 25 ms fit into the time that
  -- was left when the first attempt started, or there was no sleep.
  pub encode_batch_with_retry-slept :
      (run : Run A)
      → IsTimely policy deadline turn
      → encode_batch_with_retry policy deadline turn ≡ some run
      → (run.slept ≡ 0)
        ⊎ (run.slept + from_millis policy.min_remaining_budget_ms + 25000
            ≤ deadline - (turn 1).started)
  unfolding encode_batch_with_retry
  encode_batch_with_retry-slept run timely runs =
      encode_loop-Fits policy deadline turn (max_attempts policy) 1 0 (turn 1).started run timely
        (omega arith) (inl refl) runs
