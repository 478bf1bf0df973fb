-- ===== src/Tests/Retry.antt =====
-- A retry policy against an engine that times out once and then answers.
use mathlib.Core.Option.{some}
use llm.Base.{ℕ, zero, suc, ◌+◌, ◌*◌, ◌≤◌, ◌≡◌, refl, true, false, List, [], ◌∷◌, arith}
use llm.Error.{ok}
use llm.Scheduler.Retry.{
  RetryPolicyConfig, Attempt, Run, Outcome, elapsed, finished, shifted_one, jitter, retry_delay,
  retry_budget_allows, max_attempts, decide, encode_batch_with_retry,
}
use llm.Scheduler.Retry.Delay.{retry_delay_mono, retry_delay-le}
use llm.Scheduler.Retry.Loop.{Outcomes, IsTimely}
use llm.Scheduler.Retry.Total.{encode_batch_with_retry-Outcomes}

abbrev pub three_tries : RetryPolicyConfig
three_tries = record {
  enabled = true;
  max_attempts = 3;
  base_delay_ms = 50;
  max_delay_ms = 500;
  jitter_enabled = false;
  retry_on_timeout = true;
  retry_on_unavailable = true;
  min_remaining_budget_ms = 100;
}

-- The turn starts 1 s after the one before, and takes 50 ms.
abbrev attempt_turn : (outcome : ℕ → Outcome (List ℕ)) → ℕ → Attempt (List ℕ)
attempt_turn outcome n = record {
  started = 1000000 * n;
  outcome = outcome n;
  decided = 1000000 * n + 50000;
}

abbrev late_once : ℕ → Outcome (List ℕ)
late_once zero = elapsed
late_once (suc zero) = elapsed
late_once (suc (suc n)) = finished (ok (7 ∷ []))

abbrev second_try : Run (List ℕ)
second_try = record { result = ok (7 ∷ []); calls = 2; slept = 50000 }

retried_once :
    encode_batch_with_retry three_tries 5000000 (attempt_turn late_once) ≡ some second_try
unfolding encode_batch_with_retry decide max_attempts retry_budget_allows retry_delay jitter
    shifted_one
retried_once = refl

third_delay : retry_delay three_tries 3 ≡ 200
unfolding retry_delay jitter shifted_one
third_delay = refl

delay_le : (n : ℕ) → n ≤ 3 → retry_delay three_tries n ≤ 200
delay_le n h = omega (arith, third_delay, retry_delay_mono three_tries n 3 refl h)

encode_batch_with_retry-Outcomes_example :
    (run : Run (List ℕ)) × (encode_batch_with_retry three_tries 5000000 (attempt_turn late_once)
      ≡ some run)
    × Outcomes three_tries 5000000 (attempt_turn late_once) 1 run
encode_batch_with_retry-Outcomes_example =
    encode_batch_with_retry-Outcomes three_tries 5000000 (attempt_turn late_once)

attempt_turn-IsTimely : IsTimely three_tries 5000000 (attempt_turn late_once)
attempt_turn-IsTimely = record {
  within = λ k. omega arith;
  between = λ k. omega (arith, retry_delay-le three_tries k);
}
