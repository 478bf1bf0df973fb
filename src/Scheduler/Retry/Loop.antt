-- ===== src/Scheduler/Retry/Loop.antt =====
-- Laws of the retry loop (src/scheduler/mod.rs: `encode_batch_with_retry`).
use llm.Base.{
  ℕ, zero, suc, ◌+◌, ◌-◌, ◌≤◌, ◌<◌, ◌≡◌, refl, ◌⊎◌, inl, inr, some, true, arith, dec_lt, subst,
}
use llm.Error.{Result, ok, err}
use llm.Scheduler.Retry.{
  RetryPolicyConfig, from_millis, retry_delay, retry_budget_allows, is_retryable_inference_error,
  Outcome, finished, elapsed, Attempt, inference_deadline, Decision, expired, stop, retry, decide,
  max_attempts, Run, encode_loop,
}

-- The outcomes after which the policy lets the engine be called again.
abbrev pub IsTransient {ℓ} : {A : Type ℓ} → RetryPolicyConfig → Outcome A → Type 0
IsTransient policy (finished (ok a)) = ◌≡◌ {A = ℕ} 0 1
IsTransient policy (finished (err e)) = is_retryable_inference_error e policy ≡ true
IsTransient policy elapsed = policy.retry_on_timeout ≡ true

module _ {ℓ} {A : Type ℓ} (policy : RetryPolicyConfig) (deadline : ℕ) where
  -- What a retry presupposes.
  pub record Retried (attempt : ℕ) (a : Attempt A) (delay : ℕ) : Type 0 where
    pub below : attempt < max_attempts policy
    pub delay_eq : delay ≡ from_millis (retry_delay policy attempt)
    pub fits : delay + from_millis policy.min_remaining_budget_ms + 25000 ≤ deadline - a.decided
    pub transient : IsTransient policy a.outcome

  decide-Retried :
      (attempt : ℕ) (a : Attempt A) (o : Outcome A) (delay : ℕ)
      → a.outcome ≡ o
      → decide policy deadline attempt a ≡ retry delay
      → Retried attempt a delay
  unfolding decide retry_budget_allows
  decide-Retried attempt a (finished (ok x)) delay e h = ground arith
  decide-Retried attempt a (finished (err x)) delay e h = ground arith
  decide-Retried attempt a elapsed delay e h = ground arith

module _ {ℓ} {A : Type ℓ} (policy : RetryPolicyConfig) (deadline : ℕ) (turn : ℕ → Attempt A) where
  -- What is known of a run that begins with turn `attempt`.
  pub record Outcomes (attempt : ℕ) (run : Run A) : Type ℓ where
    pub bounded : run.calls ≤ max_attempts policy
    pub result_from :
        (run.result ≡ err inference_deadline) ⊎ ((turn run.calls).outcome ≡ finished run.result)
    pub earlier : (k : ℕ) → attempt ≤ k → k < run.calls → IsTransient policy (turn k).outcome

  stop_result :
      (attempt : ℕ) (a : Attempt A) (o : Outcome A) (r : Result A)
      → a.outcome ≡ o
      → decide policy deadline attempt a ≡ stop r
      → (r ≡ err inference_deadline) ⊎ (a.outcome ≡ finished r)
  unfolding decide
  stop_result attempt a (finished (ok x)) r e h = ground arith
  stop_result attempt a (finished (err x)) r e h = ground arith
  stop_result attempt a elapsed r e h = ground arith

  Decision-cases :
      (d : Decision A)
      → (d ≡ expired) ⊎ (((r : Result A) × (d ≡ stop r)) ⊎ ((t : ℕ) × (d ≡ retry t)))
  Decision-cases expired = inl refl
  Decision-cases (stop r) = inr (inl (r, refl))
  Decision-cases (retry t) = inr (inr (t, refl))

  earlier-suc :
      (attempt : ℕ) (run : Run A)
      → IsTransient policy (turn attempt).outcome
      → Outcomes (attempt + 1) run
      → Outcomes attempt run
  earlier-suc attempt run now later = record {
    bounded = later.bounded;
    result_from = later.result_from;
    earlier = λ k le lt. elim (dec_lt attempt k) [
      | yes p ↦ later.earlier k (omega arith) lt
      | no p ↦ subst (λ n. IsTransient policy (turn n).outcome) (the_same k le p) now
    ];
  }
    where
      the_same : (k : ℕ) → attempt ≤ k → ¬ (attempt < k) → attempt ≡ k
      the_same k le p = omega arith

  pub encode_loop-Outcomes :
      (fuel attempt slept : ℕ)
      → 1 ≤ attempt
      → attempt ≤ max_attempts policy
      → max_attempts policy < attempt + fuel
      → (run : Run A) × (encode_loop policy deadline turn fuel attempt slept ≡ some run)
        × Outcomes attempt run
  unfolding encode_loop
  encode_loop-Outcomes zero attempt slept pos le enough = absurd (omega arith)
  encode_loop-Outcomes (suc fuel) attempt slept pos le enough =
      elim (Decision-cases (decide policy deadline attempt (turn attempt))) [
        | inl e ↦ (
          record { result = err inference_deadline; calls = attempt - 1; slept = slept },
          rw (e, encode_loop),
          record {
            bounded = omega arith;
            result_from = inl refl;
            earlier = λ k le' lt. absurd (omega arith);
          },
        )
        | inr (inl (r, e)) ↦ (
          record { result = r; calls = attempt; slept = slept },
          rw (e, encode_loop),
          record {
            bounded = le;
            result_from = stop_result attempt (turn attempt) _ r refl e;
            earlier = λ k le' lt. absurd (omega arith);
          },
        )
        | inr (inr (t, e)) ↦
            let r = decide-Retried policy deadline attempt (turn attempt) _ t refl e in
            let below : attempt < max_attempts policy = r.below in
            let (run, runs, known) =
              encode_loop-Outcomes fuel (attempt + 1) (slept + t) (omega arith) (omega arith)
                (omega arith) in
            (run, rw (e, encode_loop) runs, earlier-suc attempt run r.transient known)
      ]

  -- The clock does not go back within a turn, and a sleep lasts at least as long as it was asked to.
  pub record IsTimely : Type 0 where
    pub within : (k : ℕ) → (turn k).started ≤ (turn k).decided
    pub between :
        (k : ℕ) → (turn k).decided + from_millis (retry_delay policy k) ≤ (turn (k + 1)).started

  -- What the sleeps leave of the time that there was at `from`.
  abbrev pub Fits : ℕ → ℕ → Type 0
  Fits from slept =
      (slept ≡ 0) ⊎ (slept + from_millis policy.min_remaining_budget_ms + 25000 ≤ deadline - from)

  pub encode_loop-Fits :
      (fuel attempt slept from : ℕ) (run : Run A)
      → IsTimely
      → from + slept ≤ (turn attempt).started
      → Fits from slept
      → encode_loop policy deadline turn fuel attempt slept ≡ some run
      → Fits from run.slept
  unfolding encode_loop
  encode_loop-Fits zero attempt slept from run timely past fits runs = cc
  encode_loop-Fits (suc fuel) attempt slept from run timely past fits runs =
      elim (Decision-cases (decide policy deadline attempt (turn attempt))) [
        | inl e ↦ let h = rw (e, encode_loop) at runs in ground (arith, h)
        | inr (inl (r, e)) ↦ let h = rw (e, encode_loop) at runs in ground (arith, h)
        | inr (inr (t, e)) ↦
            let r = decide-Retried policy deadline attempt (turn attempt) _ t refl e in
            encode_loop-Fits fuel (attempt + 1) (slept + t) from run timely
              (omega (arith, timely.within attempt, timely.between attempt, r.delay_eq))
              (inr (omega (arith, timely.within attempt, r.fits))) (rw (e, encode_loop) at runs)
      ]
