-- ===== src/Adaptive/Guardrail.antt =====
-- Overrides stay within the limits of their policies (src/adaptive/mod.rs).
use llm.Base.{
  ℕ, ◌+◌, ◌≤◌, ◌≡◌, ◌≢◌, refl, sym, ◌∙◌, ap, min, max, u64_max, false, ◌||◌, not, Option, none,
  some, List, arith, ltb, leb, ◌==◌, inl, inr, Bool-cases, subst,
}
use llm.Adaptive.{
  AdaptiveMode, TuningAction, Parameter, code, is_safe_parameter, AdaptivePolicyConfig,
  AdaptiveConfig, RuntimeOverride, AdaptiveRuntime, Clock, secs, new, live, prune_expired, get_u64,
  cooldown_active, proposal, insert, override_at, apply, adjust_from, try_adjust,
}
use llm.Adaptive.Observers.{Observation, observe_all}
use llm.Adaptive.Keeps.{policy_at, policy_of, keep_if, observe_all-keeps}

-- What a policy allows an override to be.
pub record Held (policy : AdaptivePolicyConfig) (o : RuntimeOverride) : Type 0 where
  pub at_least : policy.min_value ≤ o.value
  pub at_most : o.value ≤ policy.max_value
  pub one_step_up : o.value ≤ o.previous_value + policy.step
  pub one_step_down : min o.previous_value u64_max ≤ o.value + policy.step
  pub changed : o.value ≢ o.previous_value
  pub ends : o.expires_at ≡ o.applied_at + secs (max policy.ttl_secs 1)

abbrev pub Fits : Option AdaptivePolicyConfig → Option RuntimeOverride → Type 0
Fits policy none = Unit
Fits none (some o) = ◌≡◌ {A = ℕ} 0 1
Fits (some policy) (some o) = Held policy o

module _ (config : AdaptiveConfig) where
  -- Every override is one that its parameter's policy allows.
  unfoldable pub Guarded : AdaptiveRuntime → Type 0
  Guarded s = (p : Parameter) → Fits (policy_of config p) (s.overrides p)

  Fits-live :
      (now : ℕ) (policy : Option AdaptivePolicyConfig) (o : Option RuntimeOverride)
      → Fits policy o
      → Fits policy (live now o)
  unfolding live
  Fits-live now policy none h = tt
  Fits-live now policy (some o) h = elim (Bool-cases (leb o.expires_at now)) [
    | inl e ↦ rw e tt
    | inr e ↦ rw e h
  ]

  prune_expired-Guarded :
      (now : ℕ) (s : AdaptiveRuntime) → Guarded s → Guarded (prune_expired now s)
  unfolding prune_expired Guarded
  prune_expired-Guarded now s g p = Fits-live now (policy_of config p) (s.overrides p) (g p)

  Held-override_at :
      (policy : AdaptivePolicyConfig) (action : TuningAction) (now current : ℕ)
      → (let proposed = proposal action current policy.step in
          (ltb proposed policy.min_value || ltb policy.max_value proposed || proposed == current)
          ≡ false)
      → Held policy (override_at policy now current (proposal action current policy.step))
  unfolding override_at proposal
  Held-override_at policy TuningAction.increase now current h = record {
    at_least = ground arith;
    at_most = ground arith;
    one_step_up = omega arith;
    one_step_down = ground arith;
    changed = ground arith;
    ends = refl;
  }
  Held-override_at policy TuningAction.decrease now current h = record {
    at_least = ground arith;
    at_most = ground arith;
    one_step_up = omega arith;
    one_step_down = omega arith;
    changed = ground arith;
    ends = refl;
  }

  insert-Guarded :
      (p : Parameter) (policy : AdaptivePolicyConfig) (o : RuntimeOverride) (s : AdaptiveRuntime)
      (q : Parameter)
      → policy_of config p ≡ some policy
      → Held policy o
      → Guarded s
      → Fits (policy_of config q) (insert p o s.overrides q)
  unfolding Guarded
  insert-Guarded p policy o s q e h g = elim (Bool-cases (code q == code p)) [
    | inl b ↦
        let same : code q ≡ code p = ground arith in
        rw b (subst (λ x. Fits x (some o)) (sym (ap (policy_at config) same ∙ e)) h)
    | inr b ↦ rw b (g q)
  ]

  apply-Guarded :
      (mode : AdaptiveMode) (p : Parameter) (policy : AdaptivePolicyConfig)
      (now current proposed : ℕ) (s : AdaptiveRuntime)
      → policy_of config p ≡ some policy
      → Held policy (override_at policy now current proposed)
      → Guarded s
      → Guarded (apply mode p policy now current proposed s)
  unfolding apply Guarded
  apply-Guarded AdaptiveMode.off p policy now current proposed s e h g = g
  apply-Guarded AdaptiveMode.dry_run p policy now current proposed s e h g = g
  apply-Guarded AdaptiveMode.auto_safe p policy now current proposed s e h g =
      λ q. insert-Guarded p policy _ s q e h g

  adjust_from-Guarded :
      (mode : AdaptiveMode) (clock : Clock) (p : Parameter) (policy : AdaptivePolicyConfig)
      (action : TuningAction) (current : ℕ) (s : AdaptiveRuntime)
      → policy_of config p ≡ some policy
      → Guarded s
      → Guarded (adjust_from mode clock p policy action current s)
  unfolding adjust_from
  adjust_from-Guarded mode clock p policy action current s e g =
      let proposed = proposal action current policy.step in
      elim (Bool-cases (cooldown_active clock.checked p policy.cooldown_secs s)) [
        | inl c ↦ rw c g
        | inr c ↦
            elim (Bool-cases (
              ltb proposed policy.min_value
              || ltb policy.max_value proposed
              || proposed == current)) [
                | inl b ↦ rw (c, b) g
                | inr b ↦
                    rw (c, b)
                      (apply-Guarded mode p policy clock.applied current proposed s e
                        (Held-override_at policy action clock.applied current b) g)
              ]
      ]

  try_adjust-Guarded :
      (clock : Clock) (p : Parameter) (policy : AdaptivePolicyConfig) (default : ℕ)
      (action : TuningAction) (s : AdaptiveRuntime)
      → policy_of config p ≡ some policy
      → Guarded s
      → Guarded (try_adjust config.mode clock p policy default action s)
  unfolding try_adjust get_u64
  try_adjust-Guarded clock p policy default action s e g =
      keep_if config Guarded (not policy.enabled || not (is_safe_parameter p)) _ _ g (
        adjust_from-Guarded config.mode clock p policy action _ (prune_expired clock.pruned s) e
          (prune_expired-Guarded clock.pruned s g))

  new-Guarded : Guarded new
  unfolding Guarded new
  new-Guarded p = tt

  -- Whatever the runtime observes, each override lies within the limits of its parameter's policy,
  -- differs from the value before it by at most one step, and ends after the policy's time, which
  -- is at least a second; a parameter that no observer tunes has no override.
  pub observe_all-Guarded : (os : List (Observation config)) → Guarded (observe_all config os new)
  observe_all-Guarded os =
      observe_all-keeps config Guarded prune_expired-Guarded try_adjust-Guarded os new new-Guarded
