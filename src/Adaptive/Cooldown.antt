-- ===== src/Adaptive/Cooldown.antt =====
-- Expiry, the cooldown between changes, and the modes that change nothing (src/adaptive/mod.rs).
use llm.Base.{
  ℕ, ◌+◌, ◌≤◌, ◌<◌, ◌≡◌, ◌≢◌, refl, true, false, ◌||◌, not, Option, none, some, List, arith, ltb,
  leb, ◌==◌, inl, inr, ◌⊎◌, Bool-cases,
}
use llm.Adaptive.{
  AdaptiveMode, TuningAction, Parameter, code, is_safe_parameter, AdaptivePolicyConfig,
  AdaptiveConfig, RuntimeOverride, AdaptiveRuntime, Clock, secs, new, live, prune_expired, value_or,
  get_u64, within, cooldown_active, proposal, apply, adjust_from, try_adjust,
}
use llm.Adaptive.Observers.{Observation, observe_all}
use llm.Adaptive.Keeps.{policy_of, keep_if, observe_all-keeps}
use llm.Adaptive.Guardrail.{Fits, Held, Guarded, observe_all-Guarded}

-- What reading a value at an instant may give.
abbrev pub Source : ℕ → ℕ → Option AdaptivePolicyConfig → ℕ → Type 0
Source now default none v = v ≡ default
Source now default (some policy) v =
    (v ≡ default) ⊎ ((o : RuntimeOverride) × (v ≡ o.value) × (now < o.expires_at) × Held policy o)

value_or-Source :
    (now default : ℕ) (policy : Option AdaptivePolicyConfig) (o : Option RuntimeOverride)
    → Fits policy o
    → Source now default policy (value_or default (live now o))
unfolding value_or live
value_or-Source now default none none h = refl
value_or-Source now default (some policy) none h = inl refl
value_or-Source now default none (some o) h = cc
value_or-Source now default (some policy) (some o) h = elim (Bool-cases (leb o.expires_at now)) [
  | inl e ↦ inl (rw e refl)
  | inr e ↦ inr (o, rw e refl, ground arith, h)
]

module _ (config : AdaptiveConfig) where
  -- Whatever was observed before, a parameter reads as its default or as the value of an override
  -- that has not ended and that its policy allows; without a policy it reads as its default.
  pub get_u64-Source :
      (os : List (Observation config)) (now : ℕ) (p : Parameter) (default : ℕ)
      → Source now default
          (policy_of config p)
          (get_u64 now p default (observe_all config os new)).0
  unfolding get_u64 prune_expired Guarded
  get_u64-Source os now p default =
      value_or-Source now default (policy_of config p) ((observe_all config os new).overrides p)
        (observe_all-Guarded config os p)

  -- No override and no change.
  pub Quiet : AdaptiveRuntime → Type 0
  Quiet s = (p : Parameter) → (s.overrides p ≡ none) × (s.last_change p ≡ none)

  prune_expired-Quiet : (now : ℕ) (s : AdaptiveRuntime) → Quiet s → Quiet (prune_expired now s)
  unfolding prune_expired Quiet live
  prune_expired-Quiet now s q p = (rw (q p).0 refl, (q p).1)

  apply-quiet :
      (mode : AdaptiveMode) (p : Parameter) (policy : AdaptivePolicyConfig)
      (now current proposed : ℕ) (s : AdaptiveRuntime)
      → mode ≢ AdaptiveMode.auto_safe
      → apply mode p policy now current proposed s ≡ s
  unfolding apply
  apply-quiet AdaptiveMode.off p policy now current proposed s ne = refl
  apply-quiet AdaptiveMode.dry_run p policy now current proposed s ne = refl
  apply-quiet AdaptiveMode.auto_safe p policy now current proposed s ne = absurd (ne refl)

  adjust_from-Quiet :
      (mode : AdaptiveMode) (clock : Clock) (p : Parameter) (policy : AdaptivePolicyConfig)
      (action : TuningAction) (current : ℕ) (s : AdaptiveRuntime)
      → mode ≢ AdaptiveMode.auto_safe
      → Quiet s
      → Quiet (adjust_from mode clock p policy action current s)
  unfolding adjust_from
  adjust_from-Quiet mode clock p policy action current s ne q =
      let proposed = proposal action current policy.step in
      keep_if config Quiet (cooldown_active clock.checked p policy.cooldown_secs s) _ _ q (
        keep_if config Quiet
          (ltb proposed policy.min_value || ltb policy.max_value proposed || proposed == current) _
          _ q (rw (apply-quiet mode p policy clock.applied current proposed s ne) q))

  try_adjust-Quiet :
      config.mode ≢ AdaptiveMode.auto_safe
      → (clock : Clock) (p : Parameter) (policy : AdaptivePolicyConfig) (default : ℕ)
        (action : TuningAction) (s : AdaptiveRuntime)
      → policy_of config p ≡ some policy
      → Quiet s
      → Quiet (try_adjust config.mode clock p policy default action s)
  unfolding try_adjust get_u64
  try_adjust-Quiet ne clock p policy default action s e q =
      keep_if config Quiet (not policy.enabled || not (is_safe_parameter p)) _ _ q (
        adjust_from-Quiet config.mode clock p policy action _ (prune_expired clock.pruned s) ne
          (prune_expired-Quiet clock.pruned s q))

  -- In the modes OFF and DRY_RUN nothing is ever overridden, whatever the runtime observes.
  pub observe_all-Quiet :
      (os : List (Observation config))
      → config.mode ≢ AdaptiveMode.auto_safe
      → Quiet (observe_all config os new)
  unfolding Quiet new
  observe_all-Quiet os ne =
      observe_all-keeps config Quiet prune_expired-Quiet (try_adjust-Quiet ne) os new new-Quiet
    where
      new-Quiet : Quiet new
      new-Quiet p = (refl, refl)

-- So much time has passed since the last change, if there was one.
abbrev Elapsed : ℕ → ℕ → Option ℕ → Type 0
Elapsed cooldown now none = Unit
Elapsed cooldown now (some last) = last + secs cooldown ≤ now

-- A parameter is not changed, or changed now and the cooldown has passed.
abbrev pub Spaced : ℕ → ℕ → Option ℕ → Option ℕ → Type 0
Spaced cooldown now before after =
    (after ≡ before) ⊎ ((after ≡ some now) × Elapsed cooldown now before)

Elapsed-of_within :
    (checked now cooldown : ℕ) (last : Option ℕ)
    → within checked cooldown last ≡ false
    → checked ≤ now
    → 1 ≤ cooldown
    → Elapsed cooldown now last
unfolding within
Elapsed-of_within checked now cooldown none idle le pos = tt
Elapsed-of_within checked now cooldown (some last) idle le pos = ground arith

apply-Spaced :
    (mode : AdaptiveMode) (clock : Clock) (p : Parameter) (policy : AdaptivePolicyConfig)
    (current proposed : ℕ) (s : AdaptiveRuntime)
    → Elapsed policy.cooldown_secs clock.applied (s.last_change p)
    → Spaced policy.cooldown_secs clock.applied
        (s.last_change p)
        ((apply mode p policy clock.applied current proposed s).last_change p)
unfolding apply
apply-Spaced AdaptiveMode.off clock p policy current proposed s passed = inl refl
apply-Spaced AdaptiveMode.dry_run clock p policy current proposed s passed = inl refl
apply-Spaced AdaptiveMode.auto_safe clock p policy current proposed s passed =
    let self : (code p == code p) ≡ true = ground arith in inr (rw self refl, passed)

module _ (mode : AdaptiveMode) (clock : Clock) (p : Parameter) (policy : AdaptivePolicyConfig) where
  adjust_from-Spaced :
      (action : TuningAction) (current : ℕ) (s : AdaptiveRuntime)
      → clock.checked ≤ clock.applied
      → 1 ≤ policy.cooldown_secs
      → Spaced policy.cooldown_secs clock.applied
          (s.last_change p)
          ((adjust_from mode clock p policy action current s).last_change p)
  unfolding adjust_from cooldown_active
  adjust_from-Spaced action current s le pos =
      let proposed = proposal action current policy.step in
      elim (Bool-cases (within clock.checked policy.cooldown_secs (s.last_change p))) [
        | inl c ↦ rw c (inl refl)
        | inr c ↦
            elim (Bool-cases (
              ltb proposed policy.min_value
              || ltb policy.max_value proposed
              || proposed == current)) [
                | inl b ↦ rw (c, b) (inl refl)
                | inr b ↦
                    rw (c, b)
                      (apply-Spaced mode clock p policy current proposed s (
                        Elapsed-of_within clock.checked clock.applied policy.cooldown_secs
                          (s.last_change p) c le pos))
              ]
      ]

  -- When an adjustment changes a parameter, the policy's cooldown has passed since the last change of
  -- that parameter, if the clock does not run backwards between the check and the change and the
  -- cooldown is at least a second.
  pub try_adjust-Spaced :
      (default : ℕ) (action : TuningAction) (s : AdaptiveRuntime)
      → clock.checked ≤ clock.applied
      → 1 ≤ policy.cooldown_secs
      → Spaced policy.cooldown_secs clock.applied
          (s.last_change p)
          ((try_adjust mode clock p policy default action s).last_change p)
  unfolding try_adjust get_u64 prune_expired
  try_adjust-Spaced default action s le pos =
      elim (Bool-cases (not policy.enabled || not (is_safe_parameter p))) [
        | inl e ↦ rw e (inl refl)
        | inr e ↦ rw e (adjust_from-Spaced action _ (prune_expired clock.pruned s) le pos)
      ]
