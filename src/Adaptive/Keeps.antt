-- ===== src/Adaptive/Keeps.antt =====
-- What the observers of the runtime keep (src/adaptive/mod.rs: `observe_qdrant_scroll`,
-- `observe_outbox_claim`, `observe_outbox_error`).
use llm.Base.{
  ℕ, ◌≡◌, refl, max, Bool, true, false, ◌&&◌, Option, none, some, List, [], ◌∷◌, ◌==◌,
  if◌then◌else◌,
}
use llm.Adaptive.{
  TuningAction, Parameter, code, AdaptivePolicyConfig, AdaptiveConfig, AdaptiveRuntime, Clock,
  prune_expired, get_u64, try_adjust,
}
use llm.Adaptive.Observers.{
  ErrorReason, adjust_scroll, scroll_observed, observe_qdrant_scroll, claim_observed,
  observe_outbox_claim, observe_outbox_error, Observation, scroll, claim, failure, reading, observe,
  observe_all,
}

module _ (config : AdaptiveConfig) where
  -- The policies that the observers consult.
  abbrev pub policy_at : ℕ → Option AdaptivePolicyConfig
  policy_at n =
      if n == 0
      then some config.scroll_page_size
      else if n == 2
      then some config.batch_size
      else if n == 3
      then some config.poll_interval
      else none

  abbrev pub policy_of : Parameter → Option AdaptivePolicyConfig
  policy_of p = policy_at (code p)

  -- A property that pruning and the adjustments by a parameter's own policy keep, is kept.
  module _ {ℓ} (P : AdaptiveRuntime → Type ℓ) where
    abbrev Pruned : Type ℓ
    Pruned = (now : ℕ) (s : AdaptiveRuntime) → P s → P (prune_expired now s)

    abbrev Adjusted : Type ℓ
    Adjusted =
        (clock : Clock) (p : Parameter) (policy : AdaptivePolicyConfig) (default : ℕ)
        (action : TuningAction) (s : AdaptiveRuntime)
        → policy_of p ≡ some policy
        → P s
        → P (try_adjust config.mode clock p policy default action s)

    pub keep_if : (b : Bool) (s t : AdaptiveRuntime) → P s → P t → P (if b then s else t)
    keep_if true s t hs ht = hs
    keep_if false s t hs ht = ht

    adjust_scroll-keeps :
        Adjusted
        → (clock : Clock) (default : ℕ) (action : TuningAction) (s : AdaptiveRuntime) → P s
        → P (adjust_scroll config clock default action s)
    unfolding adjust_scroll
    adjust_scroll-keeps adj clock default action s h =
        adj clock Parameter.qdrant_scroll_page_size config.scroll_page_size default action s refl h

    scroll_observed-keeps :
        Adjusted
        → (clock : Clock) (pages latency : ℕ) (reason : Option ErrorReason) (default : ℕ)
          (s : AdaptiveRuntime)
        → P s
        → P (scroll_observed config clock pages latency reason default s)
    unfolding scroll_observed
    scroll_observed-keeps adj clock pages latency (some r) default s h =
        keep_if _ _ _ (adjust_scroll-keeps adj clock default TuningAction.decrease s h) h
    scroll_observed-keeps adj clock pages latency none default s h =
        keep_if _ _ _ (adjust_scroll-keeps adj clock default TuningAction.increase s h)
          (keep_if _ _ _ (adjust_scroll-keeps adj clock default TuningAction.decrease s h) h)

    claim_observed-keeps :
        Adjusted
        → (clock : Clock) (claimed default : ℕ) (r : ℕ × AdaptiveRuntime) → P r.1
        → P (claim_observed config clock claimed default r)
    unfolding claim_observed
    claim_observed-keeps adj clock claimed default (value, s) h =
        keep_if _ _ _
          (adj clock Parameter.publisher_batch_size config.batch_size (max default 1)
            TuningAction.increase s refl h)
          (keep_if (claimed == 0 && config.poll_interval.enabled) _ _
            (adj clock Parameter.outbox_poll_interval_ms config.poll_interval
              (max config.default_outbox_poll_interval_ms 100) TuningAction.increase s refl h)
            h)

    observe-keeps :
        Pruned
        → Adjusted
        → (o : Observation config) (s : AdaptiveRuntime) → P s
        → P (observe config o s)
    unfolding observe observe_qdrant_scroll observe_outbox_claim observe_outbox_error get_u64
    observe-keeps pr adj (scroll clock pages latency reason default) s h =
        keep_if _ _ _ h (scroll_observed-keeps adj clock pages latency reason default s h)
    observe-keeps pr adj (claim read clock claimed default) s h =
        keep_if _ _ _ h (claim_observed-keeps adj clock claimed default _ (pr read s h))
    observe-keeps pr adj (failure clock default) s h = keep_if _ _ _ h (
        adj clock Parameter.publisher_batch_size config.batch_size (max default 1)
          TuningAction.decrease s refl h)
    observe-keeps pr adj (reading now p default) s h = pr now s h

    pub observe_all-keeps :
        Pruned
        → Adjusted
        → (os : List (Observation config)) (s : AdaptiveRuntime) → P s
        → P (observe_all config os s)
    unfolding observe_all
    observe_all-keeps pr adj [] s h = h
    observe_all-keeps pr adj (o ∷ os) s h =
        observe_all-keeps pr adj os (observe config o s) (observe-keeps pr adj o s h)
