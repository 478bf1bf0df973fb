-- ===== src/Adaptive/Observers.antt =====
-- What the runtime observes (src/adaptive/mod.rs: `observe_qdrant_scroll`, `observe_outbox_claim`,
-- `observe_outbox_error`).
use llm.Base.{
  ℕ, max, Bool, true, false, ◌&&◌, ◌||◌, not, Option, none, some, List, [], ◌∷◌, ltb, leb, ◌==◌,
  if◌then◌else◌,
}
use llm.Adaptive.{
  AdaptiveMode, TuningAction, Parameter, AdaptiveConfig, AdaptiveRuntime, Clock, secs, get_u64,
  try_adjust,
}

pub data ErrorReason : Type 0 where
  timeout limit_exceeded unspecified : ErrorReason

abbrev pub is_grave : ErrorReason → Bool
is_grave ErrorReason.timeout = true
is_grave ErrorReason.limit_exceeded = true
is_grave ErrorReason.unspecified = false

abbrev pub is_off : AdaptiveMode → Bool
is_off AdaptiveMode.off = true
is_off _ = false

module _ (config : AdaptiveConfig) where
  -- `try_adjust` of the page size.
  unfoldable pub adjust_scroll : Clock → ℕ → TuningAction → AdaptiveRuntime → AdaptiveRuntime
  unfolding try_adjust
  adjust_scroll clock default action s =
      try_adjust config.mode clock Parameter.qdrant_scroll_page_size config.scroll_page_size default
        action s

  unfoldable pub scroll_observed :
      Clock → ℕ → ℕ → Option ErrorReason → ℕ → AdaptiveRuntime → AdaptiveRuntime
  unfolding adjust_scroll
  scroll_observed clock pages latency (some reason) default s =
      if is_grave reason || ltb (secs 10) latency
      then adjust_scroll clock default TuningAction.decrease s
      else s
  scroll_observed clock pages latency none default s =
      if ltb 20 pages && ltb (secs 5) latency
      then adjust_scroll clock default TuningAction.increase s
      else if ltb (secs 10) latency
      then adjust_scroll clock default TuningAction.decrease s
      else s

  unfoldable pub observe_qdrant_scroll :
      Clock → ℕ → ℕ → Option ErrorReason → ℕ → AdaptiveRuntime → AdaptiveRuntime
  unfolding scroll_observed
  observe_qdrant_scroll clock pages latency reason default s =
      if is_off config.mode || not config.scroll_page_size.enabled
      then s
      else scroll_observed clock pages latency reason default s

  -- A value as an `i64`, raised to 1: one of 2 ^ 63 or more wraps round to a negative number.
  unfoldable pub effective : ℕ → ℕ
  effective value = if ltb value 9223372036854775808 then max value 1 else 1

  unfoldable pub claim_observed : Clock → ℕ → ℕ → ℕ × AdaptiveRuntime → AdaptiveRuntime
  unfolding try_adjust effective
  claim_observed clock claimed default (value, s) =
      if leb (effective value) claimed
      then try_adjust config.mode clock Parameter.publisher_batch_size config.batch_size
          (max default 1) TuningAction.increase s
      else if claimed == 0 && config.poll_interval.enabled
      then try_adjust config.mode clock Parameter.outbox_poll_interval_ms config.poll_interval
          (max config.default_outbox_poll_interval_ms 100) TuningAction.increase s
      else s

  -- A default below 1 is raised to 1 wherever it is read, so the model has none below 0. `read` is
  -- the instant of the first reading of the batch size.
  unfoldable pub observe_outbox_claim : ℕ → Clock → ℕ → ℕ → AdaptiveRuntime → AdaptiveRuntime
  unfolding claim_observed
  observe_outbox_claim read clock claimed default s =
      if is_off config.mode || not config.batch_size.enabled
      then s
      else claim_observed clock claimed default
          (get_u64 read Parameter.publisher_batch_size (max default 1) s)

  unfoldable pub observe_outbox_error : Clock → ℕ → AdaptiveRuntime → AdaptiveRuntime
  unfolding try_adjust
  observe_outbox_error clock default s =
      if is_off config.mode || not config.batch_size.enabled
      then s
      else try_adjust config.mode clock Parameter.publisher_batch_size config.batch_size
          (max default 1) TuningAction.decrease s

  -- What the runtime can observe.
  pub data Observation : Type 0 where
    scroll : Clock → ℕ → ℕ → Option ErrorReason → ℕ → Observation
    claim : ℕ → Clock → ℕ → ℕ → Observation
    failure : Clock → ℕ → Observation
    reading : ℕ → Parameter → ℕ → Observation

  unfoldable pub observe : Observation → AdaptiveRuntime → AdaptiveRuntime
  unfolding observe_qdrant_scroll observe_outbox_claim observe_outbox_error get_u64
  observe (scroll clock pages latency reason default) s =
      observe_qdrant_scroll clock pages latency reason default s
  observe (claim read clock claimed default) s = observe_outbox_claim read clock claimed default s
  observe (failure clock default) s = observe_outbox_error clock default s
  observe (reading now p default) s = (get_u64 now p default s).1

  unfoldable pub observe_all : List Observation → AdaptiveRuntime → AdaptiveRuntime
  unfolding observe
  observe_all [] s = s
  observe_all (o ∷ os) s = observe_all os (observe o s)
