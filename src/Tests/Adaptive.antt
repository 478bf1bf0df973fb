-- ===== src/Tests/Adaptive.antt =====
-- A batch size that rises in steps of 10 up to 60.
use llm.Base.{ℕ, true, List, [], ◌∷◌}
use llm.Adaptive.{AdaptiveMode, AdaptivePolicyConfig, AdaptiveConfig, AdaptiveRuntime, Clock, new}
use llm.Adaptive.Observers.{Observation, claim, failure, observe_all}
use llm.Adaptive.Guardrail.{Guarded, observe_all-Guarded}

abbrev policy : AdaptivePolicyConfig
policy = record {
  enabled = true;
  min_value = 10;
  max_value = 60;
  step = 10;
  cooldown_secs = 2;
  ttl_secs = 5;
}

abbrev config : AdaptiveMode → AdaptiveConfig
config mode = record {
  mode = mode;
  default_outbox_poll_interval_ms = 500;
  scroll_page_size = policy;
  batch_size = policy;
  poll_interval = policy;
}

abbrev at : ℕ → Clock
at now = record { pruned = now; checked = now; applied = now }

-- Two full batches within the cooldown, and an error after it.
abbrev seen : (mode : AdaptiveMode) → List (Observation (config mode))
seen mode =
    claim 1000000 (at 1000000) 40 40
    ∷ claim 2000000 (at 2000000) 50 40
    ∷ failure (at 4000000) 40
    ∷ []

abbrev tuned : AdaptiveRuntime
tuned = observe_all (config AdaptiveMode.auto_safe) (seen AdaptiveMode.auto_safe) new

observe_all-Guarded_example : Guarded (config AdaptiveMode.auto_safe) tuned
observe_all-Guarded_example =
    observe_all-Guarded (config AdaptiveMode.auto_safe) (seen AdaptiveMode.auto_safe)
