-- ===== src/Adaptive.antt =====
-- Adaptive tuning of runtime parameters (src/adaptive/mod.rs). Instants and durations are
-- microseconds; each call reads the clock at most three times, in order.
pub mod Observers
pub mod Keeps
pub mod Guardrail
pub mod Cooldown
use llm.Base.{
  ℕ, ◌+◌, ◌-◌, ◌*◌, ◌≤◌, max, Bool, true, false, ◌&&◌, ◌||◌, not, Option, none, some, List, [], ◌∷◌,
  ltb, leb, ◌==◌, if◌then◌else◌, saturating_add,
}

pub data AdaptiveMode : Type 0 where
  off dry_run auto_safe : AdaptiveMode

pub data TuningAction : Type 0 where
  increase decrease : TuningAction

-- The names of parameters: those of `is_safe_parameter`, and all others, by a number.
pub data Parameter : Type 0 where
  qdrant_scroll_page_size qdrant_scroll_max_concurrency publisher_batch_size : Parameter
  outbox_poll_interval_ms embedding_batch_size qdrant_timeout_ms : Parameter
  max_concurrent_search max_concurrent_indexing : Parameter
  other : ℕ → Parameter

abbrev pub code : Parameter → ℕ
code Parameter.qdrant_scroll_page_size = 0
code Parameter.qdrant_scroll_max_concurrency = 1
code Parameter.publisher_batch_size = 2
code Parameter.outbox_poll_interval_ms = 3
code Parameter.embedding_batch_size = 4
code Parameter.qdrant_timeout_ms = 5
code Parameter.max_concurrent_search = 6
code Parameter.max_concurrent_indexing = 7
code (Parameter.other n) = 8 + n

abbrev pub is_safe_parameter : Parameter → Bool
is_safe_parameter p = ltb (code p) 8

pub record AdaptivePolicyConfig : Type 0 where
  pub enabled : Bool
  pub min_value : ℕ
  pub max_value : ℕ
  pub step : ℕ
  pub cooldown_secs : ℕ
  pub ttl_secs : ℕ

-- `AdaptiveConfig`, with the policies that the code consults.
pub record AdaptiveConfig : Type 0 where
  pub mode : AdaptiveMode
  pub default_outbox_poll_interval_ms : ℕ
  pub scroll_page_size : AdaptivePolicyConfig
  pub batch_size : AdaptivePolicyConfig
  pub poll_interval : AdaptivePolicyConfig

pub record RuntimeOverride : Type 0 where
  pub value : ℕ
  pub previous_value : ℕ
  pub applied_at : ℕ
  pub expires_at : ℕ

pub record AdaptiveRuntime : Type 0 where
  pub overrides : Parameter → Option RuntimeOverride
  pub last_change : Parameter → Option ℕ

-- The instants that one call reads: at the pruning, the check of the cooldown and the change.
pub record Clock : Type 0 where
  pub pruned : ℕ
  pub checked : ℕ
  pub applied : ℕ

abbrev pub secs : ℕ → ℕ
secs n = 1000000 * n

unfoldable pub new : AdaptiveRuntime
new = record { overrides = λ p. none; last_change = λ p. none }

unfoldable pub live : ℕ → Option RuntimeOverride → Option RuntimeOverride
live now none = none
live now (some o) = if leb o.expires_at now then none else some o

unfoldable pub prune_expired : ℕ → AdaptiveRuntime → AdaptiveRuntime
unfolding live
prune_expired now s = record s { overrides = λ p. live now (s.overrides p) }

unfoldable pub value_or : ℕ → Option RuntimeOverride → ℕ
value_or default none = default
value_or default (some o) = o.value

-- The value, and the state without the expired overrides.
unfoldable pub get_u64 : ℕ → Parameter → ℕ → AdaptiveRuntime → ℕ × AdaptiveRuntime
unfolding prune_expired value_or
get_u64 now p default s =
    let pruned = prune_expired now s in (value_or default (pruned.overrides p), pruned)

unfoldable pub within : ℕ → ℕ → Option ℕ → Bool
within now cooldown none = false
within now cooldown (some last) = ltb (now - last) (secs cooldown)

unfoldable pub cooldown_active : ℕ → Parameter → ℕ → AdaptiveRuntime → Bool
unfolding within
cooldown_active now p cooldown s = within now cooldown (s.last_change p)

unfoldable pub proposal : TuningAction → ℕ → ℕ → ℕ
proposal TuningAction.increase current step = saturating_add current step
proposal TuningAction.decrease current step = current - step

abbrev pub insert {ℓ} : {A : Type ℓ} → Parameter → A → (Parameter → Option A) → Parameter → Option A
insert p a f q = if code q == code p then some a else f q

unfoldable pub override_at : AdaptivePolicyConfig → ℕ → ℕ → ℕ → RuntimeOverride
override_at policy now current proposed = record {
  value = proposed;
  previous_value = current;
  applied_at = now;
  expires_at = now + secs (max policy.ttl_secs 1);
}

unfoldable pub apply :
    AdaptiveMode → Parameter → AdaptivePolicyConfig → ℕ → ℕ → ℕ → AdaptiveRuntime → AdaptiveRuntime
unfolding override_at
apply AdaptiveMode.off p policy now current proposed s = s
apply AdaptiveMode.dry_run p policy now current proposed s = s
apply AdaptiveMode.auto_safe p policy now current proposed s = record {
  overrides = insert p (override_at policy now current proposed) s.overrides;
  last_change = insert p now s.last_change;
}

-- What follows the reading of the current value.
unfoldable pub adjust_from :
    AdaptiveMode
    → Clock
    → Parameter
    → AdaptivePolicyConfig
    → TuningAction
    → ℕ
    → AdaptiveRuntime
    → AdaptiveRuntime
unfolding apply proposal cooldown_active
adjust_from mode clock p policy action current s =
    let proposed = proposal action current policy.step in
    if cooldown_active clock.checked p policy.cooldown_secs s
    then s
    else if ltb proposed policy.min_value || ltb policy.max_value proposed || proposed == current
    then s
    else apply mode p policy clock.applied current proposed s

unfoldable pub try_adjust :
    AdaptiveMode
    → Clock
    → Parameter
    → AdaptivePolicyConfig
    → ℕ
    → TuningAction
    → AdaptiveRuntime
    → AdaptiveRuntime
unfolding adjust_from get_u64
try_adjust mode clock p policy default action s =
    if not policy.enabled || not (is_safe_parameter p)
    then s
    else let (current, pruned) = get_u64 clock.pruned p default s in
      adjust_from mode clock p policy action current pruned
