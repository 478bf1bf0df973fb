-- ===== src/Shutdown.antt =====
-- The shutdown coordinator (src/shutdown/mod.rs). Requests enter and leave on other threads, so a run
-- is a sequence of atomic actions: the drop of a guard subtracts and then notifies, `drain` loads the
-- counter and then registers as a waiter.
pub mod Drained
use llm.Base.{
  ℕ, zero, suc, ◌+◌, ◌-◌, ◌≡◌, Bool, true, false, ◌&&◌, List, [], ◌∷◌, ltb, ◌==◌, if◌then◌else◌,
}

-- Where `drain` stands.
pub data Phase : Type 0 where
  idle cancelled loaded waiting : Phase
  returned : Bool → Phase

-- `ShutdownCoordinator`, and the one call of `drain`.
pub record Coordinator : Type 0 where
  pub stop_accepting : Bool
  pub stop_claiming : Bool
  pub active : ℕ
  -- How many dropped guards have taken the counter to 0 and not yet called `notify_waiters`.
  pub notifying : ℕ
  pub drain : Phase

pub data Action : Type 0 where
  enter leave notify cancel load register timeout : Action

abbrev pub new : Coordinator
new = record {
  stop_accepting = false;
  stop_claiming = false;
  active = 0;
  notifying = 0;
  drain = Phase.idle;
}

-- `notify_waiters` wakes a waiter that has registered; it leaves nothing behind for a later one.
abbrev pub notified : Phase → Phase
notified Phase.idle = Phase.idle
notified Phase.cancelled = Phase.cancelled
notified Phase.loaded = Phase.loaded
notified Phase.waiting = Phase.returned true
notified (Phase.returned b) = Phase.returned b

abbrev pub is_idle : Phase → Bool
is_idle Phase.idle = true
is_idle _ = false

abbrev pub is_cancelled : Phase → Bool
is_cancelled Phase.cancelled = true
is_cancelled _ = false

abbrev pub is_loaded : Phase → Bool
is_loaded Phase.loaded = true
is_loaded _ = false

abbrev pub is_waiting : Phase → Bool
is_waiting Phase.waiting = true
is_waiting _ = false

-- Can the action happen? A guard leaves only if one has entered, and notifies only after it has
-- taken the counter to 0.
unfoldable pub enabled : Action → Coordinator → Bool
enabled Action.enter s = true
enabled Action.leave s = ltb 0 s.active
enabled Action.notify s = ltb 0 s.notifying
enabled Action.cancel s = is_idle s.drain
enabled Action.load s = is_cancelled s.drain
enabled Action.register s = is_loaded s.drain
enabled Action.timeout s = is_waiting s.drain

unfoldable pub perform : Action → Coordinator → Coordinator
perform Action.enter s = record s { active = s.active + 1 }
perform Action.leave s = record s {
  active = s.active - 1;
  notifying = if s.active == 1 then s.notifying + 1 else s.notifying;
}
perform Action.notify s = record s { notifying = s.notifying - 1; drain = notified s.drain }
perform Action.cancel s = record s {
  stop_accepting = true;
  stop_claiming = true;
  drain = Phase.cancelled;
}
perform Action.load s = record s {
  drain = if s.active == 0 then Phase.returned true else Phase.loaded;
}
perform Action.register s = record s { drain = Phase.waiting }
perform Action.timeout s = record s { drain = Phase.returned false }

-- A run of enabled actions.
pub data Run : Coordinator → Coordinator → Type 0 where
  start : (s : Coordinator) → Run s s
  step : {s t : Coordinator} (a : Action) → Run s t → enabled a t ≡ true → Run s (perform a t)
