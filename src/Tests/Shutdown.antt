-- ===== src/Tests/Shutdown.antt =====
-- Three runs of a shutdown.
use llm.Base.{ℕ, refl, true, false, ◌⊎◌}
use llm.Shutdown.{Phase, Coordinator, Action, new, enabled, perform, Run, start, step}
use llm.Shutdown.Drained.{Drained, Overlapped, drain-Drained}

abbrev stopped : ℕ → Phase → Coordinator
stopped active phase = record {
  stop_accepting = true;
  stop_claiming = true;
  active = active;
  notifying = 0;
  drain = phase;
}

-- The request leaves while `drain` waits.
in_time : Run new (stopped 0 (Phase.returned true))
unfolding enabled perform
in_time =
    step Action.notify
      (step Action.leave
        (step Action.register
          (step Action.load (step Action.cancel (step Action.enter (start new) refl) refl) refl)
          refl)
        refl)
      refl

drain-Drained_example :
    Drained new (stopped 0 (Phase.returned true)) ⊎ Overlapped new (stopped 0 (Phase.returned true))
drain-Drained_example = drain-Drained (stopped 0 (Phase.returned true)) in_time refl

-- The request leaves after `drain` has loaded the counter and before it waits: the wake-up is lost,
-- and `drain` reports a failure although no request is active.
lost_wakeup : Run new (stopped 0 (Phase.returned false))
unfolding enabled perform
lost_wakeup =
    step Action.timeout
      (step Action.register
        (step Action.notify
          (step Action.leave
            (step Action.load (step Action.cancel (step Action.enter (start new) refl) refl) refl)
            refl)
          refl)
        refl)
      refl

-- A second request enters between the two steps of the drop of the first one's guard. The late
-- notification wakes `drain`, which reports success while the second request is active: since the
-- tokens were cancelled the counter has never been 0.
early_success : Run new (stopped 1 (Phase.returned true))
unfolding enabled perform
early_success =
    step Action.notify
      (step Action.register
        (step Action.load
          (step Action.cancel
            (step Action.enter (step Action.leave (step Action.enter (start new) refl) refl) refl)
            refl)
          refl)
        refl)
      refl
