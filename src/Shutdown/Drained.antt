-- ===== src/Shutdown/Drained.antt =====
-- What `drain` reports (src/shutdown/mod.rs).
use llm.Base.{◌<◌, ◌≡◌, refl, Bool, true, false, arith, inl, inr, ◌⊎◌, ltb, ◌==◌, Bool-cases}
use llm.Shutdown.{Phase, Coordinator, Action, new, is_idle, enabled, perform, Run, start, step}

abbrev is_drained : Phase → Bool
is_drained (Phase.returned true) = true
is_drained _ = false

-- Both tokens are cancelled.
abbrev Stopped : Coordinator → Type 0
Stopped s = (s.stop_accepting ≡ true) × (s.stop_claiming ≡ true)

-- A state of the run in which no request is active and none is accepted any more.
abbrev pub Drained : Coordinator → Coordinator → Type 0
Drained s u = (t : Coordinator) × Run s t × Run t u × (t.active ≡ 0) × Stopped t

-- When `drain` cancelled the tokens, a dropped guard had taken the counter to 0 and not notified.
abbrev pub Overlapped : Coordinator → Coordinator → Type 0
Overlapped s u =
    (t : Coordinator) × Run s t
    × (is_idle t.drain ≡ true)
    × (0 < t.notifying)
    × Run (perform Action.cancel t) u

-- Nobody notifies, and `drain` has reported no success.
abbrev Pending : Coordinator → Type 0
Pending u = (u.notifying ≡ 0) × (is_drained u.drain ≡ false)

abbrev Excused : Coordinator → Coordinator → Type 0
Excused s u = Drained s u ⊎ Overlapped s u

-- Until `drain` is called the tokens may be live; then success has its reason.
abbrev Known : Coordinator → Coordinator → Type 0
Known s u = (is_idle u.drain ≡ true) ⊎ (Stopped u × (Pending u ⊎ Excused s u))

-- One more action.
Excused-step :
    {s t : Coordinator} (a : Action) → enabled a t ≡ true → Excused s t → Excused s (perform a t)
Excused-step a e (inl (v, before, after, none_active, tokens)) =
    inl (v, before, step a after e, none_active, tokens)
Excused-step a e (inr (v, before, i, n, after)) = inr (v, before, i, n, step a after e)

perform-Stopped : (a : Action) (t : Coordinator) → Stopped t → Stopped (perform a t)
unfolding perform
perform-Stopped Action.enter t h = h
perform-Stopped Action.leave t h = h
perform-Stopped Action.notify t h = h
perform-Stopped Action.cancel t h = (refl, refl)
perform-Stopped Action.load t h = h
perform-Stopped Action.register t h = h
perform-Stopped Action.timeout t h = h

-- While nobody notifies, `drain` succeeds only at the counter 0, and a guard that takes the counter
-- there leaves it there.
perform-Pending :
    (a : Action) (t : Coordinator)
    → enabled a t ≡ true
    → Pending t
    → Pending (perform a t) ⊎ ((perform a t).active ≡ 0)
unfolding perform enabled
perform-Pending Action.enter t e h = inl h
perform-Pending Action.leave t e h = elim (Bool-cases (t.active == 1)) [
  | inl one ↦ inr (ground arith)
  | inr more ↦ inl (rw more h)
]
perform-Pending Action.notify t e h = absurd (ground arith)
perform-Pending Action.cancel t e h = inl (h.0, refl)
perform-Pending Action.load t e h = elim (Bool-cases (t.active == 0)) [
  | inl zero ↦ inr (ground arith)
  | inr more ↦ inl (rw more (h.0, refl))
]
perform-Pending Action.register t e h = inl (h.0, refl)
perform-Pending Action.timeout t e h = inl (h.0, refl)

is_idle-eq : (p : Phase) → is_idle p ≡ true → p ≡ Phase.idle
is_idle-eq Phase.idle h = refl
is_idle-eq Phase.cancelled h = cc
is_idle-eq Phase.loaded h = cc
is_idle-eq Phase.waiting h = cc
is_idle-eq (Phase.returned b) h = cc

-- From the state before `drain` is called.
perform-idle :
    {s : Coordinator} (a : Action) (t : Coordinator)
    → Run s t
    → is_idle t.drain ≡ true
    → enabled a t ≡ true
    → Known s (perform a t)
unfolding perform enabled
perform-idle Action.enter t r i e = inl i
perform-idle Action.leave t r i e = inl i
perform-idle Action.notify t r i e = inl (rw (is_idle-eq t.drain i) refl)
perform-idle Action.cancel t r i e = elim (Bool-cases (ltb 0 t.notifying)) [
  | inl some_left ↦
      inr ((refl, refl), inr (inr (t, r, i, ground arith, start (perform Action.cancel t))))
  | inr none_left ↦ inr ((refl, refl), inl (ground arith, refl))
]
perform-idle Action.load t r i e = let e' = rw (is_idle-eq t.drain i) at e in cc
perform-idle Action.register t r i e = let e' = rw (is_idle-eq t.drain i) at e in cc
perform-idle Action.timeout t r i e = let e' = rw (is_idle-eq t.drain i) at e in cc

Run-Known : {s u : Coordinator} → Known s s → Run s u → Known s u
Run-Known k (start s) = k
Run-Known {s = s} k (step {t = t} a r e) = elim (Run-Known k r) [
  | inl i ↦ perform-idle a t r i e
  | inr (tokens, inr why) ↦ inr (perform-Stopped a t tokens, inr (Excused-step a e why))
  | inr (tokens, inl pending) ↦
      let stopped = perform-Stopped a t tokens in
      elim (perform-Pending a t e pending) [
        | inl still ↦ inr (stopped, inl still)
        | inr none_active ↦ inr (
          stopped,
          inr (inl (perform a t, step a r e, start (perform a t), none_active, stopped)),
        )
      ]
]

-- If `drain` reports success, then at some moment of the run no request was active and both tokens
-- were cancelled, whatever the threads did before and afterwards; or, when `drain` cancelled the
-- tokens, a dropped guard had taken the counter to 0 and had not notified yet.
pub drain-Drained :
    (u : Coordinator) → Run new u → u.drain ≡ Phase.returned true → Drained new u ⊎ Overlapped new u
drain-Drained u r e = elim (Run-Known (inl refl) r) [
  | inl i ↦ let i' = rw e at i in cc
  | inr (tokens, inl pending) ↦ let p = pending.1 in let p' = rw e at p in cc
  | inr (tokens, inr why) ↦ why
]
