-- ===== src/Cache/Wait.antt =====
-- Waiting for a cache entry of another owner (wait_or_takeover_v004 of src/reliability/mod.rs). The
-- clocks, the rows that the statements read and the outcome of the takeover are those of the
-- polls.
use llm.Base.{
  ℕ, zero, suc, ◌+◌, ◌-◌, ◌*◌, ◌/◌, ◌≤◌, ◌≡◌, refl, min, arith, Bool, true, ◌||◌, Option, none,
  some, leb, if◌then◌else◌, inl, inr, Option-cases,
}
use llm.Cache.{CacheEntry, is_failed, is_completed}

-- One turn of the loop: the instant of its first test, what it reads and gets, and the instant at
-- which it goes to sleep.
pub record Poll (A : Type 0) : Type 0 where
  pub checked : ℕ
  pub row : Option (CacheEntry A)
  pub loaded : Option A
  pub utc : ℕ
  pub taken : Option ℕ
  pub slept : ℕ

pub data WaitResult (A : Type 0) : Type 0 where
  deadline_exceeded entry_disappeared no_vectors : WaitResult A
  completed : ℕ → A → WaitResult A
  retry_acquired : ℕ → ℕ → WaitResult A

abbrev pub is_over : Option ℕ → ℕ → Bool
is_over none now = true
is_over (some t) now = leb t now

-- The milliseconds of the sleep after the one of `delay`.
unfoldable pub next_delay : ℕ → ℕ
next_delay delay = min (delay * 3 / 2) 500

module _ {A : Type 0} where
  -- What a turn returns; without a result it sleeps.
  unfoldable pub answer : ℕ → Poll A → Option (WaitResult A)
  answer deadline p = if leb deadline p.checked then some deadline_exceeded else elim (p.row) [
    | none ↦ some entry_disappeared
    | some e ↦
        if is_completed e.status
        then elim (p.loaded) [ none ↦ some no_vectors | some v ↦ some (completed e.id v) ]
        else if is_failed e.status || is_over e.lease_expires_at p.utc
        then elim (p.taken) [ none ↦ none | some token ↦ some (retry_acquired e.id token) ]
        else none
  ]

  unfoldable pub wait_loop : ℕ → ℕ → (ℕ → Poll A) → ℕ → ℕ → Option (WaitResult A)
  unfolding answer next_delay
  wait_loop zero deadline polls n delay = none
  wait_loop (suc fuel) deadline polls n delay = elim (answer deadline (polls n)) [
    | some r ↦ some r
    | none ↦ wait_loop fuel deadline polls (suc n) (next_delay delay)
  ]

  unfoldable pub wait_or_takeover : ℕ → ℕ → (ℕ → Poll A) → Option (WaitResult A)
  unfolding wait_loop
  wait_or_takeover fuel deadline polls = wait_loop fuel deadline polls 0 50

-- The delay of the turn `n`.
unfoldable pub delay_at : ℕ → ℕ
unfolding next_delay
delay_at zero = 50
delay_at (suc n) = next_delay (delay_at n)

next_delay-bounds : (d : ℕ) → 50 ≤ d → (50 ≤ next_delay d) × (next_delay d ≤ 500)
unfolding next_delay
next_delay-bounds d le = (omega arith, omega arith)

pub delay_at-bounds : (n : ℕ) → (50 ≤ delay_at n) × (delay_at n ≤ 500)
unfolding delay_at
delay_at-bounds zero = (omega arith, omega arith)
delay_at-bounds (suc n) = next_delay-bounds (delay_at n) (delay_at-bounds n).0

-- The clock does not go back, and a sleep lasts its delay or till the deadline.
pub record IsTimely {A : Type 0} (deadline : ℕ) (polls : ℕ → Poll A) : Type 0 where
  pub on : (n : ℕ) → (polls n).checked ≤ (polls n).slept
  pub wakes : (n : ℕ) → min ((polls n).slept + delay_at n * 1000) deadline ≤ (polls (suc n)).checked

module _ {A : Type 0} (deadline : ℕ) (polls : ℕ → Poll A) (timely : IsTimely deadline polls) where
  late-answers : (p : Poll A) → deadline ≤ p.checked → answer deadline p ≡ some deadline_exceeded
  unfolding answer
  late-answers p le = let e : leb deadline p.checked ≡ true = ground arith in rw e refl

  wait_loop-ends :
      (k n : ℕ)
      → deadline - (polls n).checked ≤ 50000 * k
      → (r : WaitResult A) × (wait_loop (suc k) deadline polls n (delay_at n) ≡ some r)
  unfolding wait_loop delay_at
  wait_loop-ends zero n le =
      let e = late-answers (polls n) (omega arith) in (deadline_exceeded, rw (e, wait_loop) refl)
  wait_loop-ends (suc k) n le = elim (Option-cases (answer deadline (polls n))) [
    | inr (r, e) ↦ (r, rw (e, wait_loop) refl)
    | inl e ↦
        let long = delay_at-bounds n in
        let on = timely.on n in
        let woken = timely.wakes n in
        let rest = wait_loop-ends k (suc n) (omega arith) in (rest.0, rw (e, wait_loop) rest.1)
  ]

  -- The wait ends: it has a result after as many turns as the time to the deadline has delays of 50
  -- milliseconds, and two more. No delay is shorter than that, or longer than 500 milliseconds.
  pub wait_or_takeover-ends :
      (fuel : ℕ)
      → (deadline - (polls 0).checked) / 50000 + 2 ≤ fuel
      → (r : WaitResult A) × (wait_or_takeover fuel deadline polls ≡ some r)
  unfolding wait_or_takeover delay_at
  wait_or_takeover-ends zero le = let no : ⊥ = omega arith in absurd no
  wait_or_takeover-ends (suc fuel) le = wait_loop-ends fuel 0 (omega arith)
