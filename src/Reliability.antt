-- ===== src/Reliability.antt =====
-- Budgets of time (src/reliability/mod.rs). Instants and durations are microseconds; the clock
-- that a function reads is an argument.
use llm.Base.{
  ℕ, ◌+◌, ◌-◌, ◌≤◌, ◌<◌, ◌≡◌, refl, min, arith, Bool, true, false, ◌&&◌, ◌||◌, not, Option, none,
  some, leb, if◌then◌else◌,
}

pub record OperationBudget : Type 0 where
  pub deadline : ℕ
  pub cancelled : Bool

-- `Duration::MAX`
abbrev duration_max : ℕ
duration_max = 18446744073709551615999999

abbrev saturating_duration : ℕ → ℕ → ℕ
saturating_duration a b = min (a + b) duration_max

unfoldable pub remaining : OperationBudget → ℕ → ℕ
remaining b now = b.deadline - now

unfoldable pub is_expired : OperationBudget → ℕ → Bool
is_expired b now = b.cancelled || leb b.deadline now

-- `checked` and `measured` are the instants that its two calls read.
unfoldable pub allows_retry : OperationBudget → ℕ → ℕ → ℕ → ℕ → ℕ → Bool
unfolding is_expired remaining
allows_retry b checked measured backoff minimum_operation_time safety_margin =
    not (is_expired b checked)
    && leb (saturating_duration (saturating_duration backoff minimum_operation_time) safety_margin)
        (remaining b measured)

unfoldable pub resolve_optional_stage_budget : ℕ → ℕ → ℕ → ℕ → ℕ → Option ℕ
resolve_optional_stage_budget deadline now configured_max minimum_useful_budget response_reserve =
    let left = deadline - now in
    let budget = min configured_max (left - response_reserve) in
    if leb left response_reserve
    then none
    else if leb minimum_useful_budget budget
    then some budget
    else none

-- A budget that can be spent before the reserve.
pub record IsUseful (deadline now configured_max minimum_useful response_reserve b : ℕ)
    : Type 0 where
  pub fits : now + b + response_reserve ≤ deadline
  pub useful : minimum_useful ≤ b
  pub allowed : b ≤ configured_max

-- An allowed retry ends before the deadline, where the deadline is one that a `Duration` can
-- reach.
pub allows_retry-fits :
    (b : OperationBudget) (checked measured backoff minimum margin : ℕ)
    → b.deadline < duration_max
    → allows_retry b checked measured backoff minimum margin ≡ true
    → (backoff + minimum + margin ≤ b.deadline - measured) × (b.cancelled ≡ false)
unfolding allows_retry is_expired remaining
allows_retry-fits b checked measured backoff minimum margin lt h = (ground arith, ground arith)

-- The budget of an optional stage is the largest that can be spent before the reserve for the
-- response; there is none only when no positive budget can.
pub resolve_optional_stage_budget-best :
    (deadline now configured_max minimum reserve b : ℕ)
    → 0 < b
    → IsUseful deadline now configured_max minimum reserve b
    → (best : ℕ) × (resolve_optional_stage_budget deadline now configured_max minimum reserve
        ≡ some best)
      × IsUseful deadline now configured_max minimum reserve best
      × (b ≤ best)
unfolding resolve_optional_stage_budget
resolve_optional_stage_budget-best deadline now configured_max minimum reserve b pos h =
    let best = min configured_max (deadline - now - reserve) in
    let fits = h.fits in
    let useful = h.useful in
    let allowed = h.allowed in
    let e : leb (deadline - now) reserve ≡ false = ground arith in
    let e' : leb minimum best ≡ true = ground arith in
    (
      best,
      rw (e, e') refl,
      record { fits = omega arith; useful = omega arith; allowed = omega arith },
      omega arith,
    )

-- What is granted can be spent.
pub resolve_optional_stage_budget-IsUseful :
    (deadline now configured_max minimum reserve b : ℕ)
    → resolve_optional_stage_budget deadline now configured_max minimum reserve ≡ some b
    → IsUseful deadline now configured_max minimum reserve b
unfolding resolve_optional_stage_budget
resolve_optional_stage_budget-IsUseful deadline now configured_max minimum reserve b h = record {
  fits = ground arith;
  useful = ground arith;
  allowed = ground arith;
}
