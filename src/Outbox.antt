-- ===== src/Outbox.antt =====
-- The outbox of projection events (src/outbox/mod.rs). Its table is a list of rows in the order of
-- `created_at`; each SQL statement of the code is one function on the table. Instants are
-- microseconds.
pub mod Fencing
pub mod Claims
pub mod Process
use llm.Base.{
  ℕ, zero, suc, ◌+◌, ◌*◌, ◌^◌, min, Bool, true, false, ◌&&◌, ◌||◌, not, Option, none, some, List,
  [], ◌∷◌, ltb, leb, ◌==◌, if◌then◌else◌,
}

pub data Status : Type 0 where
  pending retry_pending processing completed dead_letter : Status

-- A row of astravector.vector_outbox, as far as the statements read it.
pub record Row : Type 0 where
  pub id : ℕ
  pub operation_version : ℕ
  pub status : Status
  pub locked_by : Option ℕ
  pub locked_until : ℕ
  pub lock_generation : ℕ
  pub attempt_count : ℕ
  pub reclaim_count : ℕ
  pub next_attempt_at : ℕ

pub record OutboxEvent : Type 0 where
  pub id : ℕ
  pub operation_version : ℕ
  pub attempt_count : ℕ
  pub locked_by : ℕ
  pub lock_generation : ℕ

abbrev pub is_processing : Status → Bool
is_processing Status.processing = true
is_processing _ = false

abbrev pub is_waiting : Status → Bool
is_waiting Status.pending = true
is_waiting Status.retry_pending = true
is_waiting _ = false

abbrev pub is_completed : Status → Bool
is_completed Status.completed = true
is_completed _ = false

-- The WHERE clause of the candidates.
unfoldable pub claimable : ℕ → Row → Bool
claimable now r =
    (is_waiting r.status && leb r.next_attempt_at now)
    || (is_processing r.status && ltb r.locked_until now)

-- The SET clause of the claim.
unfoldable pub claimed : ℕ → ℕ → ℕ → Row → Row
claimed instance lock_seconds now r = record r {
  status = Status.processing;
  locked_by = some instance;
  locked_until = now + lock_seconds * 1000000;
  lock_generation = r.lock_generation + 1;
  attempt_count = r.attempt_count + 1;
  reclaim_count = if is_processing r.status then r.reclaim_count + 1 else r.reclaim_count;
}

-- The RETURNING clause, for the row as claimed by the instance.
unfoldable pub event_of : ℕ → Row → OutboxEvent
event_of instance r = record {
  id = r.id;
  operation_version = r.operation_version;
  attempt_count = r.attempt_count;
  locked_by = instance;
  lock_generation = r.lock_generation;
}

-- The statement of `claim_batch`. FOR UPDATE SKIP LOCKED passes over the rows that other transactions
-- hold, `skipped`.
unfoldable pub claim_batch : ℕ → ℕ → ℕ → (ℕ → Bool) → ℕ → List Row → List Row × List OutboxEvent
unfolding claimable claimed event_of
claim_batch instance lock_seconds now skipped limit [] = ([], [])
claim_batch instance lock_seconds now skipped zero (r ∷ rs) = (r ∷ rs, [])
claim_batch instance lock_seconds now skipped (suc limit) (r ∷ rs) =
    let taken = claim_batch instance lock_seconds now skipped limit rs in
    let passed = claim_batch instance lock_seconds now skipped (suc limit) rs in
    let c = claimed instance lock_seconds now r in
    if claimable now r && not (skipped r.id)
    then (c ∷ taken.0, event_of instance c ∷ taken.1)
    else (r ∷ passed.0, passed.1)

abbrev is_locked_by : ℕ → Option ℕ → Bool
is_locked_by instance none = false
is_locked_by instance (some i) = i == instance

-- The WHERE clause of `complete` and `fail`.
unfoldable pub owns : OutboxEvent → Row → Bool
owns e r =
    r.id == e.id
    && is_processing r.status
    && is_locked_by e.locked_by r.locked_by
    && r.lock_generation == e.lock_generation

unfoldable pub rows_affected : OutboxEvent → List Row → ℕ
unfolding owns
rows_affected e [] = 0
rows_affected e (r ∷ rs) = if owns e r then suc (rows_affected e rs) else rows_affected e rs

unfoldable pub update_owned : (Row → Row) → OutboxEvent → List Row → List Row
unfolding owns
update_owned f e [] = []
update_owned f e (r ∷ rs) = (if owns e r then f r else r) ∷ update_owned f e rs

pub data Outcome : Type 0 where
  done ownership_lost : Outcome

abbrev outcome : ℕ → Outcome
outcome n = if n == 1 then Outcome.done else Outcome.ownership_lost

unfoldable pub complete : OutboxEvent → List Row → List Row × Outcome
unfolding update_owned rows_affected
complete e rs = (
  update_owned (λ r. record r { status = Status.completed; locked_by = none; locked_until = 0 }) e
      rs,
  outcome (rows_affected e rs),
)

-- `fail`, with the delay before the next attempt.
unfoldable pub retry_row : Bool → ℕ → Row → Row
retry_row dead now r = record r {
  status = if dead then Status.dead_letter else Status.retry_pending;
  next_attempt_at = now + min 300 (2 ^ min r.attempt_count 8) * 1000000;
  locked_by = none;
  locked_until = 0;
}

unfoldable pub fail : OutboxEvent → ℕ → ℕ → List Row → List Row × Outcome
unfolding retry_row update_owned rows_affected
fail e max_attempts now rs = (
  update_owned (retry_row (leb max_attempts e.attempt_count) now) e rs,
  outcome (rows_affected e rs),
)

-- What the workers of all instances do to the table.
pub data Action : Type 0 where
  claim : ℕ → ℕ → ℕ → (ℕ → Bool) → ℕ → Action
  completing : OutboxEvent → Action
  failing : OutboxEvent → ℕ → ℕ → Action

unfoldable pub act : Action → List Row → List Row
unfolding claim_batch complete fail
act (claim instance lock_seconds now skipped limit) rs =
    (claim_batch instance lock_seconds now skipped limit rs).0
act (completing e) rs = (complete e rs).0
act (failing e max_attempts now) rs = (fail e max_attempts now rs).0

unfoldable pub act_all : List Action → List Row → List Row
unfolding act
act_all [] rs = rs
act_all (a ∷ actions) rs = act_all actions (act a rs)
