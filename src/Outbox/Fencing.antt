-- ===== src/Outbox/Fencing.antt =====
-- A worker that has lost a row cannot change it any more (src/outbox/mod.rs: `claim_batch`,
-- `complete`, `fail`).
use llm.Base.{
  ℕ, zero, suc, ◌≡◌, refl, ap₂, Bool, true, false, ◌||◌, not, none, List, [], ◌∷◌, arith, ltb, leb,
  ◌==◌, all,
}
use llm.Outbox.{
  Status, Row, OutboxEvent, is_completed, claimable, claimed, claim_batch, owns, rows_affected,
  update_owned, Outcome, complete, retry_row, fail, Action, claim, completing, failing, act,
  act_all,
}

-- Each row with the event's id was claimed again after the event, or is completed.
abbrev pub is_lost_row : OutboxEvent → Row → Bool
is_lost_row e r =
    not (r.id == e.id) || ltb e.lock_generation r.lock_generation || is_completed r.status

abbrev pub is_lost : OutboxEvent → List Row → Bool
is_lost e rs = all (is_lost_row e) rs

owns-lost : (e : OutboxEvent) (r : Row) → is_lost_row e r ≡ true → owns e r ≡ false
unfolding owns
owns-lost e r h = ground arith

claimed-lost :
    (e : OutboxEvent) (instance lock_seconds now : ℕ) (r : Row)
    → claimable now r ≡ true
    → is_lost_row e r ≡ true
    → is_lost_row e (claimed instance lock_seconds now r) ≡ true
unfolding claimable claimed
claimed-lost e instance lock_seconds now r c h = ground arith

claim_batch-lost :
    (e : OutboxEvent) (instance lock_seconds now : ℕ) (skipped : ℕ → Bool) (limit : ℕ)
    (rs : List Row)
    → is_lost e rs ≡ true
    → is_lost e (claim_batch instance lock_seconds now skipped limit rs).0 ≡ true
unfolding claim_batch
claim_batch-lost e i l now skipped limit [] h = refl
claim_batch-lost e i l now skipped zero (r ∷ rs) h = h
claim_batch-lost e i l now skipped (suc limit) (r ∷ rs) h = ground (
  arith,
  claimed-lost e i l now r,
  claim_batch-lost e i l now skipped limit rs,
  claim_batch-lost e i l now skipped (suc limit) rs,
)

-- A change that keeps id and generation, of rows that an event owns.
update_owned-lost :
    (e d : OutboxEvent) (f : Row → Row) (rs : List Row)
    → ((r : Row) → owns d r ≡ true → is_lost_row e r ≡ true → is_lost_row e (f r) ≡ true)
    → is_lost e rs ≡ true
    → is_lost e (update_owned f d rs) ≡ true
unfolding update_owned
update_owned-lost e d f [] keeps h = refl
update_owned-lost e d f (r ∷ rs) keeps h = ground (arith, keeps r, update_owned-lost e d f rs keeps)

completed-lost :
    (e d : OutboxEvent) (r : Row)
    → owns d r ≡ true
    → is_lost_row e r ≡ true
    → is_lost_row e (record r { status = Status.completed; locked_by = none; locked_until = 0 })
      ≡ true
completed-lost e d r o k = ground arith

retry_row-lost :
    (e d : OutboxEvent) (dead : Bool) (now : ℕ) (r : Row)
    → owns d r ≡ true
    → is_lost_row e r ≡ true
    → is_lost_row e (retry_row dead now r) ≡ true
unfolding owns retry_row
retry_row-lost e d dead now r o k = ground arith

act-lost :
    (e : OutboxEvent) (a : Action) (rs : List Row)
    → is_lost e rs ≡ true
    → is_lost e (act a rs) ≡ true
unfolding act complete fail
act-lost e (claim i l now skipped limit) rs h = claim_batch-lost e i l now skipped limit rs h
act-lost e (completing d) rs h = update_owned-lost e d _ rs (completed-lost e d) h
act-lost e (failing d most now) rs h =
    update_owned-lost e d _ rs (λ r. retry_row-lost e d (leb most d.attempt_count) now r) h

act_all-lost :
    (e : OutboxEvent) (actions : List Action) (rs : List Row)
    → is_lost e rs ≡ true
    → is_lost e (act_all actions rs) ≡ true
unfolding act_all
act_all-lost e [] rs h = h
act_all-lost e (a ∷ actions) rs h = act_all-lost e actions (act a rs) (act-lost e a rs h)

rows_affected-lost :
    (e : OutboxEvent) (rs : List Row) → is_lost e rs ≡ true → rows_affected e rs ≡ 0
unfolding rows_affected
rows_affected-lost e [] h = refl
rows_affected-lost e (r ∷ rs) h = ground (arith, owns-lost e r, rows_affected-lost e rs)

update_owned-none :
    (e : OutboxEvent) (f : Row → Row) (rs : List Row)
    → is_lost e rs ≡ true
    → update_owned f e rs ≡ rs
unfolding update_owned
update_owned-none e f [] h = refl
update_owned-none e f (r ∷ rs) h =
    let free : owns e r ≡ false = owns-lost e r (ground arith) in
    rw free (ap₂ (λ x xs. x ∷ xs) refl (update_owned-none e f rs (ground arith)))

-- Once a row was claimed again after an event, or is completed, the event's worker can neither
-- complete nor fail it, whatever all workers do in the meantime: both answer that the ownership is
-- lost and leave the table as it is.
pub act_all-Fenced :
    (e : OutboxEvent) (actions : List Action) (rs : List Row) (max_attempts now : ℕ)
    → is_lost e rs ≡ true
    → (complete e (act_all actions rs) ≡ (act_all actions rs, Outcome.ownership_lost))
      × (fail e max_attempts now (act_all actions rs)
          ≡ (act_all actions rs, Outcome.ownership_lost))
unfolding complete fail
act_all-Fenced e actions rs max_attempts now h =
    let lost = act_all-lost e actions rs h in
    let none_owned = rows_affected-lost e (act_all actions rs) lost in
    (
      rw
          (
            none_owned,
            update_owned-none e
                (λ r. record r { status = Status.completed; locked_by = none; locked_until = 0 })
                (act_all actions rs) lost,
          )
          refl,
      rw
          (
            none_owned,
            update_owned-none e (retry_row (leb max_attempts e.attempt_count) now)
                (act_all actions rs) lost,
          )
          refl,
    )
