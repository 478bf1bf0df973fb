-- ===== src/Outbox/Claims.antt =====
-- What claiming and completing do to the events of a row (src/outbox/mod.rs: `claim_batch`,
-- `complete`).
use llm.Base.{
  ℕ, zero, suc, ◌≤◌, ◌≡◌, refl, subst, sym, ◌∙◌, Bool, true, false, ◌&&◌, ◌||◌, not, List, [], ◌∷◌,
  arith, leb, ◌==◌, if◌then◌else◌, all, any, All, All-map, inl, inr, Bool-cases,
}
use llm.Outbox.{
  Row, OutboxEvent, is_completed, claimable, claimed, event_of, claim_batch, owns, rows_affected,
  update_owned, Outcome, complete,
}
use llm.Outbox.Fencing.{is_lost}

-- How many rows have an id.
abbrev pub occurs : ℕ → List Row → ℕ
occurs id [] = 0
occurs id (r ∷ rs) = if r.id == id then suc (occurs id rs) else occurs id rs

-- The event is not newer than the rows of its id.
abbrev pub is_issued : OutboxEvent → List Row → Bool
is_issued e rs = all (λ r. not (r.id == e.id) || leb e.lock_generation r.lock_generation) rs

-- Is there an event for the id?
abbrev pub is_claimed : ℕ → List OutboxEvent → Bool
is_claimed id es = any (λ d. d.id == id) es

-- No id occurs twice.
abbrev pub Distinct : List Row → Type 0
Distinct [] = Unit
Distinct (r ∷ rs) = (occurs r.id rs ≡ 0) × Distinct rs

absent-lost : (e : OutboxEvent) (rs : List Row) → occurs e.id rs ≡ 0 → is_lost e rs ≡ true
absent-lost e [] h = refl
absent-lost e (r ∷ rs) h = ground (arith, absent-lost e rs)

module _ (instance lock_seconds now : ℕ) (skipped : ℕ → Bool) where
  abbrev taken : ℕ → List Row → List Row × List OutboxEvent
  taken limit rs = claim_batch instance lock_seconds now skipped limit rs

  occurs-taken : (id limit : ℕ) (rs : List Row) → occurs id (taken limit rs).0 ≡ occurs id rs
  unfolding claim_batch claimed
  occurs-taken id limit [] = refl
  occurs-taken id zero (r ∷ rs) = refl
  occurs-taken id (suc limit) (r ∷ rs) =
      ground (arith, occurs-taken id limit rs, occurs-taken id (suc limit) rs)

  absent-unclaimed :
      (id limit : ℕ) (rs : List Row) → occurs id rs ≡ 0 → is_claimed id (taken limit rs).1 ≡ false
  unfolding claim_batch event_of claimed
  absent-unclaimed id limit [] h = refl
  absent-unclaimed id zero (r ∷ rs) h = refl
  absent-unclaimed id (suc limit) (r ∷ rs) h =
      ground (arith, absent-unclaimed id limit rs, absent-unclaimed id (suc limit) rs)

  -- If an id occurs once and its row is claimed, then every event that was issued for it before has
  -- lost the row.
  pub claim_batch-lost_before :
      (e : OutboxEvent) (limit : ℕ) (rs : List Row)
      → is_issued e rs ≡ true
      → occurs e.id rs ≤ 1
      → is_claimed e.id (claim_batch instance lock_seconds now skipped limit rs).1 ≡ true
      → is_lost e (claim_batch instance lock_seconds now skipped limit rs).0 ≡ true
  unfolding claim_batch event_of claimed
  claim_batch-lost_before e limit [] issued once c = cc
  claim_batch-lost_before e zero (r ∷ rs) issued once c = cc
  claim_batch-lost_before e (suc limit) (r ∷ rs) issued once c = ground (
    arith,
    occurs-taken e.id limit rs,
    absent-lost e (taken limit rs).0,
    absent-unclaimed e.id (suc limit) rs,
    claim_batch-lost_before e limit rs,
    claim_batch-lost_before e (suc limit) rs,
  )

  claimed-owned :
      (r : Row)
      → owns
          (event_of instance (claimed instance lock_seconds now r))
          (claimed instance lock_seconds now r)
        ≡ true
  unfolding owns event_of claimed
  claimed-owned r = ground arith

  event-id : (r : Row) → (event_of instance (claimed instance lock_seconds now r)).id ≡ r.id
  unfolding event_of claimed
  event-id r = refl

  absent-unowned : (e : OutboxEvent) (rs : List Row) → occurs e.id rs ≡ 0 → rows_affected e rs ≡ 0
  unfolding rows_affected owns
  absent-unowned e [] h = refl
  absent-unowned e (r ∷ rs) h = ground (arith, absent-unowned e rs)

  -- The event owns exactly one row of a table, and its id occurs in another one.
  abbrev Owning : List Row → List Row → OutboxEvent → Type 0
  Owning after before d = (rows_affected d after ≡ 1) × (1 ≤ occurs d.id before)

  Owning-cons :
      (after before : List Row) (r r' : Row) (d : OutboxEvent)
      → r'.id ≡ r.id
      → occurs r.id before ≡ 0
      → Owning after before d
      → Owning (r' ∷ after) (r ∷ before) d
  unfolding rows_affected owns
  Owning-cons after before r r' d same absent (one, some_row) = elim (Bool-cases (r.id == d.id)) [
    | inl e ↦
        let eq : r.id ≡ d.id = ground arith in
        let gone : occurs d.id before ≡ 0 = subst (λ i. occurs i before ≡ 0) eq absent in
        absurd (omega arith)
    | inr e ↦ (ground arith, ground arith)
  ]

  claimed-id : (r : Row) → (claimed instance lock_seconds now r).id ≡ r.id
  unfolding claimed
  claimed-id r = refl

  head-Owning :
      (limit : ℕ) (r : Row) (rs : List Row)
      → occurs r.id rs ≡ 0
      → Owning
          (claimed instance lock_seconds now r ∷ (taken limit rs).0)
          (r ∷ rs)
          (event_of instance (claimed instance lock_seconds now r))
  unfolding rows_affected
  head-Owning limit r rs absent =
      let c = claimed instance lock_seconds now r in
      let e = event_of instance c in
      let id : e.id ≡ r.id = event-id r in
      let elsewhere : rows_affected e (taken limit rs).0 ≡ 0 =
        absent-unowned e (taken limit rs).0
          (occurs-taken e.id limit rs ∙ subst (λ i. occurs i rs ≡ 0) (sym id) absent) in
      (rw (claimed-owned r, elsewhere) refl, ground (arith, id))

  claim_batch-Owning :
      (limit : ℕ) (rs : List Row)
      → Distinct rs
      → All (Owning (taken limit rs).0 rs) (taken limit rs).1
  unfolding claim_batch
  claim_batch-Owning limit [] h = tt
  claim_batch-Owning zero (r ∷ rs) h = tt
  claim_batch-Owning (suc limit) (r ∷ rs) (absent, distinct) =
      elim (Bool-cases (claimable now r && not (skipped r.id))) [
        | inl e ↦ rw e (
          head-Owning limit r rs absent,
          All-map
              (λ d.
                Owning-cons (taken limit rs).0 rs r (claimed instance lock_seconds now r) d
                  (claimed-id r) absent)
              _ (claim_batch-Owning limit rs distinct),
        )
        | inr e ↦ rw e (
            All-map (λ d. Owning-cons (taken (suc limit) rs).0 rs r r d refl absent) _
              (claim_batch-Owning (suc limit) rs distinct))
      ]

  -- If no id occurs twice, then each event that a claim returns can be completed right away.
  pub claim_batch-completes :
      (limit : ℕ) (rs : List Row)
      → Distinct rs
      → All
          (λ d.
            (complete d (claim_batch instance lock_seconds now skipped limit rs).0).1
            ≡ Outcome.done)
          (claim_batch instance lock_seconds now skipped limit rs).1
  unfolding complete
  claim_batch-completes limit rs h = All-map (λ d o. rw o.0 refl) _ (claim_batch-Owning limit rs h)

occurs-update_owned :
    (id : ℕ) (f : Row → Row) (e : OutboxEvent) (rs : List Row)
    → ((r : Row) → (f r).id ≡ r.id)
    → occurs id (update_owned f e rs) ≡ occurs id rs
unfolding update_owned
occurs-update_owned id f e [] same = refl
occurs-update_owned id f e (r ∷ rs) same = elim (Bool-cases (owns e r)) [
  | inl o ↦ rw (o, same r, occurs-update_owned id f e rs same) refl
  | inr o ↦ rw (o, occurs-update_owned id f e rs same) refl
]

rows_affected-le : (e : OutboxEvent) (rs : List Row) → rows_affected e rs ≤ occurs e.id rs
unfolding rows_affected owns
rows_affected-le e [] = omega arith
rows_affected-le e (r ∷ rs) = ground (arith, rows_affected-le e rs)

owns-id : (e : OutboxEvent) (r : Row) → owns e r ≡ true → r.id ≡ e.id
unfolding owns
owns-id e r h = ground arith

completed-lost_all :
    (e d : OutboxEvent) (f : Row → Row) (rs : List Row)
    → ((r : Row) → (is_completed (f r).status ≡ true) × ((f r).id ≡ r.id))
    → rows_affected e rs ≡ 1
    → occurs e.id rs ≤ 1
    → d.id ≡ e.id
    → is_lost d (update_owned f e rs) ≡ true
unfolding update_owned rows_affected
completed-lost_all e d f [] fin one once same = cc
completed-lost_all e d f (r ∷ rs) fin one once same = elim (Bool-cases (owns e r)) [
  | inl o ↦
      let here = owns-id e r o in
      let absent : occurs d.id (update_owned f e rs) ≡ 0 =
        occurs-update_owned d.id f e rs (λ x. (fin x).1) ∙ ground (arith, here) in
      let lost = absent-lost d (update_owned f e rs) absent in
      rw (o, lost) (ground (arith, (fin r).0))
  | inr o ↦
      let most = rows_affected-le e rs in
      let one' : rows_affected e rs ≡ 1 = rw o at one in
      let rest = completed-lost_all e d f rs fin one' (ground arith) same in
      let other : (r.id == d.id) ≡ false = ground arith in rw (o, rest, other) refl
]

-- If an id occurs once and an event completes its row, then every event of the id, older or newer,
-- has lost the row.
pub complete-lost_all :
    (e d : OutboxEvent) (rs : List Row)
    → (complete e rs).1 ≡ Outcome.done
    → occurs e.id rs ≤ 1
    → d.id ≡ e.id
    → is_lost d (complete e rs).0 ≡ true
unfolding complete
complete-lost_all e d rs h once same =
    completed-lost_all e d _ rs (λ r. (refl, refl)) (ground arith) once same
