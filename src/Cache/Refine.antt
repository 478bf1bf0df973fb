-- ===== src/Cache/Refine.antt =====
-- The statements on the row of a cache key refine the lease (src/persistence/mod.rs and
-- src/reliability/mod.rs).
use llm.Base.{
  ℕ, ◌≡◌, ◌⊎◌, refl, ◌∙◌, ap, ap₂, false, ◌&&◌, not, Option, none, some, List, [], ◌∷◌, ◌==◌, inl,
  inr, Bool-cases,
}
use llm.Cache.{
  Status, CacheEntry, is_processing, insert_entry, may_take, takeover, owned_by, persist_owned,
  is_expired, persist_required,
}
use llm.Cache.Spec.{
  Lease, vacant, held, settled, Call, enter, seize, settle, Reply, token, written, respond,
}

pub data Statement (A : Type 0) : Type 0 where
  insert take : ℕ → ℕ → ℕ → Statement A
  persist : ℕ → ℕ → A → Statement A
  persist_fresh : ℕ → ℕ → A → ℕ → Statement A

pub Status-cases :
    (s : Status) → (s ≡ Status.processing) ⊎ (s ≡ Status.failed) ⊎ (s ≡ Status.completed)
Status-cases Status.processing = inl refl
Status-cases Status.failed = inr (inl refl)
Status-cases Status.completed = inr (inr refl)

module _ {A : Type 0} where
  -- One statement on the row, and what it returns.
  unfoldable pub execute : Statement A → Option (CacheEntry A) → Option (CacheEntry A) × Reply
  unfolding insert_entry takeover persist_owned persist_required
  execute (insert owner secs now) row =
      let r = insert_entry 0 owner secs now row in (r.0, token r.1)
  execute (take owner secs now) row = let r = takeover owner secs now row in (r.0, token r.1)
  execute (persist owner s v) row = let r = persist_owned owner s v row in (r.0, written r.1)
  execute (persist_fresh owner s v now) row =
      let r = persist_required owner s v now row in (r.0, written r.1)

  abbrev pub view_entry : CacheEntry A → Status → Lease A
  view_entry e Status.processing = held e.lease_token
  view_entry e Status.failed = held e.lease_token
  view_entry e Status.completed = settled e.result

  -- The lease that a row stands for.
  abbrev pub view : Option (CacheEntry A) → Lease A
  view none = vacant
  view (some e) = view_entry e e.status

  -- The call that a statement makes, with the outcome of its tests on the row.
  unfoldable pub call_of : Statement A → Option (CacheEntry A) → Call A
  unfolding may_take
  call_of (insert owner secs now) row = enter
  call_of (take owner secs now) none = seize false
  call_of (take owner secs now) (some e) = seize (may_take now e)
  call_of (persist owner s v) none = settle false s v
  call_of (persist owner s v) (some e) =
      settle (is_processing e.status && owned_by owner e.owner_instance_id) s v
  call_of (persist_fresh owner s v now) none = settle false s v
  call_of (persist_fresh owner s v now) (some e) =
      settle
        (is_processing e.status
          && owned_by owner e.owner_instance_id
          && not (is_expired e.lease_expires_at now))
        s v

  -- A run of statements, with what they return.
  unfoldable pub run :
      List (Statement A) → Option (CacheEntry A) → Option (CacheEntry A) × List Reply
  unfolding execute
  run [] row = (row, [])
  run (s ∷ ss) row = let now = execute s row in let rest = run ss now.0 in (rest.0, now.1 ∷ rest.1)

  unfoldable pub calls : List (Statement A) → Option (CacheEntry A) → List (Call A)
  unfolding call_of execute
  calls [] row = []
  calls (s ∷ ss) row = call_of s row ∷ calls ss (execute s row).0

  unfoldable pub respond_all : List (Call A) → Lease A → Lease A × List Reply
  respond_all [] l = (l, [])
  respond_all (c ∷ cs) l =
      let now = respond c l in let rest = respond_all cs now.0 in (rest.0, now.1 ∷ rest.1)

  take-respond :
      (owner secs now : ℕ) (e : CacheEntry A)
      → (view (takeover owner secs now (some e)).0
          ≡ (respond (seize (may_take now e)) (view (some e))).0)
        × (token (takeover owner secs now (some e)).1
            ≡ (respond (seize (may_take now e)) (view (some e))).1)
  unfolding takeover
  take-respond owner secs now e = elim (Status-cases e.status) [
    | inl s ↦ elim (Bool-cases (may_take now e)) [
      | inl m ↦ rw (m, s) (refl, refl)
      | inr m ↦ rw (m, s) (refl, refl)
    ]
    | inr (inl s) ↦ elim (Bool-cases (may_take now e)) [
      | inl m ↦ rw (m, s) (refl, refl)
      | inr m ↦ rw (m, s) (refl, refl)
    ]
    | inr (inr s) ↦ unfold may_take in rw s (refl, refl)
  ]

  persist-respond :
      (owner t : ℕ) (v : A) (e : CacheEntry A)
      → (view (persist_owned owner t v (some e)).0
          ≡ (respond (call_of (persist owner t v) (some e)) (view (some e))).0)
        × (written (persist_owned owner t v (some e)).1
            ≡ (respond (call_of (persist owner t v) (some e)) (view (some e))).1)
  unfolding persist_owned call_of
  persist-respond owner t v e = elim (Status-cases e.status) [
    | inl s ↦ elim (Bool-cases (owned_by owner e.owner_instance_id)) [
      | inl o ↦ elim (Bool-cases (e.lease_token == t)) [
        | inl k ↦ rw (s, o, k) (refl, refl)
        | inr k ↦ rw (s, o, k) (refl, refl)
      ]
      | inr o ↦ rw (s, o) (refl, refl)
    ]
    | inr (inl s) ↦ rw s (refl, refl)
    | inr (inr s) ↦ rw s (refl, refl)
  ]

  persist_fresh-respond :
      (owner t : ℕ) (v : A) (now : ℕ) (e : CacheEntry A)
      → (view (persist_required owner t v now (some e)).0
          ≡ (respond (call_of (persist_fresh owner t v now) (some e)) (view (some e))).0)
        × (written (persist_required owner t v now (some e)).1
            ≡ (respond (call_of (persist_fresh owner t v now) (some e)) (view (some e))).1)
  unfolding persist_required call_of
  persist_fresh-respond owner t v now e = elim (Status-cases e.status) [
    | inl s ↦ elim (Bool-cases (owned_by owner e.owner_instance_id)) [
      | inl o ↦ elim (Bool-cases (is_expired e.lease_expires_at now)) [
        | inl x ↦ elim (Bool-cases (e.lease_token == t)) [
          | inl k ↦ rw (s, o, x, k) (refl, refl)
          | inr k ↦ rw (s, o, x, k) (refl, refl)
        ]
        | inr x ↦ elim (Bool-cases (e.lease_token == t)) [
          | inl k ↦ rw (s, o, x, k) (refl, refl)
          | inr k ↦ rw (s, o, x, k) (refl, refl)
        ]
      ]
      | inr o ↦ rw (s, o) (refl, refl)
    ]
    | inr (inl s) ↦ rw s (refl, refl)
    | inr (inr s) ↦ rw s (refl, refl)
  ]

  insert-respond :
      (e : CacheEntry A)
      → (view (some e) ≡ (respond enter (view (some e))).0)
        × (token none ≡ (respond enter (view (some e))).1)
  insert-respond e = elim (Status-cases e.status) [
    | inl s ↦ rw s (refl, refl)
    | inr (inl s) ↦ rw s (refl, refl)
    | inr (inr s) ↦ rw s (refl, refl)
  ]

  pub execute-respond :
      (s : Statement A) (row : Option (CacheEntry A))
      → (view (execute s row).0 ≡ (respond (call_of s row) (view row)).0)
        × ((execute s row).1 ≡ (respond (call_of s row) (view row)).1)
  unfolding execute call_of insert_entry takeover persist_owned persist_required
  execute-respond (insert owner secs now) none = (refl, refl)
  execute-respond (insert owner secs now) (some e) = insert-respond e
  execute-respond (take owner secs now) none = (refl, refl)
  execute-respond (take owner secs now) (some e) = take-respond owner secs now e
  execute-respond (persist owner s v) none = (refl, refl)
  execute-respond (persist owner s v) (some e) = persist-respond owner s v e
  execute-respond (persist_fresh owner s v now) none = (refl, refl)
  execute-respond (persist_fresh owner s v now) (some e) = persist_fresh-respond owner s v now e

  -- Every run of the statements on a row, whichever instances send them, is a run of the lease:
  -- the row stands for the lease that the calls lead to, and the statements return what the calls
  -- reply.
  pub run-respond_all :
      (ss : List (Statement A)) (row : Option (CacheEntry A))
      → (view (run ss row).0 ≡ (respond_all (calls ss row) (view row)).0)
        × ((run ss row).1 ≡ (respond_all (calls ss row) (view row)).1)
  unfolding run calls respond_all
  run-respond_all [] row = (refl, refl)
  run-respond_all (s ∷ ss) row =
      let first = execute-respond s row in
      let rest = run-respond_all ss (execute s row).0 in
      let later = respond_all (calls ss (execute s row).0) in
      (
        rest.0 ∙ ap (λ l. (later l).0) first.0,
        ap₂ (λ x xs. x ∷ xs) first.1 (rest.1 ∙ ap (λ l. (later l).1) first.0),
      )
