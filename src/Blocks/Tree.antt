-- ===== src/Blocks/Tree.antt =====
-- Every accepted block leads to the root (src/grpc/mod.rs: `assert_no_logical_block_cycle`).
use llm.Base.{
  ℕ, zero, suc, ◌+◌, ◌≤◌, ◌<◌, ◌≡◌, ◌≢◌, refl, ap, sym, subst, Bool, true, false, none, some, List,
  [], ◌∷◌, arith, if◌then◌else◌, length, is_empty, any, find, same_text, same_text-eq,
  same_text_refl, inl, inr, Bool-cases, Option-cases,
}
use llm.Blocks.{
  LogicalBlock, BlockError, id_of, parent_of, lookup, Walk, reached, stuck, failed, walk,
  walk_error, assert_no_logical_block_cycle,
}

-- The way from a block to one that names no parent.
pub data Leads (bs : List LogicalBlock) : LogicalBlock → Type 0 where
  top : (b : LogicalBlock) → is_empty (parent_of b) ≡ true → Leads bs b
  up : (b p : LogicalBlock) → lookup bs (parent_of b) ≡ some p → Leads bs p → Leads bs b

-- Is the id that of a block?
abbrev pub known : List LogicalBlock → List ℕ → Bool
known bs id = any (λ b. same_text (id_of b) id) bs

-- The number of blocks whose id was not visited.
abbrev unvisited : List (List ℕ) → List LogicalBlock → ℕ
unvisited visited [] = 0
unvisited visited (b ∷ bs) =
    if any (same_text (id_of b)) visited then unvisited visited bs else suc (unvisited visited bs)

unvisited-le :
    (id : List ℕ) (visited : List (List ℕ)) (bs : List LogicalBlock)
    → unvisited (id ∷ visited) bs ≤ unvisited visited bs
unvisited-le id visited [] = omega arith
unvisited-le id visited (b ∷ bs) = ground (arith, unvisited-le id visited bs)

unvisited-lt :
    (id : List ℕ) (visited : List (List ℕ)) (bs : List LogicalBlock)
    → known bs id ≡ true
    → any (same_text id) visited ≡ false
    → unvisited (id ∷ visited) bs < unvisited visited bs
unvisited-lt id visited [] k fresh = cc
unvisited-lt id visited (b ∷ bs) k fresh = elim (Bool-cases (same_text (id_of b) id)) [
  | inl e ↦
      let same = same_text-eq (id_of b) id e in
      let fresh' : any (same_text (id_of b)) visited ≡ false =
        subst (λ i. any (same_text i) visited ≡ false) (sym same) fresh in
      rw (e, fresh') (omega (arith, unvisited-le id visited bs))
  | inr e ↦ ground (arith, unvisited-lt id visited bs)
]

unvisited-nil : (bs : List LogicalBlock) → unvisited [] bs ≡ length bs
unvisited-nil [] = refl
unvisited-nil (b ∷ bs) = ap suc (unvisited-nil bs)

find-known :
    (f : LogicalBlock → Bool) (bs : List LogicalBlock) (p : LogicalBlock)
    → find f bs ≡ some p
    → known bs (id_of p) ≡ true
find-known f [] p h = cc
find-known f (b ∷ bs) p h = elim (Bool-cases (f b)) [
  | inl e ↦
      let same : b ≡ p = ground arith in
      rw (subst (λ c. same_text (id_of b) (id_of c) ≡ true) same (same_text_refl (id_of b))) refl
  | inr e ↦ ground (arith, find-known f bs p)
]

module _ (bs : List LogicalBlock) where
  -- The walk does not use up its fuel if that exceeds the number of blocks that were not visited.
  walk-ends :
      (fuel : ℕ) (visited : List (List ℕ)) (b : LogicalBlock)
      → known bs (id_of b) ≡ true
      → unvisited visited bs < fuel
      → walk bs fuel visited b ≢ stuck
  unfolding walk lookup
  walk-ends zero visited b k lt = absurd (omega arith)
  walk-ends (suc fuel) visited b k lt = elim (Bool-cases (is_empty (parent_of b))) [
    | inl e ↦ rw (walk, e) (λ h. cc)
    | inr e ↦ elim (Bool-cases (any (same_text (id_of b)) visited)) [
      | inl v ↦ rw (walk, e, v) (λ h. cc)
      | inr v ↦ elim (Option-cases (lookup bs (parent_of b))) [
        | inl n ↦ rw (walk, e, v, n) (λ h. cc)
        | inr (p, s) ↦
            rw (walk, e, v, s)
              (walk-ends fuel (id_of b ∷ visited) p (find-known _ bs p s)
                (omega (arith, unvisited-lt (id_of b) visited bs k v)))
      ]
    ]
  ]

  walk-Leads :
      (fuel : ℕ) (visited : List (List ℕ)) (b : LogicalBlock)
      → walk bs fuel visited b ≡ reached
      → Leads bs b
  unfolding walk
  walk-Leads zero visited b h = cc
  walk-Leads (suc fuel) visited b h = elim (Bool-cases (is_empty (parent_of b))) [
    | inl e ↦ Leads.top b e
    | inr e ↦ elim (Bool-cases (any (same_text (id_of b)) visited)) [
      | inl v ↦ absurd (failed≢reached (rw (walk, e, v) at h))
      | inr v ↦ elim (Option-cases (lookup bs (parent_of b))) [
        | inl n ↦ absurd (failed≢reached (rw (walk, e, v, n) at h))
        | inr (p, s) ↦
            Leads.up b p s (walk-Leads fuel (id_of b ∷ visited) p (rw (walk, e, v, s) at h))
      ]
    ]
  ]
    where
      failed≢reached : {e : BlockError} → failed e ≢ reached
      failed≢reached h = cc

  walk_error-none : (w : Walk) → walk_error w ≡ none → w ≢ stuck → w ≡ reached
  unfolding walk_error
  walk_error-none reached h ne = refl
  walk_error-none stuck h ne = absurd (ne refl)
  walk_error-none (failed e) h ne = cc

  pub assert_no_cycle-Leads :
      (b : LogicalBlock)
      → known bs (id_of b) ≡ true
      → assert_no_logical_block_cycle bs b ≡ none
      → Leads bs b
  unfolding assert_no_logical_block_cycle
  assert_no_cycle-Leads b k h =
      walk-Leads (length bs + 2) [] b
        (walk_error-none _ h (walk-ends (length bs + 2) [] b k (omega (arith, unvisited-nil bs))))
