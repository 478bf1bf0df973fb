-- ===== src/Graph/Depth.antt =====
-- The walk to the root of a block (compute_depth of src/graph/mod.rs).
use llm.Base.{
  ℕ, zero, suc, ◌+◌, ◌≤◌, ◌<◌, ◌≡◌, refl, sym, subst, arith, String, true, false, some, List, [],
  ◌∷◌, any, length, if◌then◌else◌, inl, inr, Bool-cases, Option-cases,
}
use llm.Strings.{same, same_iff}
use llm.Graph.{LogicalBlockLite}
use llm.Graph.Select.{parent_of, depth_from, compute_depth}

-- How many blocks have an identifier that the walk has not seen.
unfoldable pub unseen : List LogicalBlockLite → List String → ℕ
unseen [] seen = 0
unseen (b ∷ bs) seen = if any (same b.block_id) seen then unseen bs seen else suc (unseen bs seen)

unseen-le-length : (bs : List LogicalBlockLite) (seen : List String) → unseen bs seen ≤ length bs
unfolding unseen
unseen-le-length [] seen = omega arith
unseen-le-length (b ∷ bs) seen = ground (arith, unseen-le-length bs seen)

unseen-le :
    (bs : List LogicalBlockLite) (cur : String) (seen : List String)
    → unseen bs (cur ∷ seen) ≤ unseen bs seen
unfolding unseen
unseen-le [] cur seen = omega arith
unseen-le (b ∷ bs) cur seen = ground (arith, unseen-le bs cur seen)

head-lt :
    (b : LogicalBlockLite) (bs : List LogicalBlockLite) (cur : String) (seen : List String)
    → same b.block_id cur ≡ true
    → any (same cur) seen ≡ false
    → unseen (b ∷ bs) (cur ∷ seen) < unseen (b ∷ bs) seen
unfolding unseen
head-lt b bs cur seen e new =
    let eq = (same_iff b.block_id cur).0 e in
    let new' = subst (λ s. any (same s) seen ≡ false) (sym eq) new in
    ground (arith, unseen-le bs cur seen)

tail-lt :
    (b : LogicalBlockLite) (bs : List LogicalBlockLite) (cur : String) (seen : List String)
    → unseen bs (cur ∷ seen) < unseen bs seen
    → unseen (b ∷ bs) (cur ∷ seen) < unseen (b ∷ bs) seen
unfolding unseen
tail-lt b bs cur seen less = ground arith

unseen-lt :
    (bs : List LogicalBlockLite) (cur parent : String) (seen : List String)
    → parent_of bs cur ≡ some parent
    → any (same cur) seen ≡ false
    → unseen bs (cur ∷ seen) < unseen bs seen
unfolding parent_of
unseen-lt [] cur parent seen h new = cc
unseen-lt (b ∷ bs) cur parent seen h new = elim (Bool-cases (any (λ c. same c.block_id cur) bs)) [
  | inl e ↦
      let h' = rw (e, parent_of) at h in tail-lt b bs cur seen (unseen-lt bs cur parent seen h' new)
  | inr e ↦ elim (Bool-cases (same b.block_id cur)) [
    | inl f ↦ head-lt b bs cur seen f new
    | inr f ↦ let h' = rw (e, f) at h in cc
  ]
]

-- All fuel above the number of unseen blocks gives one depth, and each step counts one of them.
depth_from-enough :
    (fuel more : ℕ) (bs : List LogicalBlockLite) (cur : String) (seen : List String) (depth : ℕ)
    → unseen bs seen < fuel
    → unseen bs seen < more
    → (depth_from more bs cur seen depth ≡ depth_from fuel bs cur seen depth)
      × (depth_from fuel bs cur seen depth ≤ depth + unseen bs seen)
unfolding depth_from
depth_from-enough zero more bs cur seen depth lt lt' = (omega arith, omega arith)
depth_from-enough (suc fuel) zero bs cur seen depth lt lt' = (omega arith, omega arith)
depth_from-enough (suc fuel) (suc more) bs cur seen depth lt lt' =
    elim (Option-cases (parent_of bs cur)) [
      | inl e ↦ rw (e, depth_from) (refl, omega arith)
      | inr (parent, e) ↦ elim (Bool-cases (any (same cur) seen)) [
        | inl f ↦ rw (e, f, depth_from) (refl, omega arith)
        | inr f ↦
            let less = unseen-lt bs cur parent seen e f in
            let rest =
              depth_from-enough fuel more bs parent (cur ∷ seen) (depth + 1) (omega arith)
                (omega arith) in
            rw (e, f, depth_from) (rest.0, omega (arith, rest.1))
      ]
    ]

-- The walk of `compute_depth` ends, also where parents form a cycle: any further fuel gives the
-- same depth, and the depth is at most the number of blocks.
pub compute_depth-finishes :
    (bs : List LogicalBlockLite) (id : String) (fuel : ℕ)
    → length bs < fuel
    → (depth_from fuel bs id [] 0 ≡ compute_depth bs id) × (compute_depth bs id ≤ length bs)
unfolding compute_depth
compute_depth-finishes bs id fuel lt =
    let few = unseen-le-length bs [] in
    let ends = depth_from-enough (suc (length bs)) fuel bs id [] 0 (omega arith) (omega arith) in
    (ends.0, omega (arith, ends.1))
