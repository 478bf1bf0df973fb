-- ===== src/Graph/Choice.antt =====
-- The blocks that become nodes (select_blocks_for_graph of src/graph/mod.rs).
use llm.Base.{
  ℕ, suc, ◌+◌, ◌≤◌, ◌<◌, ◌≡◌, refl, ap, subst, arith, String, true, false, ◌&&◌, not, Option, none,
  some, List, [], ◌∷◌, ◌++◌, max, length, All, All-append, All-sort_by, length-append, leb,
  if◌then◌else◌, map, sort_by, inl, inr, Bool-cases,
}
use llm.Strings.{same_iff}
use llm.Graph.{LogicalBlockLite, GeneratedChunk, GraphBuildLimits}
use llm.Graph.Select.{
  Scored, scored, scored_leb, same_parent, is_container, parent_count, skips, select_loop,
  select_blocks_for_graph,
}

-- The blocks with a parent that are no containers.
unfoldable pub leaf_count : Option String → List LogicalBlockLite → ℕ
leaf_count p [] = 0
leaf_count p (b ∷ bs) =
    if same_parent p b.parent_block_id && not (is_container b)
    then suc (leaf_count p bs)
    else leaf_count p bs

leaf-le-parent :
    (p : Option String) (bs : List LogicalBlockLite) → leaf_count p bs ≤ parent_count p bs
unfolding leaf_count parent_count
leaf-le-parent p [] = omega arith
leaf-le-parent p (b ∷ bs) = ground (arith, leaf-le-parent p bs)

leaf_count-append :
    (p : Option String) (bs cs : List LogicalBlockLite)
    → leaf_count p (bs ++ cs) ≡ leaf_count p bs + leaf_count p cs
unfolding leaf_count
leaf_count-append p [] cs = ground arith
leaf_count-append p (b ∷ bs) cs = ground (arith, leaf_count-append p bs cs)

-- The blocks that the loop carries on with, after a block.
abbrev next : GraphBuildLimits → LogicalBlockLite → List LogicalBlockLite → List LogicalBlockLite
next limits b selected = if skips limits b selected then selected else selected ++ (b ∷ [])

-- What a step keeps of the selected blocks.
module _ {ℓ} (limits : GraphBuildLimits) (P : List LogicalBlockLite → Type ℓ) where
  select_loop-keeps :
      (bs selected : List LogicalBlockLite)
      → ((b : LogicalBlockLite) (s : List LogicalBlockLite) → P s → P (next limits b s))
      → P selected
      → P (select_loop limits bs selected)
  unfolding select_loop
  select_loop-keeps [] selected step h = h
  select_loop-keeps (b ∷ bs) selected step h =
      let h' = step b selected h in
      let rest = select_loop-keeps bs (next limits b selected) step h' in
      elim (Bool-cases (
        not (skips limits b selected)
        && leb limits.max_block_nodes (length (next limits b selected)))) [
          | inl e ↦ rw e h'
          | inr e ↦ rw e rest
        ]

select_loop-length :
    (limits : GraphBuildLimits) (bs selected : List LogicalBlockLite)
    → length selected < max limits.max_block_nodes 1
    → length (select_loop limits bs selected) ≤ max limits.max_block_nodes 1
unfolding select_loop
select_loop-length limits [] selected lt = omega arith
select_loop-length limits (c ∷ bs) selected lt = elim (Bool-cases (skips limits c selected)) [
  | inl e ↦ rw (e, select_loop) (select_loop-length limits bs selected lt)
  | inr e ↦
      let grown = length-append selected (c ∷ []) in
      elim (Bool-cases (leb limits.max_block_nodes (length (selected ++ (c ∷ []))))) [
        | inl f ↦ rw (e, f, select_loop) (omega arith)
        | inr f ↦
            rw (e, f, select_loop)
              (select_loop-length limits bs (selected ++ (c ∷ [])) (ground arith))
      ]
]

same_parent-eq : (p q : Option String) → same_parent p q ≡ true → p ≡ q
same_parent-eq none none h = refl
same_parent-eq none (some b) h = cc
same_parent-eq (some a) none h = cc
same_parent-eq (some a) (some b) h = ap some ((same_iff a b).0 h)

-- A block that is added as a leaf has a parent whose share of children is not full.
has_room :
    (limits : GraphBuildLimits) (p : Option String) (b : LogicalBlockLite)
    (s : List LogicalBlockLite)
    → skips limits b s ≡ false
    → (same_parent p b.parent_block_id && not (is_container b)) ≡ true
    → leaf_count p s < limits.max_children_per_block
unfolding skips
has_room limits p b s room leaf =
    let eq = same_parent-eq p b.parent_block_id (ground arith) in
    let few = leaf-le-parent p s in
    let few' = subst (λ q. leaf_count p s ≤ parent_count q s) eq few in ground arith

next-leaves :
    (limits : GraphBuildLimits) (p : Option String) (b : LogicalBlockLite)
    (s : List LogicalBlockLite)
    → leaf_count p s ≤ limits.max_children_per_block
    → leaf_count p (next limits b s) ≤ limits.max_children_per_block
unfolding leaf_count
next-leaves limits p b s h = elim (Bool-cases (skips limits b s)) [
  | inl e ↦ rw e h
  | inr e ↦
      let sum = leaf_count-append p s (b ∷ []) in
      elim (Bool-cases (same_parent p b.parent_block_id && not (is_container b))) [
        | inl f ↦ let room = has_room limits p b s e f in rw (e, sum, f) (omega arith)
        | inr f ↦ rw (e, sum, f) (omega arith)
      ]
]

next-All {ℓ} :
    (P : LogicalBlockLite → Type ℓ) (limits : GraphBuildLimits) (b : LogicalBlockLite)
    (s : List LogicalBlockLite)
    → P b
    → All P s
    → All P (next limits b s)
next-All P limits b s pb h = elim (Bool-cases (skips limits b s)) [
  | inl e ↦ rw e h
  | inr e ↦ rw e (All-append P s (b ∷ []) h (pb, tt))
]

select_loop-All {ℓ} :
    (P : LogicalBlockLite → Type ℓ) (limits : GraphBuildLimits)
    (bs selected : List LogicalBlockLite)
    → All P bs
    → All P selected
    → All P (select_loop limits bs selected)
unfolding select_loop
select_loop-All P limits [] selected hb hs = hs
select_loop-All P limits (b ∷ bs) selected hb hs =
    let h' = next-All P limits b selected hb.0 hs in
    let rest = select_loop-All P limits bs (next limits b selected) hb.1 h' in
    elim (Bool-cases (
      not (skips limits b selected)
      && leb limits.max_block_nodes (length (next limits b selected)))) [
        | inl e ↦ rw e h'
        | inr e ↦ rw e rest
      ]

-- A block that has been chosen is one of those the walk was given.
order-All {ℓ} :
    (P : LogicalBlockLite → Type ℓ) (xs : List Scored)
    → All (λ x. P x.block) xs
    → All P (map (λ x. x.block) xs)
order-All P [] h = tt
order-All P (x ∷ xs) h = (h.0, order-All P xs h.1)

scored-All {ℓ} :
    (P : LogicalBlockLite → Type ℓ) (all_blocks bs : List LogicalBlockLite)
    (chunks : List GeneratedChunk)
    → All P bs
    → All (λ x. P x.block) (map (scored all_blocks chunks) bs)
unfolding scored
scored-All P all_blocks [] chunks h = tt
scored-All P all_blocks (b ∷ bs) chunks h = (h.0, scored-All P all_blocks bs chunks h.1)

-- The blocks selected for the graph are among the blocks of the document, at most
-- `max_block_nodes` of them (or 1, when that is 0), and no parent has more than
-- `max_children_per_block` selected children that are not documents, sections or subsections.
pub select_blocks_for_graph-limits {ℓ} :
    (limits : GraphBuildLimits) (blocks : List LogicalBlockLite) (chunks : List GeneratedChunk)
    (warnings : List String) (P : LogicalBlockLite → Type ℓ) (p : Option String)
    → All P blocks
    → All P (select_blocks_for_graph limits blocks chunks warnings).selected
      × (length (select_blocks_for_graph limits blocks chunks warnings).selected
          ≤ max limits.max_block_nodes 1)
      × (leaf_count p (select_blocks_for_graph limits blocks chunks warnings).selected
          ≤ limits.max_children_per_block)
unfolding select_blocks_for_graph
select_blocks_for_graph-limits limits blocks chunks warnings P p h =
    let order = map (λ x. x.block) (sort_by scored_leb (map (scored blocks chunks) blocks)) in
    let sorted =
      All-sort_by scored_leb (λ x. P x.block) (map (scored blocks chunks) blocks)
        (scored-All P blocks blocks chunks h) in
    (
      select_loop-All P limits order [] (order-All P _ sorted) tt,
      select_loop-length limits order [] (omega arith),
      select_loop-keeps limits (λ s. leaf_count p s ≤ limits.max_children_per_block) order []
          (next-leaves limits p) (unfold leaf_count in omega arith),
    )
