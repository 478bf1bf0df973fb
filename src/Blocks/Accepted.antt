-- ===== src/Blocks/Accepted.antt =====
-- What an accepted list of blocks is (src/grpc/mod.rs: `validate_and_sort_logical_blocks`).
use mathlib.Core.List.{Permᴰ}
use mathlib.Core.List.Permᴰ
use llm.Base.{
  ℕ, ◌≡◌, ◌≢◌, refl, subst, true, false, Option, none, some, List, [], ◌∷◌, arith, ◌==◌, is_empty,
  any, All, same_text, same_text_refl, text_leb_total, inl, inr, ◌⊎◌, Bool-cases, Option-cases,
}
use llm.Blocks.{
  LogicalBlock, BlockError, ok, first, id_of, parent_of, is_document, check_block, check_blocks,
  count_roots, lookup, allowed_parent, validate_parent_child, check_named, check_parent, check_all,
  assert_no_logical_block_cycle, block_leb, insert, sort, all_checks,
  validate_and_sort_logical_blocks,
}
use llm.Blocks.Tree.{Leads, known, assert_no_cycle-Leads}

-- A block is a document without a parent, or its parent is in the list and may hold it.
abbrev pub Nested : List LogicalBlock → LogicalBlock → Type 0
Nested bs b =
    ((is_empty (parent_of b) ≡ true) × (is_document b.block_type ≡ true))
    ⊎ ((p : LogicalBlock) × (lookup bs (parent_of b) ≡ some p)
        × (allowed_parent b.block_type p.block_type (is_empty (parent_of b)) ≡ true))

-- No id occurs twice, nor among those seen before.
abbrev pub Fresh : List (List ℕ) → List LogicalBlock → Type 0
Fresh seen [] = Unit
Fresh seen (b ∷ bs) = (any (same_text (id_of b)) seen ≡ false) × Fresh (id_of b ∷ seen) bs

abbrev pub Ascending : List LogicalBlock → Type 0
Ascending [] = Unit
Ascending (b ∷ []) = Unit
Ascending (b ∷ c ∷ cs) = (block_leb b c ≡ true) × Ascending (c ∷ cs)

-- An accepted document, and its sorted blocks.
pub record IsDocument (bs sorted : List LogicalBlock) : Type 0 where
  pub one_root : count_roots bs ≡ 1
  pub distinct : Fresh [] bs
  pub nested : All (Nested bs) bs
  pub rooted : All (Leads bs) bs
  pub same_blocks : Permᴰ sorted bs
  pub ascending : Ascending sorted

block_leb_total : (a b : LogicalBlock) → block_leb a b ≡ false → block_leb b a ≡ true
unfolding block_leb
block_leb_total a b h = ground (arith, text_leb_total a.block_id b.block_id)

insert-Permᴰ : (b : LogicalBlock) (bs : List LogicalBlock) → Permᴰ (insert b bs) (b ∷ bs)
unfolding insert
insert-Permᴰ b [] = Permᴰ.cons refl Permᴰ.nil
insert-Permᴰ b (c ∷ cs) = elim (Bool-cases (block_leb b c)) [
  | inl e ↦ rw e (Permᴰ.refl (b ∷ c ∷ cs))
  | inr e ↦ rw e (Permᴰ.trans (Permᴰ.cons refl (insert-Permᴰ b cs)) (Permᴰ.swap refl refl))
]

sort-Permᴰ : (bs : List LogicalBlock) → Permᴰ (sort bs) bs
unfolding sort
sort-Permᴰ [] = Permᴰ.nil
sort-Permᴰ (b ∷ bs) = Permᴰ.trans (insert-Permᴰ b (sort bs)) (Permᴰ.cons refl (sort-Permᴰ bs))

insert-Ascending :
    (b : LogicalBlock) (cs : List LogicalBlock) → Ascending cs → Ascending (insert b cs)
unfolding insert
insert-Ascending b [] h = tt
insert-Ascending b (c ∷ []) h = elim (Bool-cases (block_leb b c)) [
  | inl e ↦ rw e (e, tt)
  | inr e ↦ rw e (block_leb_total b c e, tt)
]
insert-Ascending b (c ∷ d ∷ ds) (h, t) = elim (Bool-cases (block_leb b c)) [
  | inl e ↦ rw e (e, (h, t))
  | inr e ↦
      let rest = insert-Ascending b (d ∷ ds) t in
      elim (Bool-cases (block_leb b d)) [
        | inl f ↦ rw (e, f) (block_leb_total b c e, rw f at rest)
        | inr f ↦ rw (e, f) (h, rw f at rest)
      ]
]

sort-Ascending : (bs : List LogicalBlock) → Ascending (sort bs)
unfolding sort
sort-Ascending [] = tt
sort-Ascending (b ∷ bs) = insert-Ascending b (sort bs) (sort-Ascending bs)

first-none : (d e : Option BlockError) → first d e ≡ none → (d ≡ none) × (e ≡ none)
first-none none e h = (refl, h)
first-none (some d) e h = cc

check_blocks-Fresh :
    (seen : List (List ℕ)) (bs : List LogicalBlock) → check_blocks seen bs ≡ none → Fresh seen bs
unfolding check_blocks check_block
check_blocks-Fresh seen [] h = tt
check_blocks-Fresh seen (b ∷ bs) h =
    let (here, rest) = first-none (check_block seen b) _ h in
    (ground arith, check_blocks-Fresh (id_of b ∷ seen) bs rest)

check_all-All :
    {P : LogicalBlock → Type 0} (f : LogicalBlock → Option BlockError) (all bs : List LogicalBlock)
    → ((b : LogicalBlock) → known all (id_of b) ≡ true → f b ≡ none → P b)
    → All (λ b. known all (id_of b) ≡ true) bs
    → check_all f bs ≡ none
    → All P bs
unfolding check_all
check_all-All f all [] imp k h = tt
check_all-All f all (b ∷ bs) imp (k, ks) h =
    let (here, rest) = first-none (f b) (check_all f bs) h in
    (imp b k here, check_all-All f all bs imp ks rest)

known-cons :
    (b : LogicalBlock) (bs cs : List LogicalBlock)
    → All (λ c. known bs (id_of c) ≡ true) cs
    → All (λ c. known (b ∷ bs) (id_of c) ≡ true) cs
known-cons b bs [] h = tt
known-cons b bs (c ∷ cs) (k, ks) = (ground arith, known-cons b bs cs ks)

all_known : (bs : List LogicalBlock) → All (λ c. known bs (id_of c) ≡ true) bs
all_known [] = tt
all_known (b ∷ bs) = (rw (same_text_refl (id_of b)) refl, known-cons b bs bs (all_known bs))

check_parent-Nested :
    (bs : List LogicalBlock) (b : LogicalBlock) → check_parent bs b ≡ none → Nested bs b
unfolding check_parent check_named validate_parent_child
check_parent-Nested bs b h = elim (Bool-cases (is_empty (parent_of b))) [
  | inl e ↦ inl (e, ground arith)
  | inr e ↦ elim (Option-cases (lookup bs (parent_of b))) [
    | inl n ↦ absurd (found_none (rw (e, n) at h))
    | inr (p, s) ↦ inr (p, s, ground arith)
  ]
]
  where
    found_none : {e : BlockError} → some e ≢ none
    found_none h = cc

all_checks-none :
    (bs sorted : List LogicalBlock)
    → all_checks bs ≡ none
    → Permᴰ sorted bs
    → Ascending sorted
    → IsDocument bs sorted
unfolding all_checks
all_checks-none bs sorted h perm ascending =
    let (each, rest) = first-none (check_blocks [] bs) _ h in
    let one : (count_roots bs == 1) ≡ true = ground arith in
    let (parents, cycles) = first-none (check_all (check_parent bs) bs) _ (rw one at rest) in
    record {
      one_root = ground arith;
      distinct = check_blocks-Fresh [] bs each;
      nested =
          check_all-All (check_parent bs) bs bs (λ b k. check_parent-Nested bs b) (all_known bs)
            parents;
      rooted =
          check_all-All (assert_no_logical_block_cycle bs) bs bs (assert_no_cycle-Leads bs)
            (all_known bs) cycles;
      same_blocks = perm;
      ascending = ascending;
    }

-- If the blocks of a document are accepted, then: exactly one is a document; no id occurs twice;
-- each block either is that root or has a parent in the list that may hold it; each leads to a block
-- without a parent, so there is no cycle; and the answer has the same blocks in ascending order.
pub validate_and_sort-IsDocument :
    (bs sorted : List LogicalBlock)
    → validate_and_sort_logical_blocks bs ≡ ok sorted
    → IsDocument bs sorted
unfolding validate_and_sort_logical_blocks
validate_and_sort-IsDocument bs sorted h =
    let none_failed : all_checks bs ≡ none = ground arith in
    let same : sort bs ≡ sorted = ground arith in
    all_checks-none bs sorted none_failed (subst (λ s. Permᴰ s bs) same (sort-Permᴰ bs))
      (subst Ascending same (sort-Ascending bs))
