-- ===== src/Query/Segmenter/Ranges.antt =====
-- The ranges of `build_ranges` cover the query (src/query_processing/segmenter.rs).
use llm.Base.{ℕ, zero, suc, ◌+◌, ◌-◌, ◌≤◌, ◌<◌, ◌≡◌, max, List, [], ◌∷◌, arith, length, ◌⊎◌, All}
use llm.Query.Profile.{Limits}
use llm.Query.Segmenter.{TokenOffset, range_end, build_ranges_from, build_ranges}
use llm.Query.Segmenter.Soft.{range_end-bounds}

-- A range holds a token.
abbrev pub Holds : ℕ → ℕ × ℕ → Type 0
Holds i r = (r.0 ≤ i) × (i < r.1)

abbrev pub Covered : ℕ → List (ℕ × ℕ) → Type 0
Covered i [] = ◌≡◌ {A = ℕ} 0 1
Covered i (r ∷ rs) = Holds i r ⊎ Covered i rs

-- A range is not empty, ends within the text, and is no longer than a segment may be.
pub record IsRange (n longest : ℕ) (r : ℕ × ℕ) : Type 0 where
  pub nonempty : r.0 < r.1
  pub inside : r.1 ≤ n
  pub short : r.1 ≤ r.0 + longest

module _ (text : List ℕ) (offsets : List TokenOffset) (limits : Limits) where
  build_ranges_from-All :
      (fuel start : ℕ)
      → 1 ≤ limits.segment_max_tokens
      → All
          (IsRange (length offsets) limits.segment_max_tokens)
          (build_ranges_from text offsets limits fuel start)
  unfolding build_ranges_from
  build_ranges_from-All zero start pos = tt
  build_ranges_from-All (suc fuel) start pos = ground (
    arith,
    range_end-bounds text offsets limits start pos,
    build_ranges_from-All fuel
        (max (range_end text offsets limits start - limits.segment_overlap_tokens) (start + 1)) pos,
  )

  build_ranges_from-Covered :
      (fuel start i : ℕ)
      → 1 ≤ limits.segment_max_tokens
      → length offsets ≤ start + fuel
      → start ≤ i
      → i < length offsets
      → Covered i (build_ranges_from text offsets limits fuel start)
  unfolding build_ranges_from
  build_ranges_from-Covered zero start i pos enough le lt = absurd (omega arith)
  build_ranges_from-Covered (suc fuel) start i pos enough le lt = ground (
    arith,
    range_end-bounds text offsets limits start pos,
    build_ranges_from-Covered fuel
        (max (range_end text offsets limits start - limits.segment_overlap_tokens) (start + 1)) i
        pos,
  )

  -- Each range that `build_ranges` gives is nonempty, ends within the query, and has at most
  -- `segment_max_tokens` tokens, if that limit is positive.
  pub build_ranges-IsRange :
      1 ≤ limits.segment_max_tokens
      → All (IsRange (length offsets) limits.segment_max_tokens) (build_ranges text offsets limits)
  unfolding build_ranges
  build_ranges-IsRange pos = build_ranges_from-All (length offsets) 0 pos

  -- Every token of the query lies in a range that `build_ranges` gives, wherever the text has soft
  -- boundaries, if `segment_max_tokens` is positive.
  pub build_ranges-Covered :
      (i : ℕ)
      → 1 ≤ limits.segment_max_tokens
      → i < length offsets
      → Covered i (build_ranges text offsets limits)
  unfolding build_ranges
  build_ranges-Covered i pos lt =
      build_ranges_from-Covered (length offsets) 0 i pos (omega arith) (omega arith) lt
