-- ===== src/Query/Segmenter.antt =====
-- Long queries are cut into overlapping segments of tokens (src/query_processing/segmenter.rs).
-- Texts are lists of bytes. src/query_processing/normalization.rs checks that each offset of the
-- tokenizer is on character boundaries and inside the text, not that the offsets follow each other:
-- where a slice would end before it starts the code panics, and the model takes the empty text.
pub mod Soft
pub mod Ranges
pub mod Compact
pub mod Coverage
use llm.Base.{
  contains, ℕ, zero, suc, ◌+◌, ◌-◌, min, max, Bool, true, false, ◌&&◌, ◌||◌, Option, none, some,
  List, [], ◌∷◌, ltb, leb, ◌==◌, if◌then◌else◌, length, take, drop, get_elem?, replicate,
  saturating_mul,
}
use llm.Query.Profile.{Limits}

-- tokenizer::TokenOffset
pub record TokenOffset : Type 0 where
  pub token_index : ℕ
  pub start_byte : ℕ
  pub end_byte : ℕ

unfoldable pub slice : List ℕ → ℕ → ℕ → List ℕ
slice text left right = take (right - left) (drop left text)

-- What separates two tokens.
pub data Separator : Type 0 where
  paragraph sentence plain : Separator

-- "\n" is 10, ". " is 46 32, "? " is 63 32 and "! " is 33 32.
separator : List ℕ → Separator
unfolding contains
separator s =
    if contains (10 ∷ 10 ∷ []) s
    then paragraph
    else if contains (10 ∷ []) s
        || contains (46 ∷ 32 ∷ []) s
        || contains (63 ∷ 32 ∷ []) s
        || contains (33 ∷ 32 ∷ []) s
    then sentence
    else plain

start_of : Option TokenOffset → ℕ → ℕ
start_of none d = d
start_of (some o) d = o.start_byte

end_of : Option TokenOffset → ℕ
end_of none = 0
end_of (some o) = o.end_byte

-- The loop of `choose_soft_boundary` returns early or ends with the best boundary so far.
pub data Scan : Type 0 where
  returned best : ℕ → Scan

module _ (text : List ℕ) (offsets : List TokenOffset) where
  separator_before : ℕ → Separator
  unfolding separator slice start_of end_of
  separator_before end = separator (
      slice text (end_of (get_elem? offsets (end - 1)))
        (start_of (get_elem? offsets end) (length text)))

  -- `for end in from..=hard`, with the number of rounds that are left.
  scan : ℕ → ℕ → ℕ → ℕ → Scan
  scan zero target end b = best b
  scan (suc rounds) target end b = elim (separator_before end) [
    | paragraph ↦ scan rounds target (end + 1) end
    | sentence ↦ elim (leb target end) [
      | true ↦ returned end
      | false ↦ scan rounds target (end + 1) end
    ]
    | plain ↦ scan rounds target (end + 1) b
  ]

  settle : ℕ → ℕ → Scan → ℕ
  settle start hard (returned end) = end
  settle start hard (best b) = max (min b hard) (start + 1)

  unfoldable pub choose_soft_boundary : Limits → ℕ → ℕ
  unfolding scan settle separator_before
  choose_soft_boundary limits start =
      let target = min (start + limits.segment_target_tokens) (length offsets) in
      let hard = min (start + limits.segment_max_tokens) (length offsets) in
      let minimum = min (start + (limits.segment_target_tokens - 24)) hard in
      let from = max minimum (start + 1) in
      settle start hard (scan (hard + 1 - from) target from (max target (start + 1)))

  unfoldable pub range_end : Limits → ℕ → ℕ
  range_end limits start =
      if leb (length offsets - start) limits.segment_max_tokens
      then length offsets
      else choose_soft_boundary limits start

  -- The `while` loop of `build_ranges`, on fuel.
  unfoldable pub build_ranges_from : Limits → ℕ → ℕ → List (ℕ × ℕ)
  unfolding range_end
  build_ranges_from limits zero start = []
  build_ranges_from limits (suc fuel) start = elim (ltb start (length offsets)) [
    | false ↦ []
    | true ↦
        let end = range_end limits start in
        (start, end) ∷ elim (end == length offsets) [
          | true ↦ []
          | false ↦
              build_ranges_from limits fuel (max (end - limits.segment_overlap_tokens) (start + 1))
        ]
  ]

  unfoldable pub build_ranges : Limits → List (ℕ × ℕ)
  unfolding build_ranges_from
  build_ranges limits = build_ranges_from limits (length offsets) 0

-- The `while` loop of `compact_ranges`, on fuel.
unfoldable pub compact_from : ℕ → ℕ → ℕ → ℕ → ℕ → List (ℕ × ℕ)
compact_from token_count window overlap zero start = []
compact_from token_count window overlap (suc fuel) start = elim (ltb start token_count) [
  | false ↦ []
  | true ↦
      let end = min (start + window) token_count in
      (start, end) ∷ elim (end == token_count) [
        | true ↦ []
        | false ↦ compact_from token_count window overlap fuel (max (end - overlap) (start + 1))
      ]
]

-- Why a query cannot be segmented.
pub data Invariant : Type 0 where
  no_offsets too_many_segments compaction_exceeded invalid_range no_original_mapping : Invariant
  no_segments more_than_max no_required not_contiguous empty_segment too_long : Invariant
  not_covered : ℕ → Invariant

pub data Segmented {ℓ} (A : Type ℓ) : Type ℓ where
  ok : A → Segmented A
  err : Invariant → Segmented A

unfoldable pub window_of : Limits → ℕ
window_of limits = max limits.segment_max_tokens 1

unfoldable pub overlap_of : Limits → ℕ
unfolding window_of
overlap_of limits = min limits.segment_overlap_tokens (window_of limits - 1)

-- How many tokens the allowed number of windows covers.
unfoldable pub capacity : Limits → ℕ
unfolding window_of overlap_of
capacity limits =
    saturating_mul limits.max_segments (window_of limits)
    - saturating_mul (limits.max_segments - 1) (overlap_of limits)

unfoldable pub compact_ranges : ℕ → Limits → Segmented (List (ℕ × ℕ))
unfolding capacity compact_from
compact_ranges token_count limits =
    if ltb (capacity limits) token_count
    then err too_many_segments
    else let ranges =
        compact_from token_count (window_of limits) (overlap_of limits) token_count 0 in
      if ltb limits.max_segments (length ranges) then err compaction_exceeded else ok ranges

-- `iter_mut().take(end).skip(start)`, each set to true.
unfoldable pub mark : ℕ → ℕ → List Bool → List Bool
mark start end [] = []
mark start zero (b ∷ bs) = b ∷ bs
mark zero (suc end) (b ∷ bs) = true ∷ mark zero end bs
mark (suc start) (suc end) (b ∷ bs) = b ∷ mark start end bs

unfoldable pub mark_all : ℕ → List (ℕ × ℕ) → List Bool → List Bool
unfolding mark
mark_all n [] covered = covered
mark_all n ((start, end) ∷ ranges) covered = mark_all n ranges (mark start (min end n) covered)

-- `iter().position(|covered| !covered)`
unfoldable pub first_gap : List Bool → Option ℕ
first_gap [] = none
first_gap (false ∷ bs) = some 0
first_gap (true ∷ bs) = elim (first_gap bs) [ none ↦ none | some i ↦ some (i + 1) ]

-- Over the token ranges of the segments.
unfoldable pub validate_token_coverage : List (ℕ × ℕ) → ℕ → Segmented (Unit {0})
unfolding mark_all first_gap
validate_token_coverage ranges n = elim (first_gap (mark_all n ranges (replicate n false))) [
  | none ↦ ok tt
  | some i ↦ err (not_covered i)
]
