-- ===== src/Query/Segments.antt =====
-- The segments of a query (src/query_processing/segmenter.rs: `segment_normalized_query`,
-- src/query_processing/planner.rs: `QuerySegment`, `QueryPlanningError`).
pub mod Sound
pub mod Succeeds
use llm.Base.{
  ℕ, ◌+◌, ◌-◌, Bool, true, false, ◌||◌, Option, none, some, List, [], ◌∷◌, map, ltb, leb,
  if◌then◌else◌, length, is_empty, get_elem?,
}
use llm.Query.Profile.{Limits}
use llm.Query.Segmenter.{
  TokenOffset, Segmented, ok, err, Invariant, no_offsets, invalid_range, no_original_mapping,
  build_ranges, compact_ranges, validate_token_coverage, slice,
}
use llm.Query.Normalization.{
  NormalizedQuery, QueryTokenCounter, Tokenized, tokens, failed, original_byte_range,
}

-- `QuerySegment` without what src/query_processing/classification.rs reads off the text (kind, form,
-- identifiers, weight) and without the text's hash.
pub record QuerySegment : Type 0 where
  pub index : ℕ
  pub text : List ℕ
  pub token_count : ℕ
  pub source_token_start : ℕ
  pub source_token_end : ℕ
  pub source_byte_start : ℕ
  pub source_byte_end : ℕ
  pub original_byte_start : ℕ
  pub original_byte_end : ℕ
  pub searchable : Bool
  pub required_for_coverage : Bool
  pub intent_unit_ids : List ℕ

pub data QueryPlanningError : Type 0 where
  empty byte_limit_exceeded token_limit_exceeded : QueryPlanningError
  long_query_not_supported extended_query_not_enabled intent_extraction : QueryPlanningError
  segmentation_invariant : Invariant → QueryPlanningError
  tokenization : List ℕ → QueryPlanningError

pub data Planned {ℓ} (A : Type ℓ) : Type ℓ where
  planned : A → Planned A
  refused : QueryPlanningError → Planned A

unfoldable pub start_byte_at : List TokenOffset → ℕ → ℕ
start_byte_at offsets i = elim (get_elem? offsets i) [ none ↦ 0 | some o ↦ o.start_byte ]

unfoldable pub end_byte_at : List TokenOffset → ℕ → ℕ
end_byte_at offsets i = elim (get_elem? offsets i) [ none ↦ 0 | some o ↦ o.end_byte ]

unfoldable pub build_segment : ℕ → List ℕ → ℕ → ℕ × ℕ → ℕ × ℕ → ℕ × ℕ → Bool → QuerySegment
build_segment index text count source bytes original required = record {
  index = index;
  text = text;
  token_count = count;
  source_token_start = source.0;
  source_token_end = source.1;
  source_byte_start = bytes.0;
  source_byte_end = bytes.1;
  original_byte_start = original.0;
  original_byte_end = original.1;
  searchable = true;
  required_for_coverage = required;
  intent_unit_ids = [];
}

unfoldable pub token_range : QuerySegment → ℕ × ℕ
token_range s = (s.source_token_start, s.source_token_end)

-- `segments.push`, unless an error has ended the loop.
unfoldable pub push :
    Planned QuerySegment → Planned (List QuerySegment) → Planned (List QuerySegment)
push (refused e) rest = refused e
push (planned s) (refused e) = refused e
push (planned s) (planned ss) = planned (s ∷ ss)

unfoldable pub validated : List QuerySegment → Segmented (Unit {0}) → Planned (List QuerySegment)
validated ss (ok u) = planned ss
validated ss (err i) = refused (QueryPlanningError.segmentation_invariant i)

unfoldable pub choose_ranges : List ℕ → List TokenOffset → Limits → Segmented (List (ℕ × ℕ))
choose_ranges text offsets limits =
    let ranges = build_ranges text offsets limits in
    if ltb limits.max_segments (length ranges)
    then compact_ranges (length offsets) limits
    else ok ranges

module _ (q : NormalizedQuery) (counter : QueryTokenCounter) (limits : Limits) where
  unfoldable pub measured :
      ℕ → ℕ × ℕ → ℕ × ℕ → List ℕ → Tokenized ℕ → Option (ℕ × ℕ) → Planned QuerySegment
  measured index source bytes text (failed e) original = refused (QueryPlanningError.tokenization e)
  measured index source bytes text (tokens n) none =
      refused (QueryPlanningError.segmentation_invariant no_original_mapping)
  measured index source bytes text (tokens n) (some original) =
      planned (build_segment index text n source bytes original false)

  -- The body of the `for` loop.
  unfoldable pub cut : ℕ → ℕ × ℕ → Planned QuerySegment
  unfolding measured start_byte_at end_byte_at
  cut index (start, end) =
      if leb end start || ltb (length q.token_offsets) end
      then refused (QueryPlanningError.segmentation_invariant invalid_range)
      else let byte_start = start_byte_at q.token_offsets start in
        let byte_end = end_byte_at q.token_offsets (end - 1) in
        let text = slice q.normalized_text byte_start byte_end in
        measured index (start, end) (byte_start, byte_end) text
          (counter.count_tokens text limits.segment_max_tokens false)
          (original_byte_range q byte_start byte_end)

  unfoldable pub cut_all : ℕ → List (ℕ × ℕ) → Planned (List QuerySegment)
  unfolding push
  cut_all index [] = planned []
  cut_all index (r ∷ rs) = push (cut index r) (cut_all (index + 1) rs)

  unfoldable pub checked : Planned (List QuerySegment) → Planned (List QuerySegment)
  unfolding validated
  checked (refused e) = refused e
  checked (planned ss) =
      validated ss (validate_token_coverage (map token_range ss) (length q.token_offsets))

  unfoldable pub cut_chosen : Segmented (List (ℕ × ℕ)) → Planned (List QuerySegment)
  unfolding checked cut_all
  cut_chosen (err i) = refused (QueryPlanningError.segmentation_invariant i)
  cut_chosen (ok ranges) = checked (cut_all 0 ranges)

  unfoldable pub segment_normalized_query : Planned (List QuerySegment)
  unfolding cut_chosen choose_ranges
  segment_normalized_query =
      if is_empty q.token_offsets
      then refused (QueryPlanningError.segmentation_invariant no_offsets)
      else cut_chosen (choose_ranges q.normalized_text q.token_offsets limits)
