-- ===== src/Query/Plan.antt =====
-- The plan of a query (src/query_processing/planner.rs: `build_query_plan`,
-- src/query_processing/profile.rs).
pub mod Binding
pub mod Check
pub mod Bind
pub mod Validate
pub mod Sound
pub mod Short
use llm.Base.{
  contains, ℕ, zero, suc, ◌+◌, min, Bool, true, false, ◌&&◌, ◌||◌, not, Option, none, some, List,
  [], ◌∷◌, ◌++◌, map, ltb, leb, ◌==◌, if◌then◌else◌, length, is_empty, any, head,
}
use llm.Query.Profile.{
  Limits, QueryProcessingTier, QueryProcessingConfig, for_single, for_segmented,
}
use llm.Query.Segmenter.{
  Segmented, ok, err, Invariant, no_segments, more_than_max, no_required, not_contiguous,
  empty_segment, too_long, validate_token_coverage,
}
use llm.Query.Normalization.{
  NormalizedQuery, QueryTokenCounter, Tokenized, tokens, failed, original_byte_range, byte_len,
  normalize_query,
}
use llm.Query.Segments.{
  QuerySegment, QueryPlanningError, Planned, planned, refused, build_segment, token_range,
  segment_normalized_query,
}
use llm.Query.Intent.Sentences.{trim}
use llm.Query.Intent.{QueryIntentUnit, TextTests, extract_query_intents_normalized}
use Binding.{bind_intents_to_segments}
use Check.{validate_plan_segments}

pub data QueryProcessingMode : Type 0 where
  single segmented : QueryProcessingMode

pub record QueryPlan : Type 0 where
  pub normalized_query : NormalizedQuery
  pub original_token_count : ℕ
  pub mode : QueryProcessingMode
  pub tier : QueryProcessingTier
  pub limits : Limits
  pub segments : List QuerySegment
  pub intent_units : List QueryIntentUnit

-- "exceeds max_length" and "OutOfRange".
exceeds : List ℕ
exceeds =
    101 ∷ 120 ∷ 99 ∷ 101 ∷ 101 ∷ 100 ∷ 115 ∷ 32 ∷ 109 ∷ 97 ∷ 120 ∷ 95 ∷ 108 ∷ 101 ∷ 110 ∷ 103 ∷ 116
    ∷ 104 ∷ []

out_of_range : List ℕ
out_of_range = 79 ∷ 117 ∷ 116 ∷ 79 ∷ 102 ∷ 82 ∷ 97 ∷ 110 ∷ 103 ∷ 101 ∷ []

map_tokenization_error : List ℕ → QueryPlanningError
unfolding exceeds out_of_range
map_tokenization_error e =
    if contains exceeds e || contains out_of_range e
    then QueryPlanningError.token_limit_exceeded
    else QueryPlanningError.tokenization e

-- What the number of tokens decides.
pub record Choice : Type 0 where
  pub mode : QueryProcessingMode
  pub tier : QueryProcessingTier
  pub limits : Limits

unfoldable pub choose_tier : QueryProcessingConfig → ℕ → ℕ → Planned Choice
choose_tier config single_query_max_tokens count =
    if leb count single_query_max_tokens
    then planned (record {
      mode = QueryProcessingMode.single;
      tier = QueryProcessingTier.single;
      limits = for_single config single_query_max_tokens;
    })
    else if leb count config.standard.max_tokens
    then if not config.enabled
      then refused QueryPlanningError.long_query_not_supported
      else planned (record {
        mode = QueryProcessingMode.segmented;
        tier = QueryProcessingTier.segmented_standard;
        limits = for_segmented config config.standard;
      })
    else if leb count config.extended.max_tokens
    then if not config.enabled
      then refused QueryPlanningError.long_query_not_supported
      else if not config.extended_enabled
      then refused QueryPlanningError.extended_query_not_enabled
      else planned (record {
        mode = QueryProcessingMode.segmented;
        tier = QueryProcessingTier.segmented_extended;
        limits = for_segmented config config.extended;
      })
    else refused QueryPlanningError.token_limit_exceeded

whole : ℕ → Option (ℕ × ℕ) → ℕ × ℕ
whole query_len none = (0, query_len)
whole query_len (some r) = r

module _ (tests : TextTests) (counter : QueryTokenCounter) where
  unfoldable pub single_segment : ℕ → NormalizedQuery → ℕ → QuerySegment
  unfolding whole
  single_segment query_len q count =
      let n = length q.normalized_text in
      build_segment 0 q.normalized_text count (0, length q.token_offsets) (0, n)
        (whole query_len (original_byte_range q 0 n)) true

  unfoldable pub segments_for :
      ℕ → NormalizedQuery → ℕ → QueryProcessingMode → Limits → Planned (List QuerySegment)
  unfolding single_segment
  segments_for query_len q count QueryProcessingMode.single limits =
      planned (single_segment query_len q count ∷ [])
  segments_for query_len q count QueryProcessingMode.segmented limits =
      segment_normalized_query q counter limits

  -- What follows the check that ends the plan.
  unfoldable pub concluded : QueryPlan → Segmented (Unit {0}) → Planned QueryPlan
  concluded plan (err i) = refused (QueryPlanningError.segmentation_invariant i)
  concluded plan (ok u) = planned plan

  unfoldable pub plan_segments :
      NormalizedQuery → ℕ → Choice → Planned (List QuerySegment) → Planned QueryPlan
  unfolding concluded
  plan_segments q count choice (refused e) = refused e
  plan_segments q count choice (planned ss) =
      let us = extract_query_intents_normalized tests q ss in
      let bound = bind_intents_to_segments ss us in
      if is_empty us
      then refused QueryPlanningError.intent_extraction
      else concluded
          (record {
            normalized_query = q;
            original_token_count = count;
            mode = choice.mode;
            tier = choice.tier;
            limits = choice.limits;
            segments = bound;
            intent_units = us;
          })
          (validate_plan_segments bound (length q.token_offsets) choice.limits)

  unfoldable pub plan_tier : ℕ → NormalizedQuery → ℕ → Planned Choice → Planned QueryPlan
  unfolding plan_segments segments_for
  plan_tier query_len q count (refused e) = refused e
  plan_tier query_len q count (planned choice) =
      plan_segments q count choice (segments_for query_len q count choice.mode choice.limits)

  unfoldable pub plan_counted :
      QueryProcessingConfig → ℕ → ℕ → NormalizedQuery → Tokenized ℕ → Planned QueryPlan
  unfolding plan_tier map_tokenization_error exceeds out_of_range
  plan_counted config single_max query_len q (failed e) = refused (map_tokenization_error e)
  plan_counted config single_max query_len q (tokens count) =
      plan_tier query_len q count (choose_tier config single_max count)

  unfoldable pub plan_normalized :
      QueryProcessingConfig → ℕ → ℕ → Tokenized NormalizedQuery → Planned QueryPlan
  unfolding plan_counted
  plan_normalized config single_max query_len (failed e) =
      refused (QueryPlanningError.tokenization e)
  plan_normalized config single_max query_len (tokens q) =
      if is_empty q.normalized_text
      then refused QueryPlanningError.empty
      else plan_counted config single_max query_len q (
          counter.count_tokens q.normalized_text
            (min config.absolute_max_tokens config.extended.max_tokens) false)

  unfoldable pub build_query_plan : List ℕ → QueryProcessingConfig → ℕ → Planned QueryPlan
  unfolding plan_normalized
  build_query_plan query config single_max =
      if ltb config.absolute_max_bytes (byte_len query)
      then refused QueryPlanningError.byte_limit_exceeded
      else plan_normalized config single_max (byte_len query) (normalize_query query counter)
