-- ===== src/Tests/Plan.antt =====
-- The plan of the query of Tests/Query.antt.
use llm.Base.{contains, ℕ, ◌-◌, ◌≡◌, refl, Bool, true, false, List, [], ◌∷◌, arith, length}
use llm.Query.Profile.{QueryProcessingTier, QueryProcessingTierConfig, QueryProcessingConfig}
use llm.Query.Segmenter.{
  build_ranges, build_ranges_from, range_end, choose_soft_boundary, capacity, window_of, overlap_of,
  compact_from, compact_ranges, mark, mark_all, first_gap, validate_token_coverage, slice,
}
use llm.Query.Normalization.{
  NormalizedQuery, encode_utf8, len_utf8, byte_len, is_whitespace, original_byte_range,
  canonical_chars, trim_end, trim_outer_whitespace, kept_line, blanks_after, kept_break, lines_from,
  normalize_lines, set_last, boundaries, render_from, render, is_char_boundary, offset_is_valid,
  validate_offsets, normalized_chars, normalize_query,
}
use llm.Query.Segments.{
  QuerySegment, Planned, planned, refused, start_byte_at, end_byte_at, build_segment, token_range,
  push, validated, choose_ranges, measured, cut, cut_all, checked, cut_chosen,
  segment_normalized_query,
}
use llm.Query.Segments.Sound.{IsSegmentation, segment_normalized_query-IsSegmentation}
use llm.Query.Intent.Sentences.{
  whitespace, trim, ends_with_question, boundary, advance, emit, split_from, split_intent_sentences,
}
use llm.Query.Intent.{
  ranges_overlap, touched, classify_intent, unit_for, append_unit, units_from, implicit_unit,
  with_implicit, TextTests, QueryIntentUnit, QueryIntentKind, extract_query_intents_normalized,
}
use llm.Query.Plan.Short.{build_query_plan-short}
use llm.Query.Plan.Sound.{IsPlan, build_query_plan-IsPlan}
use llm.Query.Plan.Binding.{
  update_at, list_in, mark_first, bind_intent, fall_back, bind_all, bind_intents_to_segments,
}
use llm.Query.Plan.Check.{first_error, or_coverage, validate_plan_segments}
use llm.Query.Plan.{
  QueryPlan, QueryProcessingMode, choose_tier, single_segment, segments_for, concluded,
  plan_segments, plan_tier, plan_counted, plan_normalized, build_query_plan,
}
use llm.Tests.Query.{each_byte, counter, limits, normalized}

abbrev piece : ℕ → List ℕ → ℕ → ℕ → ℕ → ℕ → QuerySegment
piece index text left right from to = record {
  index = index;
  text = text;
  token_count = right - left;
  source_token_start = left;
  source_token_end = right;
  source_byte_start = left;
  source_byte_end = right;
  original_byte_start = from;
  original_byte_end = to;
  searchable = true;
  required_for_coverage = false;
  intent_unit_ids = [];
}

abbrev segments : List QuerySegment
segments =
    piece 0 (119 ∷ 104 ∷ 97 ∷ []) 0 3 1 4
    ∷ piece 1 (97 ∷ 116 ∷ 10 ∷ []) 2 5 3 7
    ∷ piece 2 (10 ∷ 105 ∷ 102 ∷ 63 ∷ []) 4 8 5 10
    ∷ []

segmented : segment_normalized_query normalized counter limits ≡ planned segments
unfolding build_ranges build_ranges_from range_end choose_soft_boundary capacity window_of
    overlap_of compact_from compact_ranges mark mark_all first_gap validate_token_coverage slice
    contains original_byte_range start_byte_at end_byte_at build_segment token_range push validated
    choose_ranges measured cut cut_all checked cut_chosen segment_normalized_query
segmented = refl

segment_normalized_query-IsSegmentation_example : IsSegmentation 8 limits segments
segment_normalized_query-IsSegmentation_example =
    segment_normalized_query-IsSegmentation normalized counter limits segments segmented

-- No word list matches, and nothing is changed by lower case.
abbrev tests : TextTests
tests = record {
  looks_like_technical_evidence = λ t. false;
  has_imperative_prefix = λ t. false;
  has_question_form = λ t. false;
  has_constraint_prefix = λ t. false;
  has_technical_identifier = λ t. false;
  to_lowercase = λ t. t;
}

abbrev intents : List QueryIntentUnit
intents = extract_query_intents_normalized tests normalized segments

abbrev unit : ℕ → List ℕ → Bool → QueryIntentUnit
unit id indices required = record {
  id = id;
  kind = QueryIntentKind.context;
  text = [];
  source_segment_indices = indices;
  source_token_start = 0;
  source_token_end = 1;
  normalized_byte_start = 0;
  normalized_byte_end = 1;
  original_byte_start = 0;
  original_byte_end = 1;
  required = required;
  searchable = true;
  weight = 100;
}

abbrev units : List QueryIntentUnit
units = unit 0 (0 ∷ 1 ∷ []) false ∷ unit 1 (1 ∷ 2 ∷ []) true ∷ []

abbrev tier : ℕ → QueryProcessingTierConfig
tier longest = record {
  max_tokens = longest;
  max_segments = 3;
  dense_candidate_limit = 10;
  sparse_candidate_limit = 10;
  lexical_candidate_limit = 10;
  local_fused_candidate_limit = 10;
  global_fused_candidate_limit = 10;
  max_parallel_segments = 1;
  max_parallel_lexical_segments = 1;
  deadline_ms = 100;
  max_graph_seeds = 1;
  admission_weight = 1;
}

abbrev config : QueryProcessingConfig
config = record {
  enabled = true;
  extended_enabled = false;
  absolute_max_tokens = 30;
  absolute_max_bytes = 30;
  segment_target_tokens = 3;
  segment_max_tokens = 4;
  segment_overlap_tokens = 1;
  single_deadline_ms = 50;
  single_graph_seeds = 1;
  single_admission_weight = 1;
  standard = tier 10;
  extended = tier 20;
}

abbrev plan_or : Planned QueryPlan → QueryPlan
plan_or (planned p) = p
plan_or (refused e) = record {
  normalized_query = normalized;
  original_token_count = 0;
  mode = QueryProcessingMode.single;
  tier = QueryProcessingTier.single;
  limits = limits;
  segments = [];
  intent_units = [];
}

abbrev plan : QueryPlan
plan = plan_or (build_query_plan tests counter (97 ∷ 63 ∷ []) config 6)

build_query_plan-IsPlan_example : IsPlan config 6 counter (97 ∷ 63 ∷ []) plan
unfolding encode_utf8 len_utf8 byte_len is_whitespace canonical_chars trim_end trim_outer_whitespace
    kept_line blanks_after kept_break lines_from normalize_lines set_last boundaries render_from
    render is_char_boundary offset_is_valid validate_offsets normalized_chars normalize_query
    build_ranges build_ranges_from range_end choose_soft_boundary capacity window_of overlap_of
    compact_from compact_ranges mark mark_all first_gap validate_token_coverage slice contains
    original_byte_range start_byte_at end_byte_at build_segment token_range push validated
    choose_ranges measured cut cut_all checked cut_chosen segment_normalized_query ranges_overlap
    touched whitespace trim ends_with_question classify_intent unit_for append_unit units_from
    implicit_unit with_implicit extract_query_intents_normalized boundary advance emit split_from
    split_intent_sentences update_at list_in mark_first bind_intent bind_all fall_back
    bind_intents_to_segments first_error or_coverage validate_plan_segments choose_tier
    single_segment segments_for concluded plan_segments plan_tier plan_counted plan_normalized
    build_query_plan
build_query_plan-IsPlan_example =
    build_query_plan-IsPlan config 6 tests counter (97 ∷ 63 ∷ []) plan refl

-- "a?" is 97 63.
abbrev short_query : List ℕ
short_query = 97 ∷ 63 ∷ []

abbrev short_normalized : NormalizedQuery
short_normalized = record {
  original_text = short_query;
  normalized_text = short_query;
  normalized_to_original_byte_map = 0 ∷ 1 ∷ 2 ∷ [];
  token_offsets = each_byte 0 short_query;
}

build_query_plan-short_example :
    (p : QueryPlan) × (build_query_plan tests counter short_query config 6 ≡ planned p)
    × (p.tier ≡ QueryProcessingTier.single)
    × (length p.segments ≡ 1)
unfolding encode_utf8 len_utf8 byte_len is_whitespace canonical_chars trim_end trim_outer_whitespace
    kept_line blanks_after kept_break lines_from normalize_lines set_last boundaries render_from
    render is_char_boundary offset_is_valid validate_offsets normalized_chars normalize_query
    whitespace trim
build_query_plan-short_example =
    build_query_plan-short config 6 tests counter short_query short_normalized 2 (omega arith) refl
      refl refl (omega arith) (omega arith)
