-- ===== src/Query/Plan/Check.antt =====
-- The check that ends a plan (src/query_processing/planner.rs: `validate_plan_segments`).
use llm.Base.{
  ℕ, ◌+◌, ◌||◌, not, Option, none, some, List, [], ◌∷◌, map, ltb, ◌==◌, if◌then◌else◌, length,
  is_empty, any,
}
use llm.Query.Profile.{Limits}
use llm.Query.Segmenter.{
  Segmented, err, Invariant, no_segments, more_than_max, no_required, not_contiguous, empty_segment,
  too_long, validate_token_coverage,
}
use llm.Query.Segments.{QuerySegment, token_range}
use llm.Query.Intent.Sentences.{trim}
use llm.Query.Plan.Binding.{is_marked}

-- The first error of the `for` loop.
unfoldable pub first_error : Limits → ℕ → List QuerySegment → Option Invariant
first_error limits expected [] = none
first_error limits expected (s ∷ ss) =
    let rest = first_error limits (expected + 1) ss in
    if not (s.index == expected)
    then some not_contiguous
    else if is_empty (trim s.text) || s.token_count == 0
    then some empty_segment
    else if ltb limits.segment_max_tokens s.token_count
    then some too_long
    else rest

unfoldable pub or_coverage : Option Invariant → Segmented (Unit {0}) → Segmented (Unit {0})
or_coverage (some i) c = err i
or_coverage none c = c

unfoldable pub validate_plan_segments : List QuerySegment → ℕ → Limits → Segmented (Unit {0})
unfolding first_error or_coverage
validate_plan_segments ss n limits =
    if is_empty ss
    then err no_segments
    else if ltb limits.max_segments (length ss)
    then err more_than_max
    else if not (any is_marked ss)
    then err no_required
    else or_coverage (first_error limits 0 ss) (validate_token_coverage (map token_range ss) n)
