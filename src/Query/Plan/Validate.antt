-- ===== src/Query/Plan/Validate.antt =====
-- The check that ends a plan (src/query_processing/planner.rs: `validate_plan_segments`).
use llm.Base.{
  ℕ, ◌+◌, ◌≤◌, ◌<◌, ◌≡◌, refl, true, false, Option, none, some, List, [], ◌∷◌, map, arith, length,
  is_empty, any, All,
}
use llm.Query.Profile.{Limits}
use llm.Query.Segmenter.{Segmented, ok, Invariant, validate_token_coverage}
use llm.Query.Segmenter.Ranges.{Covered}
use llm.Query.Segmenter.Coverage.{validate_token_coverage_sound}
use llm.Query.Segments.{QuerySegment, token_range}
use llm.Query.Segments.Sound.{Numbered}
use llm.Query.Intent.Sentences.{trim}
use llm.Query.Plan.Binding.{is_marked}
use llm.Query.Plan.Check.{first_error, or_coverage, validate_plan_segments}

-- A segment has text and a number of tokens within the limit.
pub record IsSized (limits : Limits) (s : QuerySegment) : Type 0 where
  pub not_blank : is_empty (trim s.text) ≡ false
  pub counted : 1 ≤ s.token_count
  pub short : s.token_count ≤ limits.segment_max_tokens

-- The segments that a plan may have.
pub record AreValid (n : ℕ) (limits : Limits) (ss : List QuerySegment) : Type 0 where
  pub nonempty : 1 ≤ length ss
  pub few : length ss ≤ limits.max_segments
  pub represented : any is_marked ss ≡ true
  pub numbered : Numbered 0 ss
  pub sized : All (IsSized limits) ss
  pub covering : (i : ℕ) → i < n → Covered i (map token_range ss)

module _ (limits : Limits) where
  first_error-none :
      (k : ℕ) (ss : List QuerySegment)
      → first_error limits k ss ≡ none
      → Numbered k ss × All (IsSized limits) ss
  unfolding first_error
  first_error-none k [] h = (tt, tt)
  first_error-none k (s ∷ ss) h =
      let (numbered, sized) = first_error-none (k + 1) ss (ground arith) in
      (
        (ground arith, numbered),
        (record { not_blank = ground arith; counted = ground arith; short = ground arith }, sized),
      )

  or_coverage-ok :
      (o : Option Invariant) (c : Segmented (Unit {0}))
      → or_coverage o c ≡ ok tt
      → (o ≡ none) × (c ≡ ok tt)
  unfolding or_coverage
  or_coverage-ok none c h = (refl, h)
  or_coverage-ok (some i) c h = cc

  -- If the check passes, then there is a segment, there are at most `max_segments`, one represents a
  -- required intent, they are numbered from 0, each has text and between 1 and `segment_max_tokens`
  -- tokens, and together they cover the tokens of the query.
  pub validate_plan_segments-AreValid :
      (ss : List QuerySegment) (n : ℕ)
      → validate_plan_segments ss n limits ≡ ok tt
      → AreValid n limits ss
  unfolding validate_plan_segments
  validate_plan_segments-AreValid ss n h =
      let nonempty : is_empty ss ≡ false = ground arith in
      let (no_error, valid) = or_coverage-ok _ _ checked in
      let (numbered, sized) = first_error-none 0 ss no_error in
      record {
        nonempty = length-positive ss nonempty;
        few = ground arith;
        represented = ground arith;
        numbered = numbered;
        sized = sized;
        covering = λ i lt. validate_token_coverage_sound (map token_range ss) n i valid lt;
      }
    where
      checked :
          or_coverage (first_error limits 0 ss) (validate_token_coverage (map token_range ss) n)
          ≡ ok tt
      checked = ground arith

      length-positive : (ss : List QuerySegment) → is_empty ss ≡ false → 1 ≤ length ss
      length-positive [] e = cc
      length-positive (s ∷ ss) e = omega arith
