-- ===== src/Query/Plan/Short.antt =====
-- Short queries are always planned (src/query_processing/planner.rs: `build_query_plan`).
use llm.Base.{
  ℕ, ◌≤◌, ◌≡◌, ap, refl, sym, ◌∙◌, subst, min, Bool, true, false, some, List, [], ◌∷◌, arith, ltb,
  leb, ◌==◌, length, is_empty, any, get_elem?, inl,
}
use llm.Query.Profile.{QueryProcessingTier, QueryProcessingConfig, for_single}
use llm.Query.Segmenter.{ok, validate_token_coverage}
use llm.Query.Segmenter.Coverage.{validate_token_coverage_complete}
use llm.Query.Normalization.{NormalizedQuery, QueryTokenCounter, tokens, byte_len, normalize_query}
use llm.Query.Segments.{QuerySegment, planned, build_segment, token_range}
use llm.Query.Intent.Sentences.{trim}
use llm.Query.Intent.{TextTests, QueryIntentUnit, extract_query_intents_normalized}
use llm.Query.Intent.Required.{is_required, extract_query_intents-required}
use llm.Query.Plan.Binding.{is_marked, bind_intents_to_segments}
use llm.Query.Plan.Check.{first_error, or_coverage, validate_plan_segments}
use llm.Query.Plan.Bind.{bound, get_elem?-bind_intents, bind_intents-marked, length-bind_intents}
use llm.Query.Plan.{
  QueryProcessingMode, QueryPlan, Choice, choose_tier, single_segment, segments_for, concluded,
  plan_segments, plan_tier, plan_counted, plan_normalized, build_query_plan,
}

singleton :
    {A : Type 0} (xs : List A) (a : A) → length xs ≡ 1 → get_elem? xs 0 ≡ some a → xs ≡ a ∷ []
singleton [] a l h = cc
singleton (x ∷ []) a l h = ground arith
singleton (x ∷ y ∷ ys) a l h = absurd (omega arith)

-- A segment of its own covers the whole query.
module _ (config : QueryProcessingConfig) (single_max n : ℕ) where
  covers_all : validate_token_coverage ((0, n) ∷ []) n ≡ ok tt
  covers_all = validate_token_coverage_complete ((0, n) ∷ []) n (λ i lt. inl (omega arith, lt))

  one_segment-valid :
      (s : QuerySegment)
      → s.index ≡ 0
      → is_empty (trim s.text) ≡ false
      → 1 ≤ s.token_count
      → s.token_count ≤ single_max
      → token_range s ≡ (0, n)
      → s.required_for_coverage ≡ true
      → validate_plan_segments (s ∷ []) n (for_single config single_max) ≡ ok tt
  unfolding validate_plan_segments first_error or_coverage validate_token_coverage token_range
  one_segment-valid s i t l u r m =
      let positive : (s.token_count == 0) ≡ false = ground arith in
      let short : ltb single_max s.token_count ≡ false = ground arith in
      rw (m, i, t, positive, short, r, covers_all) refl

module _ (config : QueryProcessingConfig) (single_max : ℕ) (tests : TextTests)
    (counter : QueryTokenCounter) (query : List ℕ) (q : NormalizedQuery) (count : ℕ) where
  abbrev whole_query : QuerySegment
  whole_query = single_segment tests counter (byte_len query) q count

  abbrev units : List QueryIntentUnit
  units = extract_query_intents_normalized tests q (whole_query ∷ [])

  whole_query-bound :
      (r : Bool) × (ids : List ℕ) × (bind_intents_to_segments (whole_query ∷ []) units
        ≡ bound whole_query ids r ∷ [])
  whole_query-bound = (
    _,
    _,
    singleton (bind_intents_to_segments (whole_query ∷ []) units) _
        (length-bind_intents units (whole_query ∷ []))
        (get_elem?-bind_intents units 0 (whole_query ∷ []) whole_query refl),
  )

  whole_query-index : whole_query.index ≡ 0
  unfolding single_segment build_segment
  whole_query-index = refl

  some_unit : is_empty units ≡ false
  some_unit =
      nonempty units
        (extract_query_intents-required tests q (whole_query ∷ []) (whole_query-index, tt)).1
    where
      nonempty : (us : List QueryIntentUnit) → any is_required us ≡ true → is_empty us ≡ false
      nonempty [] h = cc
      nonempty (u ∷ us) h = refl

  bound-valid :
      is_empty (trim q.normalized_text) ≡ false
      → 1 ≤ count
      → count ≤ single_max
      → validate_plan_segments
          (bind_intents_to_segments (whole_query ∷ []) units)
          (length q.token_offsets)
          (for_single config single_max)
        ≡ ok tt
  unfolding single_segment build_segment token_range
  bound-valid text pos le =
      let (r, ids, same) = whole_query-bound in
      let marks : any is_marked (bound whole_query ids r ∷ []) ≡ true =
        subst (λ ss. any is_marked ss ≡ true) same
          (bind_intents-marked units (whole_query ∷ []) (omega arith)) in
      subst
        (λ ss.
          validate_plan_segments ss (length q.token_offsets) (for_single config single_max) ≡ ok tt)
        (sym same)
        (one_segment-valid config single_max (length q.token_offsets) (bound whole_query ids r) refl
          text pos le refl (ground arith))

  abbrev short_choice : Choice
  short_choice = record {
    mode = QueryProcessingMode.single;
    tier = QueryProcessingTier.single;
    limits = for_single config single_max;
  }

  abbrev short_plan : QueryPlan
  short_plan = record {
    normalized_query = q;
    original_token_count = count;
    mode = QueryProcessingMode.single;
    tier = QueryProcessingTier.single;
    limits = for_single config single_max;
    segments = bind_intents_to_segments (whole_query ∷ []) units;
    intent_units = units;
  }

  choose_tier-short :
      count ≤ single_max → choose_tier config single_max count ≡ planned short_choice
  unfolding choose_tier
  choose_tier-short le = let e : leb count single_max ≡ true = ground arith in rw e refl

  plan_segments-short :
      is_empty (trim q.normalized_text) ≡ false
      → 1 ≤ count
      → count ≤ single_max
      → plan_segments tests counter q count short_choice (planned (whole_query ∷ []))
        ≡ planned short_plan
  unfolding plan_segments concluded
  plan_segments-short text pos le = rw (some_unit, bound-valid text pos le) refl

  plan_counted-short :
      is_empty (trim q.normalized_text) ≡ false
      → 1 ≤ count
      → count ≤ single_max
      → plan_counted tests counter config single_max (byte_len query) q (tokens count)
        ≡ planned short_plan
  unfolding plan_counted plan_tier segments_for
  plan_counted-short text pos le =
      ap (plan_tier tests counter (byte_len query) q count) (choose_tier-short le)
      ∙ plan_segments-short text pos le

  text-nonempty : (text : List ℕ) → is_empty (trim text) ≡ false → is_empty text ≡ false
  unfolding trim
  text-nonempty [] h = cc
  text-nonempty (c ∷ cs) h = refl

  -- A query that keeps the byte limit, whose normalized text is not blank and has between 1 and
  -- `single_query_max_tokens` tokens, is always planned, as a single query of one segment.
  pub build_query_plan-short :
      byte_len query ≤ config.absolute_max_bytes
      → normalize_query query counter ≡ tokens q
      → is_empty (trim q.normalized_text) ≡ false
      → counter.count_tokens q.normalized_text
          (min config.absolute_max_tokens config.extended.max_tokens)
          false
        ≡ tokens count
      → 1 ≤ count
      → count ≤ single_max
      → (p : QueryPlan) × (build_query_plan tests counter query config single_max ≡ planned p)
        × (p.tier ≡ QueryProcessingTier.single)
        × (length p.segments ≡ 1)
  unfolding build_query_plan plan_normalized
  build_query_plan-short small normalized text counted pos le =
      let fits : ltb config.absolute_max_bytes (byte_len query) ≡ false = ground arith in
      (
        short_plan,
        rw (fits, normalized, text-nonempty q.normalized_text text, counted)
            (plan_counted-short text pos le),
        refl,
        length-bind_intents units (whole_query ∷ []),
      )
