-- ===== src/Query/Plan/Sound.antt =====
-- What a plan promises (src/query_processing/planner.rs: `build_query_plan`).
use llm.Base.{
  ℕ, ◌≤◌, ◌<◌, ◌≡◌, refl, min, true, false, List, arith, ltb, length, is_empty, inl, inr,
  Bool-cases, subst, ap, sym, ◌∙◌,
}
use llm.Query.Profile.{
  Limits, QueryProcessingTier, QueryProcessingConfig, for_single, for_segmented,
}
use llm.Query.Segmenter.{Segmented, ok, err}
use llm.Query.Normalization.{
  NormalizedQuery, QueryTokenCounter, Tokenized, tokens, failed, byte_len, normalize_query,
}
use llm.Query.Segments.{QuerySegment, Planned, planned, refused}
use llm.Query.Segments.Sound.{refused≢planned}
use llm.Query.Intent.{TextTests, extract_query_intents_normalized}
use llm.Query.Plan.Check.{validate_plan_segments}
use llm.Query.Plan.{
  QueryPlan, Choice, choose_tier, concluded, plan_segments, plan_tier, plan_counted,
  plan_normalized, build_query_plan,
}
use llm.Query.Plan.Validate.{AreValid, validate_plan_segments-AreValid}

-- When a tier may serve a query of so many tokens, and with which limits.
abbrev pub Allowed : QueryProcessingConfig → ℕ → ℕ → QueryProcessingTier → Limits → Type 0
Allowed config single_max count QueryProcessingTier.single limits =
    (count ≤ single_max) × (limits ≡ for_single config single_max)
Allowed config single_max count QueryProcessingTier.segmented_standard limits =
    (single_max < count)
    × (count ≤ config.standard.max_tokens)
    × (config.enabled ≡ true)
    × (limits ≡ for_segmented config config.standard)
Allowed config single_max count QueryProcessingTier.segmented_extended limits =
    (single_max < count)
    × (config.standard.max_tokens < count)
    × (count ≤ config.extended.max_tokens)
    × (config.enabled ≡ true)
    × (config.extended_enabled ≡ true)
    × (limits ≡ for_segmented config config.extended)

-- What a plan holds.
pub record IsPlan (config : QueryProcessingConfig) (single_max : ℕ) (counter : QueryTokenCounter)
    (query : List ℕ) (plan : QueryPlan) : Type 0 where
  pub normalized : normalize_query query counter ≡ tokens plan.normalized_query
  pub counted :
      counter.count_tokens plan.normalized_query.normalized_text
        (min config.absolute_max_tokens config.extended.max_tokens)
        false
      ≡ tokens plan.original_token_count
  pub allowed : Allowed config single_max plan.original_token_count plan.tier plan.limits
  pub valid : AreValid (length plan.normalized_query.token_offsets) plan.limits plan.segments
  pub small : byte_len query ≤ config.absolute_max_bytes

module _ (config : QueryProcessingConfig) (single_max : ℕ) where
  abbrev Sensible : ℕ → Planned Choice → Type 0
  Sensible count (refused e) = Unit
  Sensible count (planned c) = Allowed config single_max count c.tier c.limits

  choose_tier-Sensible : (count : ℕ) → Sensible count (choose_tier config single_max count)
  unfolding choose_tier
  choose_tier-Sensible count = ground arith

  module _ (tests : TextTests) (counter : QueryTokenCounter) where
    -- What each stage guarantees of the plan that it gives.
    abbrev Good : NormalizedQuery → ℕ → Planned QueryPlan → Type 0
    Good q count (refused e) = Unit
    Good q count (planned p) =
        (p.normalized_query ≡ q)
        × (p.original_token_count ≡ count)
        × Allowed config single_max count p.tier p.limits
        × AreValid (length q.token_offsets) p.limits p.segments

    concluded-Good :
        (p : QueryPlan) (v : Segmented (Unit {0}))
        → Allowed config single_max p.original_token_count p.tier p.limits
        → v ≡ validate_plan_segments p.segments (length p.normalized_query.token_offsets) p.limits
        → Good p.normalized_query p.original_token_count (concluded tests counter p v)
    unfolding concluded
    concluded-Good p (err i) allowed e = tt
    concluded-Good p (ok u) allowed e = (
      refl,
      refl,
      allowed,
      validate_plan_segments-AreValid p.limits p.segments (length p.normalized_query.token_offsets)
          (sym e),
    )

    plan_segments-Good :
        (q : NormalizedQuery) (count : ℕ) (c : Choice) (ss : Planned (List QuerySegment))
        → Allowed config single_max count c.tier c.limits
        → Good q count (plan_segments tests counter q count c ss)
    unfolding plan_segments
    plan_segments-Good q count c (refused e) allowed = tt
    plan_segments-Good q count c (planned ss) allowed =
        elim (Bool-cases (is_empty (extract_query_intents_normalized tests q ss))) [
          | inl e ↦ rw e tt
          | inr e ↦ rw e (concluded-Good _ _ allowed refl)
        ]

    plan_tier-Good :
        (n : ℕ) (q : NormalizedQuery) (count : ℕ) (c : Planned Choice)
        → Sensible count c
        → Good q count (plan_tier tests counter n q count c)
    unfolding plan_tier
    plan_tier-Good n q count (refused e) s = tt
    plan_tier-Good n q count (planned c) s = plan_segments-Good q count c _ s

    plan_counted-planned :
        (n : ℕ) (q : NormalizedQuery) (t : Tokenized ℕ) (p : QueryPlan)
        → plan_counted tests counter config single_max n q t ≡ planned p
        → (t ≡ tokens p.original_token_count) × Good q p.original_token_count (planned p)
    unfolding plan_counted
    plan_counted-planned n q (failed e) p h = cc
    plan_counted-planned n q (tokens count) p h =
        let good =
          subst (Good q count) h (plan_tier-Good n q count _ (choose_tier-Sensible count)) in
        let (same, counted, allowed, valid) = good in
        (ap tokens (sym counted), subst (λ k. Good q k (planned p)) (sym counted) good)

    module _ (query : List ℕ) (p : QueryPlan) where
      plan_normalized-IsPlan :
          (t : Tokenized NormalizedQuery)
          → normalize_query query counter ≡ t
          → byte_len query ≤ config.absolute_max_bytes
          → plan_normalized tests counter config single_max (byte_len query) t ≡ planned p
          → IsPlan config single_max counter query p
      unfolding plan_normalized
      plan_normalized-IsPlan (failed e) n small h = cc
      plan_normalized-IsPlan (tokens q) n small h = elim (Bool-cases (is_empty q.normalized_text)) [
        | inl e ↦ absurd (refused≢planned (rw e at h))
        | inr e ↦
            let (c, good) = plan_counted-planned (byte_len query) q _ p (rw e at h) in
            let (same, counted, allowed, valid) = good in
            record {
              normalized = n ∙ ap tokens (sym same);
              counted = rw same c;
              allowed = allowed;
              valid = rw same valid;
              small = small;
            }
      ]

      -- If a query is planned, then: it keeps the byte limit; the token counter gives its number of
      -- tokens; the number selects the tier and its limits, where segmented queries and the extended
      -- tier must be enabled; and the segments meet those limits, cover the tokens of the query and
      -- represent a required intent.
      pub build_query_plan-IsPlan :
          build_query_plan tests counter query config single_max ≡ planned p
          → IsPlan config single_max counter query p
      unfolding build_query_plan
      build_query_plan-IsPlan h =
          elim (Bool-cases (ltb config.absolute_max_bytes (byte_len query))) [
            | inl e ↦ absurd (refused≢planned (rw e at h))
            | inr e ↦
                plan_normalized-IsPlan (normalize_query query counter) refl (ground arith)
                  (rw e at h)
          ]
