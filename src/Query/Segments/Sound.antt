-- ===== src/Query/Segments/Sound.antt =====
-- What a segmentation promises, and that the code keeps it (src/query_processing/segmenter.rs:
-- `segment_normalized_query`).
use llm.Base.{
  ℕ, ◌+◌, ◌≤◌, ◌<◌, ◌≡◌, ◌≢◌, ap, refl, false, ◌||◌, Option, none, some, List, [], ◌∷◌, map, arith,
  ltb, leb, length, All, inl, inr, Bool-cases, subst,
}
use llm.Query.Profile.{Limits}
use llm.Query.Segmenter.{Segmented, ok, err, compact_ranges, validate_token_coverage}
use llm.Query.Segmenter.Ranges.{Covered}
use llm.Query.Segmenter.Coverage.{validate_token_coverage_sound}
use llm.Query.Normalization.{NormalizedQuery, QueryTokenCounter, Tokenized, tokens, failed}
use llm.Query.Segments.{
  QuerySegment, QueryPlanningError, Planned, planned, refused, build_segment, token_range, push,
  validated, choose_ranges, measured, cut, cut_all, checked, cut_chosen, segment_normalized_query,
}

-- The segments carry consecutive numbers.
abbrev pub Numbered : ℕ → List QuerySegment → Type 0
Numbered k [] = Unit
Numbered k (s ∷ ss) = (s.index ≡ k) × Numbered (k + 1) ss

abbrev pub Spans : ℕ → QuerySegment → Type 0
Spans n s = (s.source_token_start < s.source_token_end) × (s.source_token_end ≤ n)

-- The segments of a text of so many tokens.
pub record IsSegmentation (n : ℕ) (limits : Limits) (ss : List QuerySegment) : Type 0 where
  pub few : length ss ≤ limits.max_segments
  pub numbered : Numbered 0 ss
  pub spanning : All (Spans n) ss
  pub covering : (i : ℕ) → i < n → Covered i (map token_range ss)

pub planned-injective : {A : Type 0} {x y : A} → planned x ≡ planned y → x ≡ y
planned-injective h = ground arith

pub refused≢planned : {A : Type 0} {e : QueryPlanningError} {x : A} → refused e ≢ planned x
refused≢planned h = cc

validated-planned :
    (ps : List QuerySegment) (v : Segmented (Unit {0})) (ss : List QuerySegment)
    → validated ps v ≡ planned ss
    → (ps ≡ ss) × (v ≡ ok tt)
unfolding validated
validated-planned ps (ok u) ss h = (planned-injective h, refl)
validated-planned ps (err i) ss h = cc

module _ (q : NormalizedQuery) (counter : QueryTokenCounter) (limits : Limits) where
  measured-shape :
      (index : ℕ) (source bytes : ℕ × ℕ) (text : List ℕ) (t : Tokenized ℕ) (o : Option (ℕ × ℕ))
      (s : QuerySegment)
      → measured q counter limits index source bytes text t o ≡ planned s
      → (s.index ≡ index) × (s.source_token_start ≡ source.0) × (s.source_token_end ≡ source.1)
  unfolding measured build_segment
  measured-shape index source bytes text (failed e) o s h = cc
  measured-shape index source bytes text (tokens n) none s h = cc
  measured-shape index source bytes text (tokens n) (some o) s h = ground arith

  cut-shape :
      (index : ℕ) (r : ℕ × ℕ) (s : QuerySegment)
      → cut q counter limits index r ≡ planned s
      → (s.index ≡ index) × Spans (length q.token_offsets) s
  unfolding cut
  cut-shape index (start, end) s h =
      elim (Bool-cases (leb end start || ltb (length q.token_offsets) end)) [
        | inl e ↦ absurd (refused≢planned (rw e at h))
        | inr e ↦
            let (i, l, r) = measured-shape index (start, end) _ _ _ _ s (rw e at h) in
            (i, omega (arith, l, r, bounds e))
      ]
    where
      bounds :
          (leb end start || ltb (length q.token_offsets) end) ≡ false
          → (start < end) × (end ≤ length q.token_offsets)
      bounds e = ground arith

  push-planned :
      (p : Planned QuerySegment) (ps : Planned (List QuerySegment)) (ss : List QuerySegment)
      → push p ps ≡ planned ss
      → (s : QuerySegment) × (rest : List QuerySegment) × (p ≡ planned s)
        × (ps ≡ planned rest)
        × (s ∷ rest ≡ ss)
  unfolding push
  push-planned (refused e) ps ss h = cc
  push-planned (planned s) (refused e) ss h = cc
  push-planned (planned s) (planned rest) ss h = (s, rest, refl, refl, ground arith)

  Cut : ℕ → List (ℕ × ℕ) → List QuerySegment → Type 0
  Cut index rs ss =
      (length ss ≡ length rs) × Numbered index ss × All (Spans (length q.token_offsets)) ss

  cut_all-Cut :
      (index : ℕ) (rs : List (ℕ × ℕ)) (ss : List QuerySegment)
      → cut_all q counter limits index rs ≡ planned ss
      → Cut index rs ss
  unfolding cut_all Cut
  cut_all-Cut index [] ss h = subst (Cut index []) (planned-injective h) (refl, tt, tt)
  cut_all-Cut index (r ∷ rs) ss h =
      let (s, rest, e, es, same) = push-planned _ _ ss h in
      let (i, spans) = cut-shape index r s e in
      let (l, numbered, all) = cut_all-Cut (index + 1) rs rest es in
      subst (Cut index (r ∷ rs)) same (omega arith, (i, numbered), (spans, all))

  choose_ranges-few :
      (rs : List (ℕ × ℕ))
      → choose_ranges q.normalized_text q.token_offsets limits ≡ ok rs
      → length rs ≤ limits.max_segments
  unfolding choose_ranges compact_ranges
  choose_ranges-few rs h = ground arith

  checked-planned :
      (p : Planned (List QuerySegment)) (ss : List QuerySegment)
      → checked q counter limits p ≡ planned ss
      → (p ≡ planned ss)
        × (validate_token_coverage (map token_range ss) (length q.token_offsets) ≡ ok tt)
  unfolding checked validated
  checked-planned (refused e) ss h = cc
  checked-planned (planned ps) ss h =
      let (same, valid) = validated-planned ps _ ss h in
      (
        ap planned same,
        subst (λ xs. validate_token_coverage (map token_range xs) (length q.token_offsets) ≡ ok tt)
            same valid,
      )

  cut_chosen-IsSegmentation :
      (c : Segmented (List (ℕ × ℕ))) (ss : List QuerySegment)
      → ((rs : List (ℕ × ℕ)) → c ≡ ok rs → length rs ≤ limits.max_segments)
      → cut_chosen q counter limits c ≡ planned ss
      → IsSegmentation (length q.token_offsets) limits ss
  unfolding cut_chosen Cut
  cut_chosen-IsSegmentation (err i) ss few h = cc
  cut_chosen-IsSegmentation (ok rs) ss few h =
      let (e, valid) = checked-planned (cut_all q counter limits 0 rs) ss h in
      let (l, numbered, all) = cut_all-Cut 0 rs ss e in
      record {
        few = omega (arith, few rs refl);
        numbered = numbered;
        spanning = all;
        covering = λ i lt.
            validate_token_coverage_sound (map token_range ss) (length q.token_offsets) i valid lt;
      }

  -- If a query is cut into segments, then there are at most `max_segments` of them, they are
  -- numbered from 0, each spans tokens of the query, and together they cover all its tokens.
  pub segment_normalized_query-IsSegmentation :
      (ss : List QuerySegment)
      → segment_normalized_query q counter limits ≡ planned ss
      → IsSegmentation (length q.token_offsets) limits ss
  unfolding segment_normalized_query
  segment_normalized_query-IsSegmentation ss h = ground (
    arith,
    cut_chosen-IsSegmentation (choose_ranges q.normalized_text q.token_offsets limits) ss
        choose_ranges-few,
  )
