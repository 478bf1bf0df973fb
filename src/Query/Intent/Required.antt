-- ===== src/Query/Intent/Required.antt =====
-- Every plan has an intent that must be answered (src/query_processing/intent.rs:
-- `extract_query_intents_normalized`).
use llm.Base.{
  ℕ, suc, ◌+◌, ◌<◌, ◌≡◌, refl, Bool, true, false, ◌||◌, not, Option, none, some, List, [], ◌∷◌,
  ◌++◌, map, arith, length, all, any, is_empty, retain, All, All-append, inl, inr, Bool-cases,
  subst,
}
use llm.Query.Normalization.{NormalizedQuery, original_byte_range}
use llm.Query.Segments.{QuerySegment}
use llm.Query.Segments.Sound.{Numbered}
use llm.Query.Intent.Sentences.{Sentence, trim, split_intent_sentences}
use llm.Query.Intent.{
  QueryIntentUnit, TextTests, touched, unit_of, unit_for, append_unit, units_from, implicit_unit,
  with_implicit, extract_query_intents_normalized,
}

-- The intents carry consecutive numbers.
abbrev pub Counted : ℕ → List QueryIntentUnit → Type 0
Counted k [] = Unit
Counted k (u ∷ us) = (u.id ≡ k) × Counted (k + 1) us

abbrev pub is_required : QueryIntentUnit → Bool
is_required u = u.required

Counted-append :
    (k : ℕ) (us : List QueryIntentUnit) (u : QueryIntentUnit)
    → Counted k us
    → u.id ≡ k + length us
    → Counted k (us ++ (u ∷ []))
Counted-append k [] u h e = (omega arith, tt)
Counted-append k (x ∷ xs) u (a, t) e = (a, Counted-append (k + 1) xs u t (omega arith))

any-append :
    (us : List QueryIntentUnit) (u : QueryIntentUnit)
    → u.required ≡ true
    → any is_required (us ++ (u ∷ [])) ≡ true
any-append [] u e = ground arith
any-append (x ∷ xs) u e = ground (arith, any-append xs u e)

some_required :
    (us : List QueryIntentUnit) → all (λ u. not u.required) us ≡ false → any is_required us ≡ true
some_required [] h = cc
some_required (u ∷ us) h = ground (arith, some_required us)

-- The positions that the code takes segments from lie in the list.
abbrev pub Indices : ℕ → QueryIntentUnit → Type 0
Indices n u = All (λ i. i < n) u.source_segment_indices

Numbered-indices :
    (k : ℕ) (p : QuerySegment → Bool) (ss : List QuerySegment)
    → Numbered k ss
    → All (λ i. i < k + length ss) (map (λ s. s.index) (retain p ss))
Numbered-indices k p [] h = tt
Numbered-indices k p (s ∷ ss) (e, t) =
    let rest : All (λ i. i < k + suc (length ss)) (map (λ s. s.index) (retain p ss)) =
      subst (λ n. All (λ i. i < n) (map (λ s. s.index) (retain p ss))) {x = k + 1 + length ss}
        (omega arith) (Numbered-indices (k + 1) p ss t) in
    elim (Bool-cases (p s)) [ inl b ↦ rw b (omega arith, rest) | inr b ↦ rw b rest ]

module _ (tests : TextTests) (q : NormalizedQuery) (ss : List QuerySegment) where
  abbrev Bound : QueryIntentUnit → Type 0
  Bound u = Indices (length ss) u

  -- What a sentence adds.
  abbrev Fits : ℕ → Option QueryIntentUnit → Type 0
  Fits id none = Unit
  Fits id (some u) = (u.id ≡ id) × Bound u

  unit_of-Fits :
      (id : ℕ) (s : Sentence) (indices : List ℕ) (o : Option (ℕ × ℕ))
      → All (λ i. i < length ss) indices
      → Fits id (unit_of tests id s ss indices o)
  unfolding unit_of
  unit_of-Fits id s indices none a = tt
  unit_of-Fits id s indices (some o) a = (refl, a)

  unit_for-Fits : (id : ℕ) (s : Sentence) → Numbered 0 ss → Fits id (unit_for tests q ss id s)
  unfolding unit_for touched
  unit_for-Fits id s n = elim (Bool-cases (is_empty (trim s.text) || is_empty (touched ss s))) [
    | inl e ↦ rw e tt
    | inr e ↦ rw e (
        unit_of-Fits id s (touched ss s) (original_byte_range q s.start s.end) (
          subst (λ n. All (λ i. i < n) (touched ss s)) {x = 0 + length ss} (omega arith)
            (Numbered-indices 0 _ ss n)))
  ]

  -- The intents are numbered from 0 and refer to segments of the plan.
  abbrev pub IsBound : List QueryIntentUnit → Type 0
  IsBound us = Counted 0 us × All Bound us

  append_unit-IsBound :
      (us : List QueryIntentUnit) (o : Option QueryIntentUnit)
      → IsBound us
      → Fits (length us) o
      → IsBound (append_unit us o)
  unfolding append_unit
  append_unit-IsBound us none h f = h
  append_unit-IsBound us (some u) (c, b) (e, f) =
      (Counted-append 0 us u c (omega arith), All-append Bound us (u ∷ []) b (f, tt))

  units_from-IsBound :
      (sentences : List Sentence) (us : List QueryIntentUnit)
      → Numbered 0 ss
      → IsBound us
      → IsBound (units_from tests q ss us sentences)
  unfolding units_from
  units_from-IsBound [] us n h = h
  units_from-IsBound (s ∷ rest) us n h =
      units_from-IsBound rest (append_unit us (unit_for tests q ss (length us) s)) n
        (append_unit-IsBound us _ h (unit_for-Fits (length us) s n))

  implicit_unit-Fits : (id : ℕ) → Numbered 0 ss → Fits id (some (implicit_unit q ss id))
  unfolding implicit_unit
  implicit_unit-Fits id n = (
    refl,
    subst (λ n. All (λ i. i < n) (map (λ s. s.index) (retain (λ s. s.searchable) ss)))
        {x = 0 + length ss} (omega arith) (Numbered-indices 0 _ ss n),
  )

  implicit_unit-required : (id : ℕ) → (implicit_unit q ss id).required ≡ true
  unfolding implicit_unit
  implicit_unit-required id = refl

  with_implicit-IsBound :
      (us : List QueryIntentUnit)
      → Numbered 0 ss
      → IsBound us
      → IsBound (with_implicit q ss us) × (any is_required (with_implicit q ss us) ≡ true)
  unfolding with_implicit append_unit
  with_implicit-IsBound us n h = elim (Bool-cases (all (λ u. not u.required) us)) [
    | inl e ↦
        let u = implicit_unit q ss (length us) in
        rw e (
          append_unit-IsBound us (some u) h (implicit_unit-Fits (length us) n),
          any-append us u (implicit_unit-required (length us)),
        )
    | inr e ↦ rw e (h, some_required us e)
  ]

  -- The intents of a query whose segments are numbered from 0 are numbered from 0 too, refer only to
  -- segments of the query, and at least one of them is required.
  pub extract_query_intents-required :
      Numbered 0 ss
      → IsBound (extract_query_intents_normalized tests q ss)
        × (any is_required (extract_query_intents_normalized tests q ss) ≡ true)
  unfolding extract_query_intents_normalized
  extract_query_intents-required n =
      with_implicit-IsBound _ n
        (units_from-IsBound (split_intent_sentences q.normalized_text) [] n (tt, tt))
