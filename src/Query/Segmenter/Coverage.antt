-- ===== src/Query/Segmenter/Coverage.antt =====
-- The check that no token is left out (src/query_processing/segmenter.rs:
-- `validate_token_coverage`).
use llm.Base.{
  ℕ, zero, suc, ◌<◌, ◌≡◌, refl, min, Bool, true, false, List, [], ◌∷◌, arith, length, inl, inr, ◌⊎◌,
  none, some, get_elem?, replicate, length-replicate, ◌&&◌, ◌||◌, ltb, leb, if◌then◌else◌,
  Option-cases, Bool-cases, ◌∙◌,
}
use llm.Query.Segmenter.{mark, mark_all, first_gap, validate_token_coverage, ok, err, not_covered}
use llm.Query.Segmenter.Ranges.{Covered}

length-mark : (start end : ℕ) (bs : List Bool) → length (mark start end bs) ≡ length bs
unfolding mark
length-mark start end [] = refl
length-mark start zero (b ∷ bs) = refl
length-mark zero (suc end) (b ∷ bs) = omega (arith, length-mark zero end bs)
length-mark (suc start) (suc end) (b ∷ bs) = omega (arith, length-mark start end bs)

-- An element is marked exactly when it lies in the range or was marked before.
get_elem?-mark :
    (start end i : ℕ) (bs : List Bool)
    → get_elem? (mark start end bs) i
      ≡ (if leb start i && ltb i (min end (length bs)) then some true else get_elem? bs i)
unfolding mark
get_elem?-mark start end i [] = ground arith
get_elem?-mark start zero i (b ∷ bs) = ground arith
get_elem?-mark zero (suc end) zero (b ∷ bs) = ground arith
get_elem?-mark zero (suc end) (suc i) (b ∷ bs) = ground (arith, get_elem?-mark zero end i bs)
get_elem?-mark (suc start) (suc end) zero (b ∷ bs) = ground arith
get_elem?-mark (suc start) (suc end) (suc i) (b ∷ bs) =
    ground (arith, get_elem?-mark start end i bs)

-- Is the token in one of the ranges?
abbrev covers : ℕ → List (ℕ × ℕ) → Bool
covers i [] = false
covers i (r ∷ rs) = (leb r.0 i && ltb i r.1) || covers i rs

length-mark_all :
    (n : ℕ) (rs : List (ℕ × ℕ)) (bs : List Bool) → length (mark_all n rs bs) ≡ length bs
unfolding mark_all
length-mark_all n [] bs = refl
length-mark_all n ((start, end) ∷ rs) bs =
    length-mark_all n rs (mark start (min end n) bs) ∙ length-mark start (min end n) bs

get_elem?-mark_all :
    (n i : ℕ) (rs : List (ℕ × ℕ)) (bs : List Bool)
    → length bs ≡ n
    → i < n
    → get_elem? (mark_all n rs bs) i ≡ (if covers i rs then some true else get_elem? bs i)
unfolding mark_all
get_elem?-mark_all n i [] bs e lt = refl
get_elem?-mark_all n i ((start, end) ∷ rs) bs e lt = ground (
  arith,
  length-mark start (min end n) bs,
  get_elem?-mark start (min end n) i bs,
  get_elem?-mark_all n i rs (mark start (min end n) bs),
)

covers-Covered : (i : ℕ) (rs : List (ℕ × ℕ)) → covers i rs ≡ true → Covered i rs
covers-Covered i [] h = cc
covers-Covered i (r ∷ rs) h = elim (Bool-cases (leb r.0 i && ltb i r.1)) [
  | inl e ↦ inl (ground arith)
  | inr e ↦ inr (covers-Covered i rs (ground arith))
]

Covered-covers : (i : ℕ) (rs : List (ℕ × ℕ)) → Covered i rs → covers i rs ≡ true
Covered-covers i [] h = cc
Covered-covers i (r ∷ rs) (inl h) = ground arith
Covered-covers i (r ∷ rs) (inr h) = ground (arith, Covered-covers i rs h)

first_gap-none :
    (bs : List Bool) (i : ℕ) → first_gap bs ≡ none → i < length bs → get_elem? bs i ≡ some true
unfolding first_gap
first_gap-none [] i h lt = absurd (omega arith)
first_gap-none (false ∷ bs) i h lt = cc
first_gap-none (true ∷ bs) zero h lt = refl
first_gap-none (true ∷ bs) (suc i) h lt = ground (arith, first_gap-none bs i)

first_gap-some :
    (bs : List Bool) (i : ℕ)
    → first_gap bs ≡ some i
    → (get_elem? bs i ≡ some false) × (i < length bs)
unfolding first_gap
first_gap-some [] i h = cc
first_gap-some (false ∷ bs) zero h = (refl, omega arith)
first_gap-some (false ∷ bs) (suc i) h = ground arith
first_gap-some (true ∷ bs) zero h = ground arith
first_gap-some (true ∷ bs) (suc i) h = ground (arith, first_gap-some bs i)

get_elem?-replicate : (n i : ℕ) → i < n → get_elem? (replicate n false) i ≡ some false
get_elem?-replicate zero i lt = absurd (omega arith)
get_elem?-replicate (suc n) zero lt = refl
get_elem?-replicate (suc n) (suc i) lt = get_elem?-replicate n i (omega arith)

module _ (rs : List (ℕ × ℕ)) (n : ℕ) where
  abbrev covered : List Bool
  covered = mark_all n rs (replicate n false)

  length-covered : length covered ≡ n
  length-covered = length-mark_all n rs (replicate n false) ∙ length-replicate n false

  get_elem?-covered : (i : ℕ) → i < n → get_elem? covered i ≡ some (covers i rs)
  get_elem?-covered i lt = ground (
    arith,
    get_elem?-mark_all n i rs (replicate n false) (length-replicate n false) lt,
    get_elem?-replicate n i lt,
  )

  -- If the check passes, then every token lies in the range of a segment.
  pub validate_token_coverage_sound :
      (i : ℕ) → validate_token_coverage rs n ≡ ok tt → i < n → Covered i rs
  unfolding validate_token_coverage
  validate_token_coverage_sound i h lt =
      covers-Covered i rs
        (ground (arith, get_elem?-covered i lt, first_gap-none covered i, length-covered))

  -- If the check fails, then the token that the error names lies in the query and in no segment.
  pub validate_token_coverage-error :
      (i : ℕ) → validate_token_coverage rs n ≡ err (not_covered i) → (i < n) × (¬ Covered i rs)
  unfolding validate_token_coverage
  validate_token_coverage-error i h =
      (inside, λ c. ground (arith, gap, get_elem?-covered i inside, Covered-covers i rs c))
    where
      gap : (get_elem? covered i ≡ some false) × (i < length covered)
      gap = first_gap-some covered i (ground arith)

      inside : i < n
      inside = omega (arith, gap.1, length-covered)

  validate-cases :
      (validate_token_coverage rs n ≡ ok tt)
      ⊎ ((i : ℕ) × (validate_token_coverage rs n ≡ err (not_covered i)))
  unfolding validate_token_coverage
  validate-cases = elim (Option-cases (first_gap covered)) [
    | inl e ↦ inl (rw (e, validate_token_coverage))
    | inr (i, e) ↦ inr (i, rw (e, validate_token_coverage))
  ]

  -- If every token lies in the range of a segment, then the check passes.
  pub validate_token_coverage_complete :
      ((i : ℕ) → i < n → Covered i rs) → validate_token_coverage rs n ≡ ok tt
  validate_token_coverage_complete all = elim validate-cases [
    | inl e ↦ e
    | inr (i, e) ↦
        let (inside, gap) = validate_token_coverage-error i e in absurd (gap (all i inside))
  ]
