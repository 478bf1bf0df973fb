-- ===== src/Ranking/Kept.antt =====
-- Protected candidates are not lost to unprotected ones
-- (preserve_protected_candidates_in_selection of src/grpc/mod.rs).
use llm.Base.{
  ℕ, zero, suc, ◌<◌, ◌≡◌, refl, subst, arith, Bool, true, false, ◌&&◌, none, some, List, [], ◌∷◌,
  ◌++◌, length, All, All-map, All-append, any, ltb, ◌==◌, min, ◌⊎◌, inl, inr, Bool-cases,
  Option-cases,
}
use llm.Strings.{same, same_refl}
use llm.Ranking.{Float, SearchResult, is_ranking_protected, result_identity_key}
use llm.Ranking.Protect.{
  insert_at, has_key, without_last, preserve_one, preserve_from,
  preserve_protected_candidates_in_selection,
}
use llm.Ranking.Places.{All-insert_at}
use llm.Ranking.Preserve.{without_last-All}

module _ {ℓ} {A : Type ℓ} (p : A → Bool) where
  any-append_left : (xs ys : List A) → any p xs ≡ true → any p (xs ++ ys) ≡ true
  any-append_left [] ys h = cc
  any-append_left (x ∷ xs) ys h = ground (arith, any-append_left xs ys)

  any-append_last : (xs : List A) (c : A) → p c ≡ true → any p (xs ++ (c ∷ [])) ≡ true
  any-append_last [] c h = ground arith
  any-append_last (x ∷ xs) c h = ground (arith, any-append_last xs c h)

  any-insert_at : (i : ℕ) (c : A) (xs : List A) → any p xs ≡ true → any p (insert_at i c xs) ≡ true
  any-insert_at zero c xs h = ground arith
  any-insert_at (suc i) c [] h = cc
  any-insert_at (suc i) c (x ∷ xs) h = ground (arith, any-insert_at i c xs)

  any-inserted : (i : ℕ) (c : A) (xs : List A) → p c ≡ true → any p (insert_at i c xs) ≡ true
  any-inserted zero c xs h = ground arith
  any-inserted (suc i) c [] h = ground arith
  any-inserted (suc i) c (x ∷ xs) h = ground (arith, any-inserted i c xs h)

module _ {f : Float} where
  -- A protected result that has the key of the candidate.
  abbrev guards : SearchResult f → SearchResult f → Bool
  guards c x = same (result_identity_key x) (result_identity_key c) && is_ranking_protected x

  abbrev guarded : SearchResult f → List (SearchResult f) → Bool
  guarded c xs = any (guards c) xs

  -- Results with the key of a candidate are as protected as it is.
  pub record Agrees (x c : SearchResult f) : Type 0 where
    pub shared :
        same (result_identity_key x) (result_identity_key c) ≡ true → is_ranking_protected x ≡ true

  without_last-guarded :
      (c : SearchResult f) (xs ys : List (SearchResult f))
      → without_last xs ≡ some ys
      → guarded c xs ≡ true
      → guarded c ys ≡ true
  unfolding without_last
  without_last-guarded c [] ys e h = cc
  without_last-guarded c (x ∷ xs) ys e h = elim (Option-cases (without_last xs)) [
    | inr (zs, g) ↦
        let eq : x ∷ zs ≡ ys = let e' = rw g at e in cc in
        subst (λ q. guarded c q ≡ true) eq
          (elim (Bool-cases (guards c x)) [
            | inl y ↦ rw y refl
            | inr y ↦ rw y (without_last-guarded c xs zs g (rw y at h))
          ])
    | inl g ↦ elim (Bool-cases (is_ranking_protected x)) [
      | inl p ↦ let e' = rw (g, p) at e in cc
      | inr p ↦
          let eq : xs ≡ ys = let e' = rw (g, p) at e in cc in
          subst (λ q. guarded c q ≡ true) eq (ground arith)
    ]
  ]

  -- If all are protected, none is taken out.
  without_last-protected :
      (xs : List (SearchResult f))
      → All (λ x. is_ranking_protected x ≡ true) xs
      → without_last xs ≡ none
  unfolding without_last
  without_last-protected [] h = refl
  without_last-protected (x ∷ xs) h = rw (without_last-protected xs h.1, h.0) refl

  none-protected :
      (xs : List (SearchResult f))
      → without_last xs ≡ none
      → All (λ x. is_ranking_protected x ≡ true) xs
  unfolding without_last
  none-protected [] e = tt
  none-protected (x ∷ xs) e = elim (Option-cases (without_last xs)) [
    | inr (zs, g) ↦ let e' = rw g at e in cc
    | inl g ↦ elim (Bool-cases (is_ranking_protected x)) [
      | inl p ↦ (p, none-protected xs g)
      | inr p ↦ let e' = rw (g, p) at e in cc
    ]
  ]

  has_key-guarded :
      (c : SearchResult f) (xs : List (SearchResult f))
      → has_key c xs ≡ true
      → All (λ x. Agrees x c) xs
      → guarded c xs ≡ true
  unfolding has_key
  has_key-guarded c [] e h = cc
  has_key-guarded c (x ∷ xs) e h =
      elim (Bool-cases (same (result_identity_key x) (result_identity_key c))) [
        | inl y ↦ rw (y, h.0.shared y) refl
        | inr y ↦ rw y (has_key-guarded c xs (rw y at e) h.1)
      ]

  guarded-has_key :
      (c : SearchResult f) (xs : List (SearchResult f)) → guarded c xs ≡ true → has_key c xs ≡ true
  unfolding has_key
  guarded-has_key c [] e = cc
  guarded-has_key c (x ∷ xs) e =
      elim (Bool-cases (same (result_identity_key x) (result_identity_key c))) [
        | inl y ↦ rw y refl
        | inr y ↦ rw y (guarded-has_key c xs (rw y at e))
      ]

  preserve_one-All {κ} :
      (P : SearchResult f → Type κ) (limit rank : ℕ) (c : SearchResult f)
      (xs : List (SearchResult f))
      → P c
      → All P xs
      → All P (preserve_one limit rank c xs)
  unfolding preserve_one
  preserve_one-All P limit rank c xs p h = elim (Bool-cases (has_key c xs)) [
    | inl e ↦ rw (e, preserve_one) h
    | inr e ↦ elim (Bool-cases (ltb (length xs) limit)) [
      | inl g ↦ rw (e, g, preserve_one) (All-append P xs (c ∷ []) h (p, tt))
      | inr g ↦ elim (Option-cases (without_last xs)) [
        | inl w ↦ rw (e, g, w, preserve_one) h
        | inr (rest, w) ↦
            rw (e, g, w, preserve_one)
              (All-insert_at P (min rank (length rest)) c rest p (without_last-All P xs rest w h).0)
      ]
    ]
  ]

  preserve_one-guarded :
      (d : SearchResult f) (limit rank : ℕ) (c : SearchResult f) (xs : List (SearchResult f))
      → guarded d xs ≡ true
      → guarded d (preserve_one limit rank c xs) ≡ true
  unfolding preserve_one
  preserve_one-guarded d limit rank c xs h = elim (Bool-cases (has_key c xs)) [
    | inl e ↦ rw (e, preserve_one) h
    | inr e ↦ elim (Bool-cases (ltb (length xs) limit)) [
      | inl g ↦ rw (e, g, preserve_one) (any-append_left (guards d) xs (c ∷ []) h)
      | inr g ↦ elim (Option-cases (without_last xs)) [
        | inl w ↦ rw (e, g, w, preserve_one) h
        | inr (rest, w) ↦
            rw (e, g, w, preserve_one)
              (any-insert_at (guards d) (min rank (length rest)) c rest
                (without_last-guarded d xs rest w h))
      ]
    ]
  ]

  -- After its turn a candidate is guarded, unless only protected results are left.
  preserve_one-guards :
      (limit rank : ℕ) (c : SearchResult f) (xs : List (SearchResult f))
      → is_ranking_protected c ≡ true
      → All (λ x. Agrees x c) xs
      → (guarded c (preserve_one limit rank c xs) ≡ true)
        ⊎ All (λ x. is_ranking_protected x ≡ true) (preserve_one limit rank c xs)
  unfolding preserve_one
  preserve_one-guards limit rank c xs p h =
      let self : guards c c ≡ true = rw (same_refl (result_identity_key c), p) refl in
      elim (Bool-cases (has_key c xs)) [
        | inl e ↦ rw (e, preserve_one) (inl (has_key-guarded c xs e h))
        | inr e ↦ elim (Bool-cases (ltb (length xs) limit)) [
          | inl g ↦ rw (e, g, preserve_one) (inl (any-append_last (guards c) xs c self))
          | inr g ↦ elim (Option-cases (without_last xs)) [
            | inl w ↦ rw (e, g, w, preserve_one) (inr (none-protected xs w))
            | inr (rest, w) ↦
                rw (e, g, w, preserve_one)
                  (inl (any-inserted (guards c) (min rank (length rest)) c rest self))
          ]
        ]
      ]

  preserve_from-guarded :
      (d : SearchResult f) (limit rank : ℕ) (cs xs : List (SearchResult f))
      → guarded d xs ≡ true
      → guarded d (preserve_from limit rank cs xs) ≡ true
  unfolding preserve_from
  preserve_from-guarded d limit rank [] xs h = h
  preserve_from-guarded d limit rank (c ∷ cs) xs h =
      preserve_from-guarded d limit (suc rank) cs (preserve_one limit rank c xs)
        (preserve_one-guarded d limit rank c xs h)

  preserve_from-protected :
      (limit rank : ℕ) (cs xs : List (SearchResult f))
      → All (λ c. is_ranking_protected c ≡ true) cs
      → All (λ x. is_ranking_protected x ≡ true) xs
      → All (λ x. is_ranking_protected x ≡ true) (preserve_from limit rank cs xs)
  unfolding preserve_from
  preserve_from-protected limit rank [] xs hc h = h
  preserve_from-protected limit rank (c ∷ cs) xs hc h =
      preserve_from-protected limit (suc rank) cs (preserve_one limit rank c xs) hc.1
        (preserve_one-All (λ x. is_ranking_protected x ≡ true) limit rank c xs hc.0 h)

  -- The candidates that are left agree with the selection after a turn as well.
  still_agree :
      (limit rank : ℕ) (c : SearchResult f) (cs xs : List (SearchResult f))
      → is_ranking_protected c ≡ true
      → All (λ d. All (λ x. Agrees x d) xs) cs
      → All (λ d. All (λ x. Agrees x d) (preserve_one limit rank c xs)) cs
  still_agree limit rank c cs xs p h =
      All-map
        (λ d a. preserve_one-All (λ x. Agrees x d) limit rank c xs (record { shared = λ s. p }) a)
        cs h

  preserve_from-keeps :
      (limit rank : ℕ) (cs xs : List (SearchResult f))
      → All (λ c. is_ranking_protected c ≡ true) cs
      → All (λ c. All (λ x. Agrees x c) xs) cs
      → All (λ c. guarded c (preserve_from limit rank cs xs) ≡ true) cs
        ⊎ All (λ x. is_ranking_protected x ≡ true) (preserve_from limit rank cs xs)
  unfolding preserve_from
  preserve_from-keeps limit rank [] xs hp ha = inl tt
  preserve_from-keeps limit rank (c ∷ cs) xs hp ha =
      let xs' = preserve_one limit rank c xs in
      let rest =
        preserve_from-keeps limit (suc rank) cs xs' hp.1
          (still_agree limit rank c cs xs hp.0 ha.1) in
      elim (preserve_one-guards limit rank c xs hp.0 ha.0) [
        | inr only ↦ inr (preserve_from-protected limit (suc rank) cs xs' hp.1 only)
        | inl here ↦ elim rest [
          | inl others ↦ inl (preserve_from-guarded c limit (suc rank) cs xs' here, others)
          | inr only ↦ inr only
        ]
      ]

  -- With a limit above 0, and where selected results that share a key with a protected candidate
  -- are protected, the pass leaves no protected candidate out while an unprotected result stays:
  -- the keys of all protected candidates are in the selection, or all its results are protected.
  pub preserve_protected-keeps :
      (selected protected : List (SearchResult f)) (final_limit : ℕ)
      → 0 < final_limit
      → All (λ c. is_ranking_protected c ≡ true) protected
      → All (λ c. All (λ x. Agrees x c) selected) protected
      → let r = preserve_protected_candidates_in_selection selected protected final_limit in
        All (λ c. has_key c r ≡ true) protected ⊎ All (λ x. is_ranking_protected x ≡ true) r
  unfolding preserve_protected_candidates_in_selection
  preserve_protected-keeps selected protected final_limit lt hp ha =
      let e : (final_limit == 0) ≡ false = ground arith in
      rw e (elim (preserve_from-keeps final_limit 0 protected selected hp ha) [
        | inl g ↦ inl (
            All-map (λ c y. guarded-has_key c (preserve_from final_limit 0 protected selected) y)
              protected g)
        | inr only ↦ inr only
      ])
