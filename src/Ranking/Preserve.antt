-- ===== src/Ranking/Preserve.antt =====
-- The passes for protected candidates keep the size and the elements of a selection
-- (reserve_protected_candidates_in_prefix and preserve_protected_candidates_in_selection of
-- src/grpc/mod.rs).
use llm.Base.{
  ℕ, suc, ◌≤◌, ◌≡◌, refl, subst, arith, true, false, ◌||◌, some, List, [], ◌∷◌, length,
  length-append, All, All-append, leb, ltb, ◌==◌, min, retain, inl, inr, Bool-cases, Option-cases,
}
use llm.Ranking.{Float, SearchResult, is_ranking_protected}
use llm.Ranking.Protect.{
  swap, exchange, indices, reserve_protected_candidates_in_prefix, has_key, without_last,
  preserve_one, preserve_from,
}
use llm.Ranking.Places.{length-swap, All-swap, length-insert_at, All-insert_at}

module _ {κ} {f : Float} (P : SearchResult f → Type κ) where
  exchange-All :
      (slots ps : List ℕ) (xs : List (SearchResult f))
      → All P xs
      → All P (exchange slots ps xs) × (length (exchange slots ps xs) ≡ length xs)
  exchange-All slots [] xs h = (h, refl)
  exchange-All [] (p ∷ ps) xs h = (h, refl)
  exchange-All (slot ∷ slots) (p ∷ ps) xs h =
      let rest = exchange-All slots ps (swap slot p xs) (All-swap P slot p xs h) in
      (rest.0, omega (arith, rest.1, length-swap P slot p xs))

  pub reserve-All :
      (xs : List (SearchResult f)) (n : ℕ)
      → All P xs
      → All P (reserve_protected_candidates_in_prefix xs n)
        × (length (reserve_protected_candidates_in_prefix xs n) ≡ length xs)
  unfolding reserve_protected_candidates_in_prefix
  reserve-All xs n h = elim (Bool-cases (n == 0 || leb (length xs) n)) [
    | inl e ↦ rw e (h, refl)
    | inr e ↦ rw e (
        exchange-All (retain (λ i. ltb i n) (indices false 0 xs))
          (retain (λ i. leb n i) (indices true 0 xs)) xs h)
  ]

  pub without_last-All :
      (xs ys : List (SearchResult f))
      → without_last xs ≡ some ys
      → All P xs
      → All P ys × (suc (length ys) ≡ length xs)
  unfolding without_last
  without_last-All [] ys e h = cc
  without_last-All (x ∷ xs) ys e h = elim (Option-cases (without_last xs)) [
    | inr (zs, g) ↦
        let rest = without_last-All xs zs g h.1 in
        let eq : x ∷ zs ≡ ys = let e' = rw g at e in cc in
        subst (λ q. All P q × (suc (length q) ≡ suc (length xs))) eq
          ((h.0, rest.0), omega (arith, rest.1))
    | inl g ↦ elim (Bool-cases (is_ranking_protected x)) [
      | inl p ↦ let e' = rw (g, p) at e in cc
      | inr p ↦
          let eq : xs ≡ ys = let e' = rw (g, p) at e in cc in
          subst (λ q. All P q × (suc (length q) ≡ suc (length xs))) eq (h.1, refl)
    ]
  ]

  -- The selected results have their number within the limit, and the facts of all.
  pub record IsWithin (low limit : ℕ) (xs : List (SearchResult f)) : Type κ where
    pub few : length xs ≤ limit
    pub many : low ≤ length xs
    pub kept : All P xs

  pub preserve_one-IsWithin :
      (low limit rank : ℕ) (c : SearchResult f) (xs : List (SearchResult f))
      → P c
      → IsWithin low limit xs
      → IsWithin low limit (preserve_one limit rank c xs)
  unfolding preserve_one
  preserve_one-IsWithin low limit rank c xs p h = elim (Bool-cases (has_key c xs)) [
    | inl e ↦ rw (e, preserve_one) h
    | inr e ↦ elim (Bool-cases (ltb (length xs) limit)) [
      | inl g ↦
          let grown = length-append xs (c ∷ []) in
          rw (e, g, preserve_one)
            (record {
              few = ground arith;
              many = omega (arith, grown, h.many);
              kept = All-append P xs (c ∷ []) h.kept (p, tt);
            })
      | inr g ↦ elim (Option-cases (without_last xs)) [
        | inl w ↦ rw (e, g, w, preserve_one) h
        | inr (rest, w) ↦
            let left = without_last-All xs rest w h.kept in
            let put = length-insert_at P (min rank (length rest)) c rest in
            rw (e, g, w, preserve_one)
              (record {
                few = omega (arith, left.1, put, h.few);
                many = omega (arith, left.1, put, h.many);
                kept = All-insert_at P (min rank (length rest)) c rest p left.0;
              })
      ]
    ]
  ]

  pub preserve_from-IsWithin :
      (low limit rank : ℕ) (cs xs : List (SearchResult f))
      → All P cs
      → IsWithin low limit xs
      → IsWithin low limit (preserve_from limit rank cs xs)
  unfolding preserve_from
  preserve_from-IsWithin low limit rank [] xs hc h = h
  preserve_from-IsWithin low limit rank (c ∷ cs) xs hc h =
      preserve_from-IsWithin low limit (suc rank) cs (preserve_one limit rank c xs) hc.1
        (preserve_one-IsWithin low limit rank c xs hc.0 h)
