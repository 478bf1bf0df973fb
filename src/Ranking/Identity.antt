-- ===== src/Ranking/Identity.antt =====
-- Results counted by their identity keys (result_identity_key of src/grpc/mod.rs), through the
-- passes for protected candidates.
use llm.Base.{
  ℕ, zero, suc, ◌+◌, ◌≤◌, ◌<◌, ◌≡◌, refl, ◌∙◌, ap, subst, arith, String, Bool, true, false, ◌||◌,
  some, List, [], ◌∷◌, length, All, All-map, any, leb, ltb, ◌==◌, min, retain, get_elem?, inl, inr,
  Bool-cases, Option-cases, if◌then◌else◌,
}
use llm.Strings.{same, same_iff, same_refl}
use llm.Ranking.{
  Float, SearchResult, metadata_insert, metadata_get, is_ranking_protected, result_identity_key,
}
use llm.Ranking.Budget.{remove_at}
use llm.Ranking.Budget.Least.{length-remove_at}
use llm.Ranking.Protect.{
  swap, exchange, indices, reserve_protected_candidates_in_prefix, has_key, without_last,
  preserve_one, preserve_from,
}
use llm.Ranking.Tally.{
  one, tally, tally-append, tally-swap, tally-remove_at, tally-insert_at, tally-found,
}

pub metadata_get-insert :
    (g k v : String) (m : List (String × String))
    → same k g ≡ false
    → metadata_get g (metadata_insert k v m) ≡ metadata_get g m
metadata_get-insert g k v [] h = rw h refl
metadata_get-insert g k v ((j, w) ∷ m) h = elim (Bool-cases (same j k)) [
  | inl e ↦
      let eq : j ≡ k = (same_iff j k).0 e in
      let other : same j g ≡ false = rw eq h in rw (e, h, other) refl
  | inr e ↦ rw e (ap (λ r. if same j g then some w else r) (metadata_get-insert g k v m h))
]

get_elem?-lt : {A : Type 0} (i : ℕ) (x : A) (xs : List A) → get_elem? xs i ≡ some x → i < length xs
get_elem?-lt i x [] e = cc
get_elem?-lt zero x (y ∷ ys) e = omega arith
get_elem?-lt (suc i) x (y ∷ ys) e = omega (arith, get_elem?-lt i x ys e)

module _ {f : Float} where
  -- The test for an identity key.
  abbrev pub has_identity : String → SearchResult f → Bool
  has_identity k x = same (result_identity_key x) k

  -- How many results have the identity.
  abbrev pub occurrences : String → List (SearchResult f) → ℕ
  occurrences k xs = tally (has_identity k) xs

  -- If no identity occurs more often in the one list, it is not the longer one.
  pub occurrences-length :
      (xs ys : List (SearchResult f))
      → ((k : String) → occurrences k xs ≤ occurrences k ys)
      → length xs ≤ length ys
  occurrences-length [] ys h = omega arith
  occurrences-length (x ∷ xs) ys h =
      let k = result_identity_key x in
      let here : has_identity k x ≡ true = same_refl k in
      let least = h k in
      let (i, y, at_i, alike) =
        tally-found (has_identity k) ys (let l = rw here at least in omega arith) in
      let eq : result_identity_key y ≡ k = (same_iff (result_identity_key y) k).0 alike in
      let rest = occurrences-length xs (remove_at i ys) (λ q.
        let gone = tally-remove_at (has_identity q) i y ys at_i in
        let gone' = rw eq at gone in omega (arith, gone', h q)) in
      omega (arith, rest, length-remove_at i ys (get_elem?-lt i y ys at_i))

  module _ (k : String) where
    tally-exchange :
        (slots ps : List ℕ) (xs : List (SearchResult f))
        → occurrences k (exchange slots ps xs) ≡ occurrences k xs
    tally-exchange slots [] xs = refl
    tally-exchange [] (p ∷ ps) xs = refl
    tally-exchange (slot ∷ slots) (p ∷ ps) xs =
        tally-exchange slots ps (swap slot p xs) ∙ tally-swap (has_identity k) slot p xs

    pub occurrences-reserve :
        (xs : List (SearchResult f)) (n : ℕ)
        → occurrences k (reserve_protected_candidates_in_prefix xs n) ≡ occurrences k xs
    unfolding reserve_protected_candidates_in_prefix
    occurrences-reserve xs n = elim (Bool-cases (n == 0 || leb (length xs) n)) [
      | inl e ↦ rw e refl
      | inr e ↦ rw e (
          tally-exchange (retain (λ i. ltb i n) (indices false 0 xs))
            (retain (λ i. leb n i) (indices true 0 xs)) xs)
    ]

    occurrences-without_last :
        (xs ys : List (SearchResult f))
        → without_last xs ≡ some ys
        → occurrences k ys ≤ occurrences k xs
    unfolding without_last
    occurrences-without_last [] ys e = cc
    occurrences-without_last (x ∷ xs) ys e = elim (Option-cases (without_last xs)) [
      | inr (zs, g) ↦
          let eq : x ∷ zs ≡ ys = let e' = rw g at e in cc in
          subst (λ q. occurrences k q ≤ occurrences k (x ∷ xs)) eq
            (omega (arith, occurrences-without_last xs zs g))
      | inl g ↦ elim (Bool-cases (is_ranking_protected x)) [
        | inl p ↦ let e' = rw (g, p) at e in cc
        | inr p ↦
            let eq : xs ≡ ys = let e' = rw (g, p) at e in cc in
            subst (λ q. occurrences k q ≤ occurrences k (x ∷ xs)) eq (omega arith)
      ]
    ]

    occurrences-none :
        (xs : List (SearchResult f)) → any (has_identity k) xs ≡ false → occurrences k xs ≡ 0
    occurrences-none [] m = refl
    occurrences-none (x ∷ xs) m = ground (arith, occurrences-none xs)

    -- Nobody has the identity of a candidate that is missing.
    occurrences-missing :
        (c : SearchResult f) (xs : List (SearchResult f))
        → has_key c xs ≡ false
        → has_identity k c ≡ true
        → occurrences k xs ≡ 0
    unfolding has_key
    occurrences-missing c xs m h =
        occurrences-none xs (
          subst (λ q. any (has_identity q) xs ≡ false) ((same_iff (result_identity_key c) k).0 h) m)

    -- A candidate with the identity is counted among the bound.
    abbrev pub Backed : ℕ → SearchResult f → Type 0
    Backed bound c = one (has_identity k c) ≤ bound

    preserve_one-occurrences :
        (bound limit rank : ℕ) (c : SearchResult f) (xs : List (SearchResult f))
        → Backed bound c
        → occurrences k xs ≤ bound
        → occurrences k (preserve_one limit rank c xs) ≤ bound
    unfolding preserve_one
    preserve_one-occurrences bound limit rank c xs b h = elim (Bool-cases (has_key c xs)) [
      | inl e ↦ rw (e, preserve_one) h
      | inr e ↦
          let added : one (has_identity k c) + occurrences k xs ≤ bound =
            elim (Bool-cases (has_identity k c)) [
              | inl i ↦ let b' = rw i at b in rw i (omega (arith, occurrences-missing c xs e i))
              | inr i ↦ rw i (omega arith)
            ] in
          elim (Bool-cases (ltb (length xs) limit)) [
            | inl g ↦
                rw (e, g, preserve_one)
                  (omega (arith, added, tally-append (has_identity k) xs (c ∷ [])))
            | inr g ↦ elim (Option-cases (without_last xs)) [
              | inl w ↦ rw (e, g, w, preserve_one) h
              | inr (rest, w) ↦
                  rw (e, g, w, preserve_one)
                    (omega (
                      arith,
                      added,
                      occurrences-without_last xs rest w,
                      tally-insert_at (has_identity k) (min rank (length rest)) c rest,
                    ))
            ]
          ]
    ]

    pub preserve_from-occurrences :
        (bound limit rank : ℕ) (cs xs : List (SearchResult f))
        → All (Backed bound) cs
        → occurrences k xs ≤ bound
        → occurrences k (preserve_from limit rank cs xs) ≤ bound
    unfolding preserve_from
    preserve_from-occurrences bound limit rank [] xs hc h = h
    preserve_from-occurrences bound limit rank (c ∷ cs) xs hc h =
        preserve_from-occurrences bound limit (suc rank) cs (preserve_one limit rank c xs) hc.1
          (preserve_one-occurrences bound limit rank c xs hc.0 h)

    pub all-Backed : (cs : List (SearchResult f)) → All (Backed (occurrences k cs)) cs
    all-Backed [] = tt
    all-Backed (c ∷ cs) = (omega arith, All-map (λ x b. omega (arith, b)) cs (all-Backed cs))
