-- ===== src/Ranking/Places.antt =====
-- Exchanges, insertions and prefixes of a list keep its length and its elements.
use llm.Base.{
  ℕ, zero, suc, ◌≡◌, refl, subst, arith, some, List, [], ◌∷◌, length, All, min, take, get_elem?,
  inl, inr, Option-cases,
}
use llm.Ranking.Protect.{set_at, swap, insert_at}

module _ {ℓ κ} {A : Type ℓ} (P : A → Type κ) where
  length-set_at : (i : ℕ) (a : A) (xs : List A) → length (set_at i a xs) ≡ length xs
  length-set_at i a [] = refl
  length-set_at zero a (x ∷ xs) = refl
  length-set_at (suc i) a (x ∷ xs) = omega (arith, length-set_at i a xs)

  pub length-swap : (i j : ℕ) (xs : List A) → length (swap i j xs) ≡ length xs
  unfolding swap
  length-swap i j xs = elim (Option-cases (get_elem? xs i)) [
    | inl e ↦ rw (e, swap) refl
    | inr (a, e) ↦ elim (Option-cases (get_elem? xs j)) [
      | inl g ↦ rw (e, g, swap) refl
      | inr (b, g) ↦
          rw (e, g, swap) (omega (arith, length-set_at j a (set_at i b xs), length-set_at i b xs))
    ]
  ]

  All-set_at : (i : ℕ) (a : A) (xs : List A) → P a → All P xs → All P (set_at i a xs)
  All-set_at i a [] p h = tt
  All-set_at zero a (x ∷ xs) p h = (p, h.1)
  All-set_at (suc i) a (x ∷ xs) p h = (h.0, All-set_at i a xs p h.1)

  get_elem?-All : (i : ℕ) (a : A) (xs : List A) → get_elem? xs i ≡ some a → All P xs → P a
  get_elem?-All i a [] e h = cc
  get_elem?-All zero a (x ∷ xs) e h = let eq : x ≡ a = cc in subst P eq h.0
  get_elem?-All (suc i) a (x ∷ xs) e h = get_elem?-All i a xs e h.1

  pub All-swap : (i j : ℕ) (xs : List A) → All P xs → All P (swap i j xs)
  unfolding swap
  All-swap i j xs h = elim (Option-cases (get_elem? xs i)) [
    | inl e ↦ rw (e, swap) h
    | inr (a, e) ↦ elim (Option-cases (get_elem? xs j)) [
      | inl g ↦ rw (e, g, swap) h
      | inr (b, g) ↦
          rw (e, g, swap)
            (All-set_at j a (set_at i b xs) (get_elem?-All i a xs e h)
              (All-set_at i b xs (get_elem?-All j b xs g h) h))
    ]
  ]

  pub length-insert_at : (i : ℕ) (a : A) (xs : List A) → length (insert_at i a xs) ≡ suc (length xs)
  length-insert_at zero a xs = refl
  length-insert_at (suc i) a [] = refl
  length-insert_at (suc i) a (x ∷ xs) = omega (arith, length-insert_at i a xs)

  pub All-insert_at : (i : ℕ) (a : A) (xs : List A) → P a → All P xs → All P (insert_at i a xs)
  All-insert_at zero a xs p h = (p, h)
  All-insert_at (suc i) a [] p h = (p, tt)
  All-insert_at (suc i) a (x ∷ xs) p h = (h.0, All-insert_at i a xs p h.1)

  pub length-take : (n : ℕ) (xs : List A) → length (take n xs) ≡ min n (length xs)
  length-take zero xs = omega arith
  length-take (suc n) [] = omega arith
  length-take (suc n) (x ∷ xs) = omega (arith, length-take n xs)

  pub All-take : (n : ℕ) (xs : List A) → All P xs → All P (take n xs)
  All-take zero xs h = tt
  All-take (suc n) [] h = tt
  All-take (suc n) (x ∷ xs) h = (h.0, All-take n xs h.1)
