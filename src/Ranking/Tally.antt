-- ===== src/Ranking/Tally.antt =====
-- How often elements of one kind stand in a list, through the operations of the ranking
-- (src/grpc/mod.rs).
use llm.Base.{
  ℕ, zero, suc, ◌+◌, ◌≤◌, ◌≡◌, refl, arith, Bool, true, some, List, [], ◌∷◌, ◌++◌, take, get_elem?,
  inl, inr, Bool-cases, Option-cases, if◌then◌else◌, sort_by, insert_by,
}
use llm.Ranking.Budget.{remove_at}
use llm.Ranking.Protect.{set_at, swap, insert_at}

-- One for a test that holds.
abbrev pub one : Bool → ℕ
one b = if b then 1 else 0

module _ {ℓ} {A : Type ℓ} (p : A → Bool) where
  abbrev pub tally : List A → ℕ
  tally [] = 0
  tally (x ∷ xs) = one (p x) + tally xs

  pub tally-append : (xs ys : List A) → tally (xs ++ ys) ≡ tally xs + tally ys
  tally-append [] ys = omega arith
  tally-append (x ∷ xs) ys = omega (arith, tally-append xs ys)

  pub tally-take : (n : ℕ) (xs : List A) → tally (take n xs) ≤ tally xs
  tally-take zero xs = omega arith
  tally-take (suc n) [] = omega arith
  tally-take (suc n) (x ∷ xs) = omega (arith, tally-take n xs)

  pub tally-remove_at :
      (i : ℕ) (x : A) (xs : List A)
      → get_elem? xs i ≡ some x
      → tally (remove_at i xs) + one (p x) ≡ tally xs
  tally-remove_at i x [] e = cc
  tally-remove_at zero x (y ∷ ys) e = let eq : y ≡ x = cc in rw eq (omega arith)
  tally-remove_at (suc i) x (y ∷ ys) e = omega (arith, tally-remove_at i x ys e)

  tally-set_at :
      (i : ℕ) (a x : A) (xs : List A)
      → get_elem? xs i ≡ some x
      → tally (set_at i a xs) + one (p x) ≡ tally xs + one (p a)
  tally-set_at i a x [] e = cc
  tally-set_at zero a x (y ∷ ys) e = let eq : y ≡ x = cc in rw eq (omega arith)
  tally-set_at (suc i) a x (y ∷ ys) e = omega (arith, tally-set_at i a x ys e)

  -- Where `b` stood it stands, or it has been put there.
  get_elem?-set_at :
      (i j : ℕ) (b : A) (xs : List A)
      → get_elem? xs j ≡ some b
      → get_elem? (set_at i b xs) j ≡ some b
  get_elem?-set_at i j b [] e = cc
  get_elem?-set_at zero zero b (y ∷ ys) e = refl
  get_elem?-set_at zero (suc j) b (y ∷ ys) e = e
  get_elem?-set_at (suc i) zero b (y ∷ ys) e = e
  get_elem?-set_at (suc i) (suc j) b (y ∷ ys) e = get_elem?-set_at i j b ys e

  pub tally-swap : (i j : ℕ) (xs : List A) → tally (swap i j xs) ≡ tally xs
  unfolding swap
  tally-swap i j xs = elim (Option-cases (get_elem? xs i)) [
    | inl e ↦ rw (e, swap) refl
    | inr (a, e) ↦ elim (Option-cases (get_elem? xs j)) [
      | inl g ↦ rw (e, g, swap) refl
      | inr (b, g) ↦
          rw (e, g, swap)
            (omega (
              arith,
              tally-set_at i b a xs e,
              tally-set_at j a b (set_at i b xs) (get_elem?-set_at i j b xs g),
            ))
    ]
  ]

  pub tally-insert_at :
      (i : ℕ) (a : A) (xs : List A) → tally (insert_at i a xs) ≡ one (p a) + tally xs
  tally-insert_at zero a xs = refl
  tally-insert_at (suc i) a [] = refl
  tally-insert_at (suc i) a (x ∷ xs) = omega (arith, tally-insert_at i a xs)

  tally-insert_by :
      (le : A → A → Bool) (x : A) (xs : List A) → tally (insert_by le x xs) ≡ one (p x) + tally xs
  unfolding insert_by
  tally-insert_by le x [] = refl
  tally-insert_by le x (y ∷ ys) = elim (Bool-cases (le x y)) [
    | inl e ↦ rw e refl
    | inr e ↦ rw e (omega (arith, tally-insert_by le x ys))
  ]

  pub tally-sort_by : (le : A → A → Bool) (xs : List A) → tally (sort_by le xs) ≡ tally xs
  unfolding sort_by
  tally-sort_by le [] = refl
  tally-sort_by le (x ∷ xs) =
      omega (arith, tally-insert_by le x (sort_by le xs), tally-sort_by le xs)

  -- One that is counted stands somewhere.
  pub tally-found :
      (xs : List A) → 1 ≤ tally xs → (i : ℕ) × (x : A) × (get_elem? xs i ≡ some x) × (p x ≡ true)
  tally-found [] h = absurd (omega arith)
  tally-found (x ∷ xs) h = elim (Bool-cases (p x)) [
    | inl e ↦ (0, x, refl, e)
    | inr e ↦
        let h' = rw e at h in
        let (i, y, at_i, good) = tally-found xs (omega arith) in (suc i, y, at_i, good)
  ]
