-- ===== src/Base/Lists.antt =====
-- Lists measured and indexed by native numbers, and the loops over them that the code writes with
-- `iter().all`, `any`, `filter` and `position`.
use Prim.Native.Nat.{ℕ, zero, suc, ◌+◌, ◌≤◌}
use mathlib.Core.Path.{◌≡◌, refl, ap}
use mathlib.Core.Bool.{Bool, true, false, ◌&&◌, ◌||◌}
use mathlib.Core.List.{List, [], ◌∷◌, ◌++◌, map}
use mathlib.Core.Option.{Option, none, some}
use native.Mathlib.Omega.{arith}
use llm.Base.Tests.{if◌then◌else◌}

module _ {ℓ} {A : Type ℓ} where
  abbrev pub length : List A → ℕ
  length [] = 0
  length (x ∷ xs) = suc (length xs)

  abbrev pub is_empty : List A → Bool
  is_empty [] = true
  is_empty (x ∷ xs) = false

  abbrev pub get_elem? : List A → ℕ → Option A
  get_elem? [] i = none
  get_elem? (x ∷ xs) zero = some x
  get_elem? (x ∷ xs) (suc i) = get_elem? xs i

  abbrev pub take : ℕ → List A → List A
  take zero xs = []
  take (suc n) [] = []
  take (suc n) (x ∷ xs) = x ∷ take n xs

  abbrev pub drop : ℕ → List A → List A
  drop zero xs = xs
  drop (suc n) [] = []
  drop (suc n) (x ∷ xs) = drop n xs

  abbrev pub replicate : ℕ → A → List A
  replicate zero a = []
  replicate (suc n) a = a ∷ replicate n a

  abbrev pub all : (A → Bool) → List A → Bool
  all p [] = true
  all p (x ∷ xs) = p x && all p xs

  abbrev pub any : (A → Bool) → List A → Bool
  any p [] = false
  any p (x ∷ xs) = p x || any p xs

  abbrev pub retain : (A → Bool) → List A → List A
  retain p [] = []
  retain p (x ∷ xs) = if p x then x ∷ retain p xs else retain p xs

  abbrev pub find : (A → Bool) → List A → Option A
  find p [] = none
  find p (x ∷ xs) = if p x then some x else find p xs

  abbrev pub head : List A → Option A
  head [] = none
  head (x ∷ xs) = some x

  abbrev pub last : List A → Option A
  last [] = none
  last (x ∷ []) = some x
  last (x ∷ y ∷ ys) = last (y ∷ ys)

  abbrev pub get_or_else : Option A → A → A
  get_or_else none d = d
  get_or_else (some a) d = a

  -- Every element meets the predicate.
  abbrev pub All {κ} : (A → Type κ) → List A → Type κ
  All P [] = Unit
  All P (x ∷ xs) = P x × All P xs

  pub length-append : (xs ys : List A) → length (xs ++ ys) ≡ length xs + length ys
  length-append [] ys = omega arith
  length-append (x ∷ xs) ys = omega (arith, length-append xs ys)

  pub length-retain-le : (p : A → Bool) (xs : List A) → length (retain p xs) ≤ length xs
  length-retain-le p [] = omega arith
  length-retain-le p (x ∷ xs) = ground (arith, length-retain-le p xs)

  pub length-replicate : (n : ℕ) (a : A) → length (replicate n a) ≡ n
  length-replicate zero a = refl
  length-replicate (suc n) a = ap suc (length-replicate n a)

  pub All-append {κ} : (P : A → Type κ) (xs ys : List A) → All P xs → All P ys → All P (xs ++ ys)
  All-append P [] ys hx hy = hy
  All-append P (x ∷ xs) ys hx hy = (hx.0, All-append P xs ys hx.1 hy)

  pub All-map {κ μ} :
      {P : A → Type κ} {Q : A → Type μ} (f : (a : A) → P a → Q a) (xs : List A)
      → All P xs
      → All Q xs
  All-map f [] h = tt
  All-map f (x ∷ xs) h = (f x h.0, All-map f xs h.1)

  pub All-retain {κ} :
      (P : A → Type κ) (p : A → Bool) (xs : List A) → All P xs → All P (retain p xs)
  All-retain P p [] h = tt
  All-retain P p (x ∷ xs) h = ground (arith, All-retain P p xs h.1)

  pub retain-All : (p : A → Bool) (xs : List A) → All (λ x. p x ≡ true) (retain p xs)
  retain-All p [] = tt
  retain-All p (x ∷ xs) = ground (arith, retain-All p xs)

  pub find-true : (p : A → Bool) (xs : List A) (a : A) → find p xs ≡ some a → p a ≡ true
  find-true p [] a h = cc
  find-true p (x ∷ xs) a h = ground (arith, find-true p xs a)

pub length-map {ℓ κ} :
    {A : Type ℓ} {B : Type κ} (f : A → B) (xs : List A) → length (map f xs) ≡ length xs
length-map f [] = refl
length-map f (x ∷ xs) = ap suc (length-map f xs)
