-- ===== src/Base/Sorting.antt =====
-- `sort_by`, the stable sort: an element stands before the equal ones that came after it.
use Prim.Native.Nat.{suc}
use mathlib.Core.Path.{◌≡◌, refl, ap, ◌∙◌}
use mathlib.Core.Bool.{Bool}
use mathlib.Core.List.{List, [], ◌∷◌}
use native.Mathlib.Omega.{arith}
use llm.Base.Tests.{if◌then◌else◌}
use llm.Base.Lists.{length, All}

module _ {ℓ} {A : Type ℓ} (le : A → A → Bool) where
  unfoldable pub insert_by : A → List A → List A
  insert_by x [] = x ∷ []
  insert_by x (y ∷ ys) = if le x y then x ∷ y ∷ ys else y ∷ insert_by x ys

  unfoldable pub sort_by : List A → List A
  unfolding insert_by
  sort_by [] = []
  sort_by (x ∷ xs) = insert_by x (sort_by xs)

  length-insert_by : (x : A) (xs : List A) → length (insert_by x xs) ≡ suc (length xs)
  unfolding insert_by
  length-insert_by x [] = refl
  length-insert_by x (y ∷ ys) = ground (arith, length-insert_by x ys)

  pub length-sort_by : (xs : List A) → length (sort_by xs) ≡ length xs
  unfolding sort_by
  length-sort_by [] = refl
  length-sort_by (x ∷ xs) = length-insert_by x (sort_by xs) ∙ ap suc (length-sort_by xs)

  pub All-insert_by {κ} :
      (P : A → Type κ) (x : A) (xs : List A) → P x → All P xs → All P (insert_by x xs)
  unfolding insert_by
  All-insert_by P x [] px h = (px, tt)
  All-insert_by P x (y ∷ ys) px h = ground (arith, All-insert_by P x ys px h.1)

  pub All-sort_by {κ} : (P : A → Type κ) (xs : List A) → All P xs → All P (sort_by xs)
  unfolding sort_by
  All-sort_by P [] h = tt
  All-sort_by P (x ∷ xs) h = All-insert_by P x (sort_by xs) h.0 (All-sort_by P xs h.1)
