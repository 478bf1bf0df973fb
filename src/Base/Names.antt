-- ===== src/Base/Names.antt =====
-- Membership of a number in a list, as `contains` tests it.
use Prim.Native.Nat.{ℕ}
use mathlib.Core.Path.{◌≡◌, refl}
use mathlib.Core.Bool.{Bool, false, ◌||◌}
use mathlib.Core.List.{List, [], ◌∷◌}
use llm.Base.Tests.{◌==◌}

unfoldable pub has : ℕ → List ℕ → Bool
has a [] = false
has a (x ∷ xs) = a == x || has a xs

pub has_cons : (a x : ℕ) (xs : List ℕ) → has a (x ∷ xs) ≡ (a == x || has a xs)
unfolding has
has_cons a x xs = refl
