-- ===== src/Base/Texts.antt =====
-- Texts as lists of UTF-8 bytes.
use Prim.Native.Nat.{ℕ, ◌+◌}
use mathlib.Core.Path.{◌≡◌, refl, ap₂}
use native.Mathlib.Omega.{arith}
use mathlib.Core.Bool.{Bool, true, false, ◌&&◌, ◌||◌}
use mathlib.Core.List.{List, [], ◌∷◌}
use llm.Base.Tests.{ltb, leb, ◌==◌, if◌then◌else◌}

unfoldable pub starts_with : List ℕ → List ℕ → Bool
starts_with [] text = true
starts_with (p ∷ ps) [] = false
starts_with (p ∷ ps) (c ∷ cs) = p == c && starts_with ps cs

unfoldable pub contains : List ℕ → List ℕ → Bool
unfolding starts_with
contains pattern [] = starts_with pattern []
contains pattern (c ∷ cs) = starts_with pattern (c ∷ cs) || contains pattern cs

-- `==` on texts.
abbrev pub same_text : List ℕ → List ℕ → Bool
same_text [] [] = true
same_text [] (d ∷ ds) = false
same_text (c ∷ cs) [] = false
same_text (c ∷ cs) (d ∷ ds) = c == d && same_text cs ds

-- `<=` on texts, in the order of their bytes.
abbrev pub text_leb : List ℕ → List ℕ → Bool
text_leb [] ds = true
text_leb (c ∷ cs) [] = false
text_leb (c ∷ cs) (d ∷ ds) = if c == d then text_leb cs ds else ltb c d

-- `to_ascii_lowercase`
abbrev pub to_ascii_lowercase : List ℕ → List ℕ
to_ascii_lowercase [] = []
to_ascii_lowercase (c ∷ cs) = (if leb 65 c && leb c 90 then c + 32 else c) ∷ to_ascii_lowercase cs

pub same_text-eq : (a b : List ℕ) → same_text a b ≡ true → a ≡ b
same_text-eq [] [] h = refl
same_text-eq [] (d ∷ ds) h = cc
same_text-eq (c ∷ cs) [] h = cc
same_text-eq (c ∷ cs) (d ∷ ds) h =
    ap₂ (λ x xs. x ∷ xs) (ground arith) (same_text-eq cs ds (ground arith))

pub same_text_refl : (a : List ℕ) → same_text a a ≡ true
same_text_refl [] = refl
same_text_refl (c ∷ cs) = ground (arith, same_text_refl cs)

-- The order on texts is total.
pub text_leb_total : (a b : List ℕ) → text_leb a b ≡ false → text_leb b a ≡ true
text_leb_total [] b h = cc
text_leb_total (c ∷ cs) [] h = refl
text_leb_total (c ∷ cs) (d ∷ ds) h = ground (arith, text_leb_total cs ds)
