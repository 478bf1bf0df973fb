-- ===== src/Strings.antt =====
-- The operations of `str` that the graph and the chunks use, on native texts.
use Prim.Native.Char.{code}
use Prim.Native.String
use Prim.Native.String.{compare}
use text.Mathlib.Text.{is_eq, is_le}
use text.Mathlib.TextEquality.{eq_iff as String-eq_iff}
use text.Mathlib.TextPositions.{eq_refl as String-eq_refl}
use llm.Base.{
  ℕ, zero, suc, ◌/◌, ◌%◌, ◌≡◌, refl, ◌==◌, ◌↔◌, String, Bool, true, false, List, [], ◌∷◌, get_elem?,
  get_or_else, if◌then◌else◌,
}
use llm.Query.Normalization.{is_whitespace}

abbrev pub same : String → String → Bool
same s t = is_eq (compare s t)

pub same_iff : (s t : String) → (same s t ≡ true) ↔ (s ≡ t)
same_iff s t = String-eq_iff s t

pub same_refl : (s : String) → same s s ≡ true
same_refl s = String-eq_refl s

-- `<=` of texts.
abbrev pub string_leb : String → String → Bool
string_leb s t = is_le (compare s t)

-- The code points of a text.
abbrev pub codes : String → List ℕ
codes String.[] = []
codes (String.◌∷◌ c s) = code c ∷ codes s

unfoldable pub empty : String → Bool
empty String.[] = true
empty (String.◌∷◌ c s) = false

trim_start : String → String
unfolding is_whitespace
trim_start String.[] = String.[]
trim_start (String.◌∷◌ c s) =
    let rest = trim_start s in if is_whitespace (code c) then rest else String.◌∷◌ c s

trim_end : String → String
unfolding is_whitespace empty
trim_end String.[] = String.[]
trim_end (String.◌∷◌ c s) =
    let rest = trim_end s in
    if empty rest
    then (if is_whitespace (code c) then String.[] else String.◌∷◌ c rest)
    else String.◌∷◌ c rest

-- `trim`
unfoldable pub trim : String → String
unfolding trim_start trim_end
trim s = trim_end (trim_start s)

-- `chars().take(n).collect()`
unfoldable pub take_chars : ℕ → String → String
take_chars zero s = String.[]
take_chars (suc n) String.[] = String.[]
take_chars (suc n) (String.◌∷◌ c s) = String.◌∷◌ c (take_chars n s)

abbrev digit : ℕ → String
digit d =
    get_or_else (get_elem? ("0" ∷ "1" ∷ "2" ∷ "3" ∷ "4" ∷ "5" ∷ "6" ∷ "7" ∷ "8" ∷ "9" ∷ []) d) ""

digits : ℕ → ℕ → String → String
digits zero n acc = acc
digits (suc fuel) n acc =
    let next = String.◌++◌ (digit (n % 10)) acc in
    let rest = digits fuel (n / 10) next in if n / 10 == 0 then next else rest

-- The decimal digits of a number: it has fewer than its value plus two.
unfoldable pub decimal : ℕ → String
unfolding digits
decimal n = digits (suc n) n ""

two : decimal 2048 ≡ "2048"
unfolding decimal
two = refl

trimmed : trim "  a b " ≡ "a b"
unfolding trim
trimmed = refl
