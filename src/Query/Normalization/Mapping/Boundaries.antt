-- ===== src/Query/Normalization/Mapping/Boundaries.antt =====
-- The boundary map of `render` (src/query_processing/normalization.rs).
use llm.Base.{
  ℕ, zero, suc, ◌+◌, ◌≤◌, ◌<◌, ◌≡◌, refl, some, List, [], ◌∷◌, ◌++◌, arith, length, get_elem?,
  length-append, ap,
}
use llm.Query.Normalization.{
  MappedChar, NormalizedQuery, encode_utf8, len_utf8, pair, original_byte_range, set_last,
  boundaries, render_from, or_end, render,
}
use llm.Query.Normalization.Mapping.Chars.{Ordered}

-- The numbers rise, not always strictly, from one bound to the other.
abbrev pub Rising : ℕ → ℕ → List ℕ → Type 0
Rising lo hi [] = lo ≤ hi
Rising lo hi (x ∷ xs) = (lo ≤ x) × Rising x hi xs

Rising-widen : (lo hi hi' : ℕ) (xs : List ℕ) → hi ≤ hi' → Rising lo hi xs → Rising lo hi' xs
Rising-widen lo hi hi' [] le h = omega arith
Rising-widen lo hi hi' (x ∷ xs) le (a, t) = (a, Rising-widen x hi hi' xs le t)

Rising-le : (lo hi : ℕ) (xs : List ℕ) → Rising lo hi xs → lo ≤ hi
Rising-le lo hi [] h = h
Rising-le lo hi (x ∷ xs) (a, t) = omega (arith, Rising-le x hi xs t)

Rising-append :
    (lo mid hi : ℕ) (xs ys : List ℕ)
    → Rising lo mid xs
    → ((m : ℕ) → m ≤ mid → Rising m hi ys)
    → Rising lo hi (xs ++ ys)
Rising-append lo mid hi [] ys hx hy = hy lo hx
Rising-append lo mid hi (x ∷ xs) ys (a, t) hy = (a, Rising-append x mid hi xs ys t hy)

set_last-Rising :
    (lo hi b : ℕ) (xs : List ℕ) → hi ≤ b → Rising lo hi xs → Rising lo b (set_last xs b)
unfolding set_last
set_last-Rising lo hi b [] le h = (omega arith, omega arith)
set_last-Rising lo hi b (x ∷ []) le (a, t) = (omega arith, omega arith)
set_last-Rising lo hi b (x ∷ y ∷ ys) le (a, t) = (a, set_last-Rising x hi b (y ∷ ys) le t)

length-set_last :
    (xs : List ℕ) (b n : ℕ) → length xs ≤ n + 1 → n ≤ length xs → 1 ≤ length (set_last xs b)
unfolding set_last
length-set_last [] b n h k = omega arith
length-set_last (x ∷ []) b n h k = omega arith
length-set_last (x ∷ y ∷ ys) b n h k = omega arith

length-set_last-cons :
    (x : ℕ) (xs : List ℕ) (b : ℕ) → length (set_last (x ∷ xs) b) ≡ suc (length xs)
unfolding set_last
length-set_last-cons x [] b = refl
length-set_last-cons x (y ∷ ys) b = ap suc (length-set_last-cons y ys b)

module _ (c : MappedChar) where
  length-boundaries : (boundary n : ℕ) → length (boundaries c boundary n) ≡ n
  unfolding boundaries
  length-boundaries boundary zero = refl
  length-boundaries boundary (suc zero) = refl
  length-boundaries boundary (suc (suc n)) = ap suc (length-boundaries (boundary + 1) (suc n))

  boundaries-Rising :
      (m boundary n : ℕ)
      → m ≤ c.original_start + boundary
      → m ≤ c.original_end
      → c.original_start + boundary + n ≤ c.original_end + 1
      → Rising m c.original_end (boundaries c boundary n)
  unfolding boundaries
  boundaries-Rising m boundary zero h k e = k
  boundaries-Rising m boundary (suc zero) h k e = (k, omega arith)
  boundaries-Rising m boundary (suc (suc n)) h k e = (
    h,
    boundaries-Rising (c.original_start + boundary) (boundary + 1) (suc n) (omega arith)
        (omega arith) (omega arith),
  )

-- The map has one entry more than the text has bytes, or both are empty.
abbrev Matches : List ℕ → List ℕ → Type 0
Matches text [] = length text ≡ 0
Matches text (b ∷ bs) = length bs ≡ length text

step-Matches :
    (text map : List ℕ) (c : MappedChar)
    → Matches text map
    → Matches
        (text ++ encode_utf8 c.ch)
        (set_last map c.original_start ++ boundaries c 1 (len_utf8 c.ch))
unfolding set_last len_utf8
step-Matches text [] c h = omega (
  arith,
  length-boundaries c 1 (length (encode_utf8 c.ch)),
  length-append text (encode_utf8 c.ch),
)
step-Matches text (b ∷ []) c h = omega (
  arith,
  length-boundaries c 1 (length (encode_utf8 c.ch)),
  length-append text (encode_utf8 c.ch),
)
step-Matches text (b ∷ d ∷ ds) c h = omega (
  arith,
  length-boundaries c 1 (length (encode_utf8 c.ch)),
  length-append text (encode_utf8 c.ch),
  length-append (set_last (d ∷ ds) c.original_start) (boundaries c 1 (length (encode_utf8 c.ch))),
  length-set_last-cons d ds c.original_start,
)

render_from-Matches :
    (cs : List MappedChar) (text map : List ℕ)
    → Matches text map
    → Matches (render_from (text, map) cs).0 (render_from (text, map) cs).1
unfolding render_from
render_from-Matches [] text map h = h
render_from-Matches (c ∷ cs) text map h = render_from-Matches cs _ _ (step-Matches text map c h)

render_from-Rising :
    (cs : List MappedChar) (text map : List ℕ) (at hi : ℕ)
    → Rising 0 at map
    → Ordered at hi cs
    → Rising 0 hi (render_from (text, map) cs).1
unfolding render_from
render_from-Rising [] text map at hi h o = Rising-widen 0 at hi map o h
render_from-Rising (c ∷ cs) text map at hi h (a, b, t) =
    render_from-Rising cs _ _ c.original_end hi
      (Rising-append 0 c.original_start c.original_end (set_last map c.original_start) _
        (set_last-Rising 0 at c.original_start map a h)
        (λ m le. boundaries-Rising c m 1 (len_utf8 c.ch) (omega arith) (omega arith) (omega arith)))
      t

-- The map belongs to the text: it has an entry for each boundary, and its entries rise up to the
-- length of the original text.
pub record IsMapping (hi : ℕ) (text map : List ℕ) : Type 0 where
  pub boundaries_all : length map ≡ suc (length text)
  pub rising : Rising 0 hi map

or_end-IsMapping :
    (hi : ℕ) (r : List ℕ × List ℕ)
    → Matches r.0 r.1
    → Rising 0 hi r.1
    → IsMapping hi (or_end hi r).0 (or_end hi r).1
unfolding or_end
or_end-IsMapping hi (text, []) m h = record {
  boundaries_all = omega arith;
  rising = (omega arith, omega arith);
}
or_end-IsMapping hi (text, b ∷ bs) m h = record { boundaries_all = omega arith; rising = h }

pub render-IsMapping :
    (hi : ℕ) (cs : List MappedChar)
    → Ordered 0 hi cs
    → IsMapping hi (render hi cs).0 (render hi cs).1
unfolding render
render-IsMapping hi cs o =
    or_end-IsMapping hi (render_from ([], []) cs) (render_from-Matches cs [] [] refl)
      (render_from-Rising cs [] [] 0 hi (omega arith) o)

get_elem?-Rising :
    (lo hi : ℕ) (xs : List ℕ) (i : ℕ)
    → Rising lo hi xs
    → i < length xs
    → (a : ℕ) × (get_elem? xs i ≡ some a) × (lo ≤ a) × (a ≤ hi)
get_elem?-Rising lo hi [] i h lt = absurd (omega arith)
get_elem?-Rising lo hi (x ∷ xs) zero (a, t) lt = (x, refl, a, Rising-le x hi xs t)
get_elem?-Rising lo hi (x ∷ xs) (suc i) (a, t) lt =
    let (b, e, l, u) = get_elem?-Rising x hi xs i t (omega arith) in (b, e, omega arith, u)

get_elem?-Rising_pair :
    (lo hi : ℕ) (xs : List ℕ) (i j : ℕ)
    → Rising lo hi xs
    → i ≤ j
    → j < length xs
    → (a b : ℕ) × (get_elem? xs i ≡ some a) × (get_elem? xs j ≡ some b) × (a ≤ b) × (b ≤ hi)
get_elem?-Rising_pair lo hi [] i j h le lt = absurd (omega arith)
get_elem?-Rising_pair lo hi (x ∷ xs) zero zero (a, t) le lt =
    (x, x, refl, refl, omega arith, Rising-le x hi xs t)
get_elem?-Rising_pair lo hi (x ∷ xs) zero (suc j) (a, t) le lt =
    let (b, e, l, u) = get_elem?-Rising x hi xs j t (omega arith) in (x, b, refl, e, l, u)
get_elem?-Rising_pair lo hi (x ∷ xs) (suc i) zero (a, t) le lt = absurd (omega arith)
get_elem?-Rising_pair lo hi (x ∷ xs) (suc i) (suc j) (a, t) le lt =
    get_elem?-Rising_pair x hi xs i j t (omega arith) (omega arith)

module _ (q : NormalizedQuery) (hi : ℕ) where
  -- A range of the normalized text has a range of the original text.
  pub original_byte_range_of_IsMapping :
      (left right : ℕ)
      → IsMapping hi q.normalized_text q.normalized_to_original_byte_map
      → left ≤ right
      → right ≤ length q.normalized_text
      → (a b : ℕ) × (original_byte_range q left right ≡ some (a, b)) × (a ≤ b) × (b ≤ hi)
  unfolding original_byte_range pair
  original_byte_range_of_IsMapping left right m le inside =
      let (a, b, ea, eb, l, u) =
        get_elem?-Rising_pair 0 hi q.normalized_to_original_byte_map left right m.rising le
          (omega (arith, m.boundaries_all)) in
      (a, b, ground (arith, ea, eb), l, u)
