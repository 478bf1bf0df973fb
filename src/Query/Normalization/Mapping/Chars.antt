-- ===== src/Query/Normalization/Mapping/Chars.antt =====
-- The characters that normalization keeps stay in the order of the original text
-- (src/query_processing/normalization.rs: `canonical_chars` to `normalize_lines`).
use llm.Base.{ℕ, ◌+◌, ◌≤◌, ◌≡◌, refl, List, [], ◌∷◌, ◌++◌, arith, ◌==◌, inl, inr, Bool-cases}
use llm.Query.Normalization.{
  MappedChar, encode_utf8, len_utf8, byte_len, is_whitespace, canonical_chars, trim_start, keep,
  trim_end, trim_outer_whitespace, kept_line, kept_break, blanks_after, lines_from, normalize_lines,
  normalized_chars,
}

-- The characters lie between two positions, one after the other, each at least as wide as the
-- bytes that it is written with.
abbrev pub Ordered : ℕ → ℕ → List MappedChar → Type 0
Ordered lo hi [] = lo ≤ hi
Ordered lo hi (c ∷ cs) =
    (lo ≤ c.original_start)
    × (c.original_start + len_utf8 c.ch ≤ c.original_end)
    × Ordered c.original_end hi cs

Ordered-weaken :
    (lo lo' hi : ℕ) (cs : List MappedChar) → lo' ≤ lo → Ordered lo hi cs → Ordered lo' hi cs
Ordered-weaken lo lo' hi [] le h = omega arith
Ordered-weaken lo lo' hi (c ∷ cs) le (a, b, t) = (omega arith, b, t)

Ordered-le : (lo hi : ℕ) (cs : List MappedChar) → Ordered lo hi cs → lo ≤ hi
Ordered-le lo hi [] h = h
Ordered-le lo hi (c ∷ cs) (a, b, t) = omega (arith, Ordered-le c.original_end hi cs t)

Ordered-widen :
    (lo hi hi' : ℕ) (cs : List MappedChar) → hi ≤ hi' → Ordered lo hi cs → Ordered lo hi' cs
Ordered-widen lo hi hi' [] le h = omega arith
Ordered-widen lo hi hi' (c ∷ cs) le (a, b, t) = (a, b, Ordered-widen c.original_end hi hi' cs le t)

Ordered-tail :
    (lo hi : ℕ) (c : MappedChar) (cs : List MappedChar) → Ordered lo hi (c ∷ cs) → Ordered lo hi cs
Ordered-tail lo hi c cs (a, b, t) = Ordered-weaken c.original_end lo hi cs (omega arith) t

Ordered-append :
    (lo mid hi : ℕ) (xs ys : List MappedChar)
    → Ordered lo mid xs
    → Ordered mid hi ys
    → Ordered lo hi (xs ++ ys)
Ordered-append lo mid hi [] ys hx hy = Ordered-weaken mid lo hi ys hx hy
Ordered-append lo mid hi (x ∷ xs) ys (a, b, t) hy =
    (a, b, Ordered-append x.original_end mid hi xs ys t hy)

len_utf8-positive : (c : ℕ) → 1 ≤ len_utf8 c
unfolding len_utf8 encode_utf8
len_utf8-positive c = ground arith

len_utf8-newline : len_utf8 10 ≡ 1
unfolding len_utf8 encode_utf8
len_utf8-newline = refl

canonical_chars-Ordered :
    (at : ℕ) (cs : List ℕ) → Ordered at (at + byte_len cs) (canonical_chars at cs)
unfolding canonical_chars byte_len
canonical_chars-Ordered at [] = omega arith
canonical_chars-Ordered at (c ∷ []) = ground (arith, len_utf8-newline, len_utf8-positive c)
canonical_chars-Ordered at (c ∷ d ∷ cs) = ground (
  arith,
  len_utf8-newline,
  len_utf8-positive c,
  len_utf8-positive d,
  canonical_chars-Ordered (at + len_utf8 c) (d ∷ cs),
  canonical_chars-Ordered (at + len_utf8 c + len_utf8 d) cs,
)

trim_start-Ordered :
    (lo hi : ℕ) (cs : List MappedChar) → Ordered lo hi cs → Ordered lo hi (trim_start cs)
unfolding trim_start
trim_start-Ordered lo hi [] h = h
trim_start-Ordered lo hi (c ∷ cs) h = elim (Bool-cases (is_whitespace c.ch)) [
  | inl e ↦ rw e (trim_start-Ordered lo hi cs (Ordered-tail lo hi c cs h))
  | inr e ↦ rw e h
]

keep-Ordered :
    (lo hi : ℕ) (c : MappedChar) (ds : List MappedChar)
    → Ordered lo hi (c ∷ ds)
    → Ordered lo hi (keep c ds)
unfolding keep
keep-Ordered lo hi c [] h = elim (Bool-cases (is_whitespace c.ch)) [
  | inl e ↦ rw e (Ordered-le lo hi (c ∷ []) h)
  | inr e ↦ rw e h
]
keep-Ordered lo hi c (d ∷ ds) h = h

trim_end-Ordered :
    (lo hi : ℕ) (cs : List MappedChar) → Ordered lo hi cs → Ordered lo hi (trim_end cs)
unfolding trim_end
trim_end-Ordered lo hi [] h = h
trim_end-Ordered lo hi (c ∷ cs) (a, b, t) =
    keep-Ordered lo hi c (trim_end cs) (a, b, trim_end-Ordered c.original_end hi cs t)

kept_line-Ordered :
    (lo hi : ℕ) (line : List MappedChar) → Ordered lo hi line → Ordered lo hi (kept_line line)
unfolding kept_line
kept_line-Ordered lo hi line h =
    ground (arith, Ordered-le lo hi line h, trim_end-Ordered lo hi line h)

kept_break-Ordered :
    (blank_lines lo hi : ℕ) (line : List MappedChar) (c : MappedChar)
    → Ordered lo hi (c ∷ [])
    → Ordered lo hi (kept_break blank_lines line c)
unfolding kept_break
kept_break-Ordered blank_lines lo hi line c h = ground (arith, Ordered-le lo hi (c ∷ []) h)

lines_from-Ordered :
    (blank_lines lo mid hi : ℕ) (line cs : List MappedChar)
    → Ordered lo mid line
    → Ordered mid hi cs
    → Ordered lo hi (lines_from blank_lines line cs)
unfolding lines_from
lines_from-Ordered n lo mid hi line [] hl hc =
    kept_line-Ordered lo hi line (Ordered-widen lo mid hi line hc hl)
lines_from-Ordered n lo mid hi line (c ∷ cs) hl (a, b, t) = elim (Bool-cases (c.ch == 10)) [
  | inl e ↦ rw e (
      Ordered-append lo mid hi (kept_line line) _ (kept_line-Ordered lo mid line hl) (
        Ordered-append mid c.original_end hi (kept_break n line c) _
          (kept_break-Ordered n mid c.original_end line c (a, b, omega arith))
          (lines_from-Ordered (blanks_after n line) c.original_end c.original_end hi [] cs
            (omega arith) t)))
  | inr e ↦ rw e (
      lines_from-Ordered n lo c.original_end hi (line ++ (c ∷ [])) cs
        (Ordered-append lo mid c.original_end line (c ∷ []) hl (a, b, omega arith)) t)
]

pub normalized_chars-Ordered :
    (original : List ℕ) → Ordered 0 (byte_len original) (normalized_chars original)
unfolding normalized_chars normalize_lines trim_outer_whitespace
normalized_chars-Ordered original =
    let hi = byte_len original in
    let cs = canonical_chars 0 original in
    let trimmed = trim_outer_whitespace cs in
    trim_end-Ordered 0 hi (lines_from 0 [] trimmed) (
      lines_from-Ordered 0 0 0 hi [] trimmed (omega arith) (
        trim_end-Ordered 0 hi (trim_start cs) (
          trim_start-Ordered 0 hi cs
            (Ordered-widen 0 (0 + hi) hi cs (omega arith) (canonical_chars-Ordered 0 original)))))
