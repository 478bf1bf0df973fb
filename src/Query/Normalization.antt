-- ===== src/Query/Normalization.antt =====
-- Normalization of a query (src/query_processing/normalization.rs). The original text is a list of
-- characters, each the number of a Unicode scalar value; the normalized text is the list of its
-- UTF-8 bytes, since offsets count bytes.
pub mod Mapping
use llm.Base.{
  ℕ, zero, suc, ◌+◌, ◌-◌, ◌*◌, ◌/◌, ◌%◌, Bool, true, false, ◌&&◌, ◌||◌, not, Option, none, some,
  List, [], ◌∷◌, ◌++◌, ltb, leb, ◌==◌, if◌then◌else◌, length, is_empty, all, get_elem?,
}
use llm.Query.Segmenter.{TokenOffset}

-- `char::len_utf8` and `char::encode_utf8`
unfoldable pub encode_utf8 : ℕ → List ℕ
encode_utf8 c =
    if ltb c 128
    then c ∷ []
    else if ltb c 2048
    then (192 + c / 64) ∷ (128 + c % 64) ∷ []
    else if ltb c 65536
    then (224 + c / 4096) ∷ (128 + (c / 64) % 64) ∷ (128 + c % 64) ∷ []
    else (240 + c / 262144) ∷ (128 + (c / 4096) % 64) ∷ (128 + (c / 64) % 64) ∷ (128 + c % 64) ∷ []

unfoldable pub len_utf8 : ℕ → ℕ
unfolding encode_utf8
len_utf8 c = length (encode_utf8 c)

-- `str::len`
unfoldable pub byte_len : List ℕ → ℕ
unfolding len_utf8
byte_len [] = 0
byte_len (c ∷ cs) = len_utf8 c + byte_len cs

-- `char::is_whitespace`: the characters with the property White_Space.
unfoldable pub is_whitespace : ℕ → Bool
is_whitespace c =
    (leb 9 c && leb c 13)
    || c == 32
    || c == 133
    || c == 160
    || c == 5760
    || (leb 8192 c && leb c 8202)
    || c == 8232
    || c == 8233
    || c == 8239
    || c == 8287
    || c == 12288

pub record MappedChar : Type 0 where
  pub ch : ℕ
  pub original_start : ℕ
  pub original_end : ℕ

pub record NormalizedQuery : Type 0 where
  pub original_text : List ℕ
  pub normalized_text : List ℕ
  pub normalized_to_original_byte_map : List ℕ
  pub token_offsets : List TokenOffset

pair : Option ℕ → Option ℕ → Option (ℕ × ℕ)
pair none b = none
pair (some a) none = none
pair (some a) (some b) = some (a, b)

unfoldable pub original_byte_range : NormalizedQuery → ℕ → ℕ → Option (ℕ × ℕ)
unfolding pair
original_byte_range q left right =
    if ltb right left || ltb (length q.normalized_text) right
    then none
    else pair (get_elem? q.normalized_to_original_byte_map left)
        (get_elem? q.normalized_to_original_byte_map right)

-- From a byte position of the original text. "\r" is 13, "\n" is 10; "\r\n" becomes one "\n".
unfoldable pub canonical_chars : ℕ → List ℕ → List MappedChar
unfolding len_utf8
canonical_chars at [] = []
canonical_chars at (c ∷ []) =
    record { ch = if c == 13 then 10 else c; original_start = at; original_end = at + len_utf8 c }
    ∷ []
canonical_chars at (c ∷ d ∷ cs) =
    let short = canonical_chars (at + len_utf8 c) (d ∷ cs) in
    let long = canonical_chars (at + len_utf8 c + len_utf8 d) cs in
    if c == 13
    then if d == 10
      then record { ch = 10; original_start = at; original_end = at + len_utf8 c + len_utf8 d }
        ∷ long
      else record { ch = 10; original_start = at; original_end = at + len_utf8 c } ∷ short
    else record { ch = c; original_start = at; original_end = at + len_utf8 c } ∷ short

trim_start : List MappedChar → List MappedChar
trim_start [] = []
trim_start (c ∷ cs) = let rest = trim_start cs in if is_whitespace c.ch then rest else c ∷ cs

keep : MappedChar → List MappedChar → List MappedChar
keep c [] = if is_whitespace c.ch then [] else c ∷ []
keep c (d ∷ ds) = c ∷ d ∷ ds

unfoldable pub trim_end : List MappedChar → List MappedChar
unfolding keep
trim_end [] = []
trim_end (c ∷ cs) = keep c (trim_end cs)

unfoldable pub trim_outer_whitespace : List MappedChar → List MappedChar
unfolding trim_start
trim_outer_whitespace cs = trim_end (trim_start cs)

is_blank : List MappedChar → Bool
is_blank line = all (λ c. is_whitespace c.ch) line

unfoldable pub kept_line : List MappedChar → List MappedChar
unfolding is_blank
kept_line line = if is_blank (trim_end line) then [] else trim_end line

unfoldable pub blanks_after : ℕ → List MappedChar → ℕ
unfolding is_blank
blanks_after blank_lines line = if is_blank (trim_end line) then blank_lines + 1 else 0

unfoldable pub kept_break : ℕ → List MappedChar → MappedChar → List MappedChar
unfolding is_blank
kept_break blank_lines line c =
    if not (is_blank (trim_end line)) || leb (blanks_after blank_lines line) 2 then c ∷ [] else []

-- The `for` loop of `normalize_lines`, with the characters of the line so far.
unfoldable pub lines_from : ℕ → List MappedChar → List MappedChar → List MappedChar
unfolding kept_line blanks_after kept_break
lines_from blank_lines line [] = kept_line line
lines_from blank_lines line (c ∷ cs) =
    let next = lines_from (blanks_after blank_lines line) [] cs in
    let longer = lines_from blank_lines (line ++ (c ∷ [])) cs in
    if c.ch == 10 then kept_line line ++ (kept_break blank_lines line c ++ next) else longer

unfoldable pub normalize_lines : List MappedChar → List MappedChar
unfolding lines_from
normalize_lines cs = trim_end (lines_from 0 [] cs)

-- `*map.last_mut() = boundary`, or `map.push(boundary)` on the empty map.
unfoldable pub set_last : List ℕ → ℕ → List ℕ
set_last [] b = b ∷ []
set_last (x ∷ []) b = b ∷ []
set_last (x ∷ y ∷ ys) b = x ∷ set_last (y ∷ ys) b

-- The boundaries after the bytes of a character: `left` bytes remain after the one at `boundary`.
unfoldable pub boundaries : MappedChar → ℕ → ℕ → List ℕ
boundaries c boundary zero = []
boundaries c boundary (suc zero) = c.original_end ∷ []
boundaries c boundary (suc (suc left)) =
    (c.original_start + boundary) ∷ boundaries c (boundary + 1) (suc left)

unfoldable pub render_from : List ℕ × List ℕ → List MappedChar → List ℕ × List ℕ
unfolding set_last boundaries
render_from (text, map) [] = (text, map)
render_from (text, map) (c ∷ cs) =
    render_from
      (text ++ encode_utf8 c.ch, set_last map c.original_start ++ boundaries c 1 (len_utf8 c.ch)) cs

or_end : ℕ → List ℕ × List ℕ → List ℕ × List ℕ
or_end original_len (text, []) = (text, original_len ∷ [])
or_end original_len (text, b ∷ bs) = (text, b ∷ bs)

unfoldable pub render : ℕ → List MappedChar → List ℕ × List ℕ
unfolding render_from or_end
render original_len cs = or_end original_len (render_from ([], []) cs)

-- A byte that does not continue a character.
starts_char : Option ℕ → Bool
starts_char none = false
starts_char (some b) = ltb b 128 || leb 192 b

-- `str::is_char_boundary`
unfoldable pub is_char_boundary : List ℕ → ℕ → Bool
unfolding starts_char
is_char_boundary text i = i == 0 || i == length text || starts_char (get_elem? text i)

unfoldable pub offset_is_valid : List ℕ → TokenOffset → Bool
offset_is_valid text o = not (
    leb o.end_byte o.start_byte
    || ltb (length text) o.end_byte
    || not (is_char_boundary text o.start_byte)
    || not (is_char_boundary text o.end_byte))

unfoldable pub validate_offsets : List ℕ → List TokenOffset → Bool
unfolding offset_is_valid
validate_offsets text offsets = all (offset_is_valid text) offsets

-- What the tokenizer answers.
pub data Tokenized {ℓ} (A : Type ℓ) : Type ℓ where
  tokens : A → Tokenized A
  failed : List ℕ → Tokenized A

-- The trait of src/query_processing/planner.rs.
pub record QueryTokenCounter : Type 0 where
  pub count_tokens : List ℕ → ℕ → Bool → Tokenized ℕ
  pub token_offsets : List ℕ → Tokenized (List TokenOffset)

-- The text of the error that names an invalid offset.
abbrev pub invalid_offset : List ℕ
invalid_offset = 105 ∷ 110 ∷ 118 ∷ 97 ∷ 108 ∷ 105 ∷ 100 ∷ []

with_offsets : List ℕ → List ℕ × List ℕ → Tokenized (List TokenOffset) → Tokenized NormalizedQuery
with_offsets original (text, map) (failed e) = failed e
with_offsets original (text, map) (tokens offsets) =
    if validate_offsets text offsets
    then tokens (record {
      original_text = original;
      normalized_text = text;
      normalized_to_original_byte_map = map;
      token_offsets = offsets;
    })
    else failed invalid_offset

unfoldable pub normalized_chars : List ℕ → List MappedChar
normalized_chars original = normalize_lines (trim_outer_whitespace (canonical_chars 0 original))

unfoldable pub normalize_query : List ℕ → QueryTokenCounter → Tokenized NormalizedQuery
unfolding with_offsets normalized_chars render byte_len
normalize_query original counter =
    let rendered = render (byte_len original) (normalized_chars original) in
    with_offsets original rendered (counter.token_offsets rendered.0)
