-- ===== src/Query/Intent/Sentences.antt =====
-- The sentences of a query (src/query_processing/intent.rs: `split_intent_sentences`), over the
-- bytes of its UTF-8 text. All boundaries are ASCII characters, so the byte positions are those of
-- the code.
use llm.Base.{
  ℕ, ◌+◌, ◌-◌, Bool, true, false, ◌&&◌, ◌||◌, not, none, some, List, [], ◌∷◌, ◌++◌, ltb, leb, ◌==◌,
  if◌then◌else◌, is_empty, last,
}

-- A text as the list of its characters, each the list of its bytes. A byte from 128 to 191
-- continues a character.
joined : ℕ → List (List ℕ) → List (List ℕ)
joined b [] = (b ∷ []) ∷ []
joined b (c ∷ cs) = elim c [
  | [] ↦ (b ∷ []) ∷ cs
  | d ∷ ds ↦ if leb 128 d && ltb d 192 then (b ∷ d ∷ ds) ∷ cs else (b ∷ []) ∷ (d ∷ ds) ∷ cs
]

characters : List ℕ → List (List ℕ)
unfolding joined
characters [] = []
characters (b ∷ bs) = joined b (characters bs)

-- The characters with the property White_Space, in UTF-8.
unfoldable pub whitespace : List ℕ → Bool
whitespace (b ∷ []) = (leb 9 b && leb b 13) || b == 32
whitespace (a ∷ b ∷ []) = a == 194 && (b == 133 || b == 160)
whitespace (a ∷ b ∷ c ∷ []) =
    (a == 225 && b == 154 && c == 128)
    || (a == 226 && b == 128 && ((leb 128 c && leb c 138) || c == 168 || c == 169 || c == 175))
    || (a == 226 && b == 129 && c == 159)
    || (a == 227 && b == 128 && c == 128)
whitespace _ = false

flat : List (List ℕ) → List ℕ
flat [] = []
flat (c ∷ cs) = c ++ flat cs

trim_left : List (List ℕ) → List (List ℕ)
trim_left [] = []
trim_left (c ∷ cs) = let rest = trim_left cs in if whitespace c then rest else c ∷ cs

keep : List ℕ → List (List ℕ) → List (List ℕ)
keep c [] = if whitespace c then [] else c ∷ []
keep c (d ∷ ds) = c ∷ d ∷ ds

trim_right : List (List ℕ) → List (List ℕ)
unfolding keep
trim_right [] = []
trim_right (c ∷ cs) = keep c (trim_right cs)

-- `str::trim`
unfoldable pub trim : List ℕ → List ℕ
unfolding characters trim_left trim_right flat
trim text = flat (trim_right (trim_left (characters text)))

-- "?" is 63.
unfoldable pub ends_with_question : List ℕ → Bool
ends_with_question text = elim (last text) [ none ↦ false | some b ↦ b == 63 ]

pub record Sentence : Type 0 where
  pub text : List ℕ
  pub start : ℕ
  pub end : ℕ

-- The state of the loop; `skip` bytes of a code fence are still passed over.
pub record Cursor : Type 0 where
  pub start : ℕ
  pub index : ℕ
  pub in_code : Bool
  pub skip : ℕ
  pub piece : List ℕ

-- "`" is 96.
fence : List ℕ → Bool
fence (a ∷ b ∷ c ∷ rest) = a == 96 && b == 96 && c == 96
fence _ = false

starts_blank : List (List ℕ) → Bool
starts_blank [] = true
starts_blank (c ∷ cs) = whitespace c

-- "!" is 33, "." is 46.
unfoldable pub boundary : Cursor → ℕ → List ℕ → Bool
unfolding fence starts_blank characters
boundary s c cs =
    s.skip == 0
    && not (fence (c ∷ cs))
    && not s.in_code
    && (c == 63 || c == 33 || c == 10 || (c == 46 && starts_blank (characters cs)))

unfoldable pub advance : Cursor → ℕ → List ℕ → Cursor
unfolding fence
advance s c cs =
    let passed = record s { index = s.index + 1; piece = s.piece ++ (c ∷ []) } in
    if not (s.skip == 0)
    then record passed { skip = s.skip - 1 }
    else if fence (c ∷ cs)
    then record passed { in_code = not s.in_code; skip = 2 }
    else if boundary s c cs
    then record passed { start = s.index + 1; piece = [] }
    else passed

-- A piece that is not blank.
unfoldable pub emit : List ℕ → ℕ → ℕ → List Sentence
unfolding trim
emit piece start end =
    if is_empty (trim piece) then [] else record { text = piece; start = start; end = end } ∷ []

unfoldable pub split_from : Cursor → List ℕ → List Sentence
unfolding emit boundary advance
split_from s [] = if is_empty s.piece then [] else emit s.piece s.start s.index
split_from s (c ∷ cs) =
    (if boundary s c cs then emit (s.piece ++ (c ∷ [])) s.start (s.index + 1) else [])
    ++ split_from (advance s c cs) cs

unfoldable pub split_intent_sentences : List ℕ → List Sentence
unfolding split_from
split_intent_sentences text =
    split_from (record { start = 0; index = 0; in_code = false; skip = 0; piece = [] }) text
