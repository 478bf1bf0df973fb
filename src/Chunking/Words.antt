-- ===== src/Chunking/Words.antt =====
-- Words and sentences (normalize, ConservativeTokenCounter of src/chunking/mod.rs).
use llm.Base.{ℕ, Bool, ◌&&◌, ◌||◌, not, List, [], ◌∷◌, ◌++◌, ◌==◌, if◌then◌else◌, length, is_empty}
use llm.Query.Normalization.{is_whitespace}

-- `split_whitespace`, with the word so far.
unfoldable pub words_from : List ℕ → List ℕ → List (List ℕ)
unfolding is_whitespace
words_from word [] = if is_empty word then [] else word ∷ []
words_from word (c ∷ cs) =
    let rest = words_from (if is_whitespace c then [] else word ++ (c ∷ [])) cs in
    if is_whitespace c && not (is_empty word) then word ∷ rest else rest

unfoldable pub split_whitespace : List ℕ → List (List ℕ)
unfolding words_from
split_whitespace text = words_from [] text

-- `join(" ")`
unfoldable pub join : List (List ℕ) → List ℕ
join [] = []
join (w ∷ []) = w
join (w ∷ v ∷ ws) = w ++ (32 ∷ join (v ∷ ws))

unfoldable pub normalize : List ℕ → List ℕ
unfolding split_whitespace join
normalize text = join (split_whitespace text)

unfoldable pub trim_front : List ℕ → List ℕ
unfolding is_whitespace
trim_front [] = []
trim_front (c ∷ cs) = let rest = trim_front cs in if is_whitespace c then rest else c ∷ cs

abbrev pub trim_back_from : ℕ → List ℕ → List ℕ
trim_back_from c [] = if is_whitespace c then [] else c ∷ []
trim_back_from c (d ∷ ds) = c ∷ d ∷ ds

unfoldable pub trim_back : List ℕ → List ℕ
unfolding is_whitespace
trim_back [] = []
trim_back (c ∷ cs) = trim_back_from c (trim_back cs)

-- `trim`
unfoldable pub trim_text : List ℕ → List ℕ
unfolding trim_front trim_back
trim_text text = trim_back (trim_front text)

-- `ConservativeTokenCounter::count`
unfoldable pub count_words : List ℕ → ℕ
unfolding split_whitespace
count_words text = length (split_whitespace text)

-- ".", "!", "?" and the line feed.
abbrev pub ends_sentence : ℕ → Bool
ends_sentence c = c == 46 || c == 33 || c == 63 || c == 10

-- The sentence in the buffer, unless it is blank.
abbrev pub flushed : List ℕ → List (List ℕ) → List (List ℕ)
flushed buf rest = let t = trim_text buf in if is_empty t then rest else t ∷ rest

unfoldable pub sentences_from : List ℕ → List ℕ → List (List ℕ)
unfolding trim_text
sentences_from buf [] = flushed buf []
sentences_from buf (c ∷ cs) =
    let next = if ends_sentence c then [] else buf ++ (c ∷ []) in
    let rest = sentences_from next cs in
    if ends_sentence c then flushed (buf ++ (c ∷ [])) rest else rest

-- `ConservativeTokenCounter::split_sentences`
unfoldable pub split_sentences : List ℕ → List (List ℕ)
unfolding sentences_from
split_sentences text = sentences_from [] text
