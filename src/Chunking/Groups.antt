-- ===== src/Chunking/Groups.antt =====
-- The groups of sentences that become chunks (ChunkingEngine::build and SizeProfile::validate of
-- src/chunking/mod.rs).
use llm.Base.{
  ℕ, Bool, ◌&&◌, ◌||◌, not, List, [], ◌∷◌, ◌++◌, ltb, leb, ◌==◌, if◌then◌else◌, length, is_empty,
}
use llm.Chunking.Words.{split_whitespace, join, count_words, split_sentences}

pub record SizeProfile : Type 0 where
  pub target : ℕ
  pub min : ℕ
  pub max : ℕ
  pub overlap : ℕ

-- `validate` returns no error.
unfoldable pub is_valid_profile : SizeProfile → Bool
is_valid_profile p =
    not (p.min == 0 || leb p.target p.min || leb p.max p.target || leb p.min p.overlap)

-- The trait `TokenCounter`.
pub record TokenCounter : Type 0 where
  pub count : List ℕ → ℕ
  pub split_sentences : List ℕ → List (List ℕ)

abbrev pub conservative : TokenCounter
conservative = record { count = count_words; split_sentences = split_sentences }

-- The words of a long sentence, in pieces of `target` words.
unfoldable pub pieces : ℕ → List (List ℕ) → List (List ℕ) → List (List ℕ)
unfolding join
pieces target piece [] = if is_empty piece then [] else join piece ∷ []
pieces target piece (w ∷ ws) =
    let longer = piece ++ (w ∷ []) in
    let full = leb target (length longer) in
    let rest = pieces target (if full then [] else longer) ws in
    if full then join longer ∷ rest else rest

-- The group in the making, unless it is empty.
abbrev pub closed : List ℕ → List (List ℕ) → List (List ℕ)
closed current rest = if is_empty current then rest else current ∷ rest

-- `format!("{a} {b}")`
abbrev pub spaced : List ℕ → List ℕ → List ℕ
spaced a b = a ++ (32 ∷ b)

module _ (counter : TokenCounter) (p : SizeProfile) where
  abbrev pub candidate : List ℕ → List ℕ → List ℕ
  candidate current sentence = if is_empty current then sentence else spaced current sentence

  abbrev pub overflows : List ℕ → List ℕ → Bool
  overflows current sentence =
      ltb p.max (counter.count (candidate current sentence)) && not (is_empty current)

  -- The loop over the sentences.
  unfoldable pub gather_groups : List ℕ → List (List ℕ) → List (List ℕ)
  unfolding pieces split_whitespace
  gather_groups current [] = closed current []
  gather_groups current (s ∷ ss) =
      let long = ltb p.max (counter.count s) in
      let over = overflows current s in
      let next = if long then [] else if over then s else candidate current s in
      let rest = gather_groups next ss in
      if long
      then closed current (pieces p.target [] (split_whitespace s) ++ rest)
      else if over
      then current ∷ rest
      else rest

  -- A short last group joins the one before it, if the two are not too long.
  unfoldable pub merge_last : List (List ℕ) → List (List ℕ)
  merge_last [] = []
  merge_last (a ∷ []) = a ∷ []
  merge_last (a ∷ b ∷ []) =
      if ltb (counter.count b) p.min && leb (counter.count (spaced a b)) p.max
      then spaced a b ∷ []
      else a ∷ b ∷ []
  merge_last (a ∷ b ∷ c ∷ gs) = a ∷ merge_last (b ∷ c ∷ gs)

  unfoldable pub groups_of : List ℕ → List (List ℕ)
  unfolding gather_groups merge_last
  groups_of text = merge_last (gather_groups [] (counter.split_sentences text))
