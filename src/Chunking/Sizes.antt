-- ===== src/Chunking/Sizes.antt =====
-- How long the chunks are (ChunkingEngine::build of src/chunking/mod.rs).
use llm.Base.{
  ℕ, suc, ◌≤◌, ◌<◌, ◌≡◌, arith, true, false, ◌&&◌, Option, List, [], ◌∷◌, ◌++◌, All, All-append,
  ltb, leb, length, length-append, inl, inr, Bool-cases,
}
use llm.Graph.{Granularity}
use llm.Chunking.Words.{split_whitespace, count_words, split_sentences}
use llm.Chunking.Groups.{
  SizeProfile, is_valid_profile, conservative, pieces, closed, spaced, candidate, overflows,
  gather_groups, merge_last, groups_of,
}
use llm.Chunking.Counts.{
  IsOne, split_whitespace-IsOne, count_words-nil, count_words-join, count_words-normalize,
}
use llm.Chunking.{Digests, Target, numbered, build}

-- A text of at most `bound` words.
abbrev IsShort : ℕ → List ℕ → Type 0
IsShort bound t = count_words t ≤ bound

closed-IsShort :
    (bound : ℕ) (t : List ℕ) (rest : List (List ℕ))
    → IsShort bound t
    → All (IsShort bound) rest
    → All (IsShort bound) (closed t rest)
closed-IsShort bound [] rest h hs = hs
closed-IsShort bound (c ∷ cs) rest h hs = (h, hs)

-- A piece grows up to the target.
pieces-IsShort :
    (target bound : ℕ) (piece ws : List (List ℕ))
    → 0 < target
    → target ≤ bound
    → length piece < target
    → All IsOne piece
    → All IsOne ws
    → All (IsShort bound) (pieces target piece ws)
unfolding pieces
pieces-IsShort target bound [] [] h0 hb hl hp hw = tt
pieces-IsShort target bound (v ∷ vs) [] h0 hb hl hp hw =
    (omega (arith, count_words-join (v ∷ vs) hp), tt)
pieces-IsShort target bound piece (w ∷ ws) h0 hb hl hp hw =
    let longer = piece ++ (w ∷ []) in
    let ones = All-append IsOne piece (w ∷ []) hp (hw.0, tt) in
    let size = length-append piece (w ∷ []) in
    elim (Bool-cases (leb target (length longer))) [
      | inl e ↦ rw e (
          (
            omega (arith, count_words-join longer ones, size),
            pieces-IsShort target bound [] ws h0 hb h0 tt hw.1,
          ))
      | inr e ↦ rw e (pieces-IsShort target bound longer ws h0 hb (ground arith) ones hw.1)
    ]

module _ (p : SizeProfile) (valid : is_valid_profile p ≡ true) where
  target-bounds : (0 < p.target) × (p.target ≤ p.max)
  unfolding is_valid_profile
  target-bounds = ground arith

  candidate-IsShort :
      (current s : List ℕ)
      → overflows conservative p current s ≡ false
      → IsShort p.max s
      → IsShort p.max (candidate conservative p current s)
  candidate-IsShort [] s h hs = hs
  candidate-IsShort (c ∷ cs) s h hs = ground arith

  gather-IsShort :
      (current : List ℕ) (ss : List (List ℕ))
      → IsShort p.max current
      → All (IsShort p.max) (gather_groups conservative p current ss)
  unfolding gather_groups
  gather-IsShort current [] h = closed-IsShort p.max current [] h tt
  gather-IsShort current (s ∷ ss) h = elim (Bool-cases (ltb p.max (count_words s))) [
    | inl long ↦
        let cut =
          pieces-IsShort p.target p.max [] (split_whitespace s) target-bounds.0 target-bounds.1
            target-bounds.0 tt (split_whitespace-IsOne s) in
        rw long (
          closed-IsShort p.max current
            (pieces p.target [] (split_whitespace s) ++ gather_groups conservative p [] ss) h
            (All-append (IsShort p.max) (pieces p.target [] (split_whitespace s))
              (gather_groups conservative p [] ss) cut
              (gather-IsShort [] ss (omega (arith, count_words-nil)))))
    | inr short ↦
        let hs : IsShort p.max s = ground arith in
        elim (Bool-cases (overflows conservative p current s)) [
          | inl over ↦ rw (short, over) ((h, gather-IsShort s ss hs))
          | inr fits ↦
              rw (short, fits)
                (gather-IsShort (candidate conservative p current s) ss
                  (candidate-IsShort current s fits hs))
        ]
  ]

  merge_last-IsShort :
      (gs : List (List ℕ))
      → All (IsShort p.max) gs
      → All (IsShort p.max) (merge_last conservative p gs)
  unfolding merge_last
  merge_last-IsShort [] h = h
  merge_last-IsShort (a ∷ []) h = h
  merge_last-IsShort (a ∷ b ∷ []) h =
      elim (Bool-cases (ltb (count_words b) p.min && leb (count_words (spaced a b)) p.max)) [
        | inl e ↦ rw e ((ground arith, tt))
        | inr e ↦ rw e h
      ]
  merge_last-IsShort (a ∷ b ∷ c ∷ gs) h = (h.0, merge_last-IsShort (b ∷ c ∷ gs) h.1)

  module _ (digests : Digests) (at : Target) where
    numbered-IsShort :
        (root source : ℕ) (parent : Option ℕ) (g : Granularity) (profile : List ℕ) (i : ℕ)
        (gs : List (List ℕ))
        → All (IsShort p.max) gs
        → All
            (λ c. c.token_count ≤ p.max)
            (numbered digests conservative at root source parent g profile i gs)
    unfolding numbered
    numbered-IsShort root source parent g profile i [] h = tt
    numbered-IsShort root source parent g profile i (t ∷ ts) h = (
      omega (arith, h.0, count_words-normalize t),
      numbered-IsShort root source parent g profile (suc i) ts h.1,
    )

    -- Under a valid profile no chunk has more words than its maximum, whatever the text.
    pub build-token_count :
        (root source : ℕ) (parent : Option ℕ) (g : Granularity) (text : List ℕ) (profile : List ℕ)
        → All
            (λ c. c.token_count ≤ p.max)
            (build digests conservative at root source parent g text p profile)
    unfolding build groups_of
    build-token_count root source parent g text profile =
        numbered-IsShort root source parent g profile 0 (groups_of conservative p text) (
          merge_last-IsShort (gather_groups conservative p [] (split_sentences text))
            (gather-IsShort [] (split_sentences text) (omega (arith, count_words-nil))))
