-- ===== src/Chunking/Covered.antt =====
-- The chunks of each size hold the characters of the text (ChunkingEngine::build and
-- ChunkingEngine::chunk of src/chunking/mod.rs).
use mathlib.Core.List.{append-nil, append_assoc}
use llm.Base.{
  ℕ, ◌≡◌, refl, sym, ◌∙◌, ap, ap₂, ◌&&◌, List, [], ◌∷◌, ◌++◌, ltb, leb, length, inl, inr,
  Bool-cases,
}
use llm.Chunking.Words.{split_whitespace, join, split_sentences}
use llm.Chunking.Groups.{
  SizeProfile, TokenCounter, conservative, pieces, closed, spaced, candidate, overflows,
  gather_groups, merge_last, groups_of,
}
use llm.Chunking.Chars.{
  ink, ink_all, ink_all-append, ink-spaced, ink-join, ink_all-split_whitespace,
  ink_all-split_sentences,
}

-- A group and what follows it.
ink_all-cons : (t : List ℕ) (ts : List (List ℕ)) → ink_all (t ∷ ts) ≡ ink t ++ ink_all ts
unfolding ink_all
ink_all-cons t ts = refl

ink_all-one : (t : List ℕ) → ink_all (t ∷ []) ≡ ink t
unfolding ink_all
ink_all-one t = append-nil (ink t)

ink_all-closed :
    (t : List ℕ) (rest : List (List ℕ)) → ink_all (closed t rest) ≡ ink t ++ ink_all rest
ink_all-closed [] rest = unfold ink in refl
ink_all-closed (c ∷ cs) rest = ink_all-cons (c ∷ cs) rest

ink_all-pieces :
    (target : ℕ) (piece ws : List (List ℕ))
    → ink_all (pieces target piece ws) ≡ ink_all piece ++ ink_all ws
unfolding pieces ink_all
ink_all-pieces target [] [] = unfold ink_all in refl
ink_all-pieces target (v ∷ vs) [] =
    ink_all-one (join (v ∷ vs))
    ∙ ink-join (v ∷ vs)
    ∙ sym (unfold ink_all in append-nil (ink_all (v ∷ vs)))
ink_all-pieces target piece (w ∷ ws) =
    let longer = piece ++ (w ∷ []) in
    let moved =
      ap (λ r. r ++ ink_all ws) (ink_all-append piece (w ∷ []))
      ∙ append_assoc (ink_all piece) (ink_all (w ∷ [])) (ink_all ws)
      ∙ ap (λ r. ink_all piece ++ (r ++ ink_all ws)) (ink_all-one w)
      ∙ ap (λ r. ink_all piece ++ r) (sym (ink_all-cons w ws)) in
    elim (Bool-cases (leb target (length longer))) [
      | inl e ↦ rw e (
          ink_all-cons (join longer) (pieces target [] ws)
          ∙ ap₂ (λ a b. a ++ b) (ink-join longer) (ink_all-pieces target [] ws)
          ∙ moved)
      | inr e ↦ rw e (ink_all-pieces target longer ws ∙ moved)
    ]

ink-candidate :
    (counter : TokenCounter) (p : SizeProfile) (a b : List ℕ)
    → ink (candidate counter p a b) ≡ ink a ++ ink b
ink-candidate counter p [] b = unfold ink in refl
ink-candidate counter p (c ∷ cs) b = ink-spaced (c ∷ cs) b

ink_all-gather :
    (counter : TokenCounter) (p : SizeProfile) (current : List ℕ) (ss : List (List ℕ))
    → ink_all (gather_groups counter p current ss) ≡ ink current ++ ink_all ss
unfolding gather_groups ink_all ink
ink_all-gather counter p current [] = ink_all-closed current [] ∙ (unfold ink_all in refl)
ink_all-gather counter p current (s ∷ ss) = elim (Bool-cases (ltb p.max (counter.count s))) [
  | inl long ↦ rw long (
      ink_all-closed current
        (pieces p.target [] (split_whitespace s) ++ gather_groups counter p [] ss)
      ∙ ap (λ r. ink current ++ r)
          (ink_all-append (pieces p.target [] (split_whitespace s)) (gather_groups counter p [] ss)
            ∙ ap₂ (λ a b. a ++ b)
                (ink_all-pieces p.target [] (split_whitespace s) ∙ ink_all-split_whitespace s)
                (ink_all-gather counter p [] ss)
            ∙ sym (ink_all-cons s ss)))
  | inr short ↦ elim (Bool-cases (overflows counter p current s)) [
    | inl over ↦
        rw (short, over)
          (ink_all-cons current (gather_groups counter p s ss)
            ∙ ap (λ r. ink current ++ r) (ink_all-gather counter p s ss ∙ sym (ink_all-cons s ss)))
    | inr fits ↦
        rw (short, fits)
          (ink_all-gather counter p (candidate counter p current s) ss
            ∙ ap (λ r. r ++ ink_all ss) (ink-candidate counter p current s)
            ∙ append_assoc (ink current) (ink s) (ink_all ss)
            ∙ ap (λ r. ink current ++ r) (sym (ink_all-cons s ss)))
  ]
]

ink_all-merge_last :
    (counter : TokenCounter) (p : SizeProfile) (gs : List (List ℕ))
    → ink_all (merge_last counter p gs) ≡ ink_all gs
unfolding merge_last
ink_all-merge_last counter p [] = refl
ink_all-merge_last counter p (a ∷ []) = refl
ink_all-merge_last counter p (a ∷ b ∷ []) =
    elim (Bool-cases (ltb (counter.count b) p.min && leb (counter.count (spaced a b)) p.max)) [
      | inl e ↦ rw e (
          ink_all-one (spaced a b)
          ∙ ink-spaced a b
          ∙ ap (λ r. ink a ++ r) (sym (ink_all-one b))
          ∙ sym (ink_all-cons a (b ∷ [])))
      | inr e ↦ rw e refl
    ]
ink_all-merge_last counter p (a ∷ b ∷ c ∷ gs) =
    ink_all-cons a (merge_last counter p (b ∷ c ∷ gs))
    ∙ ap (λ r. ink a ++ r) (ink_all-merge_last counter p (b ∷ c ∷ gs))
    ∙ sym (ink_all-cons a (b ∷ c ∷ gs))

pub ink_all-groups_of :
    (p : SizeProfile) (text : List ℕ) → ink_all (groups_of conservative p text) ≡ ink text
unfolding groups_of
ink_all-groups_of p text =
    ink_all-merge_last conservative p (gather_groups conservative p [] (split_sentences text))
    ∙ ink_all-gather conservative p [] (split_sentences text)
    ∙ (unfold ink in ink_all-split_sentences text)
