-- ===== src/Chunking/Chars.antt =====
-- The characters of a text that are no white space, through the cutting into chunks
-- (src/chunking/mod.rs).
use mathlib.Core.List.{append-nil, append_assoc}
use llm.Base.{
  ℕ, ◌≡◌, refl, sym, ◌∙◌, ap, true, false, List, [], ◌∷◌, ◌++◌, if◌then◌else◌, is_empty, inl, inr,
  Bool-cases,
}
use llm.Query.Normalization.{is_whitespace}
use llm.Chunking.Words.{
  words_from, split_whitespace, join, trim_back_from, normalize, trim_front, trim_back, trim_text,
  ends_sentence, flushed, sentences_from, split_sentences,
}
use llm.Chunking.Groups.{spaced}

-- The characters that are no white space.
unfoldable pub ink : List ℕ → List ℕ
ink [] = []
ink (c ∷ cs) = if is_whitespace c then ink cs else c ∷ ink cs

unfoldable pub ink_all : List (List ℕ) → List ℕ
unfolding ink
ink_all [] = []
ink_all (t ∷ ts) = ink t ++ ink_all ts

pub ink-append : (a b : List ℕ) → ink (a ++ b) ≡ ink a ++ ink b
unfolding ink
ink-append [] b = refl
ink-append (c ∷ cs) b = elim (Bool-cases (is_whitespace c)) [
  | inl w ↦ rw w (ink-append cs b)
  | inr w ↦ rw w (ap (λ r. c ∷ r) (ink-append cs b))
]

pub ink_all-append : (a b : List (List ℕ)) → ink_all (a ++ b) ≡ ink_all a ++ ink_all b
unfolding ink_all
ink_all-append [] b = refl
ink_all-append (t ∷ ts) b =
    rw (ink_all-append ts b) (sym (append_assoc (ink t) (ink_all ts) (ink_all b)))

pub empty-nil : (t : List ℕ) → is_empty t ≡ true → t ≡ []
empty-nil [] h = refl
empty-nil (c ∷ cs) h = cc

-- One more character of a word.
ink-snoc :
    (word : List ℕ) (c : ℕ)
    → is_whitespace c ≡ false
    → ink (word ++ (c ∷ [])) ≡ ink word ++ (c ∷ [])
ink-snoc word c w = ink-append word (c ∷ []) ∙ (unfold ink in rw w refl)

ink_all-words_from : (word text : List ℕ) → ink_all (words_from word text) ≡ ink word ++ ink text
unfolding words_from ink_all
ink_all-words_from [] [] = unfold ink in refl
ink_all-words_from (d ∷ ds) [] = unfold ink in refl
ink_all-words_from [] (c ∷ cs) = elim (Bool-cases (is_whitespace c)) [
  | inl w ↦ rw w (ink_all-words_from [] cs)
  | inr w ↦ rw w (ink_all-words_from (c ∷ []) cs ∙ ap (λ r. r ++ ink cs) (ink-snoc [] c w))
]
ink_all-words_from (d ∷ ds) (c ∷ cs) = elim (Bool-cases (is_whitespace c)) [
  | inl w ↦ rw w (ap (λ r. ink (d ∷ ds) ++ r) (ink_all-words_from [] cs))
  | inr w ↦ rw w (
      ink_all-words_from (d ∷ (ds ++ (c ∷ []))) cs
      ∙ ap (λ r. r ++ ink cs) (ink-snoc (d ∷ ds) c w)
      ∙ append_assoc (ink (d ∷ ds)) (c ∷ []) (ink cs))
]

ink-dark : (c : ℕ) (cs : List ℕ) → is_whitespace c ≡ false → ink (c ∷ cs) ≡ c ∷ ink cs
unfolding ink
ink-dark c cs w = rw w refl

-- A space between two texts.
pub ink-spaced : (a b : List ℕ) → ink (spaced a b) ≡ ink a ++ ink b
unfolding ink is_whitespace
ink-spaced a b = ink-append a (32 ∷ b)

pub ink-join : (ws : List (List ℕ)) → ink (join ws) ≡ ink_all ws
unfolding join ink_all
ink-join [] = refl
ink-join (w ∷ []) = sym (append-nil (ink w))
ink-join (w ∷ v ∷ ws) = ink-spaced w (join (v ∷ ws)) ∙ ap (λ r. ink w ++ r) (ink-join (v ∷ ws))

pub ink_all-split_whitespace : (text : List ℕ) → ink_all (split_whitespace text) ≡ ink text
unfolding split_whitespace ink
ink_all-split_whitespace text = ink_all-words_from [] text

pub ink-normalize : (text : List ℕ) → ink (normalize text) ≡ ink text
unfolding normalize
ink-normalize text = ink-join (split_whitespace text) ∙ ink_all-split_whitespace text

ink-trim_front : (t : List ℕ) → ink (trim_front t) ≡ ink t
unfolding trim_front ink
ink-trim_front [] = refl
ink-trim_front (c ∷ cs) = elim (Bool-cases (is_whitespace c)) [
  | inl w ↦ rw w (ink-trim_front cs)
  | inr w ↦ rw w (ink-dark c cs w)
]

ink-trim_back_from : (c : ℕ) (t : List ℕ) → ink (trim_back_from c t) ≡ ink (c ∷ t)
unfolding ink
ink-trim_back_from c [] = elim (Bool-cases (is_whitespace c)) [
  | inl w ↦ rw w refl
  | inr w ↦ rw w (ink-dark c [] w)
]
ink-trim_back_from c (d ∷ ds) = refl

ink-cons : (c : ℕ) (a b : List ℕ) → ink a ≡ ink b → ink (c ∷ a) ≡ ink (c ∷ b)
unfolding ink
ink-cons c a b e = ap (λ r. if is_whitespace c then r else c ∷ r) e

ink-trim_back : (t : List ℕ) → ink (trim_back t) ≡ ink t
unfolding trim_back
ink-trim_back [] = refl
ink-trim_back (c ∷ cs) =
    ink-trim_back_from c (trim_back cs) ∙ ink-cons c (trim_back cs) cs (ink-trim_back cs)

pub ink-trim_text : (t : List ℕ) → ink (trim_text t) ≡ ink t
unfolding trim_text
ink-trim_text t = ink-trim_back (trim_front t) ∙ ink-trim_front t

ink_all-flushed :
    (buf : List ℕ) (rest : List (List ℕ)) → ink_all (flushed buf rest) ≡ ink buf ++ ink_all rest
unfolding ink_all
ink_all-flushed buf rest = elim (Bool-cases (is_empty (trim_text buf))) [
  | inl e ↦
      let blank : ink buf ≡ [] = sym (ink-trim_text buf) ∙ ap ink (empty-nil (trim_text buf) e) in
      rw e (ap (λ r. r ++ ink_all rest) (sym blank))
  | inr e ↦ rw e (ap (λ r. r ++ ink_all rest) (ink-trim_text buf))
]

ink_all-sentences_from :
    (buf text : List ℕ) → ink_all (sentences_from buf text) ≡ ink buf ++ ink text
unfolding sentences_from ink ink_all
ink_all-sentences_from buf [] = ink_all-flushed buf []
ink_all-sentences_from buf (c ∷ cs) =
    let moved =
      ap (λ r. r ++ ink cs) (ink-append buf (c ∷ []))
      ∙ append_assoc (ink buf) (ink (c ∷ [])) (ink cs)
      ∙ ap (λ r. ink buf ++ r) (sym (ink-append (c ∷ []) cs)) in
    elim (Bool-cases (ends_sentence c)) [
      | inl e ↦ rw e (
          ink_all-flushed (buf ++ (c ∷ [])) (sentences_from [] cs)
          ∙ ap (λ r. ink (buf ++ (c ∷ [])) ++ r) (ink_all-sentences_from [] cs)
          ∙ moved)
      | inr e ↦ rw e (ink_all-sentences_from (buf ++ (c ∷ [])) cs ∙ moved)
    ]

-- The sentences of a text hold its characters.
pub ink_all-split_sentences : (text : List ℕ) → ink_all (split_sentences text) ≡ ink text
unfolding split_sentences ink
ink_all-split_sentences text = ink_all-sentences_from [] text
