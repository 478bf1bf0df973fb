-- ===== src/Chunking/Counts.antt =====
-- The number of words of a text (ConservativeTokenCounter of src/chunking/mod.rs).
use mathlib.Core.List.{append-nil, append_assoc}
use llm.Base.{
  ℕ, ◌+◌, ◌≡◌, refl, sym, ◌∙◌, ap, arith, false, List, [], ◌∷◌, ◌++◌, All, length, length-append,
  inl, inr, Bool-cases,
}
use llm.Query.Normalization.{is_whitespace}
use llm.Chunking.Words.{words_from, split_whitespace, join, normalize, count_words}
use llm.Chunking.Groups.{spaced, closed}

-- No character is white space.
abbrev IsSolid : List ℕ → Type 0
IsSolid t = All (λ c. is_whitespace c ≡ false) t

IsSolid-snoc :
    (word : List ℕ) (c : ℕ) → IsSolid word → is_whitespace c ≡ false → IsSolid (word ++ (c ∷ []))
IsSolid-snoc [] c h hc = (hc, tt)
IsSolid-snoc (d ∷ ds) c h hc = (h.0, IsSolid-snoc ds c h.1 hc)

words_from-spaced :
    (word a b : List ℕ) → words_from word (spaced a b) ≡ words_from word a ++ words_from [] b
unfolding words_from is_whitespace
words_from-spaced [] [] b = refl
words_from-spaced (d ∷ ds) [] b = refl
words_from-spaced [] (c ∷ cs) b = elim (Bool-cases (is_whitespace c)) [
  | inl w ↦ rw w (words_from-spaced [] cs b)
  | inr w ↦ rw w (words_from-spaced (c ∷ []) cs b)
]
words_from-spaced (d ∷ ds) (c ∷ cs) b = elim (Bool-cases (is_whitespace c)) [
  | inl w ↦ rw w (ap (λ r. (d ∷ ds) ∷ r) (words_from-spaced [] cs b))
  | inr w ↦ rw w (words_from-spaced (d ∷ (ds ++ (c ∷ []))) cs b)
]

words_from-solid : (word t : List ℕ) → IsSolid t → words_from word t ≡ closed (word ++ t) []
unfolding words_from
words_from-solid word [] h = ap (λ r. closed r []) (sym (append-nil word))
words_from-solid word (c ∷ cs) h = rw h.0 (
    words_from-solid (word ++ (c ∷ [])) cs h.1
    ∙ ap (λ r. closed r []) (append_assoc word (c ∷ []) cs))

-- A word counts as one.
abbrev pub IsOne : List ℕ → Type 0
IsOne t = count_words t ≡ 1

IsOne-solid : (c : ℕ) (cs : List ℕ) → IsSolid (c ∷ cs) → IsOne (c ∷ cs)
unfolding count_words split_whitespace
IsOne-solid c cs h = ap length (words_from-solid [] (c ∷ cs) h)

words_from-IsOne : (word t : List ℕ) → IsSolid word → All IsOne (words_from word t)
unfolding words_from
words_from-IsOne [] [] h = tt
words_from-IsOne (d ∷ ds) [] h = (IsOne-solid d ds h, tt)
words_from-IsOne [] (c ∷ cs) h = elim (Bool-cases (is_whitespace c)) [
  | inl w ↦ rw w (words_from-IsOne [] cs tt)
  | inr w ↦ rw w (words_from-IsOne (c ∷ []) cs (w, tt))
]
words_from-IsOne (d ∷ ds) (c ∷ cs) h = elim (Bool-cases (is_whitespace c)) [
  | inl w ↦ rw w ((IsOne-solid d ds h, words_from-IsOne [] cs tt))
  | inr w ↦ rw w (words_from-IsOne (d ∷ (ds ++ (c ∷ []))) cs (IsSolid-snoc (d ∷ ds) c h w))
]

pub split_whitespace-IsOne : (t : List ℕ) → All IsOne (split_whitespace t)
unfolding split_whitespace
split_whitespace-IsOne t = words_from-IsOne [] t tt

pub count_words-nil : count_words [] ≡ 0
unfolding count_words split_whitespace words_from
count_words-nil = refl

pub count_words-spaced : (a b : List ℕ) → count_words (spaced a b) ≡ count_words a + count_words b
unfolding count_words split_whitespace
count_words-spaced a b =
    ap length (words_from-spaced [] a b) ∙ length-append (words_from [] a) (words_from [] b)

pub count_words-join : (ws : List (List ℕ)) → All IsOne ws → count_words (join ws) ≡ length ws
unfolding join
count_words-join [] h = count_words-nil
count_words-join (w ∷ []) h = h.0
count_words-join (w ∷ v ∷ ws) h =
    omega (arith, count_words-spaced w (join (v ∷ ws)), h.0, count_words-join (v ∷ ws) h.1)

pub count_words-normalize : (t : List ℕ) → count_words (normalize t) ≡ count_words t
unfolding normalize count_words
count_words-normalize t = count_words-join (split_whitespace t) (split_whitespace-IsOne t)
