-- ===== src/Chunking/Segments/Rising.antt =====
-- Rising numbers of chunks (the sequence numbers of ChunkingEngine::chunk_segments of
-- src/chunking/mod.rs).
use llm.Base.{
  ℕ, suc, ◌+◌, ◌≤◌, ◌≡◌, refl, ◌∙◌, ap, ap₂, ◌⊎◌, arith, false, List, [], ◌∷◌, ◌++◌, if◌then◌else◌,
  length, inl, inr, Bool-cases,
}
use llm.Graph.{Granularity}
use llm.Chunking.Parts.{is_same}
use llm.Chunking.Segments.{TracedChunk}

-- Numbers from `lo` on, each greater than the one before, all below `hi`.
unfoldable pub IsRising : ℕ → List ℕ → ℕ → Type 0
IsRising lo [] hi = lo ≤ hi
IsRising lo (n ∷ ns) hi = (lo ≤ n) × IsRising (suc n) ns hi

-- The sequence numbers of the chunks of one granularity.
unfoldable pub numbers : Granularity → List TracedChunk → List ℕ
numbers g [] = []
numbers g (t ∷ ts) =
    let rest = numbers g ts in
    if is_same g t.chunk.granularity then t.chunk.sequence_no ∷ rest else rest

numbers-append :
    (g : Granularity) (a b : List TracedChunk) → numbers g (a ++ b) ≡ numbers g a ++ numbers g b
unfolding numbers
numbers-append g [] b = refl
numbers-append g (t ∷ ts) b = elim (Bool-cases (is_same g t.chunk.granularity)) [
  | inl e ↦ rw e (ap (λ r. t.chunk.sequence_no ∷ r) (numbers-append g ts b))
  | inr e ↦ rw e (numbers-append g ts b)
]

IsRising-le : (lo : ℕ) (ns : List ℕ) (hi : ℕ) → IsRising lo ns hi → lo ≤ hi
unfolding IsRising
IsRising-le lo [] hi h = h
IsRising-le lo (n ∷ ns) hi h = omega (arith, h.0, IsRising-le (suc n) ns hi h.1)

-- A wider interval.
pub IsRising-wider :
    (lo low : ℕ) (ns : List ℕ) (hi high : ℕ)
    → low ≤ lo
    → hi ≤ high
    → IsRising lo ns hi
    → IsRising low ns high
unfolding IsRising
IsRising-wider lo low [] hi high h1 h2 h = omega arith
IsRising-wider lo low (n ∷ ns) hi high h1 h2 h =
    (omega (arith, h.0), IsRising-wider (suc n) (suc n) ns hi high (omega arith) h2 h.1)

IsRising-append :
    (lo : ℕ) (a b : List ℕ) (mid hi : ℕ)
    → IsRising lo a mid
    → IsRising mid b hi
    → IsRising lo (a ++ b) hi
unfolding IsRising
IsRising-append lo [] b mid hi h k = IsRising-wider mid lo b hi hi h (omega arith) k
IsRising-append lo (n ∷ ns) b mid hi h k = (h.0, IsRising-append (suc n) ns b mid hi h.1 k)

-- The numbers of two lists of chunks in turn.
pub numbers-IsRising :
    (g : Granularity) (lo : ℕ) (a b : List TracedChunk) (mid hi : ℕ)
    → IsRising lo (numbers g a) mid
    → IsRising mid (numbers g b) hi
    → IsRising lo (numbers g (a ++ b)) hi
numbers-IsRising g lo a b mid hi h k =
    rw (numbers-append g a b) (IsRising-append lo (numbers g a) (numbers g b) mid hi h k)

numbers-skip :
    (g : Granularity) (t : TracedChunk) (ts : List TracedChunk)
    → is_same g t.chunk.granularity ≡ false
    → numbers g (t ∷ ts) ≡ numbers g ts
unfolding numbers
numbers-skip g t ts e = rw e refl

-- A parent, which does not count, its two lists of parts and the rest.
pub family-IsRising :
    (g : Granularity) (q : TracedChunk) (a b rest : List TracedChunk) (base hi : ℕ)
    → is_same g q.chunk.granularity ≡ false
    → IsRising base (numbers g a) (base + length a)
    → (let base180 = base + (length a + 1) in IsRising base180 (numbers g b) (base180 + length b))
    → IsRising ((base + (length a + 1)) + (length b + 1)) (numbers g rest) hi
    → IsRising base (numbers g (q ∷ (a ++ (b ++ rest)))) hi
family-IsRising g q a b rest base hi e ha hb hr =
    let base180 = base + (length a + 1) in
    let later =
      numbers-IsRising g base180 b rest (base180 + (length b + 1)) hi
        (IsRising-wider base180 base180 _ (base180 + length b) _ (omega arith) (omega arith) hb)
        hr in
    rw (numbers-skip g q (a ++ (b ++ rest)) e) (
      numbers-IsRising g base a (b ++ rest) base180 hi
        (IsRising-wider base base _ (base + length a) _ (omega arith) (omega arith) ha) later)

pub family-parents :
    (g : Granularity) (q : TracedChunk) (a b rest ps : List TracedChunk)
    → numbers g a ≡ []
    → numbers g b ≡ []
    → numbers g rest ≡ numbers g ps
    → numbers g (q ∷ (a ++ (b ++ rest))) ≡ numbers g (q ∷ ps)
unfolding numbers
family-parents g q a b rest ps ha hb hr =
    ap (λ r. if is_same g q.chunk.granularity then q.chunk.sequence_no ∷ r else r)
      (numbers-append g a (b ++ rest)
        ∙ ap₂ (λ x y. x ++ y) ha (numbers-append g b rest ∙ ap₂ (λ x y. x ++ y) hb hr))

pub is_parent :
    (g : Granularity) → (g ≡ Granularity.parent) ⊎ (is_same g Granularity.parent ≡ false)
is_parent Granularity.source = inr refl
is_parent Granularity.parent = inl refl
is_parent Granularity.sub180 = inr refl
is_parent Granularity.sub260 = inr refl
