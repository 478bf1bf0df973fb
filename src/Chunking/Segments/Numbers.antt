-- ===== src/Chunking/Segments/Numbers.antt =====
-- The sequence numbers of the chunks of annotated segments (ChunkingEngine::chunk_segments of
-- src/chunking/mod.rs).
use llm.Base.{
  ℕ, suc, ◌+◌, ◌^◌, ◌≤◌, ◌≡◌, refl, sym, ◌∙◌, ap, arith, true, false, Option, none, some, List, [],
  ◌∷◌, ◌++◌, if◌then◌else◌, ltb, is_empty, length, inl, inr, Bool-cases, map, All, subst,
}
use llm.Graph.{Granularity}
use llm.Chunking.Words.{normalize, trim_text}
use llm.Chunking.Groups.{SizeProfile, TokenCounter, groups_of}
use llm.Chunking.Parts.{is_same}
use llm.Chunking.{Digests, Target, TextChunk, ChunkingProfile, numbered, build}
use llm.Chunking.Segments.Rising.{
  IsRising, numbers, IsRising-wider, numbers-IsRising, family-IsRising, family-parents, is_parent,
}
use llm.Chunking.Segments.{
  AnnotatedTextSegment, ChunkSourceTrace, TracedChunk, moved, build_traced, segment_parts,
  segments_from, exact,
}

module _ (digests : Digests) (counter : TokenCounter) (target : Target) where
  abbrev retraced : ℕ → ℕ → List ℕ → ChunkSourceTrace → TextChunk → TracedChunk
  retraced root offset profile trace c = record {
    chunk = moved digests counter target root offset profile c;
    trace = trace;
  }

  numbered-IsRising :
      (g : Granularity) (root source : ℕ) (parent : Option ℕ) (h : Granularity) (profile : List ℕ)
      (offset : ℕ) (trace : ChunkSourceTrace) (gs : List (List ℕ)) (i : ℕ)
      → let made =
          map
            (retraced root offset profile trace)
            (numbered digests counter target root source parent h profile i gs) in
        (i + offset) + length made ≤ 2 ^ 32
        → IsRising (i + offset) (numbers g made) ((i + offset) + length made)
  unfolding numbered numbers IsRising
  numbered-IsRising g root source parent h profile offset trace [] i b = omega arith
  numbered-IsRising g root source parent h profile offset trace (t ∷ ts) i b =
      let rest =
        numbered-IsRising g root source parent h profile offset trace ts (suc i) (omega arith) in
      elim (Bool-cases (is_same g h)) [
        | inl e ↦ rw e (
            (
              omega arith,
              IsRising-wider (suc i + offset) _ _ ((suc i + offset) + _) _ (omega arith)
                  (omega arith) rest,
            ))
        | inr e ↦ rw e (
            IsRising-wider (suc i + offset) _ _ ((suc i + offset) + _) _ (omega arith) (omega arith)
              rest)
      ]

  build_traced-IsRising :
      (g : Granularity) (root : ℕ) (parent : Option ℕ) (h : Granularity) (text : List ℕ)
      (p : SizeProfile) (profile : List ℕ) (offset : ℕ) (trace : ChunkSourceTrace)
      → let made = build_traced digests counter target root parent h text p profile offset trace in
        offset + length made ≤ 2 ^ 32 → IsRising offset (numbers g made) (offset + length made)
  unfolding build_traced build
  build_traced-IsRising g root parent h text p profile offset trace b =
      IsRising-wider (0 + offset) offset _ ((0 + offset) + _) _ (omega arith) (omega arith) (
        numbered-IsRising g root root parent h profile offset trace (groups_of counter p text) 0
          (omega arith))

  abbrev parts_of :
      ℕ → ChunkingProfile → AnnotatedTextSegment → ℕ → List TracedChunk → List TracedChunk × ℕ
  parts_of = segment_parts digests counter target

  abbrev own_trace : ChunkingProfile → AnnotatedTextSegment → ChunkSourceTrace
  own_trace p s =
      exact s (
        if ltb p.sub260.max (counter.count (normalize s.text))
        then "SPLIT_FROM_BLOCK"
        else "DIRECT")

  -- The parts of a parent.
  abbrev sub180_of : ℕ → ChunkingProfile → AnnotatedTextSegment → ℕ → TracedChunk → List TracedChunk
  sub180_of root p s base q =
      build_traced digests counter target root (some q.chunk.id) Granularity.sub180 q.chunk.content
        p.sub180 p.version base (own_trace p s)

  abbrev sub260_of : ℕ → ChunkingProfile → AnnotatedTextSegment → ℕ → TracedChunk → List TracedChunk
  sub260_of root p s base q =
      build_traced digests counter target root (some q.chunk.id) Granularity.sub260 q.chunk.content
        p.sub260 p.version base (own_trace p s)

  segment_parts-le :
      (root : ℕ) (p : ChunkingProfile) (s : AnnotatedTextSegment) (ps : List TracedChunk) (base : ℕ)
      → base ≤ (parts_of root p s base ps).1
  unfolding segment_parts
  segment_parts-le root p s [] base = omega arith
  segment_parts-le root p s (q ∷ ps) base = omega (arith, segment_parts-le root p s ps _)

  -- The numbers of the parts follow the base; those of the parents are before it.
  segment_parts-IsRising :
      (g : Granularity) (root : ℕ) (p : ChunkingProfile) (s : AnnotatedTextSegment)
      (ps : List TracedChunk) (base : ℕ)
      → is_same g Granularity.parent ≡ false
      → All (λ q. q.chunk.granularity ≡ Granularity.parent) ps
      → (parts_of root p s base ps).1 ≤ 2 ^ 32
      → IsRising base (numbers g (parts_of root p s base ps).0) (parts_of root p s base ps).1
  unfolding segment_parts
  segment_parts-IsRising g root p s [] base h hp b = unfold IsRising numbers in omega arith
  segment_parts-IsRising g root p s (q ∷ ps) base h hp b =
      let sub180 = sub180_of root p s base q in
      let base180 = base + (length sub180 + 1) in
      let sub260 = sub260_of root p s base180 q in
      let base260 = base180 + (length sub260 + 1) in
      let next = segment_parts-le root p s ps base260 in
      family-IsRising g q sub180 sub260 (parts_of root p s base260 ps).0 base
        (parts_of root p s base260 ps).1 (ap (is_same g) hp.0 ∙ h)
        (build_traced-IsRising g root _ Granularity.sub180 _ p.sub180 p.version base _
          (omega (arith, next, b)))
        (build_traced-IsRising g root _ Granularity.sub260 _ p.sub260 p.version base180 _
          (omega (arith, next, b)))
        (segment_parts-IsRising g root p s ps base260 h hp.1 b)

  numbered-none :
      (g : Granularity) (root source : ℕ) (parent : Option ℕ) (h : Granularity) (profile : List ℕ)
      (offset : ℕ) (trace : ChunkSourceTrace) (i : ℕ) (gs : List (List ℕ))
      → is_same g h ≡ false
      → numbers g (
          map
            (retraced root offset profile trace)
            (numbered digests counter target root source parent h profile i gs))
        ≡ []
  unfolding numbered numbers
  numbered-none g root source parent h profile offset trace i [] e = refl
  numbered-none g root source parent h profile offset trace i (t ∷ ts) e =
      rw e (numbered-none g root source parent h profile offset trace (suc i) ts e)

  build_traced-none :
      (g : Granularity) (root : ℕ) (parent : Option ℕ) (h : Granularity) (text : List ℕ)
      (p : SizeProfile) (profile : List ℕ) (offset : ℕ) (trace : ChunkSourceTrace)
      → is_same g h ≡ false
      → numbers g (build_traced digests counter target root parent h text p profile offset trace)
        ≡ []
  unfolding build_traced build
  build_traced-none g root parent h text p profile offset trace e =
      numbered-none g root root parent h profile offset trace 0 (groups_of counter p text) e

  -- The parents' own numbers.
  segment_parts-parents :
      (root : ℕ) (p : ChunkingProfile) (s : AnnotatedTextSegment) (ps : List TracedChunk) (base : ℕ)
      → numbers Granularity.parent (parts_of root p s base ps).0 ≡ numbers Granularity.parent ps
  unfolding segment_parts
  segment_parts-parents root p s [] base = refl
  segment_parts-parents root p s (q ∷ ps) base =
      let sub180 = sub180_of root p s base q in
      let base180 = base + (length sub180 + 1) in
      let sub260 = sub260_of root p s base180 q in
      let base260 = base180 + (length sub260 + 1) in
      family-parents Granularity.parent q sub180 sub260 (parts_of root p s base260 ps).0 ps
        (build_traced-none Granularity.parent root _ Granularity.sub180 _ p.sub180 p.version base _
          refl)
        (build_traced-none Granularity.parent root _ Granularity.sub260 _ p.sub260 p.version base180
          _ refl)
        (segment_parts-parents root p s ps base260)

  numbered-parents :
      (root : ℕ) (profile : List ℕ) (offset : ℕ) (trace : ChunkSourceTrace) (i : ℕ)
      (gs : List (List ℕ))
      → All
          (λ q. q.chunk.granularity ≡ Granularity.parent)
          (map
            (retraced root offset profile trace)
            (numbered digests counter target root root none Granularity.parent profile i gs))
  unfolding numbered
  numbered-parents root profile offset trace i [] = tt
  numbered-parents root profile offset trace i (t ∷ ts) =
      (refl, numbered-parents root profile offset trace (suc i) ts)

  abbrev own_parents : ℕ → ChunkingProfile → ℕ → AnnotatedTextSegment → List TracedChunk
  own_parents root p base s =
      build_traced digests counter target root none Granularity.parent (normalize s.text) p.parent
        p.version base (exact s "PARENT_CONTEXT")

  -- The numbers of one segment.
  segment-IsRising :
      (g : Granularity) (root : ℕ) (p : ChunkingProfile) (s : AnnotatedTextSegment) (base : ℕ)
      → let ps = own_parents root p base s in
        let made = parts_of root p s (base + (length ps + 1)) ps in
        made.1 ≤ 2 ^ 32 → IsRising base (numbers g made.0) made.1
  segment-IsRising g root p s base b =
      let ps = own_parents root p base s in
      let from = base + (length ps + 1) in
      let le = segment_parts-le root p s ps from in
      elim (is_parent g) [
        | inl e ↦
            subst
              (λ k.
                IsRising base (numbers k (parts_of root p s from ps).0)
                  (parts_of root p s from ps).1)
              (sym e)
              (rw (segment_parts-parents root p s ps from) (
                IsRising-wider base base _ (base + length ps) _ (omega arith) (omega (arith, le)) (
                  build_traced-IsRising Granularity.parent root none Granularity.parent _ p.parent
                    p.version base _ (omega (arith, le, b)))))
        | inr e ↦ IsRising-wider from base _ _ _ (omega arith) (omega arith) (
            segment_parts-IsRising g root p s ps from e
              (unfold build_traced build in
                numbered-parents root p.version base (exact s "PARENT_CONTEXT") 0
                  (groups_of counter p.parent (normalize s.text)))
              b)
      ]

  abbrev segments_at : ℕ → ChunkingProfile → ℕ → List AnnotatedTextSegment → List TracedChunk × ℕ
  segments_at = segments_from digests counter target

  abbrev segment_at : ℕ → ChunkingProfile → AnnotatedTextSegment → ℕ → List TracedChunk × ℕ
  segment_at root p s base =
      let ps = own_parents root p base s in parts_of root p s (base + (length ps + 1)) ps

  segments_from-blank :
      (root : ℕ) (p : ChunkingProfile) (s : AnnotatedTextSegment) (ss : List AnnotatedTextSegment)
      (base : ℕ)
      → is_empty (trim_text s.text) ≡ true
      → segments_at root p base (s ∷ ss) ≡ segments_at root p base ss
  unfolding segments_from
  segments_from-blank root p s ss base e = rw e refl

  segments_from-full :
      (root : ℕ) (p : ChunkingProfile) (s : AnnotatedTextSegment) (ss : List AnnotatedTextSegment)
      (base : ℕ)
      → is_empty (trim_text s.text) ≡ false
      → segments_at root p base (s ∷ ss) ≡ (
          let made = segment_at root p s base in
          let rest = segments_at root p made.1 ss in (made.0 ++ rest.0, rest.1))
  unfolding segments_from
  segments_from-full root p s ss base e = rw e refl

  segments_from-le :
      (root : ℕ) (p : ChunkingProfile) (ss : List AnnotatedTextSegment) (base : ℕ)
      → base ≤ (segments_at root p base ss).1
  unfolding segments_from
  segments_from-le root p [] base = omega arith
  segments_from-le root p (s ∷ ss) base = elim (Bool-cases (is_empty (trim_text s.text))) [
    | inl e ↦ rw e (segments_from-le root p ss base)
    | inr e ↦
        let ps = own_parents root p base s in
        let from = base + (length ps + 1) in
        rw e (
          omega (
            arith,
            segment_parts-le root p s ps from,
            segments_from-le root p ss (parts_of root p s from ps).1,
          ))
  ]

  -- While `sequence_base` stays within 32 bits, the sequence numbers of the chunks of one size
  -- strictly rise over the segments, from the first base to the last, so that no two chunks of
  -- one size have the same.
  pub segments_from-IsRising :
      (g : Granularity) (root : ℕ) (p : ChunkingProfile) (ss : List AnnotatedTextSegment) (base : ℕ)
      → (segments_at root p base ss).1 ≤ 2 ^ 32
      → IsRising base (numbers g (segments_at root p base ss).0) (segments_at root p base ss).1
  segments_from-IsRising g root p [] base b = unfold IsRising numbers segments_from in omega arith
  segments_from-IsRising g root p (s ∷ ss) base b =
      elim (Bool-cases (is_empty (trim_text s.text))) [
        | inl e ↦
            subst (λ r. r.1 ≤ 2 ^ 32 → IsRising base (numbers g r.0) r.1)
              (sym (segments_from-blank root p s ss base e))
              (segments_from-IsRising g root p ss base) b
        | inr e ↦
            let made = segment_at root p s base in
            let rest = segments_at root p made.1 ss in
            subst (λ r. r.1 ≤ 2 ^ 32 → IsRising base (numbers g r.0) r.1)
              (sym (segments_from-full root p s ss base e))
              (λ c.
                numbers-IsRising g base made.0 rest.0 made.1 rest.1
                  (segment-IsRising g root p s base
                    (omega (arith, segments_from-le root p ss made.1, c)))
                  (segments_from-IsRising g root p ss made.1 c))
              b
      ]
