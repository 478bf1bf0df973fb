-- ===== src/Chunking/Segments/Held.antt =====
-- The chunks of annotated segments hold the characters of the segments
-- (ChunkingEngine::chunk_segments of src/chunking/mod.rs).
use llm.Base.{
  ℕ, suc, ◌≡◌, refl, sym, ◌∙◌, ap, ap₂, true, false, Option, none, some, List, [], ◌∷◌, ◌++◌,
  if◌then◌else◌, is_empty, inl, inr, Bool-cases, map,
}
use llm.Graph.{Granularity}
use llm.Chunking.Words.{normalize, trim_text}
use llm.Chunking.Groups.{SizeProfile, is_valid_profile, conservative, groups_of}
use llm.Chunking.Chars.{ink, ink_all, ink-normalize, ink-trim_text, empty-nil}
use llm.Chunking.Covered.{ink_all-groups_of}
use llm.Chunking.Parts.{is_same, contents, held, held-append, held-family, held-build}
use llm.Chunking.{
  Digests, Target, TextChunk, ChunkingProfile, SourceChunkStorageMode, numbered, placed, build,
  source_chunk,
}
use llm.Chunking.Segments.{
  AnnotatedTextSegment, ChunkSourceTrace, TracedChunk, moved, build_traced, segment_parts,
  segments_from, chunk_segments, joined, exact,
}

-- What the traced chunks of one granularity hold.
abbrev held_traced : Granularity → List TracedChunk → List ℕ
held_traced g ts = held g (map (λ t. t.chunk) ts)

-- The same of a run of `chunk_segments`, `none` after an error.
unfoldable pub run_held_traced : Granularity → Option (List TracedChunk) → Option (List ℕ)
run_held_traced g none = none
run_held_traced g (some ts) = some (held_traced g ts)

map-append_chunk :
    (a b : List TracedChunk)
    → map (λ t. t.chunk) (a ++ b) ≡ map (λ t. t.chunk) a ++ map (λ t. t.chunk) b
map-append_chunk [] b = refl
map-append_chunk (t ∷ ts) b = ap (λ r. t.chunk ∷ r) (map-append_chunk ts b)

held_traced-append :
    (g : Granularity) (a b : List TracedChunk)
    → held_traced g (a ++ b) ≡ held_traced g a ++ held_traced g b
held_traced-append g a b =
    ap (held g) (map-append_chunk a b) ∙ held-append g (map (λ t. t.chunk) a) (map (λ t. t.chunk) b)

held_traced-family :
    (g : Granularity) (q : TracedChunk) (a b rest : List TracedChunk) (text : List ℕ)
    → is_same g Granularity.source ≡ false
    → (if is_same g q.chunk.granularity then ink q.chunk.content else [])
      ≡ (if is_same g Granularity.parent then text else [])
    → held_traced g a ≡ (if is_same g Granularity.sub180 then text else [])
    → held_traced g b ≡ (if is_same g Granularity.sub260 then text else [])
    → held_traced g (q ∷ (a ++ (b ++ rest))) ≡ text ++ held_traced g rest
held_traced-family g q a b rest text h hq ha hb =
    ap (λ r. held g (q.chunk ∷ r))
      (map-append_chunk a (b ++ rest)
        ∙ ap (λ r. map (λ t. t.chunk) a ++ r) (map-append_chunk b rest))
    ∙ held-family g q.chunk (map (λ t. t.chunk) a) (map (λ t. t.chunk) b) (map (λ t. t.chunk) rest)
        text h hq ha hb

module _ (digests : Digests) (target : Target) where
  abbrev retraced : ℕ → ℕ → List ℕ → ChunkSourceTrace → TextChunk → TracedChunk
  retraced root offset profile trace c = record {
    chunk = moved digests conservative target root offset profile c;
    trace = trace;
  }

  -- The moving of the numbers leaves the contents.
  contents-retraced :
      (g : Granularity) (root offset : ℕ) (profile : List ℕ) (trace : ChunkSourceTrace)
      (cs : List TextChunk)
      → contents g (map (λ t. t.chunk) (map (retraced root offset profile trace) cs))
        ≡ contents g cs
  unfolding contents
  contents-retraced g root offset profile trace [] = refl
  contents-retraced g root offset profile trace (c ∷ cs) =
      ap (λ r. if is_same g c.granularity then c.content ∷ r else r)
        (contents-retraced g root offset profile trace cs)

  held-build_traced :
      (g : Granularity) (root : ℕ) (parent : Option ℕ) (h : Granularity) (text : List ℕ)
      (p : SizeProfile) (profile : List ℕ) (offset : ℕ) (trace : ChunkSourceTrace)
      → held_traced g
          (build_traced digests conservative target root parent h text p profile offset trace)
        ≡ (if is_same g h then ink text else [])
  unfolding build_traced
  held-build_traced g root parent h text p profile offset trace =
      ap ink_all (
        contents-retraced g root offset profile trace
          (build digests conservative target root root parent h text p profile))
      ∙ held-build digests target g root root parent h text p profile

  abbrev parents_at : ℕ → List ℕ → ℕ → ChunkSourceTrace → ℕ → List (List ℕ) → List TracedChunk
  parents_at root profile offset trace i gs =
      map (retraced root offset profile trace)
        (numbered digests conservative target root root none Granularity.parent profile i gs)

  held-segment_parts :
      (g : Granularity) (root : ℕ) (p : ChunkingProfile) (s : AnnotatedTextSegment) (offset : ℕ)
      (trace : ChunkSourceTrace) (gs : List (List ℕ)) (i base : ℕ)
      → is_same g Granularity.source ≡ false
      → held_traced g
          (segment_parts digests conservative target root p s base
            (parents_at root p.version offset trace i gs)).0
        ≡ ink_all gs
  unfolding segment_parts numbered ink_all
  held-segment_parts g root p s offset trace [] i base h = unfold contents in refl
  held-segment_parts g root p s offset trace (t ∷ ts) i base h =
      held_traced-family g
        (retraced root offset p.version trace
          (placed digests conservative target root root none Granularity.parent p.version i t))
        _ _ _ (ink (normalize t)) h refl
        (held-build_traced g root _ Granularity.sub180 (normalize t) p.sub180 p.version _ _)
        (held-build_traced g root _ Granularity.sub260 (normalize t) p.sub260 p.version _ _)
      ∙ ap₂ (λ a b. a ++ b) (ink-normalize t)
          (held-segment_parts g root p s offset trace ts (suc i) _ h)

  abbrev own_parents : ℕ → ChunkingProfile → ℕ → AnnotatedTextSegment → List TracedChunk
  own_parents root p offset s =
      build_traced digests conservative target root none Granularity.parent (normalize s.text)
        p.parent p.version offset (exact s "PARENT_CONTEXT")

  held-segment :
      (g : Granularity) (root : ℕ) (p : ChunkingProfile) (s : AnnotatedTextSegment)
      (offset base : ℕ)
      → is_same g Granularity.source ≡ false
      → held_traced g
          (segment_parts digests conservative target root p s base (own_parents root p offset s)).0
        ≡ ink s.text
  unfolding build_traced build
  held-segment g root p s offset base h =
      let gs = groups_of conservative p.parent (normalize s.text) in
      held-segment_parts g root p s offset (exact s "PARENT_CONTEXT") gs 0 base h
      ∙ ink_all-groups_of p.parent (normalize s.text)
      ∙ ink-normalize s.text

  segments_from-held :
      (g : Granularity) (root : ℕ) (p : ChunkingProfile) (ss : List AnnotatedTextSegment) (base : ℕ)
      → is_same g Granularity.source ≡ false
      → held_traced g (segments_from digests conservative target root p base ss).0
        ≡ ink_all (map (λ s. s.text) ss)
  unfolding segments_from ink_all
  segments_from-held g root p [] base h = unfold contents in refl
  segments_from-held g root p (s ∷ ss) base h = elim (Bool-cases (is_empty (trim_text s.text))) [
    | inl blank ↦
        let nothing : ink s.text ≡ [] =
          sym (ink-trim_text s.text) ∙ ap ink (empty-nil (trim_text s.text) blank) in
        rw blank (
          segments_from-held g root p ss base h
          ∙ ap (λ r. r ++ ink_all (map (λ s. s.text) ss)) (sym nothing))
    | inr full ↦ rw full (
        held_traced-append g
          (segment_parts digests conservative target root p s _ (own_parents root p base s)).0
          (segments_from digests conservative target root p _ ss).0
        ∙ ap₂ (λ a b. a ++ b) (held-segment g root p s base _ h)
            (segments_from-held g root p ss _ h))
  ]

  held-source_traced :
      (g : Granularity) (root : ℕ) (mode : SourceChunkStorageMode) (text : List ℕ)
      (trace : ChunkSourceTrace)
      → is_same g Granularity.source ≡ false
      → held_traced g (
          map
            (λ c. record { chunk = c; trace = trace })
            (source_chunk digests conservative target root mode text))
        ≡ []
  unfolding source_chunk contents ink_all
  held-source_traced g root SourceChunkStorageMode.disabled text trace h = refl
  held-source_traced g root SourceChunkStorageMode.full_text text trace h = rw h refl
  held-source_traced g root SourceChunkStorageMode.metadata_only text trace h = rw h refl

  -- Under valid profiles segments that have some text are cut into chunks, and for each size
  -- (parents, parts of 180, parts of 260) the chunks of that size hold in their order the
  -- characters of the segments that are no white space.
  pub chunk_segments-held :
      (g : Granularity) (ss : List AnnotatedTextSegment) (p : ChunkingProfile)
      (mode : SourceChunkStorageMode)
      → is_same g Granularity.source ≡ false
      → is_valid_profile p.parent ≡ true
      → is_valid_profile p.sub180 ≡ true
      → is_valid_profile p.sub260 ≡ true
      → is_empty ss ≡ false
      → is_empty (trim_text (normalize (joined ss))) ≡ false
      → run_held_traced g (chunk_segments digests conservative target ss p mode)
        ≡ some (ink_all (map (λ s. s.text) ss))
  unfolding chunk_segments run_held_traced
  chunk_segments-held g ss p mode h v1 v2 v3 e t =
      rw (v1, v2, v3, e, t)
        (ap some (
          held_traced-append g
            (map _ (source_chunk digests conservative target _ mode (normalize (joined ss))))
            (segments_from digests conservative target _ p 0 ss).0
          ∙ ap₂ (λ a b. a ++ b) (held-source_traced g _ mode (normalize (joined ss)) _ h)
              (segments_from-held g _ p ss 0 h)))
