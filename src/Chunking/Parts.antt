-- ===== src/Chunking/Parts.antt =====
-- The chunks of each size hold the characters of the text (ChunkingEngine::build and
-- ChunkingEngine::chunk of src/chunking/mod.rs).
use mathlib.Core.List.{append-nil, append_assoc}
use llm.Base.{
  ℕ, suc, ◌≡◌, refl, sym, ◌∙◌, ap, ap₂, Bool, true, false, Option, none, some, List, [], ◌∷◌, ◌++◌,
  ◌==◌, if◌then◌else◌, is_empty, inl, inr, Bool-cases,
}
use llm.Graph.{Granularity}
use llm.Strings.{codes}
use llm.Chunking.Words.{normalize, trim_text}
use llm.Chunking.Groups.{SizeProfile, is_valid_profile, conservative, groups_of}
use llm.Chunking.Chars.{ink, ink_all, ink_all-append, ink-normalize}
use llm.Chunking.Covered.{ink_all-groups_of}
use llm.Chunking.{
  Digests, Target, TextChunk, ChunkingProfile, SourceChunkStorageMode, chunk_id, numbered, build,
  with_parts, source_chunk, chunk,
}

abbrev rank : Granularity → ℕ
rank Granularity.source = 0
rank Granularity.parent = 1
rank Granularity.sub180 = 2
rank Granularity.sub260 = 3

abbrev pub is_same : Granularity → Granularity → Bool
is_same g h = rank g == rank h

-- The contents of the chunks of one granularity.
unfoldable pub contents : Granularity → List TextChunk → List (List ℕ)
contents g [] = []
contents g (c ∷ cs) =
    let rest = contents g cs in if is_same g c.granularity then c.content ∷ rest else rest

contents-append :
    (g : Granularity) (a b : List TextChunk) → contents g (a ++ b) ≡ contents g a ++ contents g b
unfolding contents
contents-append g [] b = refl
contents-append g (c ∷ cs) b = elim (Bool-cases (is_same g c.granularity)) [
  | inl e ↦ rw e (ap (λ r. c.content ∷ r) (contents-append g cs b))
  | inr e ↦ rw e (contents-append g cs b)
]

-- What the chunks of one granularity hold, of two lists of chunks in turn.
abbrev pub held : Granularity → List TextChunk → List ℕ
held g cs = ink_all (contents g cs)

-- The same of a run of `chunk`, `none` after an error.
unfoldable pub run_held : Granularity → Option (List TextChunk) → Option (List ℕ)
run_held g none = none
run_held g (some cs) = some (ink_all (contents g cs))

pub held-append : (g : Granularity) (a b : List TextChunk) → held g (a ++ b) ≡ held g a ++ held g b
held-append g a b =
    ap ink_all (contents-append g a b) ∙ ink_all-append (contents g a) (contents g b)

held-cons :
    (g : Granularity) (c : TextChunk) (cs : List TextChunk)
    → held g (c ∷ cs) ≡ (if is_same g c.granularity then ink c.content else []) ++ held g cs
unfolding contents ink_all
held-cons g c cs = elim (Bool-cases (is_same g c.granularity)) [
  | inl e ↦ rw e refl
  | inr e ↦ rw e refl
]

-- Of a parent and its two kinds of parts, one holds the text for each size.
one_of_three :
    (g : Granularity) (text : List ℕ)
    → is_same g Granularity.source ≡ false
    → (if is_same g Granularity.parent then text else [])
        ++ ((if is_same g Granularity.sub180 then text else [])
            ++ (if is_same g Granularity.sub260 then text else []))
      ≡ text
one_of_three Granularity.source text h = cc
one_of_three Granularity.parent text h = append-nil text
one_of_three Granularity.sub180 text h = append-nil text
one_of_three Granularity.sub260 text h = refl

pub held-family :
    (g : Granularity) (c : TextChunk) (a b rest : List TextChunk) (text : List ℕ)
    → is_same g Granularity.source ≡ false
    → (if is_same g c.granularity then ink c.content else [])
      ≡ (if is_same g Granularity.parent then text else [])
    → held g a ≡ (if is_same g Granularity.sub180 then text else [])
    → held g b ≡ (if is_same g Granularity.sub260 then text else [])
    → held g (c ∷ (a ++ (b ++ rest))) ≡ text ++ held g rest
held-family g c a b rest text h hc ha hb =
    held-cons g c (a ++ (b ++ rest))
    ∙ ap₂ (λ x y. x ++ y) hc
        (held-append g a (b ++ rest)
          ∙ ap₂ (λ x y. x ++ y) ha (held-append g b rest ∙ ap (λ x. x ++ held g rest) hb))
    ∙ ap (λ r. (if is_same g Granularity.parent then text else []) ++ r)
        (sym (
          append_assoc (if is_same g Granularity.sub180 then text else [])
            (if is_same g Granularity.sub260 then text else []) (held g rest)))
    ∙ sym (
        append_assoc (if is_same g Granularity.parent then text else [])
          ((if is_same g Granularity.sub180 then text else [])
            ++ (if is_same g Granularity.sub260 then text else []))
          (held g rest))
    ∙ ap (λ r. r ++ held g rest) (one_of_three g text h)

module _ (digests : Digests) (target : Target) where
  abbrev numbered_at : ℕ → ℕ → Option ℕ → Granularity → List ℕ → ℕ → List (List ℕ) → List TextChunk
  numbered_at = numbered digests conservative target

  abbrev build_at : ℕ → ℕ → Option ℕ → Granularity → List ℕ → SizeProfile → List ℕ → List TextChunk
  build_at = build digests conservative target

  held-numbered :
      (g : Granularity) (root source : ℕ) (parent : Option ℕ) (h : Granularity) (profile : List ℕ)
      (i : ℕ) (gs : List (List ℕ))
      → held g (numbered_at root source parent h profile i gs)
        ≡ (if is_same g h then ink_all gs else [])
  unfolding contents numbered ink_all
  held-numbered g root source parent h profile i [] = elim (Bool-cases (is_same g h)) [
    | inl e ↦ rw e refl
    | inr e ↦ rw e refl
  ]
  held-numbered g root source parent h profile i (t ∷ ts) = elim (Bool-cases (is_same g h)) [
    | inl e ↦ rw e (
        ap₂ (λ a b. a ++ b) (ink-normalize t)
          (held-numbered g root source parent h profile (suc i) ts ∙ (rw e refl)))
    | inr e ↦ rw e (held-numbered g root source parent h profile (suc i) ts ∙ (rw e refl))
  ]

  pub held-build :
      (g : Granularity) (root source : ℕ) (parent : Option ℕ) (h : Granularity) (text : List ℕ)
      (p : SizeProfile) (profile : List ℕ)
      → held g (build_at root source parent h text p profile)
        ≡ (if is_same g h then ink text else [])
  unfolding build
  held-build g root source parent h text p profile =
      held-numbered g root source parent h profile 0 (groups_of conservative p text)
      ∙ ap (λ r. if is_same g h then r else []) (ink_all-groups_of p text)

  abbrev parts_at : ℕ → ChunkingProfile → List TextChunk → List TextChunk
  parts_at = with_parts digests conservative target

  -- A parent with its parts, before the other parents with theirs.
  held-parent :
      (g : Granularity) (root : ℕ) (p : ChunkingProfile) (c : TextChunk) (ps : List TextChunk)
      → is_same g Granularity.source ≡ false
      → c.granularity ≡ Granularity.parent
      → held g (parts_at root p (c ∷ ps)) ≡ ink c.content ++ held g (parts_at root p ps)
  unfolding with_parts
  held-parent g root p c ps h hc =
      let part = λ (k : Granularity) (size : SizeProfile).
        build_at root root (some c.id) k c.content size p.version in
      let part_held = λ (k : Granularity) (size : SizeProfile).
        held-build g root root (some c.id) k c.content size p.version in
      held-family g c (part Granularity.sub180 p.sub180) (part Granularity.sub260 p.sub260)
        (parts_at root p ps) (ink c.content) h
        (ap (λ k. if is_same g k then ink c.content else []) hc)
        (part_held Granularity.sub180 p.sub180) (part_held Granularity.sub260 p.sub260)

  -- The parents made of the groups, with their parts.
  held-parents :
      (g : Granularity) (root : ℕ) (p : ChunkingProfile) (i : ℕ) (gs : List (List ℕ))
      → is_same g Granularity.source ≡ false
      → held g (parts_at root p (numbered_at root root none Granularity.parent p.version i gs))
        ≡ ink_all gs
  unfolding numbered ink_all
  held-parents g root p i [] h = unfold with_parts contents in refl
  held-parents g root p i (t ∷ ts) h =
      held-parent g root p _ (numbered_at root root none Granularity.parent p.version (suc i) ts) h
        refl
      ∙ ap₂ (λ a b. a ++ b) (ink-normalize t) (held-parents g root p (suc i) ts h)

  -- The source's own chunk has a granularity of its own.
  pub held-source :
      (g : Granularity) (root : ℕ) (mode : SourceChunkStorageMode) (text : List ℕ)
      → is_same g Granularity.source ≡ false
      → held g (source_chunk digests conservative target root mode text) ≡ []
  unfolding source_chunk contents ink_all
  held-source g root SourceChunkStorageMode.disabled text h = refl
  held-source g root SourceChunkStorageMode.full_text text h = rw h refl
  held-source g root SourceChunkStorageMode.metadata_only text h = rw h refl

  -- Under valid profiles a text that is not blank is cut into chunks, and for each size (parents,
  -- parts of 180, parts of 260) the chunks of that size hold in their order the characters of the
  -- text that are no white space, whatever the mode.
  pub chunk-held :
      (g : Granularity) (text : List ℕ) (p : ChunkingProfile) (mode : SourceChunkStorageMode)
      → is_same g Granularity.source ≡ false
      → is_valid_profile p.parent ≡ true
      → is_valid_profile p.sub180 ≡ true
      → is_valid_profile p.sub260 ≡ true
      → is_empty (trim_text text) ≡ false
      → run_held g (chunk digests conservative target text p mode) ≡ some (ink text)
  unfolding chunk build run_held
  chunk-held g text p mode h v1 v2 v3 t =
      let normalized = normalize text in
      let root = chunk_id digests conservative target (codes "ROOT") 0 normalized p.version in
      let parents =
        numbered_at root root none Granularity.parent p.version 0
          (groups_of conservative p.parent normalized) in
      rw (v1, v2, v3, t)
        (ap some (
          held-append g (source_chunk digests conservative target root mode normalized)
            (parts_at root p parents)
          ∙ ap₂ (λ a b. a ++ b) (held-source g root mode normalized h)
              (held-parents g root p 0 (groups_of conservative p.parent normalized) h)
          ∙ ink_all-groups_of p.parent normalized
          ∙ ink-normalize text))
