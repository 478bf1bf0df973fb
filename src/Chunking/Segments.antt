-- ===== src/Chunking/Segments.antt =====
-- The cutting of annotated segments (ChunkingEngine::chunk_segments and
-- ChunkingEngine::build_traced of src/chunking/mod.rs), without source locations and links.
pub mod Held
pub mod Rising
pub mod Numbers
use llm.Base.{
  ℕ, zero, suc, ◌+◌, ◌*◌, ◌%◌, ◌^◌, Bool, true, false, not, Option, none, some, List, [], ◌∷◌, ◌++◌,
  leb, ltb, ◌==◌, if◌then◌else◌, length, is_empty, map, String,
}
use llm.Query.Normalization.{byte_len}
use llm.Strings.{same, codes}
use llm.Graph.{Granularity, as_db_str}
use llm.Chunking.Words.{normalize, trim_text}
use llm.Chunking.Groups.{SizeProfile, is_valid_profile, TokenCounter}
use llm.Chunking.{
  Digests, Target, TextChunk, ChunkingProfile, SourceChunkStorageMode, colon, chunk_id, build,
  source_chunk,
}

pub record AnnotatedTextSegment : Type 0 where
  pub block_id : String
  pub block_type : String
  pub text : List ℕ

pub record ChunkSourceTrace : Type 0 where
  pub primary_block_id : Option String
  pub source_block_ids : List String
  pub relation_type : String
  pub trace_quality : String

pub record TracedChunk : Type 0 where
  pub chunk : TextChunk
  pub trace : ChunkSourceTrace

abbrev pub missing : ChunkSourceTrace
missing = record {
  primary_block_id = none;
  source_block_ids = [];
  relation_type = "SYNTHETIC";
  trace_quality = "MISSING";
}

abbrev pub exact : AnnotatedTextSegment → String → ChunkSourceTrace
exact segment relation = record {
  primary_block_id = some segment.block_id;
  source_block_ids = segment.block_id ∷ [];
  relation_type = relation;
  trace_quality = "EXACT";
}

unfoldable pub specificity_score : String → ℕ
specificity_score t =
    if same t "FAQ_ITEM"
    then 50
    else if same t "TABLE_ROW"
    then 50
    else if same t "LIST_ITEM"
    then 50
    else if same t "PARAGRAPH"
    then 50
    else if same t "CODE_BLOCK"
    then 45
    else if same t "TABLE"
    then 40
    else if same t "LIST"
    then 40
    else if same t "SUBSECTION"
    then 30
    else if same t "SECTION"
    then 20
    else if same t "DOCUMENT"
    then 10
    else 0

-- The key of `max_by_key`; the cast of the length to `i32` is exact below 2 GB.
unfoldable pub weight : AnnotatedTextSegment → ℕ
unfolding specificity_score byte_len
weight s = specificity_score s.block_type * 1000000 + byte_len s.text

-- `max_by_key`, the last of the greatest.
unfoldable pub primary_from :
    AnnotatedTextSegment → List AnnotatedTextSegment → AnnotatedTextSegment
unfolding weight
primary_from best [] = best
primary_from best (s ∷ ss) = primary_from (if leb (weight best) (weight s) then s else best) ss

unfoldable pub parent_context : List AnnotatedTextSegment → ChunkSourceTrace
unfolding primary_from
parent_context [] = missing
parent_context (s ∷ ss) = record {
  primary_block_id = some (primary_from s ss).block_id;
  source_block_ids = map (λ x. x.block_id) (s ∷ ss);
  relation_type = "PARENT_CONTEXT";
  trace_quality = if is_empty ss then "EXACT" else "MERGED";
}

-- `join("\n\n")` of the texts.
unfoldable pub joined : List AnnotatedTextSegment → List ℕ
joined [] = []
joined (s ∷ []) = s.text
joined (s ∷ t ∷ ss) = s.text ++ (10 ∷ 10 ∷ joined (t ∷ ss))

module _ (digests : Digests) (counter : TokenCounter) (target : Target) where
  -- A chunk of `build_traced`, with its number moved on.
  abbrev pub moved : ℕ → ℕ → List ℕ → TextChunk → TextChunk
  moved root offset profile c =
      let n = (c.sequence_no + offset) % 2 ^ 32 in
      record c {
        id =
            chunk_id digests counter target
              (codes (as_db_str c.granularity) ++ (colon ++ digests.uuid_text root)) n c.content
              profile;
        sequence_no = n;
      }

  unfoldable pub build_traced :
      ℕ
      → Option ℕ
      → Granularity
      → List ℕ
      → SizeProfile
      → List ℕ
      → ℕ
      → ChunkSourceTrace
      → List TracedChunk
  unfolding build chunk_id
  build_traced root parent g text p profile offset trace =
      map (λ c. record { chunk = moved root offset profile c; trace = trace })
        (build digests counter target root root parent g text p profile)

  -- The parents of a segment with their parts, and the next base of the numbers.
  unfoldable pub segment_parts :
      ℕ → ChunkingProfile → AnnotatedTextSegment → ℕ → List TracedChunk → List TracedChunk × ℕ
  unfolding build_traced
  segment_parts root p segment base [] = ([], base)
  segment_parts root p segment base (parent ∷ ps) =
      let relation =
        if ltb p.sub260.max (counter.count (normalize segment.text))
        then "SPLIT_FROM_BLOCK"
        else "DIRECT" in
      let trace = exact segment relation in
      let sub180 =
        build_traced root (some parent.chunk.id) Granularity.sub180 parent.chunk.content p.sub180
          p.version base trace in
      let base180 = base + (length sub180 + 1) in
      let sub260 =
        build_traced root (some parent.chunk.id) Granularity.sub260 parent.chunk.content p.sub260
          p.version base180 trace in
      let rest = segment_parts root p segment (base180 + (length sub260 + 1)) ps in
      (parent ∷ (sub180 ++ (sub260 ++ rest.0)), rest.1)

  -- The loop over the segments, with `sequence_base`.
  unfoldable pub segments_from :
      ℕ → ChunkingProfile → ℕ → List AnnotatedTextSegment → List TracedChunk × ℕ
  unfolding segment_parts build_traced trim_text normalize
  segments_from root p base [] = ([], base)
  segments_from root p base (s ∷ ss) =
      let parents =
        build_traced root none Granularity.parent (normalize s.text) p.parent p.version base
          (exact s "PARENT_CONTEXT") in
      let made = segment_parts root p s (base + (length parents + 1)) parents in
      let blank = is_empty (trim_text s.text) in
      let rest = segments_from root p (if blank then base else made.1) ss in
      if blank then rest else (made.0 ++ rest.0, rest.1)

  -- `none` is the error for an invalid profile or segments without text.
  unfoldable pub chunk_segments :
      List AnnotatedTextSegment
      → ChunkingProfile
      → SourceChunkStorageMode
      → Option (List TracedChunk)
  unfolding is_valid_profile joined normalize trim_text chunk_id source_chunk parent_context
      segments_from
  chunk_segments segments p mode =
      let normalized = normalize (joined segments) in
      let root = chunk_id digests counter target (codes "ROOT") 0 normalized p.version in
      let trace = parent_context segments in
      if not (is_valid_profile p.parent)
      then none
      else if not (is_valid_profile p.sub180)
      then none
      else if not (is_valid_profile p.sub260)
      then none
      else if is_empty segments
      then none
      else if is_empty (trim_text normalized)
      then none
      else some (
          map (λ c. record { chunk = c; trace = trace })
            (source_chunk digests counter target root mode normalized)
          ++ (segments_from root p 0 segments).0)
