-- ===== src/Chunking.antt =====
-- The cutting of texts into chunks (src/chunking/mod.rs). A text is the list of its code points. The
-- hash, the UUIDs and their texts are those of third-party crates, the parameter `Digests`.
pub mod Words
pub mod Groups
pub mod Chars
pub mod Covered
pub mod Parts
pub mod Counts
pub mod Sizes
pub mod Segments
use llm.Base.{
  ℕ, zero, suc, ◌+◌, ◌-◌, ◌*◌, ◌%◌, ◌^◌, Bool, true, false, ◌&&◌, ◌||◌, not, Option, none, some,
  List, [], ◌∷◌, ◌++◌, ltb, leb, ◌==◌, if◌then◌else◌, length, is_empty, map, String,
}
use llm.Strings.{same, codes, decimal}
use llm.Graph.{Granularity, as_db_str}
use Words.{normalize, trim_text}
use Groups.{SizeProfile, is_valid_profile, TokenCounter, groups_of}

pub data SourceChunkStorageMode : Type 0 where
  full_text metadata_only disabled : SourceChunkStorageMode

-- `SourceChunkStorageMode::from_config`, `none` for an unknown name.
unfoldable pub from_config : String → Option SourceChunkStorageMode
from_config value =
    if same value "FULL_TEXT"
    then some SourceChunkStorageMode.full_text
    else if same value "METADATA_ONLY"
    then some SourceChunkStorageMode.metadata_only
    else if same value "DISABLED"
    then some SourceChunkStorageMode.disabled
    else none

pub record Digests : Type 0 where
  pub new_v5 : List ℕ → ℕ
  pub uuid_text : ℕ → List ℕ
  pub sha256_hex : List ℕ → List ℕ

pub record ChunkingProfile : Type 0 where
  pub version : List ℕ
  pub parent : SizeProfile
  pub sub180 : SizeProfile
  pub sub260 : SizeProfile

-- `GeneratedChunk`, without the fields that trace its source.
pub record TextChunk : Type 0 where
  pub id : ℕ
  pub root_id : ℕ
  pub source_id : ℕ
  pub parent_id : Option ℕ
  pub granularity : Granularity
  pub sequence_no : ℕ
  pub token_count : ℕ
  pub content : List ℕ
  pub content_hash : List ℕ

-- The document that is cut.
pub record Target : Type 0 where
  pub access_zone : ℕ
  pub document : ℕ
  pub version : ℕ

abbrev pub colon : List ℕ
colon = codes ":"

module _ (digests : Digests) (counter : TokenCounter) (target : Target) where
  -- `ChunkingEngine::id`
  unfoldable pub chunk_id : List ℕ → ℕ → List ℕ → List ℕ → ℕ
  chunk_id kind seq text profile = digests.new_v5 (
      digests.uuid_text target.access_zone
      ++ (colon
          ++ (digests.uuid_text target.document
              ++ (colon
                  ++ (codes (decimal target.version)
                      ++ (colon
                          ++ (kind
                              ++ (colon
                                  ++ (codes (decimal seq)
                                      ++ (colon
                                          ++ (digests.sha256_hex text
                                              ++ (colon ++ profile))))))))))))

  -- The chunk of one group.
  abbrev pub placed : ℕ → ℕ → Option ℕ → Granularity → List ℕ → ℕ → List ℕ → TextChunk
  placed root source parent g profile i content =
      let c = normalize content in
      let n = i % 2 ^ 32 in
      record {
        id = chunk_id (codes (as_db_str g) ++ (colon ++ digests.uuid_text root)) n c profile;
        root_id = root;
        source_id = source;
        parent_id = parent;
        granularity = g;
        sequence_no = n;
        token_count = counter.count c;
        content = c;
        content_hash = digests.sha256_hex c;
      }

  -- The chunks of the groups, numbered from `i`.
  unfoldable pub numbered :
      ℕ → ℕ → Option ℕ → Granularity → List ℕ → ℕ → List (List ℕ) → List TextChunk
  unfolding chunk_id normalize
  numbered root source parent g profile i [] = []
  numbered root source parent g profile i (content ∷ gs) =
      placed root source parent g profile i content
      ∷ numbered root source parent g profile (suc i) gs

  unfoldable pub build :
      ℕ → ℕ → Option ℕ → Granularity → List ℕ → SizeProfile → List ℕ → List TextChunk
  unfolding groups_of numbered
  build root source parent g text p profile =
      numbered root source parent g profile 0 (groups_of counter p text)

  abbrev pub stored_text : SourceChunkStorageMode → List ℕ → List ℕ
  stored_text SourceChunkStorageMode.full_text text = text
  stored_text SourceChunkStorageMode.metadata_only text = []
  stored_text SourceChunkStorageMode.disabled text = []

  -- The parents, each followed by its parts.
  unfoldable pub with_parts : ℕ → ChunkingProfile → List TextChunk → List TextChunk
  unfolding build
  with_parts root p [] = []
  with_parts root p (parent ∷ ps) =
      parent
      ∷ (build root root (some parent.id) Granularity.sub180 parent.content p.sub180 p.version
          ++ (build root root (some parent.id) Granularity.sub260 parent.content p.sub260 p.version
              ++ with_parts root p ps))

  unfoldable pub source_chunk : ℕ → SourceChunkStorageMode → List ℕ → List TextChunk
  source_chunk root SourceChunkStorageMode.disabled text = []
  source_chunk root mode text =
      record {
        id = root;
        root_id = root;
        source_id = root;
        parent_id = none;
        granularity = Granularity.source;
        sequence_no = 0;
        token_count = counter.count text;
        content = stored_text mode text;
        content_hash = digests.sha256_hex text;
      }
      ∷ []

  -- `none` is the error for an invalid profile or an empty text.
  unfoldable pub chunk : List ℕ → ChunkingProfile → SourceChunkStorageMode → Option (List TextChunk)
  unfolding is_valid_profile trim_text normalize chunk_id source_chunk build with_parts
  chunk text p mode =
      let normalized = normalize text in
      let root = chunk_id (codes "ROOT") 0 normalized p.version in
      if not (is_valid_profile p.parent)
      then none
      else if not (is_valid_profile p.sub180)
      then none
      else if not (is_valid_profile p.sub260)
      then none
      else if is_empty (trim_text text)
      then none
      else some (
          source_chunk root mode normalized
          ++ with_parts root p
              (build root root none Granularity.parent normalized p.parent p.version))
