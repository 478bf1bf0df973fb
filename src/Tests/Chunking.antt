-- ===== src/Tests/Chunking.antt =====
-- A short text cut into chunks.
use llm.Base.{
  ℕ, ◌≤◌, ◌≡◌, refl, All, none, some, Bool, false, true, suc, ◌+◌, ◌*◌, ◌==◌, arith, retain, Option,
  List, [], ◌∷◌, length,
}
use llm.Graph.{Granularity}
use llm.Strings.{codes, decimal}
use llm.Chunking.Words.{normalize, count_words, split_sentences, trim_text}
use llm.Chunking.Groups.{SizeProfile, conservative, is_valid_profile, groups_of}
use llm.Chunking.Chars.{ink, ink_all}
use llm.Chunking.Parts.{is_same, run_held, chunk-held}
use llm.Chunking.Sizes.{build-token_count}
use llm.Chunking.Segments.Held.{run_held_traced, chunk_segments-held}
use llm.Chunking.Segments.Rising.{IsRising, numbers}
use llm.Chunking.Segments.Numbers.{segments_from-IsRising}
use llm.Chunking.Segments.{AnnotatedTextSegment, TracedChunk, joined, segments_from, chunk_segments}
use llm.Chunking.{TextChunk, build, Digests, Target, ChunkingProfile, SourceChunkStorageMode, chunk}

abbrev story : List ℕ
story = codes "One two  three. Four five! six"

abbrev narrow : SizeProfile
narrow = record { target = 3; min = 2; max = 4; overlap = 1 }

abbrev narrow_profile : ChunkingProfile
narrow_profile = record { version = codes "v"; parent = narrow; sub180 = narrow; sub260 = narrow }

abbrev toy_digests : Digests
toy_digests = record { new_v5 = length; uuid_text = λ n. n ∷ []; sha256_hex = λ t. t }

abbrev story_target : Target
story_target = record { access_zone = 1; document = 2; version = 3 }

story_sentences :
    split_sentences story ≡ codes "One two  three." ∷ codes "Four five!" ∷ codes "six" ∷ []
unfolding split_sentences
story_sentences = refl

story_groups :
    groups_of conservative narrow story ≡ codes "One two  three." ∷ codes "Four five! six" ∷ []
unfolding groups_of split_sentences count_words
story_groups = refl

-- A sentence longer than the maximum is cut into pieces of the target size; the short last piece
-- joins the one before it.
long_sentence :
    groups_of conservative narrow (codes "a b c d e f g.") ≡ codes "a b c" ∷ codes "d e f g." ∷ []
unfolding groups_of split_sentences count_words
long_sentence = refl

chunk-held_example :
    run_held Granularity.sub260 (
      chunk toy_digests conservative story_target story narrow_profile
        SourceChunkStorageMode.metadata_only)
    ≡ some (ink story)
unfolding is_valid_profile trim_text
chunk-held_example =
    chunk-held toy_digests story_target Granularity.sub260 story narrow_profile
      SourceChunkStorageMode.metadata_only refl refl refl refl refl

build-token_count_example :
    All
      (λ c. c.token_count ≤ 4)
      (build toy_digests conservative story_target 7 7 none Granularity.parent story narrow
        (codes "v"))
build-token_count_example =
    build-token_count narrow (unfold is_valid_profile in refl) toy_digests story_target 7 7 none
      Granularity.parent story (codes "v")

abbrev two_segments : List AnnotatedTextSegment
two_segments =
    record { block_id = "b1"; block_type = "PARAGRAPH"; text = codes "a b c. d e f." }
    ∷ record { block_id = "b2"; block_type = "PARAGRAPH"; text = codes " " }
    ∷ record { block_id = "b3"; block_type = "LIST_ITEM"; text = codes "a b c." }
    ∷ []

abbrev segmented : List TracedChunk × ℕ
segmented = segments_from toy_digests conservative story_target 9 narrow_profile 0 two_segments

-- The blank segment takes no number.
segment_numbers : numbers Granularity.sub180 segmented.0 ≡ 3 ∷ 7 ∷ 13 ∷ []
unfolding segments_from numbers split_sentences count_words normalize groups_of
segment_numbers = refl

chunk_segments-held_example :
    run_held_traced Granularity.sub180 (
      chunk_segments toy_digests conservative story_target two_segments narrow_profile
        SourceChunkStorageMode.disabled)
    ≡ some (codes "abc.def.abc.")
unfolding is_valid_profile trim_text joined normalize ink ink_all
chunk_segments-held_example =
    chunk_segments-held toy_digests story_target Granularity.sub180 two_segments narrow_profile
      SourceChunkStorageMode.disabled refl refl refl refl refl refl

segments_from-IsRising_example : IsRising 0 (numbers Granularity.sub180 segmented.0) segmented.1
unfolding segments_from count_words normalize groups_of split_sentences
segments_from-IsRising_example =
    segments_from-IsRising toy_digests conservative story_target Granularity.sub180 9 narrow_profile
      two_segments 0 (omega arith)

-- An injective number of a text.
abbrev number : List ℕ → ℕ
number [] = 0
number (c ∷ cs) = suc c + 1114113 * number cs

abbrev injective_digests : Digests
injective_digests = record { new_v5 = number; uuid_text = λ n. n ∷ []; sha256_hex = λ t. t }

-- Whether the first two chunks have equal parents, and equal ids.
abbrev parent_number : Option ℕ → ℕ
parent_number none = 0
parent_number (some p) = p

abbrev compare_first : List TextChunk → Bool × Bool
compare_first (a ∷ b ∷ cs) = (parent_number a.parent_id == parent_number b.parent_id, a.id == b.id)
compare_first (a ∷ []) = (true, false)
compare_first [] = (true, false)

abbrev parts_of_run : Option (List TextChunk) → List TextChunk
parts_of_run none = []
parts_of_run (some cs) = retain (λ c. is_same Granularity.sub180 c.granularity) cs

-- Twice the same sentence gives two parents, whose parts get the same id.
repeated_parts :
    compare_first (
      parts_of_run (
        chunk injective_digests conservative story_target
          (codes "a b c. a b c.")
          narrow_profile
          SourceChunkStorageMode.disabled))
    ≡ (false, true)
unfolding chunk count_words split_sentences is_valid_profile normalize trim_text build groups_of
    decimal
repeated_parts = refl
