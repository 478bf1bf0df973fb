-- ===== src/Tests/Query.antt =====
-- A query of six letters, each a token of its own.
use llm.Base.{ℕ, ◌+◌, ◌≤◌, ◌≡◌, refl, some, List, [], ◌∷◌, arith, length, leb, if◌then◌else◌}
use llm.Query.Profile.{Limits}
use llm.Query.Segmenter.{TokenOffset}
use llm.Query.Normalization.{
  NormalizedQuery, QueryTokenCounter, Tokenized, tokens, failed, encode_utf8, len_utf8, byte_len,
  is_whitespace, original_byte_range, canonical_chars, trim_end, trim_outer_whitespace, kept_line,
  blanks_after, kept_break, lines_from, normalize_lines, set_last, boundaries, render_from, render,
  is_char_boundary, offset_is_valid, validate_offsets, normalized_chars, normalize_query,
}
use llm.Query.Normalization.Mapping.Normalized.{normalize_query-original_byte_range}

-- Every byte is a token.
abbrev pub each_byte : ℕ → List ℕ → List TokenOffset
each_byte i [] = []
each_byte i (b ∷ bs) =
    record { token_index = i; start_byte = i; end_byte = i + 1 } ∷ each_byte (i + 1) bs

abbrev pub counter : QueryTokenCounter
counter = record {
  count_tokens = λ text longest truncate.
      if leb (length text) longest then tokens (length text) else failed [];
  token_offsets = λ text. tokens (each_byte 0 text);
}

abbrev pub limits : Limits
limits = record {
  max_query_tokens = 16;
  max_segments = 3;
  segment_target_tokens = 3;
  segment_max_tokens = 4;
  segment_overlap_tokens = 1;
  dense_candidate_limit = 10;
  sparse_candidate_limit = 10;
  lexical_candidate_limit = 10;
  local_fused_candidate_limit = 10;
  global_fused_candidate_limit = 10;
  max_parallel_segments = 1;
  max_parallel_lexical_segments = 1;
  deadline_ms = 100;
  max_graph_seeds = 1;
  admission_weight = 1;
}

-- " what\r\nif? "
abbrev pub query : List ℕ
query = 32 ∷ 119 ∷ 104 ∷ 97 ∷ 116 ∷ 13 ∷ 10 ∷ 105 ∷ 102 ∷ 63 ∷ 32 ∷ []

abbrev tokens_or : Tokenized NormalizedQuery → NormalizedQuery
tokens_or (tokens q) = q
tokens_or (failed e) = record {
  original_text = [];
  normalized_text = [];
  normalized_to_original_byte_map = [];
  token_offsets = [];
}

-- "what\nif?"
abbrev pub normalized : NormalizedQuery
normalized = record {
  original_text = query;
  normalized_text = 119 ∷ 104 ∷ 97 ∷ 116 ∷ 10 ∷ 105 ∷ 102 ∷ 63 ∷ [];
  normalized_to_original_byte_map = 1 ∷ 2 ∷ 3 ∷ 4 ∷ 5 ∷ 7 ∷ 8 ∷ 9 ∷ 10 ∷ [];
  token_offsets = each_byte 0 (119 ∷ 104 ∷ 97 ∷ 116 ∷ 10 ∷ 105 ∷ 102 ∷ 63 ∷ []);
}

pub query_normalized : normalize_query query counter ≡ tokens normalized
unfolding encode_utf8 len_utf8 byte_len is_whitespace original_byte_range canonical_chars trim_end
    trim_outer_whitespace kept_line blanks_after kept_break lines_from normalize_lines set_last
    boundaries render_from render is_char_boundary offset_is_valid validate_offsets normalized_chars
    normalize_query
query_normalized = refl

normalize_query-original_byte_range_example :
    (a b : ℕ) × (original_byte_range normalized 3 6 ≡ some (a, b)) × (a ≤ b) × (b ≤ byte_len query)
normalize_query-original_byte_range_example =
    normalize_query-original_byte_range query counter normalized 3 6 query_normalized (omega arith)
      (omega arith)

abbrev pub offsets : List TokenOffset
offsets = normalized.token_offsets

abbrev pub text : List ℕ
text = normalized.normalized_text
