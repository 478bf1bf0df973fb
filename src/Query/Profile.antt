-- ===== src/Query/Profile.antt =====
-- The limits of a query tier (src/query_processing/profile.rs) and the configuration that they come
-- from (src/config/mod.rs).
use llm.Base.{ℕ, Bool}

pub record Limits : Type 0 where
  pub max_query_tokens : ℕ
  pub max_segments : ℕ
  pub segment_target_tokens : ℕ
  pub segment_max_tokens : ℕ
  pub segment_overlap_tokens : ℕ
  pub dense_candidate_limit : ℕ
  pub sparse_candidate_limit : ℕ
  pub lexical_candidate_limit : ℕ
  pub local_fused_candidate_limit : ℕ
  pub global_fused_candidate_limit : ℕ
  pub max_parallel_segments : ℕ
  pub max_parallel_lexical_segments : ℕ
  pub deadline_ms : ℕ
  pub max_graph_seeds : ℕ
  pub admission_weight : ℕ

pub data QueryProcessingTier : Type 0 where
  single segmented_standard segmented_extended : QueryProcessingTier

-- src/config/mod.rs: `QueryProcessingTierConfig`
pub record QueryProcessingTierConfig : Type 0 where
  pub max_tokens : ℕ
  pub max_segments : ℕ
  pub dense_candidate_limit : ℕ
  pub sparse_candidate_limit : ℕ
  pub lexical_candidate_limit : ℕ
  pub local_fused_candidate_limit : ℕ
  pub global_fused_candidate_limit : ℕ
  pub max_parallel_segments : ℕ
  pub max_parallel_lexical_segments : ℕ
  pub deadline_ms : ℕ
  pub max_graph_seeds : ℕ
  pub admission_weight : ℕ

-- src/config/mod.rs: the fields of `QueryProcessingConfig` that decide a plan.
pub record QueryProcessingConfig : Type 0 where
  pub enabled : Bool
  pub extended_enabled : Bool
  pub absolute_max_tokens : ℕ
  pub absolute_max_bytes : ℕ
  pub segment_target_tokens : ℕ
  pub segment_max_tokens : ℕ
  pub segment_overlap_tokens : ℕ
  pub single_deadline_ms : ℕ
  pub single_graph_seeds : ℕ
  pub single_admission_weight : ℕ
  pub standard : QueryProcessingTierConfig
  pub extended : QueryProcessingTierConfig

abbrev pub for_single : QueryProcessingConfig → ℕ → Limits
for_single config single_max_tokens = record {
  max_query_tokens = single_max_tokens;
  max_segments = 1;
  segment_target_tokens = single_max_tokens;
  segment_max_tokens = single_max_tokens;
  segment_overlap_tokens = 0;
  dense_candidate_limit = config.standard.dense_candidate_limit;
  sparse_candidate_limit = config.standard.sparse_candidate_limit;
  lexical_candidate_limit = config.standard.lexical_candidate_limit;
  local_fused_candidate_limit = config.standard.local_fused_candidate_limit;
  global_fused_candidate_limit = config.standard.global_fused_candidate_limit;
  max_parallel_segments = 1;
  max_parallel_lexical_segments = 1;
  deadline_ms = config.single_deadline_ms;
  max_graph_seeds = config.single_graph_seeds;
  admission_weight = config.single_admission_weight;
}

abbrev pub for_segmented : QueryProcessingConfig → QueryProcessingTierConfig → Limits
for_segmented config profile = record {
  max_query_tokens = profile.max_tokens;
  max_segments = profile.max_segments;
  segment_target_tokens = config.segment_target_tokens;
  segment_max_tokens = config.segment_max_tokens;
  segment_overlap_tokens = config.segment_overlap_tokens;
  dense_candidate_limit = profile.dense_candidate_limit;
  sparse_candidate_limit = profile.sparse_candidate_limit;
  lexical_candidate_limit = profile.lexical_candidate_limit;
  local_fused_candidate_limit = profile.local_fused_candidate_limit;
  global_fused_candidate_limit = profile.global_fused_candidate_limit;
  max_parallel_segments = profile.max_parallel_segments;
  max_parallel_lexical_segments = profile.max_parallel_lexical_segments;
  deadline_ms = profile.deadline_ms;
  max_graph_seeds = profile.max_graph_seeds;
  admission_weight = profile.admission_weight;
}
