-- ===== src/Ranking.antt =====
-- The results of a search, their ranks and their sizes (src/grpc/mod.rs). A score is a number of
-- type `f32`, whose operations are the parameter `Float`.
pub mod Budget
pub mod Mmr
pub mod Protect
pub mod Places
pub mod Tally
pub mod Identity
pub mod Found
pub mod Distinct
pub mod Preserve
pub mod Selection
pub mod Kept
use Prim.Native.String.{len, ◌++◌}
use llm.Base.{
  ℕ, ◌+◌, ◌-◌, ◌/◌, max, String, Bool, true, false, ◌&&◌, ◌||◌, not, Option, none, some, List, [],
  ◌∷◌, ltb, leb, ◌==◌, if◌then◌else◌, get_or_else, retain,
}
use llm.Staging.Json.{bind}
use llm.Strings.{same, string_leb, trim, empty}

pub record Float : Type 1 where
  pub F : Type 0
  pub zero : F
  -- `>`
  pub gt : F → F → Bool
  -- `<=`
  pub le : F → F → Bool
  -- `total_cmp` is not `Greater`.
  pub total_leb : F → F → Bool
  pub one : F
  pub min_value : F
  pub epsilon : F
  pub sub : F → F → F
  pub mul : F → F → F
  pub max : F → F → F
  pub abs : F → F
  pub to_string : F → String
  -- The floor of a number times a fraction.
  pub share : ℕ → F → ℕ

pub record Scores (f : Float) : Type 0 where
  pub dense_score : f.F
  pub sparse_score : f.F
  pub fusion_score : f.F
  pub final_score : f.F

-- `SearchResultV004`, without its granularity, root, source and access level.
pub record SearchResult (f : Float) : Type 0 where
  pub document_id : String
  pub document_version : ℕ
  pub parent_chunk_id : String
  pub matched_chunk_id : String
  pub parent_text : String
  pub scores : Option (Scores f)
  -- The metadata of the citation.
  pub citation : Option (List (String × String))
  pub access_zone_id : String
  pub matched_text : String

abbrev pub metadata_insert : String → String → List (String × String) → List (String × String)
metadata_insert k v [] = (k, v) ∷ []
metadata_insert k v ((j, w) ∷ m) = if same j k then (k, v) ∷ m else (j, w) ∷ metadata_insert k v m

abbrev pub metadata_get : String → List (String × String) → Option String
metadata_get k [] = none
metadata_get k ((j, v) ∷ m) = if same j k then some v else metadata_get k m

abbrev pub is_text : String → Option String → Bool
is_text s none = false
is_text s (some t) = same t s

-- `div_ceil`
abbrev pub div_ceil : ℕ → ℕ → ℕ
div_ceil n d = (n + (d - 1)) / d

unfoldable pub estimate_text_tokens : String → ℕ → ℕ
estimate_text_tokens text chars_per_token = div_ceil (len text) (max chars_per_token 1)

-- The key of a result with the block, or of its chunk.
abbrev pub identity_from : Option String → String → String → String → String
identity_from (some block) zone document chunk = zone ++ (":" ++ (document ++ (":" ++ block)))
identity_from none zone document chunk = zone ++ (":" ++ chunk)

module _ {f : Float} where
  abbrev pub metadata_of : SearchResult f → String → Option String
  metadata_of r k = bind r.citation (metadata_get k)

  unfoldable pub primary_retrieval_source : SearchResult f → Option String
  primary_retrieval_source r = metadata_of r "retrieval_source"

  unfoldable pub is_graph_expanded_result : SearchResult f → Bool
  unfolding primary_retrieval_source
  is_graph_expanded_result r = is_text "GRAPH_EXPANDED" (primary_retrieval_source r)

  unfoldable pub is_ranking_protected : SearchResult f → Bool
  unfolding empty
  is_ranking_protected r = elim (metadata_of r "ranking_protection") [
    | none ↦ false
    | some v ↦ not (empty v)
  ]

  unfoldable pub score_of : SearchResult f → f.F
  score_of r = elim (r.scores) [ none ↦ f.zero | some s ↦ s.final_score ]

  unfoldable pub result_source_block_id : SearchResult f → Option String
  unfolding trim empty
  result_source_block_id r =
      bind (metadata_of r "source_block_id") (λ v. if empty (trim v) then none else some v)

  unfoldable pub result_identity_key : SearchResult f → String
  unfolding result_source_block_id
  result_identity_key r =
      identity_from (result_source_block_id r) r.access_zone_id r.document_id r.matched_chunk_id

  -- The scores of a result without scores are 0.
  abbrev fusion_of : SearchResult f → f.F
  fusion_of r = elim (r.scores) [ none ↦ f.zero | some s ↦ s.fusion_score ]

  -- `stable_result_rank` is not `Greater`.
  unfoldable pub stable_rank_leb : SearchResult f → SearchResult f → Bool
  unfolding score_of
  stable_rank_leb l r =
      if not (f.total_leb (score_of l) (score_of r))
      then true
      else if not (f.total_leb (score_of r) (score_of l))
      then false
      else if not (f.total_leb (fusion_of l) (fusion_of r))
      then true
      else if not (f.total_leb (fusion_of r) (fusion_of l))
      then false
      else if not (string_leb r.document_id l.document_id)
      then true
      else if not (string_leb l.document_id r.document_id)
      then false
      else if ltb r.document_version l.document_version
      then true
      else if ltb l.document_version r.document_version
      then false
      else string_leb l.matched_chunk_id r.matched_chunk_id

  unfoldable pub result_tokens : ℕ → SearchResult f → ℕ
  result_tokens chars_per_token r =
      div_ceil (len r.matched_text + len r.parent_text) (max chars_per_token 1)

  unfoldable pub estimate_results_tokens : List (SearchResult f) → ℕ → ℕ
  unfolding result_tokens
  estimate_results_tokens [] chars_per_token = 0
  estimate_results_tokens (r ∷ rs) chars_per_token =
      result_tokens chars_per_token r + estimate_results_tokens rs chars_per_token

  -- The two texts of a result, each rounded up.
  unfoldable pub text_tokens : ℕ → SearchResult f → ℕ
  unfolding estimate_text_tokens
  text_tokens chars_per_token r =
      estimate_text_tokens r.matched_text chars_per_token
      + estimate_text_tokens r.parent_text chars_per_token

  unfoldable pub sum_text_tokens : ℕ → List (SearchResult f) → ℕ
  unfolding text_tokens
  sum_text_tokens chars_per_token [] = 0
  sum_text_tokens chars_per_token (r ∷ rs) =
      text_tokens chars_per_token r + sum_text_tokens chars_per_token rs

  unfoldable pub estimate_graph_results_tokens : List (SearchResult f) → ℕ → ℕ
  unfolding sum_text_tokens is_graph_expanded_result
  estimate_graph_results_tokens rs chars_per_token =
      sum_text_tokens chars_per_token (retain is_graph_expanded_result rs)

  unfoldable pub token_truncation_score : SearchResult f → String → f.F
  token_truncation_score r strategy = elim (r.scores) [
    | none ↦ f.zero
    | some s ↦ if same strategy "DROP_LOWEST_SCORE_CHUNKS" then s.fusion_score else s.final_score
  ]

-- "AT_LEAST_TOP_K" raises the configured limit.
unfoldable pub resolve_final_context_limit : ℕ → ℕ → String → ℕ
resolve_final_context_limit configured_limit top_k mode =
    if same mode "AT_LEAST_TOP_K"
    then max (max configured_limit top_k) 1
    else max configured_limit 1
