-- ===== src/Ranking/Mmr.antt =====
-- The selection of results by maximal marginal relevance (apply_mmr_rerank of src/grpc/mod.rs).
-- The similarity of two results is a parameter: it parses embeddings from JSON and normalizes
-- texts with third-party code.
use llm.Base.{
  ℕ, zero, suc, ◌+◌, max, String, Bool, true, false, ◌&&◌, ◌||◌, none, some, List, [], ◌∷◌, ◌++◌,
  ltb, if◌then◌else◌, length, retain, take, sort_by, not,
}
use llm.Strings.{string_leb, decimal}
use llm.Ranking.{
  Float, SearchResult, metadata_insert, is_ranking_protected, score_of, stable_rank_leb,
  result_identity_key,
}
use llm.Ranking.Budget.{remove_at}
use llm.Ranking.Protect.{
  reserve_protected_candidates_in_prefix, preserve_protected_candidates_in_selection,
}

-- `candidate_similarity`, with whether it compared embeddings, and the presence of an embedding.
pub record Similarity (f : Float) : Type 0 where
  pub compare : SearchResult f → SearchResult f → f.F × Bool
  pub has_embedding : SearchResult f → Bool

-- `SearchMmrResult`, without its duration.
pub record SearchMmrResult (f : Float) : Type 0 where
  pub results : List (SearchResult f)
  pub input_count : ℕ
  pub selected_count : ℕ
  pub enabled : Bool
  pub similarity_source : String
  pub embedding_missing_count : ℕ
  pub token_fallback_count : ℕ
  pub dense_pair_comparisons : ℕ
  pub token_pair_comparisons : ℕ

-- The comparisons so far, of embeddings and of tokens.
pub record Counts : Type 0 where
  pub dense : ℕ
  pub token : ℕ

abbrev pub count : Bool → Counts → Counts
count true c = record c { dense = c.dense + 1 }
count false c = record c { token = c.token + 1 }

abbrev pub effective_source : Counts → String → String
effective_source c fallback =
    if ltb 0 c.dense && ltb 0 c.token
    then "MIXED"
    else if ltb 0 c.dense
    then "DENSE_EMBEDDING"
    else fallback

module _ {f : Float} (sim : Similarity f) where
  -- The fold of `f32::max` over the selected results.
  unfoldable pub max_similarity :
      SearchResult f → List (SearchResult f) → f.F → Counts → f.F × Counts
  max_similarity c [] most n = (most, n)
  max_similarity c (s ∷ ss) most n =
      max_similarity c ss (f.max most (sim.compare c s).0) (count (sim.compare c s).1 n)

  pub record Best : Type 0 where
    pub index : ℕ
    pub candidate : SearchResult f
    pub mmr : f.F
    pub similarity : f.F

  abbrev pub close : f.F → f.F → Bool
  close a b = f.le (f.abs (f.sub a b)) f.epsilon

  unfoldable pub wins : SearchResult f → f.F → f.F → Best → Bool
  unfolding score_of result_identity_key
  wins c mmr_score similarity best =
      f.gt mmr_score best.mmr
      || (close mmr_score best.mmr
          && (f.gt (score_of c) (score_of best.candidate)
              || (close (score_of c) (score_of best.candidate)
                  && (f.gt best.similarity similarity
                      || (close similarity best.similarity
                          && not (
                              string_leb (result_identity_key best.candidate)
                                (result_identity_key c)))))))

  -- The round over the prepared candidates.
  unfoldable pub best_of :
      f.F → List (SearchResult f) → ℕ → List (SearchResult f) → Best → Counts → Best × Counts
  unfolding max_similarity wins score_of
  best_of lambda selected i [] best n = (best, n)
  best_of lambda selected i (c ∷ cs) best n =
      let found = max_similarity c selected f.zero n in
      let mmr_score = f.sub (f.mul lambda (score_of c)) (f.mul (f.sub f.one lambda) found.0) in
      best_of lambda selected (suc i) cs
        (if wins c mmr_score found.0 best
          then record { index = i; candidate = c; mmr = mmr_score; similarity = found.0 }
          else best)
        found.1

  -- The metadata that a chosen result takes along.
  unfoldable pub annotated : f.F → String → Best → Counts → SearchResult f → SearchResult f
  annotated lambda fallback best n r = elim (r.citation) [
    | none ↦ r
    | some m ↦ record r {
      citation = some (
          metadata_insert "mmr_token_pair_comparisons" (decimal n.token) (
            metadata_insert "mmr_dense_pair_comparisons" (decimal n.dense) (
              metadata_insert "mmr_similarity_source" (effective_source n fallback) (
                metadata_insert "mmr_max_similarity_to_selected" (f.to_string best.similarity) (
                  metadata_insert "mmr_lambda" (f.to_string lambda) (
                    metadata_insert "mmr_score" (f.to_string best.mmr)
                      (metadata_insert "rerank_stage" "MMR" m)))))));
    }
  ]

  -- The rounds: each moves one candidate to the selected results. The number of places bounds
  -- them.
  unfoldable pub mmr_loop :
      f.F
      → String
      → ℕ
      → List (SearchResult f)
      → List (SearchResult f)
      → Counts
      → List (SearchResult f) × Counts
  unfolding best_of annotated
  mmr_loop lambda fallback zero prepared selected n = (selected, n)
  mmr_loop lambda fallback (suc places) [] selected n = (selected, n)
  mmr_loop lambda fallback (suc places) (c ∷ cs) selected n =
      let start : Best = record {
        index = 0;
        candidate = c;
        mmr = f.min_value;
        similarity = f.zero;
      } in
      let found = best_of lambda selected 0 (c ∷ cs) start n in
      mmr_loop lambda fallback places (remove_at found.0.index (c ∷ cs))
        (selected ++ (annotated lambda fallback found.0 found.1 found.0.candidate ∷ [])) found.1

  -- Without the reranking: the best by rank, with the protected ones moved forward.
  unfoldable pub ranked : List (SearchResult f) → ℕ → List (SearchResult f)
  unfolding stable_rank_leb reserve_protected_candidates_in_prefix
  ranked candidates limit =
      take limit (reserve_protected_candidates_in_prefix (sort_by stable_rank_leb candidates) limit)

  unfoldable pub apply_mmr_rerank :
      List (SearchResult f) → ℕ → Bool → f.F → ℕ → String → SearchMmrResult f
  unfolding ranked mmr_loop is_ranking_protected preserve_protected_candidates_in_selection
  apply_mmr_rerank candidates final_limit false lambda candidate_limit fallback =
      let results = ranked candidates final_limit in
      record {
        results = results;
        input_count = 0;
        selected_count = length results;
        enabled = false;
        similarity_source = "SCORE_ONLY";
        embedding_missing_count = 0;
        token_fallback_count = 0;
        dense_pair_comparisons = 0;
        token_pair_comparisons = 0;
      }
  apply_mmr_rerank candidates final_limit true lambda candidate_limit fallback =
      let prepared = ranked candidates (max candidate_limit final_limit) in
      let protected = retain is_ranking_protected prepared in
      let chosen =
        mmr_loop lambda fallback final_limit prepared [] (record { dense = 0; token = 0 }) in
      let results = preserve_protected_candidates_in_selection chosen.0 protected final_limit in
      record {
        results = results;
        input_count = length candidates;
        selected_count = length results;
        enabled = true;
        similarity_source = effective_source chosen.1 fallback;
        embedding_missing_count = length (retain (λ c. not (sim.has_embedding c)) prepared);
        token_fallback_count = chosen.1.token;
        dense_pair_comparisons = chosen.1.dense;
        token_pair_comparisons = chosen.1.token;
      }
