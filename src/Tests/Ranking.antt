-- ===== src/Tests/Ranking.antt =====
-- Results that are cut to a budget, reranked and protected.
use llm.Base.{
  ℕ, ◌-◌, ◌*◌, ◌≤◌, ◌≡◌, refl, arith, String, true, false, some, List, [], ◌∷◌, All, length, max,
  map, ltb, leb, ◌⊎◌, inl, inr, Option-cases,
}
use llm.Staging.Json.{as_u32}
use llm.Ranking.{
  Float, SearchResult, is_ranking_protected, result_identity_key, estimate_results_tokens,
}
use llm.Ranking.Budget.{
  RagContextConfig, per_token, effective_available, apply_token_budget_truncation, next_to_drop,
  truncate_text,
}
use llm.Ranking.Budget.Least.{next_to_drop-protected}
use llm.Ranking.Budget.Fits.{apply_token_budget_truncation-fits}
use llm.Ranking.Mmr.{Similarity, Best, Counts, apply_mmr_rerank, annotated}
use llm.Ranking.Protect.{
  reserve_protected_candidates_in_prefix, preserve_protected_candidates_in_selection, has_key, swap,
}
use llm.Ranking.Identity.{occurrences}
use llm.Ranking.Selection.{apply_mmr_rerank-selects}
use llm.Ranking.Kept.{Agrees, preserve_protected-keeps}

-- Hundredths, cut off at 0.
abbrev hundredths : Float
hundredths = record {
  F = ℕ;
  zero = 0;
  gt = λ a b. ltb b a;
  le = leb;
  total_leb = leb;
  one = 100;
  min_value = 0;
  epsilon = 0;
  sub = λ a b. a - b;
  mul = λ a b. a * b;
  max = λ a b. max a b;
  abs = λ a. a;
  to_string = λ a. "n";
  share = λ n a. n;
}

abbrev hit : String → ℕ → String → SearchResult hundredths
hit id score protection = record {
  document_id = "d";
  document_version = 1;
  parent_chunk_id = "p";
  matched_chunk_id = id;
  parent_text = "parent";
  scores =
      some record { dense_score = 0; sparse_score = 0; fusion_score = score; final_score = score };
  citation = some (("ranking_protection", protection) ∷ []);
  access_zone_id = "z";
  matched_text = "matched text";
}

abbrev best : SearchResult hundredths
best = hit "best" 90 ""

abbrev good : SearchResult hundredths
good = hit "good" 80 ""

abbrev kept : SearchResult hundredths
kept = hit "kept" 10 "PRIMARY_DIRECT"

abbrev hits : List (SearchResult hundredths)
hits = best ∷ good ∷ kept ∷ []

abbrev config : RagContextConfig hundredths
config = record {
  token_budget_enabled = true;
  max_context_tokens = 12;
  reserved_answer_tokens = 2;
  chars_per_token = 4;
  tokenizer_safety_margin_percent = 0;
  truncation_strategy = "DROP_LOWEST_SCORE_CHUNKS";
  huge_chunk_strategy = "DROP";
  allow_chunk_text_truncation = false;
  max_graph_token_fraction = 50;
}

-- Ten tokens: two results of five, the protected one among them.
two_left :
    map (λ r. r.matched_chunk_id) (apply_token_budget_truncation config hits).results
    ≡ ("best" ∷ "kept" ∷ [])
unfolding apply_token_budget_truncation
two_left = refl

apply_token_budget_truncation-fits_example :
    let t = apply_token_budget_truncation config hits in
    All (λ r. r.document_id ≡ "d") t.results
    × (estimate_results_tokens t.results (per_token config) ≤ effective_available config)
    × (length t.results ≤ 3)
    × (t.dropped_count ≡ as_u32 (3 - length t.results))
unfolding truncate_text
apply_token_budget_truncation-fits_example =
    apply_token_budget_truncation-fits config (λ r. r.document_id ≡ "d") (λ n r h. h) hits refl
      (refl, (refl, (refl, tt)))

abbrev protected_pair : List (SearchResult hundredths)
protected_pair = kept ∷ hit "other" 20 "LEXICAL" ∷ []

first_dropped : next_to_drop config protected_pair ≡ some (0, kept)
unfolding next_to_drop
first_dropped = refl

kept-protected : is_ranking_protected kept ≡ true
unfolding is_ranking_protected
kept-protected = refl

next_to_drop-protected_example : All (λ s. is_ranking_protected s ≡ true) protected_pair
next_to_drop-protected_example =
    next_to_drop-protected config protected_pair 0 kept first_dropped kept-protected

-- The best candidate leaves the prefix for the protected one.
best_goes :
    map (λ r. r.matched_chunk_id) (reserve_protected_candidates_in_prefix hits 2)
    ≡ ("kept" ∷ "good" ∷ "best" ∷ [])
unfolding reserve_protected_candidates_in_prefix swap
best_goes = refl

abbrev alike : Similarity hundredths
alike = record { compare = λ a b. (50, false); has_embedding = λ r. false }

annotated-document :
    (lambda : ℕ) (fallback : String) (b : Best alike) (n : Counts) (r : SearchResult hundredths)
    → r.document_id ≡ "d"
    → (annotated alike lambda fallback b n r).document_id ≡ "d"
unfolding annotated
annotated-document lambda fallback b n r h = elim (Option-cases r.citation) [
  | inl e ↦ rw (e, annotated) h
  | inr (m, e) ↦ rw (e, annotated) h
]

apply_mmr_rerank-selects_example :
    let r = apply_mmr_rerank alike hits 2 true 70 10 "TOKEN_JACCARD" in
    All (λ s. s.document_id ≡ "d") r.results
    × (length r.results ≡ 2)
    × ((k : String) → occurrences k r.results ≤ occurrences k hits)
    × (r.selected_count ≡ length r.results)
apply_mmr_rerank-selects_example =
    apply_mmr_rerank-selects alike (λ s. s.document_id ≡ "d") annotated-document hits 2 true 70 10
      "TOKEN_JACCARD" (refl, (refl, (refl, tt)))

distinct_agree : All (λ c. All (λ x. Agrees x c) (best ∷ good ∷ [])) (kept ∷ [])
unfolding result_identity_key
distinct_agree = ((record { shared = λ e. cc }, (record { shared = λ e. cc }, tt)), tt)

preserve_protected-keeps_example :
    let r = preserve_protected_candidates_in_selection (best ∷ good ∷ []) (kept ∷ []) 2 in
    All (λ c. has_key c r ≡ true) (kept ∷ []) ⊎ All (λ x. is_ranking_protected x ≡ true) r
preserve_protected-keeps_example =
    preserve_protected-keeps (best ∷ good ∷ []) (kept ∷ []) 2 (omega arith) (kept-protected, tt)
      distinct_agree
