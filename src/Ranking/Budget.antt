-- ===== src/Ranking/Budget.antt =====
-- The cut of the results to the budget of tokens (apply_token_budget_truncation of
-- src/grpc/mod.rs).
pub mod Least
pub mod Fits
use llm.Base.{
  ℕ, zero, suc, ◌+◌, ◌-◌, ◌*◌, ◌/◌, min, max, String, Bool, true, false, ◌&&◌, ◌||◌, not, Option,
  none, some, List, [], ◌∷◌, ◌++◌, map, ltb, leb, if◌then◌else◌, length, take, retain, is_empty,
  saturating_mul,
}
use llm.Staging.Json.{as_u32}
use llm.Strings.{same, take_chars}
use llm.Ranking.{
  Float, SearchResult, is_graph_expanded_result, is_ranking_protected, estimate_results_tokens,
  text_tokens, estimate_graph_results_tokens, token_truncation_score,
}

pub record RagContextConfig (f : Float) : Type 0 where
  pub token_budget_enabled : Bool
  pub max_context_tokens : ℕ
  pub reserved_answer_tokens : ℕ
  pub chars_per_token : ℕ
  pub tokenizer_safety_margin_percent : ℕ
  pub truncation_strategy : String
  pub huge_chunk_strategy : String
  pub allow_chunk_text_truncation : Bool
  pub max_graph_token_fraction : f.F

-- The results that are left, and the identifiers of the dropped ones in the order of their removal.
pub record Budgeted (f : Float) : Type 0 where
  pub results : List (SearchResult f)
  pub dropped : List String

abbrev pub remove_at {ℓ} : {A : Type ℓ} → ℕ → List A → List A
remove_at i [] = []
remove_at zero (x ∷ xs) = xs
remove_at (suc i) (x ∷ xs) = x ∷ remove_at i xs

abbrev pub enumerate {ℓ} : {A : Type ℓ} → ℕ → List A → List (ℕ × A)
enumerate i [] = []
enumerate i (x ∷ xs) = (i, x) ∷ enumerate (suc i) xs

-- `min_by`: the first of the least elements, where `greater` compares two.
abbrev pub least {ℓ} : {A : Type ℓ} → (A → A → Bool) → A → List A → A
least greater best [] = best
least greater best (x ∷ xs) = least greater (if greater best x then x else best) xs

abbrev pub min_by {ℓ} : {A : Type ℓ} → (A → A → Bool) → List A → Option A
min_by greater [] = none
min_by greater (x ∷ xs) = some (least greater x xs)

module _ {f : Float} (cfg : RagContextConfig f) where
  abbrev pub per_token : ℕ
  per_token = max cfg.chars_per_token 1

  -- The tokens that the context may take.
  unfoldable pub effective_available : ℕ
  effective_available =
      saturating_mul (cfg.max_context_tokens - cfg.reserved_answer_tokens)
        (100 - min cfg.tokenizer_safety_margin_percent 80)
      / 100

  abbrev pub may_truncate : Bool
  may_truncate =
      same cfg.huge_chunk_strategy "TRUNCATE_ONE_HUGE_CHUNK" && cfg.allow_chunk_text_truncation

  unfoldable pub truncate_text : ℕ → SearchResult f → SearchResult f
  unfolding take_chars
  truncate_text tokens r = record r {
    matched_text = take_chars (max (saturating_mul tokens per_token) 1) r.matched_text;
  }

  -- A result that alone is over the budget is cut or dropped.
  unfoldable pub drop_huge : List (SearchResult f) → Budgeted f
  unfolding text_tokens effective_available truncate_text
  drop_huge [] = record { results = []; dropped = [] }
  drop_huge (r ∷ rs) =
      let rest = drop_huge rs in
      if not (ltb effective_available (text_tokens per_token r))
      then record rest { results = r ∷ rest.results }
      else if may_truncate
      then record rest { results = truncate_text effective_available r ∷ rest.results }
      else record rest { dropped = rest.dropped ++ (r.matched_chunk_id ∷ []) }

  abbrev pub lower_score : SearchResult f → SearchResult f → Bool
  lower_score l r =
      f.gt (token_truncation_score l cfg.truncation_strategy)
        (token_truncation_score r cfg.truncation_strategy)

  -- The index of the graph result with the lowest score.
  unfoldable pub lowest_graph : List (SearchResult f) → Option (ℕ × SearchResult f)
  unfolding is_graph_expanded_result token_truncation_score
  lowest_graph rs =
      min_by (λ x y. lower_score x.1 y.1)
        (retain (λ x. is_graph_expanded_result x.1) (enumerate 0 rs))

  unfoldable pub graph_loop : ℕ → ℕ → List (SearchResult f) → List String → Budgeted f
  unfolding estimate_graph_results_tokens lowest_graph
  graph_loop zero limit rs dropped = record { results = rs; dropped = dropped }
  graph_loop (suc fuel) limit rs dropped =
      elim (ltb limit (estimate_graph_results_tokens rs per_token)) [
        | false ↦ record { results = rs; dropped = dropped }
        | true ↦ elim (lowest_graph rs) [
          | none ↦ record { results = rs; dropped = dropped }
          | some (i, r) ↦
              graph_loop fuel limit (remove_at i rs) (dropped ++ (r.matched_chunk_id ∷ []))
        ]
      ]

  -- An unprotected result goes before a protected one, then the one with the lower score.
  unfoldable pub goes_later : SearchResult f → SearchResult f → Bool
  unfolding is_ranking_protected token_truncation_score
  goes_later l r =
      if is_ranking_protected l && not (is_ranking_protected r)
      then true
      else if not (is_ranking_protected l) && is_ranking_protected r
      then false
      else lower_score l r

  unfoldable pub next_to_drop : List (SearchResult f) → Option (ℕ × SearchResult f)
  unfolding goes_later
  next_to_drop rs = min_by (λ x y. goes_later x.1 y.1) (enumerate 0 rs)

  abbrev pub but_last : List (SearchResult f) → List (SearchResult f)
  but_last [] = []
  but_last (r ∷ []) = []
  but_last (r ∷ s ∷ rs) = r ∷ but_last (s ∷ rs)

  unfoldable pub truncate_last : ℕ → List (SearchResult f) → List (SearchResult f)
  unfolding truncate_text
  truncate_last tokens [] = []
  truncate_last tokens (r ∷ []) = truncate_text tokens r ∷ []
  truncate_last tokens (r ∷ s ∷ rs) = r ∷ truncate_last tokens (s ∷ rs)

  -- With the strategy "TRUNCATE_LAST_CHUNK", the last text is cut to what the others leave.
  unfoldable pub shortened : List (SearchResult f) → List (SearchResult f)
  unfolding truncate_last estimate_results_tokens effective_available
  shortened rs =
      let prefix = estimate_results_tokens (but_last rs) per_token in
      if same cfg.truncation_strategy "TRUNCATE_LAST_CHUNK"
        && cfg.allow_chunk_text_truncation
        && ltb prefix effective_available
      then truncate_last (max (effective_available - prefix) 1) rs
      else rs

  -- A round ends the loop only when the shortened results fit; unchanged ones do not.
  unfoldable pub budget_loop : ℕ → List (SearchResult f) → List String → Budgeted f
  unfolding estimate_results_tokens effective_available next_to_drop shortened
  budget_loop zero rs dropped = record { results = rs; dropped = dropped }
  budget_loop (suc fuel) rs dropped =
      elim (ltb effective_available (estimate_results_tokens rs per_token)) [
        | false ↦ record { results = rs; dropped = dropped }
        | true ↦ elim (leb (estimate_results_tokens (shortened rs) per_token) effective_available) [
          | true ↦ record { results = shortened rs; dropped = dropped }
          | false ↦ elim (next_to_drop rs) [
            | none ↦ record { results = rs; dropped = dropped }
            | some (i, r) ↦
                budget_loop fuel (remove_at i (shortened rs)) (dropped ++ (r.matched_chunk_id ∷ []))
          ]
        ]
      ]

  -- The three passes.
  unfoldable pub fit_budget : List (SearchResult f) → Budgeted f
  unfolding drop_huge graph_loop budget_loop effective_available
  fit_budget rs =
      let huge = drop_huge rs in
      let limit = f.share effective_available cfg.max_graph_token_fraction in
      let graph = graph_loop (length huge.results) limit huge.results huge.dropped in
      budget_loop (length graph.results) graph.results graph.dropped

pub record Truncation (f : Float) : Type 0 where
  pub results : List (SearchResult f)
  pub dropped : List String
  pub warnings : List String
  pub dropped_count : ℕ

-- At most 50 identifiers are reported.
unfoldable pub reported : {f : Float} → Budgeted f → Truncation f
reported b = record {
  results = b.results;
  dropped = take 50 b.dropped;
  warnings = if ltb 50 (length b.dropped) then "DROPPED_CHUNK_IDS_TRUNCATED" ∷ [] else [];
  dropped_count = as_u32 (length b.dropped);
}

unfoldable pub apply_token_budget_truncation :
    {f : Float} → RagContextConfig f → List (SearchResult f) → Truncation f
unfolding effective_available fit_budget reported
apply_token_budget_truncation cfg rs =
    if not cfg.token_budget_enabled
    then record { results = rs; dropped = []; warnings = []; dropped_count = 0 }
    else if leb (effective_available cfg) 0
    then record {
      results = [];
      dropped = map (λ r. r.matched_chunk_id) rs;
      warnings = [];
      dropped_count = as_u32 (length rs);
    }
    else reported (fit_budget cfg rs)
