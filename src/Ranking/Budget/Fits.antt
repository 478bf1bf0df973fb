-- ===== src/Ranking/Budget/Fits.antt =====
-- The results that are left fit the budget of tokens (apply_token_budget_truncation of
-- src/grpc/mod.rs).
use llm.Base.{
  ℕ, zero, suc, ◌+◌, ◌-◌, ◌≤◌, ◌<◌, ◌≡◌, refl, sym, subst, ap, arith, String, true, ◌&&◌, not, none,
  List, [], ◌∷◌, ◌++◌, length, length-append, All, leb, ltb, max, inl, inr, Bool-cases,
  Option-cases,
}
use llm.Strings.{same}
use llm.Staging.Json.{as_u32}
use llm.Ranking.{
  Float, SearchResult, estimate_results_tokens, estimate_graph_results_tokens, text_tokens,
}
use llm.Ranking.Budget.{
  RagContextConfig, Budgeted, remove_at, effective_available, per_token, may_truncate,
  truncate_text, drop_huge, graph_loop, lowest_graph, next_to_drop, but_last, truncate_last,
  shortened, budget_loop, fit_budget, reported, apply_token_budget_truncation,
}
use llm.Ranking.Budget.Least.{length-remove_at, next_to_drop-lt, lowest_graph-lt}

pub All-remove_at {ℓ κ} :
    {A : Type ℓ} (P : A → Type κ) (i : ℕ) (xs : List A) → All P xs → All P (remove_at i xs)
All-remove_at P i [] h = tt
All-remove_at P zero (x ∷ xs) h = h.1
All-remove_at P (suc i) (x ∷ xs) h = (h.0, All-remove_at P i xs h.1)

module _ {f : Float} (cfg : RagContextConfig f) where
  length-truncate_last :
      (tokens : ℕ) (rs : List (SearchResult f)) → length (truncate_last cfg tokens rs) ≡ length rs
  unfolding truncate_last
  length-truncate_last tokens [] = refl
  length-truncate_last tokens (r ∷ []) = refl
  length-truncate_last tokens (r ∷ s ∷ rs) = omega (arith, length-truncate_last tokens (s ∷ rs))

  length-shortened : (rs : List (SearchResult f)) → length (shortened cfg rs) ≡ length rs
  unfolding shortened
  length-shortened rs =
      let prefix = estimate_results_tokens (but_last cfg rs) (per_token cfg) in
      elim (Bool-cases (
        same cfg.truncation_strategy "TRUNCATE_LAST_CHUNK"
        && cfg.allow_chunk_text_truncation
        && ltb prefix (effective_available cfg))) [
          | inl e ↦ rw e (length-truncate_last (max (effective_available cfg - prefix) 1) rs)
          | inr e ↦ rw e refl
        ]

  none-empty : (rs : List (SearchResult f)) → next_to_drop cfg rs ≡ none → rs ≡ []
  unfolding next_to_drop
  none-empty [] e = refl
  none-empty (r ∷ rs) e = cc

  shorter :
      (rs : List (SearchResult f)) (i : ℕ)
      → i < length rs
      → suc (length (remove_at i (shortened cfg rs))) ≡ length rs
  shorter rs i lt =
      let same = length-shortened rs in
      omega (arith, length-remove_at i (shortened cfg rs) (omega arith))

  empty-fits :
      (rs : List (SearchResult f))
      → next_to_drop cfg rs ≡ none
      → estimate_results_tokens rs (per_token cfg) ≤ effective_available cfg
  unfolding estimate_results_tokens
  empty-fits rs e =
      subst (λ xs. estimate_results_tokens xs (per_token cfg) ≤ effective_available cfg)
        (sym (none-empty rs e)) (omega arith)

-- Facts of a result that the cut of its text keeps.
module _ {κ} {f : Float} (cfg : RagContextConfig f) (P : SearchResult f → Type κ)
    (keeps : (n : ℕ) (r : SearchResult f) → P r → P (truncate_text cfg n r)) where
  -- The results that a pass leaves have the facts of the given ones, and each other result is
  -- reported.
  record IsPass (n : ℕ) (b : Budgeted f) : Type κ where
    kept : All P b.results
    counted : length b.results + length b.dropped ≡ n

  All-truncate_last :
      (tokens : ℕ) (rs : List (SearchResult f)) → All P rs → All P (truncate_last cfg tokens rs)
  unfolding truncate_last
  All-truncate_last tokens [] h = tt
  All-truncate_last tokens (r ∷ []) h = (keeps tokens r h.0, tt)
  All-truncate_last tokens (r ∷ s ∷ rs) h = (h.0, All-truncate_last tokens (s ∷ rs) h.1)

  All-shortened : (rs : List (SearchResult f)) → All P rs → All P (shortened cfg rs)
  unfolding shortened
  All-shortened rs h =
      let prefix = estimate_results_tokens (but_last cfg rs) (per_token cfg) in
      elim (Bool-cases (
        same cfg.truncation_strategy "TRUNCATE_LAST_CHUNK"
        && cfg.allow_chunk_text_truncation
        && ltb prefix (effective_available cfg))) [
          | inl e ↦ rw e (All-truncate_last (max (effective_available cfg - prefix) 1) rs h)
          | inr e ↦ rw e h
        ]

  budget_loop-IsPass :
      (fuel : ℕ) (rs : List (SearchResult f)) (dropped : List String)
      → length rs ≤ fuel
      → All P rs
      → IsPass (length rs + length dropped) (budget_loop cfg fuel rs dropped)
        × (estimate_results_tokens (budget_loop cfg fuel rs dropped).results (per_token cfg)
            ≤ effective_available cfg)
  unfolding budget_loop
  budget_loop-IsPass zero [] dropped le h =
      (record { kept = tt; counted = omega arith }, unfold estimate_results_tokens in omega arith)
  budget_loop-IsPass zero (r ∷ rs) dropped le h = let no : ⊥ = omega arith in absurd no
  budget_loop-IsPass (suc fuel) rs dropped le h =
      elim (Bool-cases
        (ltb (effective_available cfg) (estimate_results_tokens rs (per_token cfg)))) [
          | inr e ↦ rw (e, budget_loop) (record { kept = h; counted = refl }, ground arith)
          | inl e ↦
              elim (Bool-cases (
                leb (estimate_results_tokens (shortened cfg rs) (per_token cfg))
                  (effective_available cfg))) [
                    | inl g ↦
                        rw (e, g, budget_loop)
                          (
                            record {
                              kept = All-shortened rs h;
                              counted = omega (arith, length-shortened cfg rs);
                            },
                            ground arith,
                          )
                    | inr g ↦ elim (Option-cases (next_to_drop cfg rs)) [
                      | inl n ↦
                          rw (e, g, n, budget_loop)
                            (record { kept = h; counted = refl }, empty-fits cfg rs n)
                      | inr ((i, r), n) ↦
                          let less = shorter cfg rs i (next_to_drop-lt cfg rs i r n) in
                          let grown = length-append dropped (r.matched_chunk_id ∷ []) in
                          let rest =
                            budget_loop-IsPass fuel (remove_at i (shortened cfg rs))
                              (dropped ++ (r.matched_chunk_id ∷ [])) (omega arith)
                              (All-remove_at P i (shortened cfg rs) (All-shortened rs h)) in
                          rw (e, g, n, budget_loop)
                            (
                              record {
                                kept = rest.0.kept;
                                counted = omega (arith, rest.0.counted);
                              },
                              rest.1,
                            )
                    ]
                  ]
        ]

  graph_loop-IsPass :
      (fuel limit : ℕ) (rs : List (SearchResult f)) (dropped : List String)
      → All P rs
      → IsPass (length rs + length dropped) (graph_loop cfg fuel limit rs dropped)
  unfolding graph_loop
  graph_loop-IsPass zero limit rs dropped h = record { kept = h; counted = refl }
  graph_loop-IsPass (suc fuel) limit rs dropped h =
      elim (Bool-cases (ltb limit (estimate_graph_results_tokens rs (per_token cfg)))) [
        | inr e ↦ rw (e, graph_loop) (record { kept = h; counted = refl })
        | inl e ↦ elim (Option-cases (lowest_graph cfg rs)) [
          | inl n ↦ rw (e, n, graph_loop) (record { kept = h; counted = refl })
          | inr ((i, r), n) ↦
              let less = length-remove_at i rs (lowest_graph-lt cfg rs i r n) in
              let grown = length-append dropped (r.matched_chunk_id ∷ []) in
              let rest =
                graph_loop-IsPass fuel limit (remove_at i rs) (dropped ++ (r.matched_chunk_id ∷ []))
                  (All-remove_at P i rs h) in
              rw (e, n, graph_loop)
                (record { kept = rest.kept; counted = omega (arith, rest.counted) })
        ]
      ]

  drop_huge-IsPass : (rs : List (SearchResult f)) → All P rs → IsPass (length rs) (drop_huge cfg rs)
  unfolding drop_huge
  drop_huge-IsPass [] h = record { kept = tt; counted = omega arith }
  drop_huge-IsPass (r ∷ rs) h =
      let rest = drop_huge-IsPass rs h.1 in
      let grown = length-append (drop_huge cfg rs).dropped (r.matched_chunk_id ∷ []) in
      elim (Bool-cases (not (ltb (effective_available cfg) (text_tokens (per_token cfg) r)))) [
        | inl e ↦
            rw (e, drop_huge)
              (record { kept = (h.0, rest.kept); counted = omega (arith, rest.counted) })
        | inr e ↦ elim (Bool-cases (may_truncate cfg)) [
          | inl g ↦
              rw (e, g, drop_huge)
                (record {
                  kept = (keeps (effective_available cfg) r h.0, rest.kept);
                  counted = omega (arith, rest.counted);
                })
          | inr g ↦
              rw (e, g, drop_huge)
                (record { kept = rest.kept; counted = omega (arith, rest.counted) })
        ]
      ]

  fit_budget-IsPass :
      (rs : List (SearchResult f))
      → All P rs
      → IsPass (length rs) (fit_budget cfg rs)
        × (estimate_results_tokens (fit_budget cfg rs).results (per_token cfg)
            ≤ effective_available cfg)
  unfolding fit_budget
  fit_budget-IsPass rs h =
      let huge = drop_huge cfg rs in
      let limit = f.share (effective_available cfg) cfg.max_graph_token_fraction in
      let graph = graph_loop cfg (length huge.results) limit huge.results huge.dropped in
      let first = drop_huge-IsPass rs h in
      let second =
        graph_loop-IsPass (length huge.results) limit huge.results huge.dropped first.kept in
      let third =
        budget_loop-IsPass (length graph.results) graph.results graph.dropped (omega arith)
          second.kept in
      (
        record {
          kept = third.0.kept;
          counted = omega (arith, first.counted, second.counted, third.0.counted);
        },
        third.1,
      )

  -- With the budget enabled, the results that are left take at most the available tokens; what
  -- holds of all results and is kept when a text is cut holds of those left; and the count of the
  -- dropped ones is the number of the others, as a `u32`.
  pub apply_token_budget_truncation-fits :
      (rs : List (SearchResult f))
      → cfg.token_budget_enabled ≡ true
      → All P rs
      → let t = apply_token_budget_truncation cfg rs in
        All P t.results
        × (estimate_results_tokens t.results (per_token cfg) ≤ effective_available cfg)
        × (length t.results ≤ length rs)
        × (t.dropped_count ≡ as_u32 (length rs - length t.results))
  unfolding apply_token_budget_truncation reported
  apply_token_budget_truncation-fits rs on h = elim (Bool-cases (leb (effective_available cfg) 0)) [
    | inl e ↦
        rw (on, e) (tt, unfold estimate_results_tokens in omega arith, omega arith, omega arith)
    | inr e ↦
        let cut = fit_budget-IsPass rs h in
        let dropped : length (fit_budget cfg rs).dropped
            ≡ length rs - length (fit_budget cfg rs).results =
          omega (arith, cut.0.counted) in
        rw (on, e) (cut.0.kept, cut.1, omega (arith, cut.0.counted), ap as_u32 dropped)
  ]
