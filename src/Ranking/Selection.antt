-- ===== src/Ranking/Selection.antt =====
-- The size and the origin of a selection (apply_mmr_rerank of src/grpc/mod.rs).
use llm.Base.{
  ℕ, zero, suc, ◌+◌, ◌≤◌, ◌≡◌, refl, arith, String, Bool, true, false, List, [], ◌∷◌, ◌++◌, length,
  length-append, All, All-append, All-retain, All-sort_by, length-sort_by, ◌==◌, max, min, retain,
  inl, inr, Bool-cases, sort_by,
}
use llm.Ranking.{Float, SearchResult, is_ranking_protected, stable_rank_leb}
use llm.Ranking.Budget.{remove_at}
use llm.Ranking.Budget.Least.{length-remove_at}
use llm.Ranking.Budget.Fits.{All-remove_at}
use llm.Ranking.Protect.{
  reserve_protected_candidates_in_prefix, preserve_protected_candidates_in_selection,
}
use llm.Ranking.Mmr.{
  Similarity, Counts, Best, best_of, annotated, mmr_loop, ranked, apply_mmr_rerank,
}
use llm.Ranking.Found.{best_of-IsFound}
use llm.Ranking.Identity.{occurrences, occurrences-length}
use llm.Ranking.Distinct.{apply_mmr_rerank-occurrences}
use llm.Ranking.Places.{length-take, All-take}
use llm.Ranking.Preserve.{IsWithin, reserve-All, preserve_from-IsWithin}

-- Facts that the metadata of a chosen result do not change.
module _ {κ} {f : Float} (sim : Similarity f) (P : SearchResult f → Type κ)
    (keeps : (lambda : f.F) (fallback : String) (best : Best sim) (n : Counts) (r : SearchResult f)
      → P r
      → P (annotated sim lambda fallback best n r)) where
  mmr_loop-selects :
      (lambda : f.F) (fallback : String) (places : ℕ) (prepared selected : List (SearchResult f))
      (n : Counts)
      → All P prepared
      → All P selected
      → All P (mmr_loop sim lambda fallback places prepared selected n).0
        × (length (mmr_loop sim lambda fallback places prepared selected n).0
            ≡ length selected + min places (length prepared))
  unfolding mmr_loop
  mmr_loop-selects lambda fallback zero prepared selected n hp hs = (hs, omega arith)
  mmr_loop-selects lambda fallback (suc places) [] selected n hp hs = (hs, omega arith)
  mmr_loop-selects lambda fallback (suc places) (c ∷ cs) selected n hp hs =
      let start : Best sim = record {
        index = 0;
        candidate = c;
        mmr = f.min_value;
        similarity = f.zero;
      } in
      let found = best_of sim lambda selected 0 (c ∷ cs) start n in
      let right =
        best_of-IsFound sim P (c ∷ cs) lambda selected 0 (c ∷ cs) start n (omega arith)
          (λ m. let same : 0 + m ≡ m = omega arith in rw same refl) hp
          (record { index = omega arith; fact = hp.0; stands = refl }) in
      let chosen = annotated sim lambda fallback found.0 found.1 found.0.candidate in
      let less = length-remove_at found.0.index (c ∷ cs) right.index in
      let grown = length-append selected (chosen ∷ []) in
      let rest =
        mmr_loop-selects lambda fallback places (remove_at found.0.index (c ∷ cs))
          (selected ++ (chosen ∷ [])) found.1 (All-remove_at P found.0.index (c ∷ cs) hp)
          (All-append P selected (chosen ∷ []) hs
            (keeps lambda fallback found.0 found.1 found.0.candidate right.fact, tt)) in
      (rest.0, omega (arith, rest.1))

  ranked-All :
      (cs : List (SearchResult f)) (limit : ℕ)
      → All P cs
      → All P (ranked sim cs limit) × (length (ranked sim cs limit) ≡ min limit (length cs))
  unfolding ranked
  ranked-All cs limit h =
      let sorted = sort_by stable_rank_leb cs in
      let moved = reserve-All P sorted limit (All-sort_by stable_rank_leb P cs h) in
      (
        All-take P limit (reserve_protected_candidates_in_prefix sorted limit) moved.0,
        omega (
          arith,
          length-take P limit (reserve_protected_candidates_in_prefix sorted limit),
          moved.1,
          length-sort_by stable_rank_leb cs,
        ),
      )

  -- The number of the results, and the facts of all.
  apply_mmr_rerank-size :
      (candidates : List (SearchResult f)) (final_limit : ℕ) (enabled : Bool) (lambda : f.F)
      (candidate_limit : ℕ) (fallback : String)
      → All P candidates
      → let r =
          apply_mmr_rerank sim candidates final_limit enabled lambda candidate_limit fallback in
        All P r.results
        × (length r.results ≤ final_limit)
        × (min final_limit (length candidates) ≤ length r.results)
        × (r.selected_count ≡ length r.results)
  unfolding apply_mmr_rerank preserve_protected_candidates_in_selection
  apply_mmr_rerank-size candidates final_limit false lambda candidate_limit fallback h =
      let r = ranked-All candidates final_limit h in
      (r.0, omega (arith, r.1), omega (arith, r.1), refl)
  apply_mmr_rerank-size candidates final_limit true lambda candidate_limit fallback h =
      let prepared = ranked sim candidates (max candidate_limit final_limit) in
      let r = ranked-All candidates (max candidate_limit final_limit) h in
      let start : Counts = record { dense = 0; token = 0 } in
      let chosen = mmr_loop sim lambda fallback final_limit prepared [] start in
      let c = mmr_loop-selects lambda fallback final_limit prepared [] start r.0 tt in
      let low = min final_limit (length candidates) in
      let within : IsWithin P low final_limit chosen.0 = record {
        few = omega (arith, c.1);
        many = omega (arith, c.1, r.1);
        kept = c.0;
      } in
      let protected = retain is_ranking_protected prepared in
      elim (Bool-cases (final_limit == 0)) [
        | inl e ↦ rw e (within.kept, within.few, within.many, refl)
        | inr e ↦
            let final =
              preserve_from-IsWithin P low final_limit 0 protected chosen.0
                (All-retain P is_ranking_protected prepared r.0) within in
            rw e (final.kept, final.few, final.many, refl)
      ]

  -- The selection, reranked or not, has as many results as there are candidates, at most the
  -- limit, and `selected_count` is their number; no identity occurs more often among the results
  -- than among the candidates; what holds of all candidates and is kept by the metadata of the
  -- reranking holds of the selected results.
  pub apply_mmr_rerank-selects :
      (candidates : List (SearchResult f)) (final_limit : ℕ) (enabled : Bool) (lambda : f.F)
      (candidate_limit : ℕ) (fallback : String)
      → All P candidates
      → let r =
          apply_mmr_rerank sim candidates final_limit enabled lambda candidate_limit fallback in
        All P r.results
        × (length r.results ≡ min final_limit (length candidates))
        × ((k : String) → occurrences k r.results ≤ occurrences k candidates)
        × (r.selected_count ≡ length r.results)
  apply_mmr_rerank-selects candidates final_limit enabled lambda candidate_limit fallback h =
      let r = apply_mmr_rerank sim candidates final_limit enabled lambda candidate_limit fallback in
      let (facts, few, many, counted) =
        apply_mmr_rerank-size candidates final_limit enabled lambda candidate_limit fallback h in
      let bounded = λ (k : String).
        apply_mmr_rerank-occurrences sim k candidates final_limit enabled lambda candidate_limit
          fallback in
      (
        facts,
        omega (arith, few, many, occurrences-length r.results candidates bounded),
        bounded,
        counted,
      )
