-- ===== src/Ranking/Distinct.antt =====
-- No result is selected more often than it is a candidate (apply_mmr_rerank of src/grpc/mod.rs).
use llm.Base.{
  ℕ, zero, suc, ◌+◌, ◌≤◌, ◌≡◌, refl, ap, ◌∙◌, arith, String, Bool, true, false, none, some, List,
  [], ◌∷◌, ◌++◌, All, All-retain, All-sort_by, max, ◌==◌, retain, if◌then◌else◌, inl, inr,
  Bool-cases, Option-cases, sort_by,
}
use llm.Staging.Json.{bind}
use llm.Strings.{decimal, same, trim, empty}
use llm.Ranking.{
  identity_from, Float, SearchResult, metadata_insert, is_ranking_protected, stable_rank_leb,
  result_identity_key, result_source_block_id,
}
use llm.Ranking.Budget.{remove_at}
use llm.Ranking.Protect.{
  reserve_protected_candidates_in_prefix, preserve_protected_candidates_in_selection,
}
use llm.Ranking.Mmr.{
  Similarity, Counts, Best, effective_source, best_of, annotated, mmr_loop, ranked,
  apply_mmr_rerank,
}
use llm.Ranking.Tally.{one, tally-append, tally-take, tally-remove_at, tally-sort_by}
use llm.Ranking.Found.{best_of-IsFound}
use llm.Ranking.Preserve.{reserve-All}
use llm.Ranking.Places.{All-take}
use llm.Ranking.Identity.{
  metadata_get-insert, has_identity, occurrences, occurrences-reserve, preserve_from-occurrences,
  Backed, all-Backed,
}

everywhere : {A : Type 0} (xs : List A) → All (λ x. Unit {0}) xs
everywhere [] = tt
everywhere (x ∷ xs) = (tt, everywhere xs)

module _ {f : Float} (sim : Similarity f) where
  -- The metadata of the reranking do not name another block.
  annotated-block :
      (lambda : f.F) (fallback : String) (b : Best sim) (n : Counts) (r : SearchResult f)
      → result_source_block_id (annotated sim lambda fallback b n r) ≡ result_source_block_id r
  unfolding annotated result_source_block_id
  annotated-block lambda fallback b n r = elim (Option-cases r.citation) [
    | inl e ↦ rw (e, annotated) rw e refl
    | inr (m, e) ↦
        let m1 = metadata_insert "rerank_stage" "MMR" m in
        let m2 = metadata_insert "mmr_score" (f.to_string b.mmr) m1 in
        let m3 = metadata_insert "mmr_lambda" (f.to_string lambda) m2 in
        let m4 = metadata_insert "mmr_max_similarity_to_selected" (f.to_string b.similarity) m3 in
        let m5 = metadata_insert "mmr_similarity_source" (effective_source n fallback) m4 in
        let m6 = metadata_insert "mmr_dense_pair_comparisons" (decimal n.dense) m5 in
        let kept = metadata_get-insert "source_block_id" in
        rw (e, annotated)
          (ap (λ v. bind v (λ w. if empty (trim w) then none else some w))
            (kept "mmr_token_pair_comparisons" (decimal n.token) m6 refl
              ∙ kept "mmr_dense_pair_comparisons" (decimal n.dense) m5 refl
              ∙ kept "mmr_similarity_source" (effective_source n fallback) m4 refl
              ∙ kept "mmr_max_similarity_to_selected" (f.to_string b.similarity) m3 refl
              ∙ kept "mmr_lambda" (f.to_string lambda) m2 refl
              ∙ kept "mmr_score" (f.to_string b.mmr) m1 refl
              ∙ kept "rerank_stage" "MMR" m refl))
  ]

  abbrev IsSame : SearchResult f → SearchResult f → Type 0
  IsSame r s =
      (r.access_zone_id ≡ s.access_zone_id)
      × (r.document_id ≡ s.document_id)
      × (r.matched_chunk_id ≡ s.matched_chunk_id)

  annotated-IsSame :
      (lambda : f.F) (fallback : String) (b : Best sim) (n : Counts) (r : SearchResult f)
      → IsSame (annotated sim lambda fallback b n r) r
  unfolding annotated
  annotated-IsSame lambda fallback b n r = elim (Option-cases r.citation) [
    | inl e ↦ rw (e, annotated) (refl, refl, refl)
    | inr (m, e) ↦ rw (e, annotated) (refl, refl, refl)
  ]

  identity-eq :
      (r s : SearchResult f)
      → result_source_block_id r ≡ result_source_block_id s
      → IsSame r s
      → result_identity_key r ≡ result_identity_key s
  unfolding result_identity_key
  identity-eq r s e (zone, document, chunk) =
      ap (λ b. identity_from b r.access_zone_id r.document_id r.matched_chunk_id) e
      ∙ ap (λ z. identity_from (result_source_block_id s) z r.document_id r.matched_chunk_id) zone
      ∙ ap (λ d. identity_from (result_source_block_id s) s.access_zone_id d r.matched_chunk_id)
          document
      ∙ ap (λ c. identity_from (result_source_block_id s) s.access_zone_id s.document_id c) chunk

  annotated-identity :
      (lambda : f.F) (fallback : String) (b : Best sim) (n : Counts) (r : SearchResult f)
      → result_identity_key (annotated sim lambda fallback b n r) ≡ result_identity_key r
  annotated-identity lambda fallback b n r =
      identity-eq (annotated sim lambda fallback b n r) r (annotated-block lambda fallback b n r)
        (annotated-IsSame lambda fallback b n r)

  module _ (k : String) where
    mmr_loop-occurrences :
        (lambda : f.F) (fallback : String) (places : ℕ) (prepared selected : List (SearchResult f))
        (n : Counts)
        → occurrences k (mmr_loop sim lambda fallback places prepared selected n).0
          ≤ occurrences k selected + occurrences k prepared
    unfolding mmr_loop
    mmr_loop-occurrences lambda fallback zero prepared selected n = omega arith
    mmr_loop-occurrences lambda fallback (suc places) [] selected n = omega arith
    mmr_loop-occurrences lambda fallback (suc places) (c ∷ cs) selected n =
        let start : Best sim = record {
          index = 0;
          candidate = c;
          mmr = f.min_value;
          similarity = f.zero;
        } in
        let found = best_of sim lambda selected 0 (c ∷ cs) start n in
        let right =
          best_of-IsFound sim (λ x. Unit {0}) (c ∷ cs) lambda selected 0 (c ∷ cs) start n
            (omega arith) (λ m. let same : 0 + m ≡ m = omega arith in rw same refl)
            (everywhere (c ∷ cs)) (record { index = omega arith; fact = tt; stands = refl }) in
        let chosen = annotated sim lambda fallback found.0 found.1 found.0.candidate in
        let left = remove_at found.0.index (c ∷ cs) in
        let rest =
          mmr_loop-occurrences lambda fallback places left (selected ++ (chosen ∷ [])) found.1 in
        let gone =
          tally-remove_at (has_identity k) found.0.index found.0.candidate (c ∷ cs) right.stands in
        let as_before : one (has_identity k chosen) ≡ one (has_identity k found.0.candidate) =
          ap (λ q. one (same q k))
            (annotated-identity lambda fallback found.0 found.1 found.0.candidate) in
        omega (arith, rest, gone, as_before, tally-append (has_identity k) selected (chosen ∷ []))

    ranked-occurrences :
        (cs : List (SearchResult f)) (limit : ℕ)
        → occurrences k (ranked sim cs limit) ≤ occurrences k cs
    unfolding ranked
    ranked-occurrences cs limit =
        let sorted = sort_by stable_rank_leb cs in
        omega (
          arith,
          tally-take (has_identity k) limit (reserve_protected_candidates_in_prefix sorted limit),
          occurrences-reserve k sorted limit,
          tally-sort_by (has_identity k) stable_rank_leb cs,
        )

    ranked-Backed :
        (cs : List (SearchResult f)) (limit : ℕ)
        → All (Backed k (occurrences k cs)) (ranked sim cs limit)
    unfolding ranked
    ranked-Backed cs limit =
        let P = Backed k (occurrences k cs) in
        let sorted = sort_by stable_rank_leb cs in
        All-take P limit (reserve_protected_candidates_in_prefix sorted limit)
          (reserve-All P sorted limit (All-sort_by stable_rank_leb P cs (all-Backed k cs))).0

    pub apply_mmr_rerank-occurrences :
        (candidates : List (SearchResult f)) (final_limit : ℕ) (enabled : Bool) (lambda : f.F)
        (candidate_limit : ℕ) (fallback : String)
        → occurrences k
            (apply_mmr_rerank sim candidates final_limit enabled lambda candidate_limit
              fallback).results
          ≤ occurrences k candidates
    unfolding apply_mmr_rerank preserve_protected_candidates_in_selection
    apply_mmr_rerank-occurrences candidates final_limit false lambda candidate_limit fallback =
        ranked-occurrences candidates final_limit
    apply_mmr_rerank-occurrences candidates final_limit true lambda candidate_limit fallback =
        let prepared = ranked sim candidates (max candidate_limit final_limit) in
        let start : Counts = record { dense = 0; token = 0 } in
        let chosen = mmr_loop sim lambda fallback final_limit prepared [] start in
        let few : occurrences k chosen.0 ≤ occurrences k candidates = omega (
          arith,
          mmr_loop-occurrences lambda fallback final_limit prepared [] start,
          ranked-occurrences candidates (max candidate_limit final_limit),
        ) in
        elim (Bool-cases (final_limit == 0)) [
          | inl e ↦ rw e few
          | inr e ↦ rw e (
              preserve_from-occurrences k (occurrences k candidates) final_limit 0
                (retain is_ranking_protected prepared) chosen.0
                (All-retain (Backed k (occurrences k candidates)) is_ranking_protected prepared
                  (ranked-Backed candidates (max candidate_limit final_limit)))
                few)
        ]
