-- ===== src/Ranking/Found.antt =====
-- The best candidate of a round is one of the prepared ones (apply_mmr_rerank of
-- src/grpc/mod.rs).
use llm.Base.{
  ℕ, suc, ◌+◌, ◌≤◌, ◌<◌, ◌≡◌, ap, ◌∙◌, arith, some, List, [], ◌∷◌, length, All, get_elem?,
  if◌then◌else◌, inl, inr, Bool-cases,
}
use llm.Ranking.{Float, SearchResult, score_of}
use llm.Ranking.Mmr.{Similarity, Counts, Best, wins, max_similarity, best_of}

module _ {κ} {f : Float} (sim : Similarity f) (P : SearchResult f → Type κ) where
  -- The best candidate is one of the prepared ones, at its index.
  pub record IsFound (all : List (SearchResult f)) (b : Best sim) : Type κ where
    pub index : b.index < length all
    pub fact : P b.candidate
    pub stands : get_elem? all b.index ≡ some b.candidate

  pub best_of-IsFound :
      (all : List (SearchResult f)) (lambda : f.F) (selected : List (SearchResult f)) (i : ℕ)
      (cs : List (SearchResult f)) (best : Best sim) (n : Counts)
      → i + length cs ≤ length all
      → ((m : ℕ) → get_elem? all (i + m) ≡ get_elem? cs m)
      → All P cs
      → IsFound all best
      → IsFound all (best_of sim lambda selected i cs best n).0
  unfolding best_of
  best_of-IsFound all lambda selected i [] best n le at h b = b
  best_of-IsFound all lambda selected i (c ∷ cs) best n le at h b =
      let found = max_similarity sim c selected f.zero n in
      let score = f.sub (f.mul lambda (score_of c)) (f.mul (f.sub f.one lambda) found.0) in
      let taken : Best sim = record {
        index = i;
        candidate = c;
        mmr = score;
        similarity = found.0;
      } in
      best_of-IsFound all lambda selected (suc i) cs
        (if wins sim c score found.0 best then taken else best) found.1 (omega arith)
        (λ m. let same : suc i + m ≡ i + suc m = omega arith in rw same (at (suc m))) h.1
        (elim (Bool-cases (wins sim c score found.0 best)) [
          | inl e ↦ rw e (record {
            index = omega arith;
            fact = h.0;
            stands = let same : i ≡ i + 0 = omega arith in ap (λ q. get_elem? all q) same ∙ at 0;
          })
          | inr e ↦ rw e b
        ])
