-- ===== src/Ranking/Budget/Least.antt =====
-- The result that a round drops (apply_token_budget_truncation of src/grpc/mod.rs).
use llm.Base.{
  ℕ, zero, suc, ◌+◌, ◌≤◌, ◌<◌, ◌≡◌, refl, subst, arith, Bool, true, some, List, [], ◌∷◌, length,
  All, All-retain, if◌then◌else◌,
}
use llm.Ranking.{Float, SearchResult, is_graph_expanded_result, is_ranking_protected}
use llm.Ranking.Budget.{
  RagContextConfig, remove_at, enumerate, least, min_by, lower_score, lowest_graph, goes_later,
  next_to_drop,
}

module _ {ℓ κ} {A : Type ℓ} (P : A → Type κ) (greater : A → A → Bool) where
  least-All : (best : A) (xs : List A) → P best → All P xs → P (least greater best xs)
  least-All best [] p h = p
  least-All best (x ∷ xs) p h =
      least-All (if greater best x then x else best) xs (ground (arith, h.0)) h.1

  pub min_by-All : (xs : List A) (m : A) → min_by greater xs ≡ some m → All P xs → P m
  min_by-All [] m e h = cc
  min_by-All (x ∷ xs) m e h =
      let eq : least greater x xs ≡ m = cc in subst P eq (least-All x xs h.0 h.1)

module _ {ℓ} {A : Type ℓ} where
  enumerate-All : (k n : ℕ) (xs : List A) → k + length xs ≤ n → All (λ x. x.0 < n) (enumerate k xs)
  enumerate-All k n [] le = tt
  enumerate-All k n (x ∷ xs) le = (omega arith, enumerate-All (suc k) n xs (omega arith))

  pub length-remove_at :
      (i : ℕ) (xs : List A) → i < length xs → suc (length (remove_at i xs)) ≡ length xs
  length-remove_at i [] lt = omega arith
  length-remove_at zero (x ∷ xs) lt = refl
  length-remove_at (suc i) (x ∷ xs) lt = omega (arith, length-remove_at i xs (omega arith))

module _ {f : Float} (cfg : RagContextConfig f) where
  pub next_to_drop-lt :
      (rs : List (SearchResult f)) (i : ℕ) (r : SearchResult f)
      → next_to_drop cfg rs ≡ some (i, r)
      → i < length rs
  unfolding next_to_drop
  next_to_drop-lt rs i r e =
      min_by-All (λ x. x.0 < length rs) (λ x y. goes_later cfg x.1 y.1) (enumerate 0 rs) (i, r) e
        (enumerate-All 0 (length rs) rs (omega arith))

  pub lowest_graph-lt :
      (rs : List (SearchResult f)) (i : ℕ) (r : SearchResult f)
      → lowest_graph cfg rs ≡ some (i, r)
      → i < length rs
  unfolding lowest_graph
  lowest_graph-lt rs i r e =
      min_by-All (λ x. x.0 < length rs) (λ x y. lower_score cfg x.1 y.1) _ (i, r) e
        (All-retain (λ x. x.0 < length rs) (λ x. is_graph_expanded_result x.1) (enumerate 0 rs)
          (enumerate-All 0 (length rs) rs (omega arith)))

  -- Of two results, one that goes later than a protected one is protected.
  later-protected :
      (l r : ℕ × SearchResult f)
      → is_ranking_protected (if goes_later cfg l.1 r.1 then r else l).1 ≡ true
      → (is_ranking_protected l.1 ≡ true) × (is_ranking_protected r.1 ≡ true)
  unfolding goes_later
  later-protected l r h = ground arith

  least-protected :
      (best : ℕ × SearchResult f) (k : ℕ) (rs : List (SearchResult f))
      → is_ranking_protected (least (λ x y. goes_later cfg x.1 y.1) best (enumerate k rs)).1 ≡ true
      → (is_ranking_protected best.1 ≡ true) × All (λ r. is_ranking_protected r ≡ true) rs
  least-protected best k [] h = (h, tt)
  least-protected best k (r ∷ rs) h =
      let next = if goes_later cfg best.1 r then (k, r) else best in
      let rest = least-protected next (suc k) rs h in
      let both = later-protected best (k, r) rest.0 in (both.0, (both.1, rest.1))

  -- A round of the last loop drops a protected result only when all results are protected.
  pub next_to_drop-protected :
      (rs : List (SearchResult f)) (i : ℕ) (r : SearchResult f)
      → next_to_drop cfg rs ≡ some (i, r)
      → is_ranking_protected r ≡ true
      → All (λ s. is_ranking_protected s ≡ true) rs
  unfolding next_to_drop
  next_to_drop-protected [] i r e h = tt
  next_to_drop-protected (s ∷ rs) i r e h =
      let eq : least (λ x y. goes_later cfg x.1 y.1) (0, s) (enumerate 1 rs) ≡ (i, r) = cc in
      let found = least-protected (0, s) 1 rs (rw eq h) in (found.0, found.1)
