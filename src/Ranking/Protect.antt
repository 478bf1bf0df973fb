-- ===== src/Ranking/Protect.antt =====
-- The protected candidates of a ranking (reserve_protected_candidates_in_prefix and
-- preserve_protected_candidates_in_selection of src/grpc/mod.rs).
use llm.Base.{
  ℕ, zero, suc, min, Bool, true, false, ◌&&◌, ◌||◌, not, Option, none, some, List, [], ◌∷◌, ◌++◌,
  ltb, leb, ◌==◌, if◌then◌else◌, length, any, retain, get_elem?,
}
use llm.Strings.{same}
use llm.Ranking.{Float, SearchResult, is_ranking_protected, result_identity_key}

abbrev pub set_at {ℓ} : {A : Type ℓ} → ℕ → A → List A → List A
set_at i a [] = []
set_at zero a (x ∷ xs) = a ∷ xs
set_at (suc i) a (x ∷ xs) = x ∷ set_at i a xs

-- `swap`, of two indices that are in the list.
unfoldable pub swap {ℓ} : {A : Type ℓ} → ℕ → ℕ → List A → List A
swap i j xs = elim (get_elem? xs i) [
  | none ↦ xs
  | some a ↦ elim (get_elem? xs j) [ none ↦ xs | some b ↦ set_at j a (set_at i b xs) ]
]

-- `insert`, at most at the end.
abbrev pub insert_at {ℓ} : {A : Type ℓ} → ℕ → A → List A → List A
insert_at zero a xs = a ∷ xs
insert_at (suc i) a [] = a ∷ []
insert_at (suc i) a (x ∷ xs) = x ∷ insert_at i a xs

module _ {f : Float} where
  -- The indices from `i` on of the elements that are protected, or not.
  abbrev pub indices : Bool → ℕ → List (SearchResult f) → List ℕ
  indices wanted i [] = []
  indices wanted i (x ∷ xs) =
      if (is_ranking_protected x && wanted) || (not (is_ranking_protected x) && not wanted)
      then i ∷ indices wanted (suc i) xs
      else indices wanted (suc i) xs

  -- The slots are popped from the end of the reversed list of indices: the lowest comes first.
  abbrev pub exchange : List ℕ → List ℕ → List (SearchResult f) → List (SearchResult f)
  exchange slots [] xs = xs
  exchange [] (p ∷ ps) xs = xs
  exchange (slot ∷ slots) (p ∷ ps) xs = exchange slots ps (swap slot p xs)

  unfoldable pub reserve_protected_candidates_in_prefix :
      List (SearchResult f) → ℕ → List (SearchResult f)
  unfolding is_ranking_protected swap
  reserve_protected_candidates_in_prefix xs prefix_limit =
      if prefix_limit == 0 || leb (length xs) prefix_limit
      then xs
      else exchange (retain (λ i. ltb i prefix_limit) (indices false 0 xs))
          (retain (λ i. leb prefix_limit i) (indices true 0 xs)) xs

  unfoldable pub has_key : SearchResult f → List (SearchResult f) → Bool
  unfolding result_identity_key
  has_key c xs = any (λ x. same (result_identity_key x) (result_identity_key c)) xs

  -- The list without its last unprotected element, if it has one: `rposition` and `remove`.
  unfoldable pub without_last : List (SearchResult f) → Option (List (SearchResult f))
  unfolding is_ranking_protected
  without_last [] = none
  without_last (x ∷ xs) = elim (without_last xs) [
    | some ys ↦ some (x ∷ ys)
    | none ↦ if is_ranking_protected x then none else some xs
  ]

  unfoldable pub preserve_one :
      ℕ → ℕ → SearchResult f → List (SearchResult f) → List (SearchResult f)
  unfolding has_key without_last
  preserve_one final_limit rank c selected =
      if has_key c selected
      then selected
      else if ltb (length selected) final_limit
      then selected ++ (c ∷ [])
      else elim (without_last selected) [
        | none ↦ selected
        | some rest ↦ insert_at (min rank (length rest)) c rest
      ]

  unfoldable pub preserve_from :
      ℕ → ℕ → List (SearchResult f) → List (SearchResult f) → List (SearchResult f)
  unfolding preserve_one
  preserve_from final_limit rank [] selected = selected
  preserve_from final_limit rank (c ∷ cs) selected =
      preserve_from final_limit (suc rank) cs (preserve_one final_limit rank c selected)

  unfoldable pub preserve_protected_candidates_in_selection :
      List (SearchResult f) → List (SearchResult f) → ℕ → List (SearchResult f)
  unfolding preserve_from
  preserve_protected_candidates_in_selection selected protected final_limit =
      if final_limit == 0 then selected else preserve_from final_limit 0 protected selected
