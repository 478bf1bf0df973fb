-- ===== src/Scheduler/Submit/Order.antt =====
-- The order of completion does not show in the answer of `submit_many` (src/scheduler/mod.rs).
use mathlib.Core.List.{Permᴰ}
use llm.Base.{
  ℕ, suc, ◌+◌, ◌≤◌, ◌<◌, ◌≡◌, ◌≢◌, refl, ap, ap₂, subst, ◌∙◌, ◌++◌, Bool, true, List, [], ◌∷◌,
  arith, ◌==◌, if◌then◌else◌,
}
use llm.Error.{AstraError, Result, ok, err}
use llm.Scheduler.Submit.{
  insert_by_key, sort_by_key, outputs, submit_many, collected, values, in_order,
}

module _ {ℓ} {E : Type ℓ} where
  abbrev pub enumerate : ℕ → List E → List (ℕ × E)
  enumerate i [] = []
  enumerate i (v ∷ vs) = (i, v) ∷ enumerate (suc i) vs

  abbrev count_key : ℕ → List (ℕ × E) → ℕ
  count_key k [] = 0
  count_key k (x ∷ xs) = (if x.0 == k then 1 else 0) + count_key k xs

  abbrev IsDistinct : List (ℕ × E) → Type 0
  IsDistinct xs = (k : ℕ) → count_key k xs ≤ 1

  insert_comm :
      (x y : ℕ × E) (xs : List (ℕ × E))
      → x.0 ≢ y.0
      → insert_by_key x (insert_by_key y xs) ≡ insert_by_key y (insert_by_key x xs)
  unfolding insert_by_key
  insert_comm x y [] ne = ground arith
  insert_comm x y (z ∷ zs) ne = ground (arith, insert_comm x y zs ne)

  count_key-Permᴰ : (k : ℕ) {xs ys : List (ℕ × E)} → Permᴰ xs ys → count_key k xs ≡ count_key k ys
  count_key-Permᴰ k Permᴰ.nil = refl
  count_key-Permᴰ k (Permᴰ.cons e p) = rw (e, count_key-Permᴰ k p)
  count_key-Permᴰ k (Permᴰ.swap {l = l} e f) = rw (e, f) (omega arith)
  count_key-Permᴰ k (Permᴰ.trans p q) = count_key-Permᴰ k p ∙ count_key-Permᴰ k q

  IsDistinct-ne : (x y : ℕ × E) (xs : List (ℕ × E)) → IsDistinct (x ∷ y ∷ xs) → x.0 ≢ y.0
  IsDistinct-ne x y xs d e = ground (arith, d x.0)

  IsDistinct-tail : (x : ℕ × E) (xs : List (ℕ × E)) → IsDistinct (x ∷ xs) → IsDistinct xs
  IsDistinct-tail x xs d k = omega (arith, d k)

  sort_by_key-Permᴰ :
      {xs ys : List (ℕ × E)} → Permᴰ xs ys → IsDistinct xs → sort_by_key xs ≡ sort_by_key ys
  unfolding sort_by_key
  sort_by_key-Permᴰ Permᴰ.nil d = refl
  sort_by_key-Permᴰ (Permᴰ.cons {a = a} {b = b} {l₁ = xs} {l₂ = ys} e p) d =
      ap₂ insert_by_key e (sort_by_key-Permᴰ p (IsDistinct-tail a xs d))
  sort_by_key-Permᴰ (Permᴰ.swap {a = a} {b = b} {l = l} e f) d =
      insert_comm a b (sort_by_key l) (IsDistinct-ne a b l d)
      ∙ ap₂ (λ x y. insert_by_key x (insert_by_key y (sort_by_key l))) f e
  sort_by_key-Permᴰ (Permᴰ.trans {l₁ = xs} {l₂ = ys} p q) d =
      sort_by_key-Permᴰ p d
      ∙ sort_by_key-Permᴰ q (λ k. subst (λ n. n ≤ 1) (count_key-Permᴰ k p) (d k))

  count_key-enumerate : (k i : ℕ) (vs : List E) → k < i → count_key k (enumerate i vs) ≡ 0
  count_key-enumerate k i [] h = refl
  count_key-enumerate k i (v ∷ vs) h = ground (arith, count_key-enumerate k (suc i) vs)

  enumerate-IsDistinct : (i : ℕ) (vs : List E) → IsDistinct (enumerate i vs)
  enumerate-IsDistinct i [] k = omega arith
  enumerate-IsDistinct i (v ∷ vs) k =
      ground (arith, count_key-enumerate k (suc i) vs, enumerate-IsDistinct (suc i) vs k)

  insert_by_key-enumerate :
      (i : ℕ) (v : E) (vs : List E)
      → insert_by_key (i, v) (enumerate (suc i) vs) ≡ (i, v) ∷ enumerate (suc i) vs
  unfolding insert_by_key
  insert_by_key-enumerate i v [] = refl
  insert_by_key-enumerate i v (w ∷ ws) = ground arith

  sort_by_key-enumerate : (i : ℕ) (vs : List E) → sort_by_key (enumerate i vs) ≡ enumerate i vs
  unfolding sort_by_key
  sort_by_key-enumerate i [] = refl
  sort_by_key-enumerate i (v ∷ vs) =
      rw (sort_by_key-enumerate (suc i) vs) (insert_by_key-enumerate i v vs)

  values-enumerate : (i : ℕ) (vs : List E) → values (enumerate i vs) ≡ vs
  unfolding values
  values-enumerate i [] = refl
  values-enumerate i (v ∷ vs) = ap (◌∷◌ v) (values-enumerate (suc i) vs)

  abbrev pub successes : List (ℕ × E) → List (ℕ × Result E)
  successes [] = []
  successes ((i, v) ∷ os) = (i, ok v) ∷ successes os

  outputs-successes : (os : List (ℕ × E)) → outputs (successes os) ≡ ok os
  unfolding outputs
  outputs-successes [] = refl
  outputs-successes ((i, v) ∷ os) = rw (outputs-successes os)

  -- If every request succeeds, and the order is to be preserved, then `submit_many` returns the
  -- values in the order of the inputs, in whatever order the requests completed.
  pub submit_many-order :
      {I : Type 0} (input : I) (inputs : List I) (vs : List E) (completed : List (ℕ × E))
      → Permᴰ (enumerate 0 vs) completed
      → submit_many true (input ∷ inputs) (successes completed) ≡ ok vs
  unfolding submit_many collected in_order
  submit_many-order input inputs vs completed p = rw (
    outputs-successes completed,
    ← sort_by_key-Permᴰ p (enumerate-IsDistinct 0 vs),
    sort_by_key-enumerate 0 vs,
    values-enumerate 0 vs,
  )

  outputs-first_error :
      (before : List (ℕ × E)) (i : ℕ) (e : AstraError) (after : List (ℕ × Result E))
      → outputs (successes before ++ (i, err e) ∷ after) ≡ err e
  unfolding outputs
  outputs-first_error [] i e after = refl
  outputs-first_error (b ∷ before) i e after = rw (outputs-first_error before i e after)

  -- If a request fails, then `submit_many` returns the error of the request that failed first,
  -- whether or not the order is to be preserved and whatever comes after it.
  pub submit_many-first_error :
      {I : Type 0} (preserve_order : Bool) (input : I) (inputs : List I) (before : List (ℕ × E))
      (i : ℕ) (e : AstraError) (after : List (ℕ × Result E))
      → submit_many preserve_order (input ∷ inputs) (successes before ++ (i, err e) ∷ after) ≡ err e
  unfolding submit_many collected
  submit_many-first_error preserve_order input inputs before i e after =
      rw (outputs-first_error before i e after)
