-- ===== src/Cache/Final.antt =====
-- A completed cache entry is final while its row is not deleted, and an overtaken owner can not
-- write (src/persistence/mod.rs and src/reliability/mod.rs). The deletions of src/retention/mod.rs
-- and the resets of src/recovery/mod.rs are not among the statements.
use llm.Base.{
  ℕ, ◌≤◌, ◌<◌, ◌≡◌, refl, sym, subst, ◌∙◌, ap, arith, true, false, ◌&&◌, Option, none, some, List,
  [], ◌∷◌, ◌==◌, inl, inr, Bool-cases,
}
use llm.Cache.{CacheEntry, is_owned, persist_owned, persist_required, load_completed}
use llm.Cache.Spec.{Lease, vacant, held, settled, Call, enter, seize, settle, respond}
use llm.Cache.Refine.{Statement, Status-cases, execute, view, call_of, run, execute-respond}

-- The token `t` has been given out.
unfoldable pub IsPast : {A : Type 0} → ℕ → Lease A → Type 0
IsPast t vacant = ⊥
IsPast t (held u) = t ≤ u
IsPast t (settled v) = Unit

module _ {A : Type 0} where
  respond-IsPast : (t : ℕ) (c : Call A) (l : Lease A) → IsPast t l → IsPast t (respond c l).0
  unfolding IsPast
  respond-IsPast t c vacant h = absurd h
  respond-IsPast t enter (held u) h = h
  respond-IsPast t (seize true) (held u) h = omega arith
  respond-IsPast t (seize false) (held u) h = h
  respond-IsPast t (settle b s v) (held u) h = elim (Bool-cases (b && u == s)) [
    | inl e ↦ rw e tt
    | inr e ↦ rw e h
  ]
  respond-IsPast t enter (settled v) h = tt
  respond-IsPast t (seize b) (settled v) h = tt
  respond-IsPast t (settle b s w) (settled v) h = tt

  respond-settled : (c : Call A) (v : Option A) → (respond c (settled v)).0 ≡ settled v
  respond-settled enter v = refl
  respond-settled (seize b) v = refl
  respond-settled (settle b s w) v = refl

  run-IsPast :
      (t : ℕ) (ss : List (Statement A)) (row : Option (CacheEntry A))
      → IsPast t (view row)
      → IsPast t (view (run ss row).0)
  unfolding run
  run-IsPast t [] row h = h
  run-IsPast t (s ∷ ss) row h = run-IsPast t ss (execute s row).0 (
      subst (IsPast t) (sym (execute-respond s row).0)
        (respond-IsPast t (call_of s row) (view row) h))

  run-settled :
      (v : Option A) (ss : List (Statement A)) (row : Option (CacheEntry A))
      → view row ≡ settled v
      → view (run ss row).0 ≡ settled v
  unfolding run
  run-settled v [] row h = h
  run-settled v (s ∷ ss) row h = run-settled v ss (execute s row).0 (
      (execute-respond s row).0
      ∙ ap (λ l. (respond (call_of s row) l).0) h
      ∙ respond-settled (call_of s row) v)

  load-settled :
      (v : A) (row : Option (CacheEntry A))
      → load_completed row ≡ some v
      → view row ≡ settled (some v)
  unfolding load_completed
  load-settled v none h = cc
  load-settled v (some e) h = elim (Status-cases e.status) [
    | inl s ↦ let h' = rw s at h in cc
    | inr (inl s) ↦ let h' = rw s at h in cc
    | inr (inr s) ↦ let h' = rw s at h in rw s (ap settled h')
  ]

  settled-load :
      (v : A) (row : Option (CacheEntry A))
      → view row ≡ settled (some v)
      → load_completed row ≡ some v
  unfolding load_completed
  settled-load v none h = cc
  settled-load v (some e) h = elim (Status-cases e.status) [
    | inl s ↦ let h' = rw s at h in cc
    | inr (inl s) ↦ let h' = rw s at h in cc
    | inr (inr s) ↦ let h' = rw s at h in rw s (let eq : e.result ≡ some v = cc in eq)
  ]

  not_owned :
      (t s owner : ℕ) (e : CacheEntry A)
      → IsPast t (view (some e))
      → s < t
      → is_owned owner s e ≡ false
  unfolding is_owned IsPast
  not_owned t s owner e h lt = elim (Status-cases e.status) [
    | inl p ↦ let h' = rw p at h in ground arith
    | inr (inl p) ↦ rw p refl
    | inr (inr p) ↦ rw p refl
  ]

  -- Once a later token has been given out, no write with an earlier one succeeds or changes the
  -- row, after any further statements of any instances.
  pub overtaken-refused :
      (t s owner now : ℕ) (value : A) (ss : List (Statement A)) (row : Option (CacheEntry A))
      → IsPast t (view row)
      → s < t
      → (persist_owned owner s value (run ss row).0 ≡ ((run ss row).0, false))
        × (persist_required owner s value now (run ss row).0 ≡ ((run ss row).0, false))
  overtaken-refused t s owner now value ss row h lt = refused (run ss row).0 (run-IsPast t ss row h)
    where
      refused :
          (r : Option (CacheEntry A))
          → IsPast t (view r)
          → (persist_owned owner s value r ≡ (r, false))
            × (persist_required owner s value now r ≡ (r, false))
      refused none p = unfold IsPast in absurd p
      refused (some e) p =
          let no = not_owned t s owner e p lt in
          unfold persist_owned persist_required in rw no (refl, refl)

  -- A result that can be loaded stays the one that is loaded, whatever insertions, takeovers and
  -- writes of both kinds follow, in any order and of any owners.
  pub load_completed-final :
      (v : A) (ss : List (Statement A)) (row : Option (CacheEntry A))
      → load_completed row ≡ some v
      → load_completed (run ss row).0 ≡ some v
  load_completed-final v ss row h =
      settled-load v (run ss row).0 (run-settled (some v) ss row (load-settled v row h))
