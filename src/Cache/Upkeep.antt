-- ===== src/Cache/Upkeep.antt =====
-- The background statements on the rows of the embedding cache: the reset of expired leases
-- (src/recovery/mod.rs) and the deletion of unused rows (src/retention/mod.rs). A row that another
-- transaction has locked, or that a batch has no place for, is left out of a statement: then it
-- does not happen to the row.
use llm.Base.{ℕ, Bool, true, ◌&&◌, not, Option, none, some, List, [], ◌∷◌, ltb, if◌then◌else◌}
use llm.Cache.{CacheEntry, Status, is_processing, sql_before}
use llm.Cache.Refine.{Statement, execute}

pub data Event (A : Type 0) : Type 0 where
  statement : Statement A → Event A
  recover : ℕ → Event A
  clean : ℕ → ℕ → Event A

module _ {A : Type 0} where
  unfoldable pub recover_stale : ℕ → Option (CacheEntry A) → Option (CacheEntry A)
  recover_stale now none = none
  recover_stale now (some e) =
      if is_processing e.status && sql_before e.lease_expires_at now
      then some (record e { status = Status.failed })
      else some e

  -- `accessed` is the row's `last_accessed_at`.
  unfoldable pub delete_unused : ℕ → ℕ → Option (CacheEntry A) → Option (CacheEntry A)
  delete_unused accessed cutoff none = none
  delete_unused accessed cutoff (some e) =
      if not (is_processing e.status) && ltb accessed cutoff then none else some e

  unfoldable pub happen : Event A → Option (CacheEntry A) → Option (CacheEntry A)
  unfolding execute recover_stale delete_unused
  happen (statement s) row = (execute s row).0
  happen (recover now) row = recover_stale now row
  happen (clean accessed cutoff) row = delete_unused accessed cutoff row

  unfoldable pub happen_all : List (Event A) → Option (CacheEntry A) → Option (CacheEntry A)
  unfolding happen
  happen_all [] row = row
  happen_all (e ∷ es) row = happen_all es (happen e row)

  -- A cleanup finds the row accessed since its cutoff.
  abbrev pub keeps_used : Event A → Bool
  keeps_used (statement s) = true
  keeps_used (recover now) = true
  keeps_used (clean accessed cutoff) = not (ltb accessed cutoff)
