-- ===== src/Outbox/Process/Fences.antt =====
-- The checks around the effects in Qdrant (src/outbox/mod.rs: `process_event`).
use llm.Base.{
  ℕ, ◌≡◌, refl, Bool, true, false, ◌&&◌, not, Option, none, some, List, [], ◌∷◌, arith, ◌==◌, any,
}
use llm.Outbox.Process.{
  Lifecycle, SyncStatus, Operation, Binding, Effect, World, Processed, awaits_delete, mark_synced,
  upsert_from_cache, update_or_upsert, finish_delete, claim_delete, process_event,
}

abbrev pub is_deletion : Effect → Bool
is_deletion Effect.deleted_point = true
is_deletion _ = false

abbrev pub deletes : Processed → Bool
deletes p = any is_deletion p.effects

-- The binding may lose its point: no hold, the generation of the event, a deletion that waits.
abbrev pub may_delete : ℕ → Binding → Bool
may_delete version b = b.ttl_generation == version && not b.legal_hold && awaits_delete b.sync

mark_synced-kept :
    (w : World) (version : ℕ) (effects : List Effect) (b : Binding)
    → any is_deletion effects ≡ false
    → deletes (mark_synced w version effects b) ≡ false
unfolding mark_synced
mark_synced-kept w version effects b h = ground (arith, h)

upsert_from_cache-kept :
    (w : World) (version : ℕ) (b : Binding) → deletes (upsert_from_cache w version b) ≡ false
unfolding upsert_from_cache
upsert_from_cache-kept w version b =
    ground (arith, mark_synced-kept w version (Effect.upserted ∷ []) (w.before_finish b) refl)

update_or_upsert-kept :
    (w : World) (version : ℕ) (b : Binding) (o : Option Bool)
    → deletes (update_or_upsert w version b o) ≡ false
unfolding update_or_upsert
update_or_upsert-kept w version b none = refl
update_or_upsert-kept w version b (some false) = upsert_from_cache-kept w version b
update_or_upsert-kept w version b (some true) =
    ground (arith, mark_synced-kept w version (Effect.updated ∷ []) (w.before_finish b) refl)

claim_delete-may :
    (w : World) (version : ℕ) (b : Binding)
    → deletes (claim_delete w version b) ≡ true
    → may_delete version b ≡ true
unfolding claim_delete
claim_delete-may w version b h = ground arith

-- A point is deleted in Qdrant only by DELETE_POINT, and only if the binding, as it stands when the
-- deletion is claimed, has no legal hold, has the generation of the event and waits for deletion,
-- whatever other transactions did after the event was checked.
pub process_event-may_delete :
    (w : World) (op : Operation) (version : ℕ) (b : Binding)
    → deletes (process_event w op version b) ≡ true
    → (op ≡ Operation.delete_point) × (may_delete version (w.before_claim b) ≡ true)
unfolding process_event
process_event-may_delete w Operation.upsert_point version b h =
    ground (arith, upsert_from_cache-kept w version (w.before_claim b))
process_event-may_delete w Operation.update_payload version b h =
    ground (arith, update_or_upsert-kept w version (w.before_claim b) w.exists)
process_event-may_delete w Operation.delete_point version b h =
    (refl, ground (arith, claim_delete-may w version (w.before_claim b)))
process_event-may_delete w Operation.quarantine_point version b h = ground arith
process_event-may_delete w Operation.unknown version b h = ground arith

finish_delete-ends :
    (w : World) (version : ℕ) (b : Binding)
    → (finish_delete w version b).failure ≡ none
    → ((finish_delete w version b).binding.sync ≡ SyncStatus.deleted)
      × ((finish_delete w version b).binding.lifecycle ≡ Lifecycle.soft_deleted)
unfolding finish_delete
finish_delete-ends w version b h = ground arith

claim_delete-ends :
    (w : World) (version : ℕ) (b : Binding)
    → deletes (claim_delete w version b) ≡ true
    → (claim_delete w version b).failure ≡ none
    → ((claim_delete w version b).binding.sync ≡ SyncStatus.deleted)
      × ((claim_delete w version b).binding.lifecycle ≡ Lifecycle.soft_deleted)
unfolding claim_delete
claim_delete-ends w version b h ok = ground (
  arith,
  finish_delete-ends w version
      (w.before_finish (record b { sync = SyncStatus.delete_in_progress })),
)

-- Where a deletion has happened and the event does not fail, the binding is marked as deleted.
pub process_event-deleted :
    (w : World) (op : Operation) (version : ℕ) (b : Binding)
    → deletes (process_event w op version b) ≡ true
    → (process_event w op version b).failure ≡ none
    → ((process_event w op version b).binding.sync ≡ SyncStatus.deleted)
      × ((process_event w op version b).binding.lifecycle ≡ Lifecycle.soft_deleted)
unfolding process_event
process_event-deleted w Operation.upsert_point version b h ok =
    ground (arith, upsert_from_cache-kept w version (w.before_claim b))
process_event-deleted w Operation.update_payload version b h ok =
    ground (arith, update_or_upsert-kept w version (w.before_claim b) w.exists)
process_event-deleted w Operation.delete_point version b h ok =
    ground (arith, claim_delete-ends w version (w.before_claim b))
process_event-deleted w Operation.quarantine_point version b h ok = ground arith
process_event-deleted w Operation.unknown version b h ok = ground arith
