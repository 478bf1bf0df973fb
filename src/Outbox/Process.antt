-- ===== src/Outbox/Process.antt =====
-- The processing of one event (src/outbox/mod.rs: `process_event`, `upsert_from_cache`,
-- `mark_synced`). The binding is read once and then checked again by the statements that change it;
-- in between other transactions may have changed it. Qdrant's answers are an argument; a
-- statement that fails by itself is left out.
pub mod Fences
use llm.Base.{
  ℕ, Bool, true, false, ◌&&◌, ◌||◌, not, Option, none, some, List, [], ◌∷◌, ◌==◌, if◌then◌else◌,
}

pub data Lifecycle : Type 0 where
  active soft_deleted other : Lifecycle

pub data SyncStatus : Type 0 where
  pending update_pending synced : SyncStatus
  delete_pending deletion_pending delete_in_progress deleted : SyncStatus
  other : SyncStatus

pub data Operation : Type 0 where
  upsert_point update_payload delete_point quarantine_point unknown : Operation

-- A row of astravector.vector_bindings_v004, as far as the code reads it.
pub record Binding : Type 0 where
  pub lifecycle : Lifecycle
  pub sync : SyncStatus
  pub payload_version : ℕ
  pub ttl_generation : ℕ
  pub legal_hold : Bool
  pub last_sync_version : ℕ

-- What the code does to Qdrant.
pub data Effect : Type 0 where
  upserted updated quarantined deleted_point : Effect

pub data Failure : Type 0 where
  ownership_lost invalid_argument unavailable internal : Failure

-- What other transactions make of the binding before each of its checks, and how Qdrant answers:
-- `fence` is the lock of the recovery module.
pub record World : Type 0 where
  pub before_claim : Binding → Binding
  pub before_finish : Binding → Binding
  pub fence : Bool
  pub vector : Bool
  pub exists : Option Bool
  pub accepts : Bool
  pub commits : Bool

-- The binding, the effects in Qdrant, and the failure if there is one.
pub record Processed : Type 0 where
  pub binding : Binding
  pub effects : List Effect
  pub failure : Option Failure

abbrev pub is_active : Lifecycle → Bool
is_active Lifecycle.active = true
is_active _ = false

abbrev pub awaits_upsert : SyncStatus → Bool
awaits_upsert SyncStatus.pending = true
awaits_upsert SyncStatus.update_pending = true
awaits_upsert _ = false

abbrev pub awaits_delete : SyncStatus → Bool
awaits_delete SyncStatus.delete_pending = true
awaits_delete SyncStatus.deletion_pending = true
awaits_delete SyncStatus.delete_in_progress = true
awaits_delete _ = false

abbrev pub is_in_progress : SyncStatus → Bool
is_in_progress SyncStatus.delete_in_progress = true
is_in_progress _ = false

abbrev skipped : Binding → Processed
skipped b = record { binding = b; effects = []; failure = none }

abbrev stopped : Binding → List Effect → Failure → Processed
stopped b effects f = record { binding = b; effects = effects; failure = some f }

-- `fence.commit()`, the last step of each branch.
abbrev committed : World → Binding → List Effect → Processed
committed w b effects =
    if w.commits
    then record { binding = b; effects = effects; failure = none }
    else stopped b effects Failure.unavailable

unfoldable pub mark_synced : World → ℕ → List Effect → Binding → Processed
mark_synced w version effects b =
    if b.payload_version == version && is_active b.lifecycle
    then committed w (record b { sync = SyncStatus.synced; last_sync_version = b.payload_version })
        effects
    else stopped b effects Failure.ownership_lost

unfoldable pub upsert_from_cache : World → ℕ → Binding → Processed
unfolding mark_synced
upsert_from_cache w version b =
    if not w.vector
    then stopped b [] Failure.internal
    else if not w.accepts
    then stopped b [] Failure.unavailable
    else mark_synced w version (Effect.upserted ∷ []) (w.before_finish b)

unfoldable pub update_or_upsert : World → ℕ → Binding → Option Bool → Processed
unfolding mark_synced upsert_from_cache
update_or_upsert w version b none = stopped b [] Failure.unavailable
update_or_upsert w version b (some false) = upsert_from_cache w version b
update_or_upsert w version b (some true) =
    if w.accepts
    then mark_synced w version (Effect.updated ∷ []) (w.before_finish b)
    else stopped b [] Failure.unavailable

-- The second statement of DELETE_POINT.
unfoldable pub finish_delete : World → ℕ → Binding → Processed
finish_delete w version b =
    if b.ttl_generation == version && is_in_progress b.sync && not b.legal_hold
    then committed w (record b { sync = SyncStatus.deleted; lifecycle = Lifecycle.soft_deleted })
        (Effect.deleted_point ∷ [])
    else stopped b (Effect.deleted_point ∷ []) Failure.ownership_lost

-- The first one, and the deletion in Qdrant.
unfoldable pub claim_delete : World → ℕ → Binding → Processed
unfolding finish_delete
claim_delete w version b =
    if not (b.ttl_generation == version && not b.legal_hold && awaits_delete b.sync)
    then stopped b [] Failure.ownership_lost
    else if not w.accepts
    then stopped (record b { sync = SyncStatus.delete_in_progress }) [] Failure.unavailable
    else finish_delete w version
        (w.before_finish (record b { sync = SyncStatus.delete_in_progress }))

-- After a branch's first check, if the fence is acquired.
abbrev fenced : World → Binding → Processed → Processed
fenced w b p = if w.fence then p else stopped b [] Failure.unavailable

unfoldable pub process_event : World → Operation → ℕ → Binding → Processed
unfolding upsert_from_cache update_or_upsert claim_delete
process_event w Operation.upsert_point version b =
    if not (is_active b.lifecycle)
      || not (awaits_upsert b.sync)
      || not (b.payload_version == version)
    then skipped b
    else fenced w b (upsert_from_cache w version (w.before_claim b))
process_event w Operation.update_payload version b =
    if not (is_active b.lifecycle) || not (b.payload_version == version)
    then skipped b
    else fenced w b (update_or_upsert w version (w.before_claim b) w.exists)
process_event w Operation.delete_point version b =
    if b.legal_hold
    then skipped b
    else if not (b.ttl_generation == version) || not (awaits_delete b.sync)
    then skipped b
    else fenced w b (claim_delete w version (w.before_claim b))
process_event w Operation.quarantine_point version b = fenced w b (
    if w.accepts then committed w b (Effect.quarantined ∷ []) else stopped b [] Failure.unavailable)
process_event w Operation.unknown version b = stopped b [] Failure.invalid_argument
