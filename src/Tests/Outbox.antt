-- ===== src/Tests/Outbox.antt =====
-- Two rows, of which the first was claimed by instance 7, which then lost its lock.
use llm.Base.{ℕ, ◌-◌, ◌≡◌, refl, true, false, none, some, List, [], ◌∷◌}
use llm.Outbox.{
  Status, Row, OutboxEvent, Outcome, complete, fail, Action, claim, completing, act_all,
}
use llm.Outbox.Process.{
  Lifecycle, SyncStatus, Operation, Binding, World, finish_delete, claim_delete, process_event,
}
use llm.Outbox.Process.Fences.{may_delete, process_event-may_delete, process_event-deleted}
use llm.Outbox.Fencing.{act_all-Fenced}

abbrev row : ℕ → Row
row id = record {
  id = id;
  operation_version = 1;
  status = Status.pending;
  locked_by = none;
  locked_until = 0;
  lock_generation = 0;
  attempt_count = 0;
  reclaim_count = 0;
  next_attempt_at = 0;
}

abbrev event : ℕ → ℕ → OutboxEvent
event instance generation = record {
  id = 1;
  operation_version = 1;
  attempt_count = generation;
  locked_by = instance;
  lock_generation = generation;
}

-- The row with id 1 after a claim.
abbrev held : ℕ → ℕ → ℕ → Row
held instance generation until = record (row 1) {
  status = Status.processing;
  locked_by = some instance;
  locked_until = until;
  lock_generation = generation;
  attempt_count = generation;
  reclaim_count = generation - 1;
}

abbrev table : List Row
table = held 8 2 130000000 ∷ row 2 ∷ []

abbrev actions : List Action
actions = claim 9 60 80000000 (λ id. false) 5 ∷ completing (event 8 2) ∷ []

act_all-Fenced_example :
    (complete (event 7 1) (act_all actions table) ≡ (act_all actions table, Outcome.ownership_lost))
    × (fail (event 7 1) 5 90000000 (act_all actions table)
        ≡ (act_all actions table, Outcome.ownership_lost))
act_all-Fenced_example = act_all-Fenced (event 7 1) actions table 5 90000000 refl

abbrev doomed : Binding
doomed = record {
  lifecycle = Lifecycle.active;
  sync = SyncStatus.delete_pending;
  payload_version = 4;
  ttl_generation = 2;
  legal_hold = false;
  last_sync_version = 4;
}

abbrev calm : World
calm = record {
  before_claim = λ b. b;
  before_finish = λ b. b;
  fence = true;
  vector = true;
  exists = some true;
  accepts = true;
  commits = true;
}

process_event-may_delete_example :
    (Operation.delete_point ≡ Operation.delete_point) × (may_delete 2 doomed ≡ true)
unfolding finish_delete claim_delete process_event
process_event-may_delete_example =
    process_event-may_delete calm Operation.delete_point 2 doomed refl

process_event-deleted_example :
    ((process_event calm Operation.delete_point 2 doomed).binding.sync ≡ SyncStatus.deleted)
    × ((process_event calm Operation.delete_point 2 doomed).binding.lifecycle
        ≡ Lifecycle.soft_deleted)
unfolding finish_delete claim_delete process_event
process_event-deleted_example = process_event-deleted calm Operation.delete_point 2 doomed refl refl
