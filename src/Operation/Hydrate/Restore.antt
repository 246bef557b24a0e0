-- ===== src/Operation/Hydrate/Restore.antt =====
-- operationManager.ts: `hydrate`, from the states that the journal gave to the operations.
use pinout.Prelude.{
  ℕ, max, none, some, List, [], ◌∷◌, ◌++◌, issued_id_eq, nat_eq, or_default, is_some,
}
use pinout.Prelude.Map.{values}
use pinout.Snapshot.{Operation}
use pinout.Idempotency.{IdempotencyTombstone, hydrate}
use pinout.Operation.{OperationManager, truthy}
use pinout.Operation.Begin.{insert_object}
use pinout.Operation.Hydrate.{JournalEntry, OpState, conclude, read_entries}

unfoldable pub snapshot_of : OpState → Operation
snapshot_of op = record {
  id = op.operation_id;
  device_id = op.device_id;
  capability = op.capability;
  status = op.status;
  idempotency_key = truthy op.idempotency_key;
  owner = op.owner;
  created_at = op.created_at;
  started_at = op.started_at;
  cancel_requested_at = none;
  finished_at = op.finished_at;
  deadline = none;
  progress = op.progress;
  result = op.result;
  error = op.error;
  reconciled = is_some op.reconciliation;
  reconciliation = op.reconciliation;
  abort_signal = none;
}

abbrev pub tombstone_of : OpState → List IdempotencyTombstone
tombstone_of op = elim (truthy op.idempotency_key) [
  | none ↦ []
  | some key ↦
      record {
        operation_id = op.operation_id;
        device_id = op.device_id;
        capability = op.capability;
        owner = op.owner;
        idempotency_key = key;
        status = op.status;
        created_at = op.created_at;
        result = op.result;
        error = op.error;
        last_used_at = or_default op.finished_at op.created_at;
      }
      ∷ []
]

-- The second loop of `hydrate`: the operation, the sequence number of its id and its key.
unfoldable pub restore : OperationManager → OpState → OperationManager
restore m op =
    let listed = insert_object m op.operation_id (snapshot_of op) in
    record listed { sequence = max m.sequence op.operation_id.sequence }

unfoldable pub restore_all :
    OperationManager → List OpState → ℕ → OperationManager × List IdempotencyTombstone
restore_all m [] now = (m, [])
restore_all m (op ∷ ops) now =
    let rest = restore_all (restore m (conclude op now)) ops now in
    (rest.0, tombstone_of (conclude op now) ++ rest.1)

unfoldable pub hydrate_operations : OperationManager → List JournalEntry → ℕ → OperationManager
hydrate_operations m entries now =
    let restored = restore_all m (values (read_entries [] entries)) now in
    record restored.0 { store = (hydrate restored.0.store restored.1 now).0 }
