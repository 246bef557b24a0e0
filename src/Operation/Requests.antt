-- ===== src/Operation/Requests.antt =====
-- operationManager.ts: what callers ask of an operation: `get`, `cancel`, `reconcile`, `waitFor`. A
-- promise that waits is a waiter of the operation.
use pinout.Prelude.{
  ℕ, Bool, true, false, not, Option, none, some, String, ◌==◌, string_eq, nat_eq, IssuedId,
  issued_id_eq, if◌then◌else◌, or_default, Result, ok, err,
}
use pinout.Prelude.Json.{Object, end, field, bool, text}
use pinout.Snapshot.{
  OperationStatus, queued, cancelling, completed, failed, cancelled, requires_reconciliation,
  uncertain, stop_unconfirmed, is_terminal_operation_status, OperationError, Operation,
  ReconciliationResolution, observed_complete, observed_not_done, abandoned,
}
use pinout.Idempotency.{Patch}
use pinout.Operation.{
  OperationManager, EventKind, moved, ManagerError, operation_not_found, operation_not_uncertain,
  EventData, no_data, find_operation, write, emit, transition, settle, retain_operations,
  update_key, add_waiter, public_snapshot,
}

unfoldable pub get_operation : OperationManager → IssuedId → Option Operation
get_operation m id = elim (find_operation m id) [
  | none ↦ none
  | some (_, op) ↦ some (public_snapshot op)
]

-- What a promise of the manager is when it is made: settled, or waiting.
pub data Promised : Type 0 where
  resolved : Operation → Promised
  waiting : Promised

abbrev pub cancelled_before_start : Option String → OperationError
cancelled_before_start reason = record {
  code = "OPERATION_CANCELLED";
  message = or_default reason "Cancelled before start.";
  retryable = false;
  details = some (field "stopConfirmed" (bool true) (field "queued" (bool true) end));
}

-- `cancel` of a queued operation.
unfoldable pub cancel_queued :
    OperationManager
    → ℕ
    → Operation
    → Option String
    → ℕ
    → OperationManager × Result ManagerError Promised
cancel_queued m ref op reason now =
    let error = cancelled_before_start reason in
    let changed = transition m ref op cancelled none (some error) now in
    let told =
      emit changed EventKind.cancelled op now
        (record no_data { reason = reason; stop_confirmed = some true }) in
    elim (settle told op.id) [
      | err e ↦ (told, err e)
      | ok m' ↦ (m', ok (resolved (public_snapshot (moved op cancelled none (some error) now))))
    ]

-- `cancel` of a running operation: the signal fires, and the promise waits for the run.
unfoldable pub cancel_running :
    OperationManager → ℕ → Operation → ℕ → ℕ → OperationManager × Result ManagerError Promised
cancel_running m ref op waiter now =
    let signal : Option Bool = elim op.abort_signal [ none ↦ none | some _ ↦ some true ] in
    let op' = record op {
      status = cancelling;
      cancel_requested_at = some now;
      abort_signal = signal;
    } in
    (add_waiter (write m ref op') op.id waiter, ok waiting)

abbrev pub is_queued : OperationStatus → Bool
is_queued queued = true
is_queued _ = false

unfoldable pub cancel :
    OperationManager
    → IssuedId
    → Option String
    → ℕ
    → ℕ
    → OperationManager × Result ManagerError Promised
cancel m id reason waiter now = elim (find_operation m id) [
  | none ↦ (m, err (operation_not_found id))
  | some (ref, op) ↦
      if is_terminal_operation_status op.status
      then (m, ok (resolved (public_snapshot op)))
      else if is_queued op.status
      then cancel_queued m ref op reason now
      else cancel_running m ref op waiter now
]

pub record ReconcileOptions : Type 0 where
  pub resolution : ReconciliationResolution
  pub note : Option String
  pub actor : Option String
  pub result : Option Object

abbrev pub resolution_text : ReconciliationResolution → String
resolution_text observed_complete = "observedComplete"
resolution_text observed_not_done = "observedNotDone"
resolution_text abandoned = "abandoned"

-- `...(value ? { [key]: value } : {})` at the end of an object.
abbrev pub optional_text : String → Option String → Object
optional_text key none = end
optional_text key (some s) = if s == "" then end else field key (text s) end

abbrev pub is_uncertain : OperationStatus → Bool
is_uncertain requires_reconciliation = true
is_uncertain uncertain = true
is_uncertain stop_unconfirmed = true
is_uncertain _ = false

abbrev pub resolution_details : ReconciliationResolution → Option String → Option Object
resolution_details r actor =
    some (field "resolution" (text (resolution_text r)) (optional_text "actor" actor))

-- The status, result and error of each resolution.
unfoldable pub resolve : Operation → ReconcileOptions → ReconciliationResolution → Operation
resolve op options observed_complete = record op {
  status = completed;
  result = some (
      or_default options.result (
        field "reconciled" (bool true)
          (field "resolution" (text "observedComplete") (optional_text "note" options.note))));
  error = none;
}
resolve op options observed_not_done = record op {
  status = cancelled;
  error = some (record {
    code = "OPERATION_RECONCILED_NOT_DONE";
    message = or_default options.note "Reconciled as not done by operator.";
    retryable = false;
    details = resolution_details observed_not_done options.actor;
  });
}
resolve op options abandoned = record op {
  status = failed;
  error = some (record {
    code = "OPERATION_ABANDONED";
    message = or_default options.note "Operation abandoned during reconciliation.";
    retryable = false;
    details = resolution_details abandoned options.actor;
  });
}

unfoldable pub reconciled_operation : Operation → ReconcileOptions → ℕ → Operation
reconciled_operation op options now =
    let noted = record op {
      reconciled = true;
      reconciliation = some (record {
        resolution = options.resolution;
        note = options.note;
        actor = options.actor;
        reconciled_at = now;
      });
      finished_at = some now;
    } in
    resolve noted options options.resolution

-- The writes of `reconcile` to the snapshot and its key, and its event.
unfoldable pub record_reconciled :
    OperationManager → ℕ → Operation → ReconcileOptions → ℕ → OperationManager
record_reconciled m ref op' options now =
    let patch : Patch = record { status = op'.status; result = op'.result; error = op'.error } in
    let payload : EventData = record no_data {
      resolution = some options.resolution;
      note = options.note;
      actor = options.actor;
      status = some op'.status;
      result = op'.result;
      error = op'.error;
    } in
    emit (update_key (write m ref op') op' patch now) EventKind.reconciled op' now payload

unfoldable pub reconcile_uncertain :
    OperationManager
    → ℕ
    → Operation
    → ReconcileOptions
    → ℕ
    → OperationManager × Result ManagerError Operation
reconcile_uncertain m ref op options now =
    let op' = reconciled_operation op options now in
    let told = record_reconciled m ref op' options now in
    elim (settle told op.id) [
      | err e ↦ (told, err e)
      | ok m' ↦ (retain_operations m' now, ok (public_snapshot op'))
    ]

unfoldable pub reconcile :
    OperationManager
    → IssuedId
    → ReconcileOptions
    → ℕ
    → OperationManager × Result ManagerError Operation
reconcile m id options now = elim (find_operation m id) [
  | none ↦ (m, err (operation_not_found id))
  | some (ref, op) ↦
      if not (is_uncertain op.status)
      then (m, err (operation_not_uncertain id op.status))
      else reconcile_uncertain m ref op options now
]

unfoldable pub wait_for :
    OperationManager → IssuedId → ℕ → OperationManager × Result ManagerError Promised
wait_for m id waiter = elim (find_operation m id) [
  | none ↦ (m, err (operation_not_found id))
  | some (_, op) ↦
      if is_terminal_operation_status op.status
      then (m, ok (resolved (public_snapshot op)))
      else (add_waiter m id waiter, ok waiting)
]
