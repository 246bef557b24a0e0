-- ===== src/Operation/Hydrate.antt =====
-- operationManager.ts: `hydrate`, which restores the operations from the journal after a restart.
-- `entries` is what the journal answers: what `emit` appended, oldest first. A field of a payload
-- whose type is not the expected one is absent, which is what the tests of `typeof` make of it, and
-- a reconciliation without a known resolution counts as abandoned.
pub mod Recovery
pub mod Restore
mod Examples
use pinout.Prelude.{
  ℕ, ◌+◌, ◌≤◌, max, Bool, true, false, not, ◌&&◌, ◌||◌, Option, none, some, List, [], ◌∷◌, ◌++◌,
  String, IssuedId, issued_id_eq, nat_eq, or_default, if◌then◌else◌, is_some, finite, whole, pos,
}
use pinout.Prelude.Json.{Object, end, field, bool, text, num}
use pinout.Prelude.Map.{Map, get, set, values}
use pinout.Snapshot.{
  OperationStatus, queued, running, completed, failed, cancelled, timed_out, rejected,
  requires_reconciliation, aborted, stop_unconfirmed, OperationError, OperationProgress, Operation,
  ReconciliationRecord, ReconciliationResolution, observed_complete, observed_not_done, abandoned,
}
use pinout.Idempotency.{IdempotencyTombstone, hydrate}
use pinout.Operation.{OperationManager, EventKind, EventData, truthy, or_else}
use pinout.Operation.Begin.{insert_object}
use pinout.Operation.Requests.{resolution_text}

pub record JournalEntry : Type 0 where
  pub kind : EventKind
  pub operation_id : Option IssuedId
  pub device_id : Option String
  pub at : ℕ
  pub payload : EventData

-- What the entries so far say of an operation.
pub record OpState : Type 0 where
  pub operation_id : IssuedId
  pub device_id : String
  pub capability : String
  pub owner : Option String
  pub idempotency_key : Option String
  pub created_at : ℕ
  pub started_at : Option ℕ
  pub finished_at : Option ℕ
  pub progress : Option OperationProgress
  pub status : OperationStatus
  pub result : Option Object
  pub error : Option OperationError
  pub reconciliation : Option ReconciliationRecord
  pub has_started : Bool
  pub has_terminal : Bool

abbrev pub new_state : IssuedId → String → JournalEntry → OpState
new_state id device_id entry = record {
  operation_id = id;
  device_id = device_id;
  capability = or_default entry.payload.capability "unknown";
  owner = entry.payload.owner;
  idempotency_key = entry.payload.idempotency_key;
  created_at = entry.at;
  started_at = none;
  finished_at = none;
  progress = none;
  status = queued;
  result = none;
  error = none;
  reconciliation = none;
  has_started = false;
  has_terminal = false;
}

-- The fields that every entry may bring.
abbrev pub refreshed : OpState → EventData → OpState
refreshed op payload = record op {
  capability = or_default payload.capability op.capability;
  owner = or_else payload.owner op.owner;
  idempotency_key = or_else payload.idempotency_key op.idempotency_key;
}

abbrev pub ended : OpState → OperationStatus → ℕ → OpState
ended op status at = record op { has_terminal = true; status = status; finished_at = some at }

abbrev pub plain_error : String → String → Bool → OperationError
plain_error code message retryable = record {
  code = code;
  message = message;
  retryable = retryable;
  details = none;
}

-- The status, the result and the error of a reconciliation.
unfoldable pub apply_resolution : OpState → ReconciliationResolution → Option Object → OpState
apply_resolution op observed_complete result = record op {
  status = completed;
  result = some (
      or_default result
        (field "reconciled" (bool true) (field "resolution" (text "observedComplete") end)));
  error = none;
}
apply_resolution op observed_not_done result = record op {
  status = cancelled;
  error = some (plain_error "OPERATION_RECONCILED_NOT_DONE" "Reconciled as not done." false);
}
apply_resolution op abandoned result = record op {
  status = failed;
  error =
      some (plain_error "OPERATION_ABANDONED" "Operation abandoned during reconciliation." false);
}

abbrev pub apply_reconciled : OpState → JournalEntry → ReconciliationResolution → OpState
apply_reconciled op entry resolution =
    let noted = record op {
      has_terminal = true;
      reconciliation = some (record {
        resolution = resolution;
        note = entry.payload.note;
        actor = entry.payload.actor;
        reconciled_at = entry.at;
      });
      finished_at = some entry.at;
    } in
    apply_resolution noted resolution entry.payload.result

-- The branches over the kind of an entry; `uncertain` has none.
unfoldable pub apply_kind : EventKind → JournalEntry → OpState → OpState
apply_kind EventKind.requested e op = record op { created_at = e.at; status = queued }
apply_kind EventKind.started e op = record op {
  has_started = true;
  started_at = some e.at;
  status = running;
}
apply_kind EventKind.progress e op = record op {
  progress =
      some (record { fraction = e.payload.fraction; message = e.payload.message; at = e.at });
}
apply_kind EventKind.completed e op = record (ended op completed e.at) {
  result = or_else e.payload.result op.result;
}
apply_kind EventKind.failed e op = record (ended op failed e.at) {
  error = or_else e.payload.error op.error;
}
apply_kind EventKind.cancelled e op = record (ended op cancelled e.at) {
  error =
      some (
        plain_error "OPERATION_CANCELLED" (or_default e.payload.reason "Operation cancelled.")
          true);
}
apply_kind EventKind.timed_out e op = record (ended op timed_out e.at) {
  error = some (plain_error "OPERATION_TIMEOUT" "Operation exceeded its deadline." true);
}
apply_kind EventKind.rejected e op = ended op rejected e.at
apply_kind EventKind.reconciled e op =
    apply_reconciled op e (or_default e.payload.resolution abandoned)
apply_kind EventKind.uncertain e op = op
apply_kind EventKind.aborted e op = record (ended op aborted e.at) {
  error = some (
      plain_error "OPERATION_ABORTED_BEFORE_DISPATCH"
        "Operation was accepted but not dispatched before restart." false);
}
apply_kind EventKind.stop_unconfirmed e op = record (ended op stop_unconfirmed e.at) {
  error = some (
      plain_error "OPERATION_STOP_UNCONFIRMED"
        "Cancellation was requested but device stop was unconfirmed." false);
}

-- The state that an entry finds, or makes.
unfoldable pub found_state : Map IssuedId OpState → IssuedId → String → JournalEntry → OpState
found_state ops id device_id entry =
    refreshed (or_default (get id ops) (new_state id device_id entry)) entry.payload

-- The first loop of `hydrate`.
unfoldable pub read_entry : Map IssuedId OpState → JournalEntry → Map IssuedId OpState
read_entry ops entry = elim entry.operation_id [
  | none ↦ ops
  | some id ↦ elim (truthy entry.device_id) [
    | none ↦ ops
    | some device_id ↦ set id (apply_kind entry.kind entry (found_state ops id device_id entry)) ops
  ]
]

unfoldable pub read_entries : Map IssuedId OpState → List JournalEntry → Map IssuedId OpState
read_entries ops [] = ops
read_entries ops (entry ∷ entries) = read_entries (read_entry ops entry) entries

abbrev pub time_field : String → Option ℕ → Object
time_field key none = end
time_field key (some at) = field key (num (finite (whole (pos at)))) end

-- Windows A and B: an operation without a terminal entry.
unfoldable pub conclude : OpState → ℕ → OpState
conclude op now =
    if op.has_terminal
    then op
    else if op.has_started
    then record op {
      status = requires_reconciliation;
      finished_at = some now;
      error = some (record {
        code = "OPERATION_REQUIRES_RECONCILIATION";
        message =
            "Process restarted while operation was in flight. Physical outcome is uncertain and requires reconciliation.";
        retryable = false;
        details = some (
            field "crashWindow" (text "after_dispatch_before_ack")
              (time_field "startedAt" op.started_at));
      });
    }
    else record op {
      status = aborted;
      finished_at = some now;
      error = some (record {
        code = "OPERATION_ABORTED_BEFORE_DISPATCH";
        message = "Operation was accepted but not dispatched before process restart.";
        retryable = false;
        details = some (
            field "crashWindow" (text "before_dispatch")
              (time_field "createdAt" (some op.created_at)));
      });
    }
