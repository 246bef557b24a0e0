-- ===== src/Operation.antt =====
-- packages/core/src/operation/operationManager.ts: the state of the operation manager, and the
-- private methods that the public ones and the tasks share.
-- The snapshots are objects that the map and the running tasks both refer to, so they stand on a
-- heap under references. `now` is the clock, read once in a step. A callback that waits for an
-- operation is known by a number.
pub mod Begin
pub mod Requests
pub mod Tasks
pub mod Deliver
pub mod Watch
pub mod Iteration
pub mod Listeners
pub mod History
pub mod Heap
pub mod Lifecycle
pub mod Steps
pub mod Admission
pub mod Calls
pub mod Races
pub mod Updates
pub mod CallUpdates
pub mod Remembered
pub mod Dedupe
pub mod Retention
pub mod Reconcile
pub mod Dropped
pub mod Hydrate
mod Examples
pub mod Report
mod ProgressExamples
use pinout.Prelude.{
  ℕ, suc, ◌+◌, ◌-◌, ◌≡◌, Bool, true, false, not, ◌&&◌, ◌||◌, Option, none, some, List, [], ◌∷◌,
  ◌++◌, String, ◌==◌, string_eq, nat_eq, issued_id_eq, IssuedId, ltb, if◌then◌else◌, or_default,
  length, Result, ok, err, map, is_some,
}
use pinout.Prelude.Json.{Object}
use pinout.Prelude.Map.{Map, get, set, delete, has, retain}
use pinout.Snapshot.{
  OperationStatus, is_terminal_operation_status, OperationError, Operation, OperationProgress,
  ReconciliationResolution,
}
use pinout.Idempotency.{IdempotencyStore, ScopedKey, key_for, update_under, or_else, Patch}

pub data EventKind : Type 0 where
  requested started progress completed failed cancelled timed_out rejected : EventKind
  reconciled uncertain aborted stop_unconfirmed : EventKind

-- The data of an event and of its journal entry: each field is there with its type or absent.
pub record EventData : Type 0 where
  pub capability : Option String
  pub owner : Option String
  pub idempotency_key : Option String
  pub fraction : Option ℕ
  pub message : Option String
  pub result : Option Object
  pub error : Option OperationError
  pub reason : Option String
  pub code : Option String
  pub stop_confirmed : Option Bool
  pub resolution : Option ReconciliationResolution
  pub note : Option String
  pub actor : Option String
  pub status : Option OperationStatus

abbrev pub no_data : EventData
no_data = record {
  capability = none;
  owner = none;
  idempotency_key = none;
  fraction = none;
  message = none;
  result = none;
  error = none;
  reason = none;
  code = none;
  stop_confirmed = none;
  resolution = none;
  note = none;
  actor = none;
  status = none;
}

pub record OperationEvent : Type 0 where
  pub kind : EventKind
  pub operation_id : IssuedId
  pub device_id : String
  pub capability : String
  pub at : ℕ
  pub payload : EventData

-- Where the task that `start` queues stands: not begun, awaiting `beforeDispatch`, awaiting `run`,
-- awaiting `afterDispatchBeforeAck` with the result of `run`, or over.
pub data Phase : Type 0 where
  scheduled before_hook in_run over : Phase
  after_hook : Object → Phase

-- The timer holds the time at which it fires, until it does or is cleared.
pub record Task : Type 0 where
  pub phase : Phase
  pub timer : Option ℕ

pub record OperationManager : Type 0 where
  pub objects : Map ℕ Operation
  pub next_object : ℕ
  pub operations : Map IssuedId ℕ
  pub tasks : Map ℕ Task
  pub waiters : Map IssuedId (List ℕ)
  -- The waiters that were called, each with the snapshot that it saw.
  pub notified : List (ℕ × Operation)
  pub sequence : ℕ
  pub store : IdempotencyStore
  pub retention_ms : ℕ
  pub max_operations : ℕ
  -- What `onOperationEvent` and the journal received, oldest first.
  pub events : List OperationEvent

pub data ManagerError : Type 0 where
  operation_not_found : IssuedId → ManagerError
  operation_not_uncertain : IssuedId → OperationStatus → ManagerError
  invalid_progress : ManagerError
  -- `undefined` used as an object.
  type_error : ManagerError

unfoldable pub init : IdempotencyStore → Option ℕ → Option ℕ → OperationManager
init store retention_ms max_operations = record {
  objects = [];
  next_object = 0;
  operations = [];
  tasks = [];
  waiters = [];
  notified = [];
  sequence = 0;
  store = store;
  retention_ms = or_default retention_ms 86_400_000;
  max_operations = or_default max_operations 10_000;
  events = [];
}

-- A text that counts as true: `undefined` and "" do not.
abbrev pub truthy : Option String → Option String
truthy none = none
truthy (some s) = if s == "" then none else some s

-- `this.operations.get(id)` as an object, with its reference.
unfoldable pub find_operation : OperationManager → IssuedId → Option (ℕ × Operation)
find_operation m id = elim (get id m.operations) [
  | none ↦ none
  | some ref ↦ elim (get ref m.objects) [ none ↦ none | some op ↦ some (ref, op) ]
]

abbrev pub write : OperationManager → ℕ → Operation → OperationManager
write m ref op = record m { objects = set ref op m.objects }

abbrev pub scoped_key : Operation → String → ScopedKey
scoped_key op key = key_for op.device_id op.capability op.owner key

unfoldable pub emit : OperationManager → EventKind → Operation → ℕ → EventData → OperationManager
emit m kind op now payload = record m {
  events =
      m.events
      ++ record {
        kind = kind;
        operation_id = op.id;
        device_id = op.device_id;
        capability = op.capability;
        at = now;
        payload = payload;
      }
        ∷ [];
}

-- The first loop of `retainOperations` keeps what has not outlived the retention.
unfoldable pub is_retained : OperationManager → ℕ → ℕ → Bool
is_retained m now ref = elim (get ref m.objects) [
  | none ↦ true
  | some op ↦ not (
      is_terminal_operation_status op.status
      && (is_some op.finished_at && ltb m.retention_ms (now - or_default op.finished_at 0)))
]

abbrev pub is_terminal_object : Map ℕ Operation → ℕ → Bool
is_terminal_object objects ref = elim (get ref objects) [
  | none ↦ true
  | some op ↦ is_terminal_operation_status op.status
]

-- The second loop drops the oldest operations above the limit, up to one that is still active.
unfoldable pub drop_oldest : Map ℕ Operation → ℕ → Map IssuedId ℕ → Map IssuedId ℕ
drop_oldest objects most [] = []
drop_oldest objects most ((id, ref) ∷ rest) =
    let dropped = drop_oldest objects most rest in
    if ltb most (suc (length rest)) && is_terminal_object objects ref
    then dropped
    else (id, ref) ∷ rest

unfoldable pub retain_operations : OperationManager → ℕ → OperationManager
retain_operations m now = record m {
  operations = drop_oldest m.objects m.max_operations (retain (is_retained m now) m.operations);
}

-- The snapshot that `transition` writes.
abbrev pub moved :
    Operation → OperationStatus → Option Object → Option OperationError → ℕ → Operation
moved op status result error now = record op {
  status = status;
  finished_at = some now;
  result = or_else result op.result;
  error = or_else error op.error;
}

-- `updateUnder` under the operation's key, if it has one.
unfoldable pub update_key : OperationManager → Operation → Patch → ℕ → OperationManager
update_key m op patch now = elim op.idempotency_key [
  | none ↦ m
  | some key ↦ record m { store = update_under m.store (scoped_key op key) patch now }
]

unfoldable pub transition :
    OperationManager
    → ℕ
    → Operation
    → OperationStatus
    → Option Object
    → Option OperationError
    → ℕ
    → OperationManager
transition m ref op status result error now =
    let written = write m ref (moved op status result error now) in
    let patch : Patch = record { status = status; result = result; error = error } in
    retain_operations (update_key written op patch now) now

-- Calls the waiters of an operation that is over. An operation that `retainOperations` has just
-- dropped is read as `undefined`, which throws.
unfoldable pub settle : OperationManager → IssuedId → Result ManagerError OperationManager
settle m id = elim (find_operation m id) [
  | none ↦ err type_error
  | some (ref, op) ↦
      if not (is_terminal_operation_status op.status)
      then ok m
      else ok (record m {
        waiters = delete id m.waiters;
        notified = m.notified ++ map (λ w. (w, op)) (or_default (get id m.waiters) []);
      })
]

-- Inside a task an error of `settle` ends the task and changes nothing else.
abbrev pub settled : OperationManager → IssuedId → OperationManager
settled m id = elim (settle m id) [ ok m' ↦ m' | err _ ↦ m ]

abbrev pub add_waiter : OperationManager → IssuedId → ℕ → OperationManager
add_waiter m id waiter = record m {
  waiters = set id (or_default (get id m.waiters) [] ++ waiter ∷ []) m.waiters;
}

-- `publicSnapshot`: without the `AbortController`.
abbrev pub public_snapshot : Operation → Operation
public_snapshot op = record op { abort_signal = none }
