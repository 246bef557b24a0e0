-- ===== src/Operation/Begin.antt =====
-- operationManager.ts: `begin`, and the part of `start` that runs at once.
-- A queued microtask and a deadline timer are a `Task`; `Operation.Tasks` has what they do later.
use pinout.Prelude.{
  ℕ, ◌+◌, ◌-◌, ◌||◌, ltb, Bool, true, false, Option, none, some, String, IssuedId, issued_id_eq,
  nat_eq, if◌then◌else◌,
}
use pinout.Prelude.Map.{set, has}
use pinout.Snapshot.{queued, Operation}
use pinout.Idempotency.{
  IdempotencyLookup, miss, expired_or_evicted, hit, IdempotencyTombstone, key_for, lookup,
  record_under,
}
use pinout.Operation.{
  OperationManager, EventData, no_data, requested, emit, truthy, write, scheduled, Task,
}

pub record BeginOperationOptions : Type 0 where
  pub device_id : String
  pub capability : String
  pub owner : Option String
  pub idempotency_key : Option String
  pub deadline : Option ℕ
  pub timeout_ms : Option ℕ

pub record BeginResult : Type 0 where
  pub deduped : Bool
  pub id : IssuedId

-- An operation that only its tombstone remembers.
unfoldable pub restored : IdempotencyTombstone → Operation
restored t = record {
  id = t.operation_id;
  device_id = t.device_id;
  capability = t.capability;
  status = t.status;
  idempotency_key = some t.idempotency_key;
  owner = t.owner;
  created_at = t.created_at;
  started_at = none;
  cancel_requested_at = none;
  finished_at = some t.last_used_at;
  deadline = none;
  progress = none;
  result = t.result;
  error = t.error;
  reconciled = false;
  reconciliation = none;
  abort_signal = none;
}

unfoldable pub insert_object : OperationManager → IssuedId → Operation → OperationManager
insert_object m id op = record m {
  objects = set m.next_object op m.objects;
  next_object = m.next_object + 1;
  operations = set id m.next_object m.operations;
}

-- `options.deadline ?? (timeoutMs !== undefined ? now + timeoutMs : undefined)`
abbrev pub deadline_of : BeginOperationOptions → ℕ → Option ℕ
deadline_of options now = elim options.deadline [
  | some deadline ↦ some deadline
  | none ↦ elim options.timeout_ms [ none ↦ none | some timeout ↦ some (now + timeout) ]
]

unfoldable pub new_operation : BeginOperationOptions → IssuedId → ℕ → Operation
new_operation options id now = record {
  id = id;
  device_id = options.device_id;
  capability = options.capability;
  status = queued;
  idempotency_key = truthy options.idempotency_key;
  owner = options.owner;
  created_at = now;
  started_at = none;
  cancel_requested_at = none;
  finished_at = none;
  deadline = deadline_of options now;
  progress = none;
  result = none;
  error = none;
  reconciled = false;
  reconciliation = none;
  abort_signal = none;
}

unfoldable pub new_tombstone : BeginOperationOptions → IssuedId → String → ℕ → IdempotencyTombstone
new_tombstone options id key now = record {
  operation_id = id;
  device_id = options.device_id;
  capability = options.capability;
  owner = options.owner;
  idempotency_key = key;
  status = queued;
  created_at = now;
  result = none;
  error = none;
  last_used_at = now;
}

-- When `setTimeout` fires that waits for a deadline: a delay below one or of more than 2^31 - 1 is
-- taken for one.
unfoldable pub fires_at : ℕ → ℕ → ℕ
fires_at deadline now =
    let remaining = deadline - now in
    if ltb remaining 1 || ltb 2_147_483_647 remaining then now + 1 else deadline

abbrev pub timer_of : Option ℕ → ℕ → Option ℕ
timer_of none now = none
timer_of (some deadline) now = some (fires_at deadline now)

-- `start`, up to the queued microtask: the abort controller and the timer of the deadline.
unfoldable pub start : OperationManager → ℕ → Operation → ℕ → OperationManager
start m ref op now =
    let armed = write m ref (record op { abort_signal = some false }) in
    let task : Task = record { phase = scheduled; timer = timer_of op.deadline now } in
    record armed { tasks = set ref task m.tasks }

-- `recordUnder` for an operation that has a key.
unfoldable pub record_key :
    OperationManager → BeginOperationOptions → IssuedId → ℕ → OperationManager
record_key m options id now = elim (truthy options.idempotency_key) [
  | none ↦ m
  | some key ↦ record m {
    store =
        record_under m.store (key_for options.device_id options.capability options.owner key)
          (new_tombstone options id key now) now;
  }
]

-- The part of `begin` behind the lookup: a new operation. `random` is what `randomId` makes.
unfoldable pub begin_new :
    OperationManager → BeginOperationOptions → ℕ → String → OperationManager × BeginResult
begin_new m options now random =
    let id : IssuedId = record { sequence = m.sequence + 1; suffix = random } in
    let op = new_operation options id now in
    let listed = insert_object (record m { sequence = m.sequence + 1 }) id op in
    let payload : EventData = record no_data {
      idempotency_key = options.idempotency_key;
      owner = options.owner;
      capability = some options.capability;
    } in
    let announced = emit listed requested op now payload in
    (
      start (record_key announced options id now) m.next_object op now,
      record { deduped = false; id = id },
    )

-- What `begin` does with a tombstone: the operation that it names, restored if it is gone.
unfoldable pub begin_again :
    OperationManager → IdempotencyTombstone → OperationManager × BeginResult
begin_again m t =
    if has t.operation_id m.operations
    then (m, record { deduped = true; id = t.operation_id })
    else (
      insert_object m t.operation_id (restored t),
      record { deduped = true; id = t.operation_id },
    )

-- `begin` behind the lookup of its key.
unfoldable pub begin_at :
    IdempotencyLookup
    → OperationManager
    → BeginOperationOptions
    → ℕ
    → String
    → OperationManager × BeginResult
begin_at (hit t) m options now random = begin_again m t
begin_at miss m options now random = begin_new m options now random
begin_at expired_or_evicted m options now random = begin_new m options now random

unfoldable pub begin :
    OperationManager → BeginOperationOptions → ℕ → String → OperationManager × BeginResult
begin m options now random = elim (truthy options.idempotency_key) [
  | none ↦ begin_new m options now random
  | some key ↦
      let looked =
        lookup m.store (key_for options.device_id options.capability options.owner key) now in
      begin_at looked.1 (record m { store = looked.0 }) options now random
]
