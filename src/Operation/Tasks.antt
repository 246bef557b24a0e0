-- ===== src/Operation/Tasks.antt =====
-- operationManager.ts: the task that `start` queues, cut where it awaits, its deadline timer, and
-- `reportProgress`. The test hooks and `run` are outside the manager: each step is given how the
-- awaited call ended. A step of a task that stands elsewhere changes nothing.
-- Messages that the source makes of an error of unknown kind are fields of `Thrown`.
use pinout.Prelude.{
  ℕ, Bool, true, false, Option, none, some, String, nat_eq, if◌then◌else◌, or_default, Result, ok,
  err, leb,
}
use pinout.Prelude.Json.{Object, end, field, bool, obj}
use pinout.Prelude.Map.{get, set}
use pinout.Snapshot.{
  OperationStatus, running, completed, failed, cancelled, timed_out, requires_reconciliation,
  aborted, stop_unconfirmed, is_terminal_operation_status, OperationError, Operation,
}
use pinout.Operation.{
  OperationManager, EventKind, Task, Phase, scheduled, before_hook, in_run, after_hook, over,
  no_data, EventData, write, emit, transition, settled,
}

-- What `run` may throw, as far as the task tells errors apart.
pub data ThrownKind : Type 0 where
  stop_unconfirmed_error abort_error other_error : ThrownKind

pub record Thrown : Type 0 where
  pub kind : ThrownKind
  -- `error.message`, if it is an `Error`, and `String(error)`, the reason that is logged.
  pub message : Option String
  pub printed : String
  -- What `toStructuredError` makes of it, as an error and as the object that is logged.
  pub structured : OperationError
  pub cause : Object
  -- `Cancellation requested but device failed: ${structured.message}`
  pub failure_text : String

abbrev pub set_task : OperationManager → ℕ → Phase → Option ℕ → OperationManager
set_task m ref phase timer = record m {
  tasks = set ref (record { phase = phase; timer = timer }) m.tasks;
}

abbrev pub finished_task : OperationManager → ℕ → OperationManager
finished_task m ref = set_task m ref over none

-- The first lines of the microtask.
unfoldable pub enter : OperationManager → ℕ → Operation → Task → OperationManager
enter m ref op task =
    if is_terminal_operation_status op.status
    then finished_task m ref
    else set_task m ref before_hook task.timer

abbrev pub aborted_error : String → OperationError
aborted_error message = record {
  code = "OPERATION_ABORTED_BEFORE_DISPATCH";
  message = message;
  retryable = false;
  details = none;
}

-- Behind `await beforeDispatch()`, which threw the message if there is one.
unfoldable pub dispatch :
    OperationManager → ℕ → Operation → Task → Option String → ℕ → OperationManager
dispatch m ref op task (some message) now =
    let error = aborted_error message in
    let changed = transition (finished_task m ref) ref op aborted none (some error) now in
    settled (emit changed EventKind.aborted op now no_data) op.id
dispatch m ref op task none now =
    let op' = record op { status = running; started_at = some now } in
    emit (write (set_task m ref in_run task.timer) ref op') EventKind.started op' now no_data

abbrev pub stop_unconfirmed_at : Thrown → OperationError
stop_unconfirmed_at thrown = record {
  code = "OPERATION_STOP_UNCONFIRMED";
  message = or_default thrown.message "Cancellation requested but device failed to confirm stop.";
  retryable = false;
  details = some (field "stopConfirmed" (bool false) end);
}

abbrev pub cancelled_at : OperationError
cancelled_at = record {
  code = "OPERATION_CANCELLED";
  message = "Operation cancelled.";
  retryable = true;
  details = some (field "stopConfirmed" (bool true) end);
}

abbrev pub stop_failed_at : Thrown → OperationError
stop_failed_at thrown = record {
  code = "OPERATION_STOP_UNCONFIRMED";
  message = thrown.failure_text;
  retryable = false;
  details = some (field "stopConfirmed" (bool false) (field "cause" (obj thrown.cause) end));
}

-- `Object.keys(details ?? {}).length > 0 ? { details } : {}`
abbrev pub without_empty_details : OperationError → OperationError
without_empty_details e = record e { details = nonempty e.details }
  where
    nonempty : Option Object → Option Object
    nonempty none = none
    nonempty (some end) = none
    nonempty (some (field k v o)) = some (field k v o)

-- The status, the error and the event of a run that threw.
pub record Failure : Type 0 where
  pub status : OperationStatus
  pub error : OperationError
  pub kind : EventKind
  pub payload : EventData

unfoldable pub failure_of : Bool → Thrown → ThrownKind → Failure
failure_of true thrown stop_unconfirmed_error = record {
  status = stop_unconfirmed;
  error = stop_unconfirmed_at thrown;
  kind = EventKind.stop_unconfirmed;
  payload = record no_data {
    reason = some thrown.printed;
    error = some (stop_unconfirmed_at thrown);
  };
}
failure_of true thrown abort_error = record {
  status = cancelled;
  error = cancelled_at;
  kind = EventKind.cancelled;
  payload = record no_data { reason = some thrown.printed; error = some cancelled_at };
}
failure_of true thrown other_error = record {
  status = stop_unconfirmed;
  error = stop_failed_at thrown;
  kind = EventKind.stop_unconfirmed;
  payload = record no_data {
    code = some "OPERATION_STOP_UNCONFIRMED";
    error = some (stop_failed_at thrown);
  };
}
failure_of false thrown _ =
    let error = without_empty_details thrown.structured in
    record {
      status = failed;
      error = error;
      kind = EventKind.failed;
      payload = record no_data { code = some thrown.structured.code; error = some error };
    }

unfoldable pub fail : OperationManager → ℕ → Operation → Failure → ℕ → OperationManager
fail m ref op failure now =
    let changed =
      transition (finished_task m ref) ref op failure.status none (some failure.error) now in
    settled (emit changed failure.kind op now failure.payload) op.id

-- Behind `await run(context)`.
unfoldable pub finish :
    OperationManager → ℕ → Operation → Task → Result Thrown Object → ℕ → OperationManager
finish m ref op task outcome now =
    if is_terminal_operation_status op.status then finished_task m ref else elim outcome [
      | ok result ↦ set_task m ref (after_hook result) task.timer
      | err thrown ↦
          fail m ref op (failure_of (or_default op.abort_signal false) thrown thrown.kind) now
    ]

abbrev pub reconciliation_error : String → OperationError
reconciliation_error message = record {
  code = "OPERATION_REQUIRES_RECONCILIATION";
  message = message;
  retryable = false;
  details = none;
}

-- Behind `await afterDispatchBeforeAck()`, which threw the message if there is one.
unfoldable pub acknowledge :
    OperationManager → ℕ → Operation → Object → Option String → ℕ → OperationManager
acknowledge m ref op result (some message) now =
    let error = reconciliation_error message in
    let changed =
      transition (finished_task m ref) ref op requires_reconciliation none (some error) now in
    settled (emit changed EventKind.uncertain op now no_data) op.id
acknowledge m ref op result none now =
    let changed = transition (finished_task m ref) ref op completed (some result) none now in
    settled (emit changed EventKind.completed op now (record no_data { result = some result }))
      op.id

abbrev pub timeout_error : OperationError
timeout_error = record {
  code = "OPERATION_TIMEOUT";
  message = "Operation exceeded its deadline.";
  retryable = true;
  details = none;
}

abbrev pub is_running : OperationStatus → Bool
is_running running = true
is_running _ = false

-- The deadline timer fires: a running operation is aborted and timed out, any other is left alone.
unfoldable pub expire : OperationManager → ℕ → Operation → Task → ℕ → OperationManager
expire m ref op task now =
    let fired = set_task m ref task.phase none in
    let op' = record op { abort_signal = some true } in
    let changed = transition fired ref op' timed_out none (some timeout_error) now in
    if is_running op.status
    then settled
        (emit changed EventKind.timed_out op now (record no_data { error = some timeout_error }))
        op.id
    else fired

-- The timer goes off when its time is there.
unfoldable pub fire : OperationManager → ℕ → Operation → Task → ℕ → OperationManager
fire m ref op task now = elim task.timer [
  | none ↦ m
  | some at ↦ if leb at now then expire m ref op task now else m
]

-- The steps by reference, each guarded by the phase of the task.
pub data TaskStep : Type 0 where
  enters : TaskStep
  dispatches : Option String → TaskStep
  finishes : Result Thrown Object → TaskStep
  acknowledges : Option String → TaskStep
  expires : TaskStep

unfoldable pub task_step :
    OperationManager → ℕ → Operation → Task → Phase → TaskStep → ℕ → OperationManager
task_step m ref op task scheduled enters now = enter m ref op task
task_step m ref op task before_hook (dispatches hook) now = dispatch m ref op task hook now
task_step m ref op task in_run (finishes outcome) now = finish m ref op task outcome now
task_step m ref op task (after_hook result) (acknowledges hook) now =
    acknowledge m ref op result hook now
task_step m ref op task phase expires now = fire m ref op task now
task_step m ref op task _ _ now = m

unfoldable pub run_task : OperationManager → ℕ → TaskStep → ℕ → OperationManager
run_task m ref s now = elim (get ref m.objects) [
  | none ↦ m
  | some op ↦ elim (get ref m.tasks) [
    | none ↦ m
    | some task ↦ task_step m ref op task task.phase s now
  ]
]
