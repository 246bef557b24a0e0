-- ===== src/Operation/Examples.antt =====
-- operationManager.ts: runs of the manager at concrete inputs.
use pinout.Prelude.{
  All, ok, err, ℕ, ◌-◌, ◌≤◌, ◌<◌, ◌≡◌, refl, true, false, none, some, List, [], ◌∷◌, IssuedId,
  issued_id_eq, nat_eq, arith, length,
}
use pinout.Prelude.Json.{end}
use pinout.Prelude.Map.{get, set, delete, retain}
use pinout.Snapshot.{
  requires_reconciliation, completed, observed_complete, queued, running, cancelled, Operation,
  is_terminal_operation_status,
}
use pinout.Operation.{
  operation_not_uncertain, OperationManager, Task, scheduled, before_hook, emit, find_operation,
  is_retained, drop_oldest, retain_operations, update_key, transition, settle, moved,
  is_terminal_object, init,
}
use pinout.Operation.Begin.{
  BeginOperationOptions, begin, begin_at, begin_new, begin_again, insert_object, new_operation,
  new_tombstone, record_key, start, fires_at,
}
use pinout.Operation.Requests.{
  cancel, cancel_queued, cancelled_before_start, ReconcileOptions, reconcile, reconcile_uncertain,
  record_reconciled, reconciled_operation, resolve,
}
use pinout.Operation.Tasks.{
  TaskStep, enters, dispatches, finishes, acknowledges, expires, enter, task_step, run_task,
  dispatch, finish, acknowledge, reconciliation_error,
}
use pinout.Operation.Watch.{list_operations}
use pinout.Operation.History.{Call, begins, cancels, continues, step, run}
use pinout.Operation.Lifecycle.{fits}
use pinout.Operation.Calls.{run-init-fits}
use pinout.Operation.Races.{run_steps, run_steps-keeps, cancelled_then_dispatched}
use pinout.Operation.Dedupe.{Deduplicated, begin_twice}
use pinout.Operation.Remembered.{in_time, command_key, other_keys}
use pinout.Operation.Reconcile.{is_ok, reconcile_once}
use pinout.Idempotency.{
  IdempotencyStore, lookup, record_under, evict_overflow, drop_overflow, update_under, is_stale,
  size, key_for, scoped_key_eq,
}
use pinout.Idempotency as Idempotency

operation_manager : Unit {0}
unfolding init Idempotency.init begin begin_at begin_new begin_again insert_object new_operation
    new_tombstone record_key start fires_at emit find_operation is_retained drop_oldest
    retain_operations update_key transition settle cancel cancel_queued enter task_step run_task
    step run lookup record_under evict_overflow drop_overflow update_under is_stale size get set
    delete retain is_terminal_operation_status run_steps
operation_manager = tt

reconciling : Unit {0}
unfolding dispatch finish acknowledge reconcile reconcile_uncertain record_reconciled
    reconciled_operation resolve
reconciling = tt

abbrev store : IdempotencyStore
store = Idempotency.init none none

abbrev manager : OperationManager
manager = init store none none

abbrev move_to : BeginOperationOptions
move_to = record {
  device_id = "arm";
  capability = "motion.move_to";
  owner = some "ann";
  idempotency_key = some "k";
  deadline = none;
  timeout_ms = some 100;
}

abbrev move_id : IssuedId
move_id = record { sequence = 1; suffix = "aa" }

abbrev begun : OperationManager
begun = (begin manager move_to 5 "aa").0

abbrev begun_operation : Operation
begun_operation = record (new_operation move_to move_id 5) { abort_signal = some false }

abbrev begun_task : Task
begun_task = record { phase = scheduled; timer = some 105 }

begun_held : get 0 begun.objects ≡ some begun_operation
unfolding operation_manager
begun_held = refl

begun_tasked : get 0 begun.tasks ≡ some begun_task
unfolding operation_manager
begun_tasked = refl

begun_listed : get move_id begun.operations ≡ some 0
unfolding operation_manager
begun_listed = refl

history_held : get 0 (run manager (begins move_to 5 "aa" ∷ [])).objects ≡ some begun_operation
unfolding operation_manager
history_held = refl

history_tasked : get 0 (run manager (begins move_to 5 "aa" ∷ [])).tasks ≡ some begun_task
unfolding operation_manager
history_tasked = refl

begun_queued : begun_operation.status ≡ queued
unfolding operation_manager
begun_queued = refl

run-init-fits_example : fits begun_task.phase begun_operation.status ≡ true
run-init-fits_example =
    run-init-fits store none none (begins move_to 5 "aa" ∷ []) 0 begun_operation begun_task
      history_held history_tasked

abbrev stopped : OperationManager
stopped = (cancel begun move_id none 0 7).0

abbrev stopped_operation : Operation
stopped_operation = moved begun_operation cancelled none (some (cancelled_before_start none)) 7

stopped_held : get 0 stopped.objects ≡ some stopped_operation
unfolding operation_manager
stopped_held = refl

stopped_tasked : get 0 stopped.tasks ≡ some begun_task
unfolding operation_manager
stopped_tasked = refl

stopped_over : is_terminal_operation_status stopped_operation.status ≡ true
unfolding operation_manager
stopped_over = refl

abbrev late_steps : List (TaskStep × ℕ)
late_steps = (enters, 8) ∷ (dispatches none, 9) ∷ (expires, 200) ∷ []

run_steps-keeps_example :
    (get 0 (run_steps stopped 0 late_steps).objects ≡ some stopped_operation)
    × ((run_steps stopped 0 late_steps).events ≡ stopped.events)
run_steps-keeps_example =
    run_steps-keeps stopped 0 stopped_operation begun_task late_steps stopped_held stopped_tasked
      stopped_over refl

abbrev entered : OperationManager
entered = run_task begun 0 enters 6

entered_found : find_operation entered move_id ≡ some (0, begun_operation)
unfolding operation_manager
entered_found = refl

entered_tasked : get 0 entered.tasks ≡ some (record { phase = before_hook; timer = some 105 })
unfolding operation_manager
entered_tasked = refl

cancelled_then_dispatched_example :
    let m₁ = (cancel entered move_id none 0 7).0 in
    let m₂ = run_task m₁ 0 (dispatches none) 8 in
    (o : Operation) × (o' : Operation) × (get 0 m₁.objects ≡ some o)
    × (o.status ≡ cancelled)
    × (get 0 m₂.objects ≡ some o')
    × (o'.status ≡ running)
cancelled_then_dispatched_example =
    cancelled_then_dispatched entered move_id 0 begun_operation
      (record { phase = before_hook; timer = some 105 }) none 0 7 8 entered_found begun_queued
      entered_tasked refl

store_bounds :
    (0 < store.max_entries) × (size store ≤ store.max_entries) × (20 - 5 ≤ store.retention_ms)
unfolding operation_manager
store_bounds = (omega arith, omega arith, omega arith)

first_is_new : (begin manager move_to 5 "aa").1.deduped ≡ false
unfolding operation_manager
first_is_new = refl

abbrev other_move : BeginOperationOptions
other_move = record move_to { owner = some "ben" }

-- Another owner's command under the same text, a repetition, and steps of the first task.
abbrev calls_between : List Call
calls_between =
    begins other_move 8 "cc"
    ∷ begins move_to 9 "dd"
    ∷ continues 0 enters 10
    ∷ continues 0 (dispatches none) 11
    ∷ cancels move_id none 0 12
    ∷ []

between_in_time :
    All (λ c. in_time (command_key move_to "k") 5 manager.store.retention_ms c ≡ true) calls_between
unfolding operation_manager
between_in_time = (refl, (refl, (refl, (refl, (refl, tt)))))

between_few : other_keys (command_key move_to "k") calls_between < manager.store.max_entries
unfolding operation_manager other_keys
between_few = omega arith

begin_twice_example :
    let first = begin manager move_to 5 "aa" in
    let before = run first.0 calls_between in
    let second = begin before move_to 20 "bb" in
    (second.1.id ≡ first.1.id) × Deduplicated before second
unfolding init
begin_twice_example =
    begin_twice manager move_to move_to 5 20 "aa" "bb" "k" calls_between refl
      (refl, refl, refl, refl) store_bounds.1 first_is_new between_in_time between_few
      store_bounds.2

begun_active : is_terminal_object begun.objects 0 ≡ false
unfolding operation_manager
begun_active = refl

-- A device that may have moved: its run was not acknowledged.
abbrev unsure_steps : List (TaskStep × ℕ)
unsure_steps =
    (enters, 6)
    ∷ (dispatches none, 7)
    ∷ (finishes (ok end), 8)
    ∷ (acknowledges (some "crash"), 9)
    ∷ []

abbrev unsure : OperationManager
unsure = run_steps begun 0 unsure_steps

abbrev unsure_operation : Operation
unsure_operation =
    moved (record begun_operation { status = running; started_at = some 7 }) requires_reconciliation
      none (some (reconciliation_error "crash")) 9

abbrev seen_complete : ReconcileOptions
seen_complete = record {
  resolution = observed_complete;
  note = none;
  actor = some "ann";
  result = none;
}

unsure_found : find_operation unsure move_id ≡ some (0, unsure_operation)
unfolding operation_manager reconciling
unsure_found = refl

reconciles_first : is_ok (reconcile unsure move_id seen_complete 20).1 ≡ true
unfolding operation_manager reconciling
reconciles_first = refl

still_listed : get move_id (reconcile unsure move_id seen_complete 20).0.operations ≡ some 0
unfolding operation_manager reconciling
still_listed = refl

reconcile_once_example :
    let m₁ = (reconcile unsure move_id seen_complete 20).0 in
    (get 0 m₁.objects ≡ some (reconciled_operation unsure_operation seen_complete 20))
    × ((reconciled_operation unsure_operation seen_complete 20).status ≡ completed)
    × (reconcile m₁ move_id seen_complete 30
        ≡ (m₁, err (operation_not_uncertain move_id completed)))
reconcile_once_example =
    reconcile_once unsure move_id 0 unsure_operation seen_complete seen_complete 20 30 unsure_found
      reconciles_first still_listed

-- A manager that keeps one operation, with two that are queued.
abbrev pair : OperationManager
pair =
    (begin (begin (init store none (some 1)) move_to 5 "aa").0
      (record move_to { idempotency_key = none }) 6 "bb").0

abbrev second_id : IssuedId
second_id = record { sequence = 2; suffix = "bb" }

pair_listed : pair.operations ≡ (move_id, 0) ∷ (second_id, 1) ∷ []
unfolding operation_manager
pair_listed = refl

pair_fresh : get {V = ℕ} move_id ((second_id, 1) ∷ []) ≡ none
unfolding get
pair_fresh = refl

pair_found : find_operation pair move_id ≡ some (0, begun_operation)
unfolding operation_manager
pair_found = refl

pair_active : is_terminal_object pair.objects 1 ≡ false
unfolding operation_manager
pair_active = refl

pair_limit : pair.max_operations ≤ 1
unfolding operation_manager
pair_limit = omega arith

lists_by_filter :
    (length (list_operations begun none none) ≡ 1)
    × (length (list_operations begun (some "arm") (some queued)) ≡ 1)
    × (list_operations begun (some "leg") none ≡ [])
    × (list_operations begun none (some running) ≡ [])
unfolding list_operations operation_manager
lists_by_filter = (refl, refl, refl, refl)

-- A deadline more than 2^31 - 1 ms away fires after one.
far_deadline : fires_at 3_000_000_000 5 ≡ 6
unfolding fires_at
far_deadline = refl
