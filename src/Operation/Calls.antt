-- ===== src/Operation/Calls.antt =====
-- operationManager.ts: the public methods keep every task fitting its operation, so that it does so
-- in every history.
use pinout.Prelude.{
  ℕ, ◌≡◌, ◌∙◌, refl, sym, subst, true, false, Option, none, some, List, [], ◌∷◌, String, IssuedId,
  nat_eq, issued_id_eq, arith, Option-cases, Bool-cases, inl, inr, Num, not_finite, int, pos,
  negsuc,
}
use pinout.Prelude.Map.{get}
use pinout.Snapshot.{
  OperationStatus, cancelling, cancelled, Operation, is_terminal_operation_status,
}
use pinout.Idempotency.{IdempotencyStore}
use pinout.Operation.{
  OperationManager, Task, Phase, scheduled, before_hook, in_run, after_hook, over, init, EventKind,
  emit, transition, moved, find_operation, no_data, write, retain_operations,
}
use pinout.Operation.Requests.{
  ReconcileOptions, cancel, cancel_queued, cancel_running, cancelled_before_start, is_queued,
  reconcile, reconcile_uncertain, record_reconciled, is_uncertain, wait_for, reconciled_operation,
  resolve,
}
use pinout.Operation.Report.{report_progress, report_valid}
use pinout.Operation.History.{
  Call, begins, cancels, reconciles, waits, reports, continues, report, step, run,
}
use pinout.Operation.Heap.{
  heap, heap-emit, heap-transition, heap-update_key, settle-cases, find_operation-cases,
}
use pinout.Operation.Lifecycle.{IsValid, fits, fits_terminal, object-IsValid}
use pinout.Operation.Steps.{run_task-IsValid}
use pinout.Operation.Admission.{begin-IsValid}

fits_cancelling :
    (p : Phase) (s : OperationStatus)
    → fits p s ≡ true
    → is_terminal_operation_status s ≡ false
    → is_queued s ≡ false
    → fits p cancelling ≡ true
unfolding is_terminal_operation_status
fits_cancelling scheduled s f t q = ground arith
fits_cancelling before_hook s f t q = ground arith
fits_cancelling in_run s f t q = refl
fits_cancelling (after_hook _) s f t q = refl
fits_cancelling over s f t q = ground arith

pub heap-cancel_queued :
    (m : OperationManager) (ref : ℕ) (op : Operation) (reason : Option String) (now : ℕ)
    → heap (cancel_queued m ref op reason now).0
      ≡ heap (write m ref (moved op cancelled none (some (cancelled_before_start reason)) now))
unfolding cancel_queued
heap-cancel_queued m ref op reason now =
    let error = cancelled_before_start reason in
    let changed = transition m ref op cancelled none (some error) now in
    let payload = record no_data { reason = reason; stop_confirmed = some true } in
    let told = emit changed EventKind.cancelled op now payload in
    let before =
      heap-emit changed EventKind.cancelled op now payload
      ∙ heap-transition m ref op cancelled none (some error) now in
    elim (settle-cases told op.id) [
      | inl (x, e) ↦ rw (e, cancel_queued) before
      | inr (m', e, same) ↦ rw (e, cancel_queued) (same ∙ before)
    ]

pub heap-reconcile_uncertain :
    (m : OperationManager) (ref : ℕ) (op : Operation) (options : ReconcileOptions) (now : ℕ)
    → heap (reconcile_uncertain m ref op options now).0
      ≡ heap (write m ref (reconciled_operation op options now))
unfolding reconcile_uncertain record_reconciled retain_operations emit
heap-reconcile_uncertain m ref op options now =
    let op' = reconciled_operation op options now in
    let told = record_reconciled m ref op' options now in
    let before : heap told ≡ heap (write m ref op') =
      heap-update_key (write m ref op') op'
        (record { status = op'.status; result = op'.result; error = op'.error }) now in
    elim (settle-cases told op.id) [
      | inl (x, e) ↦ rw (e, reconcile_uncertain) before
      | inr (m', e, same) ↦ rw (e, reconcile_uncertain) (same ∙ before)
    ]

module _ (m : OperationManager) (v : IsValid (heap m)) (ref : ℕ) (op : Operation)
    (held : get ref m.objects ≡ some op) where
  -- An operation that is over fits its task, wherever that stands.
  over-IsValid :
      (m' : OperationManager) (o : Operation)
      → is_terminal_operation_status o.status ≡ true
      → heap m' ≡ heap (write m ref o)
      → IsValid (heap m')
  over-IsValid m' o t e =
      subst IsValid (sym e)
        (object-IsValid (heap m) v ref o (λ task f. fits_terminal task.phase o.status t))

  cancel_queued-IsValid :
      (reason : Option String) (now : ℕ) → IsValid (heap (cancel_queued m ref op reason now).0)
  unfolding is_terminal_operation_status
  cancel_queued-IsValid reason now =
      over-IsValid (cancel_queued m ref op reason now).0
        (moved op cancelled none (some (cancelled_before_start reason)) now) refl
        (heap-cancel_queued m ref op reason now)

  cancel_running-IsValid :
      (waiter now : ℕ)
      → is_terminal_operation_status op.status ≡ false
      → is_queued op.status ≡ false
      → IsValid (heap (cancel_running m ref op waiter now).0)
  unfolding cancel_running is_terminal_operation_status
  cancel_running-IsValid waiter now t q =
      object-IsValid (heap m) v ref _
        (λ task f. fits_cancelling task.phase op.status (v.fitting ref op task held f) t q)

  report_valid-IsValid :
      (fraction : Option ℕ) (message : Option String) (now : ℕ)
      → IsValid (heap (report_valid m ref op fraction message now))
  unfolding report_valid emit
  report_valid-IsValid fraction message now =
      object-IsValid (heap m) v ref _ (λ task f. v.fitting ref op task held f)

  report_progress-IsValid :
      (fraction : Option Num) (message : Option String) (now : ℕ)
      → IsValid (heap (report_progress m ref op fraction message now).0)
  unfolding report_progress
  report_progress-IsValid none message now = ground (arith, report_valid-IsValid none message now)
  report_progress-IsValid (some not_finite) message now = ground arith
  report_progress-IsValid (some (int (negsuc n))) message now = ground arith
  report_progress-IsValid (some (int (pos n))) message now =
      ground (arith, report_valid-IsValid (some n) message now)

  cancel_found :
      (id : IssuedId) (reason : Option String) (waiter now : ℕ)
      → find_operation m id ≡ some (ref, op)
      → IsValid (heap (cancel m id reason waiter now).0)
  unfolding cancel
  cancel_found id reason waiter now e = elim (Bool-cases (is_terminal_operation_status op.status)) [
    | inl t ↦ rw (e, cancel) (rw t v)
    | inr t ↦ elim (Bool-cases (is_queued op.status)) [
      | inl q ↦ rw (e, cancel) (rw t (rw q (cancel_queued-IsValid reason now)))
      | inr q ↦ rw (e, cancel) (rw t (rw q (cancel_running-IsValid waiter now t q)))
    ]
  ]

  wait_found :
      (id : IssuedId) (waiter : ℕ)
      → find_operation m id ≡ some (ref, op)
      → IsValid (heap (wait_for m id waiter).0)
  unfolding wait_for
  wait_found id waiter e = elim (Bool-cases (is_terminal_operation_status op.status)) [
    | inl t ↦ rw (e, wait_for) (rw t v)
    | inr t ↦ rw (e, wait_for) (rw t v)
  ]

  reconciled-terminal :
      (options : ReconcileOptions) (now : ℕ)
      → is_terminal_operation_status (reconciled_operation op options now).status ≡ true
  unfolding reconciled_operation resolve is_terminal_operation_status
  reconciled-terminal options now = ground arith

  reconcile_uncertain-IsValid :
      (options : ReconcileOptions) (now : ℕ)
      → IsValid (heap (reconcile_uncertain m ref op options now).0)
  reconcile_uncertain-IsValid options now =
      over-IsValid (reconcile_uncertain m ref op options now).0
        (reconciled_operation op options now) (reconciled-terminal options now)
        (heap-reconcile_uncertain m ref op options now)

  reconcile_found :
      (id : IssuedId) (options : ReconcileOptions) (now : ℕ)
      → find_operation m id ≡ some (ref, op)
      → IsValid (heap (reconcile m id options now).0)
  unfolding reconcile
  reconcile_found id options now e = elim (Bool-cases (is_uncertain op.status)) [
    | inl t ↦ rw (e, reconcile) (rw t (reconcile_uncertain-IsValid options now))
    | inr t ↦ rw (e, reconcile) (rw t v)
  ]

cancel-IsValid :
    (m : OperationManager) (id : IssuedId) (reason : Option String) (waiter now : ℕ)
    → IsValid (heap m)
    → IsValid (heap (cancel m id reason waiter now).0)
unfolding cancel
cancel-IsValid m id reason waiter now v = elim (find_operation-cases m id) [
  | inl e ↦ rw (e, cancel) v
  | inr (ref, op, e, _, held) ↦ cancel_found m v ref op held id reason waiter now e
]

reconcile-IsValid :
    (m : OperationManager) (id : IssuedId) (options : ReconcileOptions) (now : ℕ)
    → IsValid (heap m)
    → IsValid (heap (reconcile m id options now).0)
unfolding reconcile
reconcile-IsValid m id options now v = elim (find_operation-cases m id) [
  | inl e ↦ rw (e, reconcile) v
  | inr (ref, op, e, _, held) ↦ reconcile_found m v ref op held id options now e
]

wait_for-IsValid :
    (m : OperationManager) (id : IssuedId) (waiter : ℕ)
    → IsValid (heap m)
    → IsValid (heap (wait_for m id waiter).0)
unfolding wait_for
wait_for-IsValid m id waiter v = elim (find_operation-cases m id) [
  | inl e ↦ rw (e, wait_for) v
  | inr (ref, op, e, _, held) ↦ wait_found m v ref op held id waiter e
]

report-IsValid :
    (m : OperationManager) (ref : ℕ) (fraction : Option Num) (message : Option String) (now : ℕ)
    → IsValid (heap m)
    → IsValid (heap (report m ref fraction message now))
unfolding report
report-IsValid m ref fraction message now v = elim (Option-cases (get ref m.objects)) [
  | inl e ↦ rw (e, report) v
  | inr (op, e) ↦ rw (e, report) (report_progress-IsValid m v ref op e fraction message now)
]

step-IsValid : (m : OperationManager) (c : Call) → IsValid (heap m) → IsValid (heap (step m c))
unfolding step
step-IsValid m (begins options now random) v = begin-IsValid m options now random v
step-IsValid m (cancels id reason waiter now) v = cancel-IsValid m id reason waiter now v
step-IsValid m (reconciles id options now) v = reconcile-IsValid m id options now v
step-IsValid m (waits id waiter) v = wait_for-IsValid m id waiter v
step-IsValid m (reports ref fraction message now) v = report-IsValid m ref fraction message now v
step-IsValid m (continues ref s now) v = run_task-IsValid m ref s now v

run-IsValid : (m : OperationManager) (cs : List Call) → IsValid (heap m) → IsValid (heap (run m cs))
unfolding run
run-IsValid m [] v = v
run-IsValid m (c ∷ cs) v = run-IsValid (step m c) cs (step-IsValid m c v)

init-IsValid :
    (store : IdempotencyStore) (retention_ms max_operations : Option ℕ)
    → IsValid (heap (init store retention_ms max_operations))
unfolding init get
init-IsValid store retention_ms max_operations = record {
  fitting = λ r o t a b. absurd (ground arith);
  fresh = λ r le. refl;
}

-- However calls on a new manager and the steps of its tasks interleave, every task fits its
-- operation: before it is dispatched, the operation is queued or over; while the device works, it is
-- not queued; and when the task is over, so is the operation.
pub run-init-fits :
    (store : IdempotencyStore) (retention_ms max_operations : Option ℕ) (cs : List Call) (ref : ℕ)
    (op : Operation) (task : Task)
    → get ref (run (init store retention_ms max_operations) cs).objects ≡ some op
    → get ref (run (init store retention_ms max_operations) cs).tasks ≡ some task
    → fits task.phase op.status ≡ true
run-init-fits store retention_ms max_operations cs =
    (run-IsValid (init store retention_ms max_operations) cs
      (init-IsValid store retention_ms max_operations)).fitting
