-- ===== src/Operation/CallUpdates.antt =====
-- operationManager.ts: every call but `begin` only updates tombstones in the idempotency store.
use pinout.Prelude.{
  ℕ, ◌≡◌, subst, sym, Bool, true, false, Option, none, some, IssuedId, nat_eq, issued_id_eq,
  Option-cases, Bool-cases, inl, inr, arith, Num, String,
}
use pinout.Prelude.Map.{get}
use pinout.Snapshot.{cancelled, Operation, is_terminal_operation_status}
use pinout.Idempotency.{IdempotencyStore, ScopedKey, Patch, update_under}
use pinout.Operation.{
  OperationManager, EventKind, emit, retain_operations, transition, find_operation, write, no_data,
}
use pinout.Operation.Requests.{
  cancel, cancel_queued, cancel_running, cancelled_before_start, is_queued, ReconcileOptions,
  reconcile, reconcile_uncertain, record_reconciled, reconciled_operation, is_uncertain, wait_for,
}
use pinout.Operation.Report.{report_progress, report_valid}
use pinout.Operation.Tasks.{run_task}
use pinout.Operation.History.{
  Call, begins, cancels, reconciles, waits, reports, continues, report, step,
}
use pinout.Operation.Updates.{
  settle-store-cases, update_key-keeps, transition-keeps, task_step-keeps,
}

-- The call begins an operation.
abbrev pub is_begin : Call → Bool
is_begin (begins _ _ _) = true
is_begin _ = false

module _ {ℓ} (P : IdempotencyStore → Type ℓ)
    (updated : (s : IdempotencyStore) (k : ScopedKey) (p : Patch) (now : ℕ)
      → P s
      → P (update_under s k p now)) where
  module _ (m : OperationManager) (h : P m.store) (ref : ℕ) (op : Operation) where
    cancel_queued-keeps :
        (reason : Option String) (now : ℕ) → P (cancel_queued m ref op reason now).0.store
    unfolding cancel_queued emit
    cancel_queued-keeps reason now =
        let error = cancelled_before_start reason in
        let changed = transition m ref op cancelled none (some error) now in
        let kept = transition-keeps P updated m ref op cancelled none (some error) now h in
        let told =
          emit changed EventKind.cancelled op now
            (record no_data { reason = reason; stop_confirmed = some true }) in
        elim (settle-store-cases told op.id) [
          | inl (x, e) ↦ rw (e, cancel_queued) kept
          | inr (m', e, same) ↦ rw (e, cancel_queued) (subst P (sym same) kept)
        ]

    reconcile_uncertain-keeps :
        (options : ReconcileOptions) (now : ℕ)
        → P (reconcile_uncertain m ref op options now).0.store
    unfolding reconcile_uncertain record_reconciled emit retain_operations
    reconcile_uncertain-keeps options now =
        let op' = reconciled_operation op options now in
        let told = record_reconciled m ref op' options now in
        let patch : Patch = record {
          status = op'.status;
          result = op'.result;
          error = op'.error;
        } in
        let kept : P told.store = update_key-keeps P updated (write m ref op') op' patch now h in
        elim (settle-store-cases told op.id) [
          | inl (x, e) ↦ rw (e, reconcile_uncertain) kept
          | inr (m', e, same) ↦ rw (e, reconcile_uncertain) (subst P (sym same) kept)
        ]

    cancel_found-keeps :
        (id : IssuedId) (reason : Option String) (waiter now : ℕ)
        → find_operation m id ≡ some (ref, op)
        → P (cancel m id reason waiter now).0.store
    unfolding cancel cancel_running
    cancel_found-keeps id reason waiter now e =
        elim (Bool-cases (is_terminal_operation_status op.status)) [
          | inl t ↦ rw (e, cancel) (rw t h)
          | inr t ↦ elim (Bool-cases (is_queued op.status)) [
            | inl q ↦ rw (e, cancel) (rw t (rw q (cancel_queued-keeps reason now)))
            | inr q ↦ rw (e, cancel) (rw t (rw q h))
          ]
        ]

    reconcile_found-keeps :
        (id : IssuedId) (options : ReconcileOptions) (now : ℕ)
        → find_operation m id ≡ some (ref, op)
        → P (reconcile m id options now).0.store
    unfolding reconcile
    reconcile_found-keeps id options now e = elim (Bool-cases (is_uncertain op.status)) [
      | inl t ↦ rw (e, reconcile) (rw t (reconcile_uncertain-keeps options now))
      | inr t ↦ rw (e, reconcile) (rw t h)
    ]

    report_progress-keeps :
        (fraction : Option Num) (message : Option String) (now : ℕ)
        → P (report_progress m ref op fraction message now).0.store
    unfolding report_progress report_valid emit
    report_progress-keeps fraction message now = ground (arith, h)

    wait_found-keeps :
        (id : IssuedId) (waiter : ℕ)
        → find_operation m id ≡ some (ref, op)
        → P (wait_for m id waiter).0.store
    unfolding wait_for
    wait_found-keeps id waiter e = elim (Bool-cases (is_terminal_operation_status op.status)) [
      | inl t ↦ rw (e, wait_for) (rw t h)
      | inr t ↦ rw (e, wait_for) (rw t h)
    ]

  -- Every call but `begin`, and every step of a task.
  pub step-keeps :
      (m : OperationManager) (c : Call) → is_begin c ≡ false → P m.store → P (step m c).store
  unfolding step cancel reconcile wait_for report run_task
  step-keeps m (begins options now random) b h = absurd (ground arith)
  step-keeps m (cancels id reason waiter now) b h = elim (Option-cases (find_operation m id)) [
    | inl e ↦ rw (e, step, cancel) h
    | inr ((ref, op), e) ↦ cancel_found-keeps m h ref op id reason waiter now e
  ]
  step-keeps m (reconciles id options now) b h = elim (Option-cases (find_operation m id)) [
    | inl e ↦ rw (e, step, reconcile) h
    | inr ((ref, op), e) ↦ reconcile_found-keeps m h ref op id options now e
  ]
  step-keeps m (waits id waiter) b h = elim (Option-cases (find_operation m id)) [
    | inl e ↦ rw (e, step, wait_for) h
    | inr ((ref, op), e) ↦ wait_found-keeps m h ref op id waiter e
  ]
  step-keeps m (reports ref fraction message now) b h = elim (Option-cases (get ref m.objects)) [
    | inl e ↦ rw (e, step, report) h
    | inr (op, e) ↦ rw (e, step, report) (report_progress-keeps m h ref op fraction message now)
  ]
  step-keeps m (continues ref s now) b h = elim (Option-cases (get ref m.objects)) [
    | inl e ↦ rw (e, step, run_task) h
    | inr (op, e) ↦ elim (Option-cases (get ref m.tasks)) [
      | inl f ↦ rw (e, step, run_task) (rw f h)
      | inr (task, f) ↦
          rw (e, step, run_task) (rw f (task_step-keeps P updated m h ref op task task.phase s now))
    ]
  ]
