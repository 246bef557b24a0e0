-- ===== src/Operation/Reconcile.antt =====
-- operationManager.ts: `reconcile` settles an uncertain operation once.
use pinout.Prelude.{
  ℕ, ◌≡◌, ◌∙◌, refl, ap, Bool, true, false, some, IssuedId, issued_id_eq, nat_eq, arith, Bool-cases,
  inl, inr, Result, ok, err,
}
use pinout.Prelude.Map.{get, get-set_self}
use pinout.Snapshot.{
  OperationStatus, completed, cancelled, failed, Operation, ReconciliationResolution,
  observed_complete, observed_not_done, abandoned,
}
use pinout.Operation.{OperationManager, operation_not_uncertain, find_operation, write}
use pinout.Operation.Requests.{
  ReconcileOptions, is_uncertain, reconcile, reconcile_uncertain, reconciled_operation, resolve,
}
use pinout.Operation.Heap.{Heap, heap}
use pinout.Operation.Calls.{heap-reconcile_uncertain}

-- The status that a resolution stands for.
abbrev pub resolved_status : ReconciliationResolution → OperationStatus
resolved_status observed_complete = completed
resolved_status observed_not_done = cancelled
resolved_status abandoned = failed

abbrev pub is_ok {ℓ κ} : {E : Type ℓ} {A : Type κ} → Result E A → Bool
is_ok (ok _) = true
is_ok (err _) = false

reconciled_operation-status :
    (op : Operation) (options : ReconcileOptions) (now : ℕ)
    → (reconciled_operation op options now).status ≡ resolved_status options.resolution
unfolding reconciled_operation resolve
reconciled_operation-status op options now = ground arith

resolved_status-certain : (r : ReconciliationResolution) → is_uncertain (resolved_status r) ≡ false
resolved_status-certain observed_complete = refl
resolved_status-certain observed_not_done = refl
resolved_status-certain abandoned = refl

reconcile-certain :
    (m : OperationManager) (id : IssuedId) (ref : ℕ) (op : Operation) (options : ReconcileOptions)
    (now : ℕ)
    → find_operation m id ≡ some (ref, op)
    → is_uncertain op.status ≡ false
    → reconcile m id options now ≡ (m, err (operation_not_uncertain id op.status))
unfolding reconcile
reconcile-certain m id ref op options now e t = rw (e, reconcile) (rw t refl)

reconcile-uncertain :
    (m : OperationManager) (id : IssuedId) (ref : ℕ) (op : Operation) (options : ReconcileOptions)
    (now : ℕ)
    → find_operation m id ≡ some (ref, op)
    → is_ok (reconcile m id options now).1 ≡ true
    → reconcile m id options now ≡ reconcile_uncertain m ref op options now
unfolding reconcile
reconcile-uncertain m id ref op options now e o = elim (Bool-cases (is_uncertain op.status)) [
  | inl t ↦ rw (e, reconcile) (rw t refl)
  | inr t ↦
      absurd (ground (arith, ap (λ r. is_ok r.1) (reconcile-certain m id ref op options now e t)))
]

found_at :
    (m : OperationManager) (id : IssuedId) (ref : ℕ) (op : Operation)
    → get id m.operations ≡ some ref
    → get ref m.objects ≡ some op
    → find_operation m id ≡ some (ref, op)
unfolding find_operation
found_at m id ref op e f = rw (e, find_operation) (rw f refl)

-- An operation is reconciled once. When `reconcile` has succeeded, the operation has the status of
-- the resolution, and while it is listed every further attempt, whatever its resolution, fails and
-- changes nothing.
pub reconcile_once :
    (m : OperationManager) (id : IssuedId) (ref : ℕ) (op : Operation)
    (options options' : ReconcileOptions) (now later : ℕ)
    → find_operation m id ≡ some (ref, op)
    → is_ok (reconcile m id options now).1 ≡ true
    → get id (reconcile m id options now).0.operations ≡ some ref
    → let m₁ = (reconcile m id options now).0 in
      (get ref m₁.objects ≡ some (reconciled_operation op options now))
      × ((reconciled_operation op options now).status ≡ resolved_status options.resolution)
      × (reconcile m₁ id options' later
          ≡ (m₁, err (operation_not_uncertain id (resolved_status options.resolution))))
reconcile_once m id ref op options options' now later e o listed =
    let m₁ = (reconcile m id options now).0 in
    let op' = reconciled_operation op options now in
    let status = reconciled_operation-status op options now in
    let same : heap m₁ ≡ heap (write m ref op') =
      ap (λ r. heap r.0) (reconcile-uncertain m id ref op options now e o)
      ∙ heap-reconcile_uncertain m ref op options now in
    let held : get ref m₁.objects ≡ some op' =
      ap (λ (h : Heap). get ref h.objects) same ∙ get-set_self ref op' m.objects in
    let refused =
      reconcile-certain m₁ id ref op' options' later (found_at m₁ id ref op' listed held)
        (ap is_uncertain status ∙ resolved_status-certain options.resolution) in
    (held, status, refused ∙ ap (λ s. (m₁, err (operation_not_uncertain id s))) status)
