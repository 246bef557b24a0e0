-- ===== src/Operation/Heap.antt =====
-- operationManager.ts: what the private methods do to the operations and the tasks themselves.
use pinout.Prelude.{
  ℕ, ◌≡◌, refl, Option, none, some, IssuedId, nat_eq, issued_id_eq, Option-cases, Bool-cases, inl,
  inr, Result, ok, err, subst, ◌⊎◌,
}
use pinout.Prelude.Json.{Object}
use pinout.Prelude.Map.{Map, get}
use pinout.Snapshot.{OperationStatus, Operation, OperationError, is_terminal_operation_status}
use pinout.Idempotency.{Patch}
use pinout.Operation.{
  OperationManager, ManagerError, EventKind, EventData, Task, emit, update_key, retain_operations,
  transition, moved, settle, settled, find_operation, write,
}

-- The operations, the tasks and the count of references.
pub record Heap : Type 0 where
  pub objects : Map ℕ Operation
  pub tasks : Map ℕ Task
  pub next : ℕ

abbrev pub heap : OperationManager → Heap
heap m = record { objects = m.objects; tasks = m.tasks; next = m.next_object }

pub heap-emit :
    (m : OperationManager) (kind : EventKind) (op : Operation) (now : ℕ) (payload : EventData)
    → heap (emit m kind op now payload) ≡ heap m
unfolding emit
heap-emit m kind op now payload = refl

pub heap-update_key :
    (m : OperationManager) (op : Operation) (patch : Patch) (now : ℕ)
    → heap (update_key m op patch now) ≡ heap m
unfolding update_key
heap-update_key m op patch now = elim (Option-cases op.idempotency_key) [
  | inl e ↦ rw (e, update_key) refl
  | inr (k, e) ↦ rw (e, update_key) refl
]

pub heap-transition :
    (m : OperationManager) (ref : ℕ) (op : Operation) (s : OperationStatus) (result : Option Object)
    (error : Option OperationError) (now : ℕ)
    → heap (transition m ref op s result error now)
      ≡ heap (write m ref (moved op s result error now))
unfolding transition retain_operations
heap-transition m ref op s result error now =
    heap-update_key (write m ref (moved op s result error now)) op
      (record { status = s; result = result; error = error }) now

abbrev pub SameHeap : OperationManager → Result ManagerError OperationManager → Type 0
SameHeap m (ok m') = heap m' ≡ heap m
SameHeap m (err e) = Unit

pub settle-SameHeap : (m : OperationManager) (id : IssuedId) → SameHeap m (settle m id)
unfolding settle
settle-SameHeap m id = elim (Option-cases (find_operation m id)) [
  | inl e ↦ rw (e, settle) tt
  | inr ((ref, op), e) ↦ elim (Bool-cases (is_terminal_operation_status op.status)) [
    | inl t ↦ rw (e, settle) (rw t refl)
    | inr t ↦ rw (e, settle) (rw t refl)
  ]
]

-- A result of `settle`, or the manager as it was.
abbrev either : OperationManager → Result ManagerError OperationManager → OperationManager
either m (ok m') = m'
either m (err e) = m

heap-either :
    (m : OperationManager) (r : Result ManagerError OperationManager)
    → SameHeap m r
    → heap (either m r) ≡ heap m
heap-either m (ok m') h = h
heap-either m (err e) h = refl

pub heap-settled : (m : OperationManager) (id : IssuedId) → heap (settled m id) ≡ heap m
heap-settled m id = heap-either m (settle m id) (settle-SameHeap m id)

pub settle-cases :
    (m : OperationManager) (id : IssuedId)
    → ((e : ManagerError) × (settle m id ≡ err e))
      ⊎ ((m' : OperationManager) × (settle m id ≡ ok m') × (heap m' ≡ heap m))
settle-cases m id = cases (settle m id) refl
  where
    cases :
        (r : Result ManagerError OperationManager)
        → settle m id ≡ r
        → ((e : ManagerError) × (settle m id ≡ err e))
          ⊎ ((m' : OperationManager) × (settle m id ≡ ok m') × (heap m' ≡ heap m))
    cases (ok m') e = inr (m', e, subst (SameHeap m) e (settle-SameHeap m id))
    cases (err x) e = inl (x, e)

pub find_operation-cases :
    (m : OperationManager) (id : IssuedId)
    → (find_operation m id ≡ none)
      ⊎ ((ref : ℕ) × (op : Operation) × (find_operation m id ≡ some (ref, op))
          × (get id m.operations ≡ some ref)
          × (get ref m.objects ≡ some op))
unfolding find_operation
find_operation-cases m id = elim (Option-cases (get id m.operations)) [
  | inl e ↦ inl (rw (e, find_operation) refl)
  | inr (ref, e) ↦ elim (Option-cases (get ref m.objects)) [
    | inl f ↦ inl (rw (e, find_operation) (rw f refl))
    | inr (op, f) ↦ inr (ref, op, rw (e, find_operation) (rw f refl), e, f)
  ]
]
