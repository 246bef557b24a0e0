-- ===== src/Operation/Admission.antt =====
-- operationManager.ts: `begin` keeps every task fitting its operation.
use pinout.Prelude.{
  ℕ, ◌+◌, ◌≡◌, refl, sym, subst, false, some, String, IssuedId, nat_eq, issued_id_eq, arith,
  Option-cases, Bool-cases, inl, inr,
}
use pinout.Prelude.Map.{set, has}
use pinout.Snapshot.{queued, Operation}
use pinout.Idempotency.{
  lookup, key_for, IdempotencyTombstone, IdempotencyLookup, miss, hit, expired_or_evicted,
}
use pinout.Operation.{OperationManager, scheduled, emit, truthy}
use pinout.Operation.Begin.{
  BeginOperationOptions, begin, begin_at, begin_new, begin_again, insert_object, restored,
  record_key, start, timer_of, new_operation,
}
use pinout.Operation.Heap.{Heap, heap}
use pinout.Operation.Lifecycle.{IsValid, object-IsValid, insert-IsValid, start-IsValid}

begin_again-IsValid :
    (m : OperationManager) (t : IdempotencyTombstone)
    → IsValid (heap m)
    → IsValid (heap (begin_again m t).0)
unfolding begin_again insert_object
begin_again-IsValid m t v = elim (Bool-cases (has t.operation_id m.operations)) [
  | inl h ↦ rw (h, begin_again) v
  | inr h ↦ rw (h, begin_again) (insert-IsValid (heap m) (restored t) v)
]

heap-record_key :
    (m : OperationManager) (options : BeginOperationOptions) (id : IssuedId) (now : ℕ)
    → heap (record_key m options id now) ≡ heap m
unfolding record_key
heap-record_key m options id now = elim (Option-cases (truthy options.idempotency_key)) [
  | inl e ↦ rw (e, record_key) refl
  | inr (key, e) ↦ rw (e, record_key) refl
]

-- `start` sets the timer and the task of an operation that was just inserted.
start-inserted :
    (m m' : OperationManager) (op : Operation) (now : ℕ)
    → IsValid (heap m)
    → op.status ≡ queued
    → heap m' ≡ record {
      objects = set m.next_object op m.objects;
      tasks = m.tasks;
      next = m.next_object + 1;
    }
    → IsValid (heap (start m' m.next_object op now))
unfolding start
start-inserted m m' op now v q e =
    let timer = timer_of op.deadline now in
    let inserted =
      object-IsValid (heap m) v m.next_object op
        (λ task f. absurd (ground (arith, v.fresh m.next_object (omega arith)))) in
    let started =
      start-IsValid _ (record op { abort_signal = some false })
        (record { phase = scheduled; timer = timer }) inserted (ground arith) in
    let again = λ (h : Heap). record h {
      objects = set m.next_object (record op { abort_signal = some false }) h.objects;
      tasks = set m.next_object (record { phase = scheduled; timer = timer }) h.tasks;
    } in
    subst (λ h. IsValid (again h)) (sym e) started

begin_new-IsValid :
    (m : OperationManager) (options : BeginOperationOptions) (now : ℕ) (random : String)
    → IsValid (heap m)
    → IsValid (heap (begin_new m options now random).0)
unfolding begin_new insert_object emit new_operation
begin_new-IsValid m options now random v =
    start-inserted m _ _ now v refl (heap-record_key _ options _ now)

begin_at-IsValid :
    (looked : IdempotencyLookup) (m : OperationManager) (options : BeginOperationOptions) (now : ℕ)
    (random : String)
    → IsValid (heap m)
    → IsValid (heap (begin_at looked m options now random).0)
unfolding begin_at
begin_at-IsValid (hit t) m options now random v = begin_again-IsValid m t v
begin_at-IsValid miss m options now random v = begin_new-IsValid m options now random v
begin_at-IsValid expired_or_evicted m options now random v =
    begin_new-IsValid m options now random v

pub begin-IsValid :
    (m : OperationManager) (options : BeginOperationOptions) (now : ℕ) (random : String)
    → IsValid (heap m)
    → IsValid (heap (begin m options now random).0)
unfolding begin
begin-IsValid m options now random v = elim (Option-cases (truthy options.idempotency_key)) [
  | inl e ↦ rw (e, begin) (begin_new-IsValid m options now random v)
  | inr (key, e) ↦
      let looked =
        lookup m.store (key_for options.device_id options.capability options.owner key) now in
      rw (e, begin) (begin_at-IsValid looked.1 (record m { store = looked.0 }) options now random v)
]
