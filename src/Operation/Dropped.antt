-- ===== src/Operation/Dropped.antt =====
-- operationManager.ts: `settle` after `retainOperations` has dropped the operation.
use pinout.Prelude.{
  ℕ, suc, ◌≤◌, ◌≡◌, ◌≢◌, ◌∙◌, refl, ap, true, false, Option, none, some, [], ◌∷◌, String, IssuedId,
  issued_id_eq, nat_eq, arith, Option-cases, inl, inr, err, All, length, ltb,
}
use pinout.Prelude.Map.{Map, get, set, retain, get-set_self, get-set_ne}
use pinout.Snapshot.{cancelled, queued, Operation, OperationError, is_terminal_operation_status}
use pinout.Idempotency.{IdempotencyStore, Patch, update_under}
use pinout.Operation.{
  OperationManager, type_error, EventKind, no_data, is_retained, is_terminal_object, drop_oldest,
  retain_operations, update_key, transition, moved, write, emit, find_operation, settle, scoped_key,
}
use pinout.Operation.Requests.{cancel, cancel_queued, cancelled_before_start}
use pinout.Operation.Races.{cancel-queued}
use pinout.Operation.Retention.{is_retained-active}

-- Every listed operation is active, and none is the one at `ref`.
abbrev pub AllActive : Map ℕ Operation → ℕ → Map IssuedId ℕ → Type 0
AllActive objects ref ops = All (λ e. (ref ≢ e.1) × (is_terminal_object objects e.1 ≡ false)) ops

-- The status of another operation is the same behind a write.
other_active :
    (objects : Map ℕ Operation) (ref : ℕ) (op : Operation) (ops : Map IssuedId ℕ)
    → AllActive objects ref ops
    → All (λ e. is_terminal_object (set ref op objects) e.1 ≡ false) ops
other_active objects ref op [] a = tt
other_active objects ref op ((id, r) ∷ ops) ((n, t), a) =
    (rw (is_terminal_object, get-set_ne ref r op objects n) t, other_active objects ref op ops a)

retain_active :
    (m : OperationManager) (now : ℕ) (ops : Map IssuedId ℕ)
    → All (λ e. is_terminal_object m.objects e.1 ≡ false) ops
    → retain (is_retained m now) ops ≡ ops
unfolding retain
retain_active m now [] a = refl
retain_active m now ((id, r) ∷ ops) (t, a) =
    ground (arith, is_retained-active m now r t, retain_active m now ops a)

drop_oldest_active :
    (objects : Map ℕ Operation) (most : ℕ) (ops : Map IssuedId ℕ)
    → All (λ e. is_terminal_object objects e.1 ≡ false) ops
    → drop_oldest objects most ops ≡ ops
unfolding drop_oldest
drop_oldest_active objects most [] a = refl
drop_oldest_active objects most ((id, r) ∷ ops) (t, a) = ground arith

ended_now_retained :
    (m : OperationManager) (now ref : ℕ) (op : Operation)
    → get ref m.objects ≡ some op
    → op.finished_at ≡ some now
    → is_retained m now ref ≡ true
unfolding is_retained
ended_now_retained m now ref op g f = rw (g, is_retained) (rw f (ground arith))

-- The oldest operation ended just now, the others are active, and there are more than the limit.
retain_operations-oldest :
    (m : OperationManager) (now : ℕ) (id : IssuedId) (ref : ℕ) (op : Operation)
    (rest : Map IssuedId ℕ)
    → m.operations ≡ (id, ref) ∷ rest
    → get ref m.objects ≡ some op
    → is_terminal_operation_status op.status ≡ true
    → op.finished_at ≡ some now
    → All (λ e. is_terminal_object m.objects e.1 ≡ false) rest
    → m.max_operations ≤ length rest
    → (retain_operations m now).operations ≡ rest
unfolding retain_operations retain drop_oldest is_retained
retain_operations-oldest m now id ref op rest l g t f a most =
    let kept = ended_now_retained m now ref op g f in
    let over : is_terminal_object m.objects ref ≡ true = rw (is_terminal_object, g) t in
    let above : ltb m.max_operations (suc (length rest)) ≡ true = ground arith in
    rw (l, kept, retain_active m now rest a, above, over)
      (drop_oldest_active m.objects m.max_operations rest a)

update_key-eq :
    (m : OperationManager) (op : Operation) (patch : Patch) (now : ℕ)
    → (s : IdempotencyStore) × (update_key m op patch now ≡ record m { store = s })
unfolding update_key
update_key-eq m op patch now = elim (Option-cases op.idempotency_key) [
  | inl e ↦ (m.store, rw (e, update_key) refl)
  | inr (key, e) ↦ (update_under m.store (scoped_key op key) patch now, rw (e, update_key) refl)
]

transition-oldest :
    (m : OperationManager) (now : ℕ) (id : IssuedId) (ref : ℕ) (op : Operation)
    (rest : Map IssuedId ℕ) (error : Option OperationError)
    → m.operations ≡ (id, ref) ∷ rest
    → AllActive m.objects ref rest
    → m.max_operations ≤ length rest
    → ((transition m ref op cancelled none error now).operations ≡ rest)
      × ((transition m ref op cancelled none error now).waiters ≡ m.waiters)
      × ((transition m ref op cancelled none error now).notified ≡ m.notified)
unfolding transition is_terminal_operation_status retain_operations update_key
transition-oldest m now id ref op rest error l a most =
    let o = moved op cancelled none error now in
    let patch : Patch = record { status = cancelled; result = none; error = error } in
    let (store, e) = update_key-eq (write m ref o) op patch now in
    let m' = record (write m ref o) { store = store } in
    let ended = get-set_self ref o m.objects in
    let others = other_active m.objects ref o rest a in
    (
      ap (λ (x : OperationManager). (retain_operations x now).operations) e
          ∙ retain_operations-oldest m' now id ref o rest l ended refl refl others most,
      ap (λ (x : OperationManager). x.waiters) e,
      ap (λ (x : OperationManager). x.notified) e,
    )

find_operation-none :
    (m : OperationManager) (id : IssuedId) → get id m.operations ≡ none → find_operation m id ≡ none
unfolding find_operation
find_operation-none m id e = rw (e, find_operation) refl

cancel_queued-oldest :
    (m : OperationManager) (now : ℕ) (ref : ℕ) (op : Operation) (rest : Map IssuedId ℕ)
    (reason : Option String)
    → m.operations ≡ (op.id, ref) ∷ rest
    → get op.id rest ≡ none
    → AllActive m.objects ref rest
    → m.max_operations ≤ length rest
    → ((cancel_queued m ref op reason now).1 ≡ err type_error)
      × ((cancel_queued m ref op reason now).0.waiters ≡ m.waiters)
      × ((cancel_queued m ref op reason now).0.notified ≡ m.notified)
unfolding emit settle cancel_queued
cancel_queued-oldest m now ref op rest reason l fresh a most =
    let error = cancelled_before_start reason in
    let (left, same, unheard) = transition-oldest m now op.id ref op rest (some error) l a most in
    let changed = transition m ref op cancelled none (some error) now in
    let told =
      emit changed EventKind.cancelled op now
        (record no_data { reason = reason; stop_confirmed = some true }) in
    let gone : find_operation told op.id ≡ none =
      find_operation-none told op.id (ap (get op.id) left ∙ fresh) in
    rw (gone, cancel_queued, settle) (refl, same, unheard)

-- When more than `maxOperations` operations are listed and the others are active, to cancel the
-- oldest one while it is queued throws a `TypeError`, though the operation is cancelled, and none
-- of the callbacks that wait for it is called.
pub cancel-oldest :
    (m : OperationManager) (now waiter ref : ℕ) (op : Operation) (rest : Map IssuedId ℕ)
    (reason : Option String)
    → m.operations ≡ (op.id, ref) ∷ rest
    → get op.id rest ≡ none
    → find_operation m op.id ≡ some (ref, op)
    → op.status ≡ queued
    → AllActive m.objects ref rest
    → m.max_operations ≤ length rest
    → let r = cancel m op.id reason waiter now in
      (r.1 ≡ err type_error) × (r.0.waiters ≡ m.waiters) × (r.0.notified ≡ m.notified)
cancel-oldest m now waiter ref op rest reason l fresh found q a most =
    rw (cancel-queued m op.id ref op reason waiter now found q)
      (cancel_queued-oldest m now ref op rest reason l fresh a most)
