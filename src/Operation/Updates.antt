-- ===== src/Operation/Updates.antt =====
-- operationManager.ts: the steps of a task, and what they are made of, only update tombstones in the
-- idempotency store, so they keep what an update keeps.
use mathlib.Core.Logic.{◌⊎◌}
use pinout.Prelude.{
  ℕ, ◌≡◌, refl, subst, sym, true, false, Option, none, some, IssuedId, nat_eq, issued_id_eq,
  Option-cases, Bool-cases, inl, inr, Result, ok, err, or_default, leb, String, map, [], ◌++◌,
}
use pinout.Prelude.Json.{Object}
use pinout.Prelude.Map.{get, delete}
use pinout.Snapshot.{OperationStatus, Operation, OperationError, is_terminal_operation_status}
use pinout.Idempotency.{IdempotencyStore, ScopedKey, Patch, update_under}
use pinout.Operation.{
  OperationManager, ManagerError, type_error, EventKind, EventData, Task, Phase, scheduled,
  before_hook, in_run, after_hook, over, emit, update_key, retain_operations, transition, moved,
  settle, settled, find_operation, write, scoped_key,
}
use pinout.Operation.Tasks.{
  Thrown, TaskStep, enters, dispatches, finishes, acknowledges, expires, enter, dispatch, fail,
  finish, acknowledge, expire, fire, is_running, task_step, failure_of,
}

pub settle-store-cases :
    (m : OperationManager) (id : IssuedId)
    → ((e : ManagerError) × (settle m id ≡ err e))
      ⊎ ((m' : OperationManager) × (settle m id ≡ ok m') × (m'.store ≡ m.store))
unfolding settle
settle-store-cases m id = elim (Option-cases (find_operation m id)) [
  | inl e ↦ inl (type_error, rw (e, settle) refl)
  | inr ((ref, op), e) ↦ elim (Bool-cases (is_terminal_operation_status op.status)) [
    | inl t ↦
        let called = record m {
          waiters = delete id m.waiters;
          notified = m.notified ++ map (λ w. (w, op)) (or_default (get id m.waiters) []);
        } in
        inr (called, rw (e, settle) (rw t refl), refl)
    | inr t ↦ inr (m, rw (e, settle) (rw t refl), refl)
  ]
]

settled-store : (m : OperationManager) (id : IssuedId) → (settled m id).store ≡ m.store
settled-store m id = elim (settle-store-cases m id) [
  | inl (x, e) ↦ rw (e, settled) refl
  | inr (m', e, same) ↦ rw (e, settled) same
]

module _ {ℓ} (P : IdempotencyStore → Type ℓ)
    (updated : (s : IdempotencyStore) (k : ScopedKey) (p : Patch) (now : ℕ)
      → P s
      → P (update_under s k p now)) where
  pub update_key-keeps :
      (m : OperationManager) (op : Operation) (patch : Patch) (now : ℕ)
      → P m.store
      → P (update_key m op patch now).store
  unfolding update_key
  update_key-keeps m op patch now h = elim (Option-cases op.idempotency_key) [
    | inl e ↦ rw (e, update_key) h
    | inr (key, e) ↦ rw (e, update_key) (updated m.store (scoped_key op key) patch now h)
  ]

  pub transition-keeps :
      (m : OperationManager) (ref : ℕ) (op : Operation) (s : OperationStatus)
      (result : Option Object) (error : Option OperationError) (now : ℕ)
      → P m.store
      → P (transition m ref op s result error now).store
  unfolding transition retain_operations
  transition-keeps m ref op s result error now h =
      update_key-keeps (write m ref (moved op s result error now)) op
        (record { status = s; result = result; error = error }) now h

  ended-keeps :
      (m : OperationManager) (ref : ℕ) (o op : Operation) (s : OperationStatus)
      (result : Option Object) (error : Option OperationError) (now : ℕ) (kind : EventKind)
      (payload : EventData)
      → P m.store
      → P (settled (emit (transition m ref o s result error now) kind op now payload) op.id).store
  unfolding emit
  ended-keeps m ref o op s result error now kind payload h =
      subst P
        (sym
          (settled-store (emit (transition m ref o s result error now) kind op now payload) op.id))
        (transition-keeps m ref o s result error now h)

  module _ (m : OperationManager) (h : P m.store) (ref : ℕ) (op : Operation) where
    enter-keeps : (task : Task) → P (enter m ref op task).store
    unfolding enter
    enter-keeps task = elim (Bool-cases (is_terminal_operation_status op.status)) [
      | inl t ↦ rw (t, enter) h
      | inr t ↦ rw (t, enter) h
    ]

    dispatch-keeps :
        (task : Task) (hook : Option String) (now : ℕ) → P (dispatch m ref op task hook now).store
    unfolding dispatch emit
    dispatch-keeps task (some message) now = ended-keeps _ ref op op _ none _ now _ _ h
    dispatch-keeps task none now = h

    finish-keeps :
        (task : Task) (outcome : Result Thrown Object) (now : ℕ)
        → P (finish m ref op task outcome now).store
    unfolding finish fail
    finish-keeps task (ok result) now = elim (Bool-cases (is_terminal_operation_status op.status)) [
      | inl t ↦ rw (t, finish) h
      | inr t ↦ rw (t, finish) h
    ]
    finish-keeps task (err thrown) now =
        let failure = failure_of (or_default op.abort_signal false) thrown thrown.kind in
        elim (Bool-cases (is_terminal_operation_status op.status)) [
          | inl t ↦ rw (t, finish) h
          | inr t ↦
              rw (t, finish)
                (ended-keeps _ ref op op failure.status none (some failure.error) now failure.kind
                  failure.payload h)
        ]

    acknowledge-keeps :
        (result : Object) (hook : Option String) (now : ℕ)
        → P (acknowledge m ref op result hook now).store
    unfolding acknowledge
    acknowledge-keeps result (some message) now = ended-keeps _ ref op op _ _ _ now _ _ h
    acknowledge-keeps result none now = ended-keeps _ ref op op _ _ _ now _ _ h

    expire-keeps : (task : Task) (now : ℕ) → P (expire m ref op task now).store
    unfolding expire
    expire-keeps task now = elim (Bool-cases (is_running op.status)) [
      | inl t ↦
          rw (t, expire)
            (ended-keeps _ ref (record op { abort_signal = some true }) op _ none _ now _ _ h)
      | inr t ↦ rw (t, expire) h
    ]

    fire-keeps : (task : Task) (now : ℕ) → P (fire m ref op task now).store
    unfolding fire
    fire-keeps task now = elim (Option-cases task.timer) [
      | inl e ↦ rw (e, fire) h
      | inr (at, e) ↦ elim (Bool-cases (leb at now)) [
        | inl t ↦ rw (e, fire) (rw t (expire-keeps task now))
        | inr t ↦ rw (e, fire) (rw t h)
      ]
    ]

    pub task_step-keeps :
        (task : Task) (phase : Phase) (s : TaskStep) (now : ℕ)
        → P (task_step m ref op task phase s now).store
    unfolding task_step
    task_step-keeps task scheduled enters now = enter-keeps task
    task_step-keeps task before_hook (dispatches hook) now = dispatch-keeps task hook now
    task_step-keeps task in_run (finishes outcome) now = finish-keeps task outcome now
    task_step-keeps task (after_hook result) (acknowledges hook) now =
        acknowledge-keeps result hook now
    task_step-keeps task scheduled expires now = fire-keeps task now
    task_step-keeps task before_hook expires now = fire-keeps task now
    task_step-keeps task in_run expires now = fire-keeps task now
    task_step-keeps task (after_hook _) expires now = fire-keeps task now
    task_step-keeps task over expires now = fire-keeps task now
    task_step-keeps task phase s now = h
