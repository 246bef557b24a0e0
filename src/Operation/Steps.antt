-- ===== src/Operation/Steps.antt =====
-- operationManager.ts: the steps of a task keep every task fitting its operation.
use pinout.Prelude.{
  ℕ, ◌≡◌, ◌∙◌, refl, sym, subst, Bool, true, false, Option, none, some, String, nat_eq, arith,
  Option-cases, Bool-cases, inl, inr, Result, ok, err, leb, or_default,
}
use pinout.Prelude.Json.{Object}
use pinout.Prelude.Map.{get, set}
use pinout.Snapshot.{
  OperationStatus, running, completed, aborted, timed_out, requires_reconciliation, Operation,
  OperationError, is_terminal_operation_status,
}
use pinout.Operation.{
  OperationManager, Task, Phase, scheduled, before_hook, in_run, after_hook, over, EventKind,
  EventData, emit, transition, moved, settled, write,
}
use pinout.Operation.Tasks.{
  Thrown, ThrownKind, stop_unconfirmed_error, abort_error, other_error, failure_of, enter, dispatch,
  fail, finish, acknowledge, expire, is_running, TaskStep, enters, dispatches, finishes,
  acknowledges, expires, fire, task_step, run_task, set_task,
}
use pinout.Operation.Heap.{heap, heap-emit, heap-transition, heap-settled}
use pinout.Operation.Lifecycle.{IsValid, fits, fits_terminal, task-IsValid, both-IsValid}

-- A change of status, its event and the calls of the waiters only write the snapshot.
pub heap-ending :
    (m : OperationManager) (ref : ℕ) (o op : Operation) (s : OperationStatus)
    (result : Option Object) (error : Option OperationError) (now : ℕ) (kind : EventKind)
    (payload : EventData)
    → heap (settled (emit (transition m ref o s result error now) kind op now payload) op.id)
      ≡ heap (write m ref (moved o s result error now))
heap-ending m ref o op s result error now kind payload =
    heap-settled (emit (transition m ref o s result error now) kind op now payload) op.id
    ∙ heap-emit (transition m ref o s result error now) kind op now payload
    ∙ heap-transition m ref o s result error now

failure_of-terminal :
    (stopped : Bool) (thrown : Thrown) (kind : ThrownKind)
    → is_terminal_operation_status (failure_of stopped thrown kind).status ≡ true
unfolding failure_of is_terminal_operation_status
failure_of-terminal true thrown stop_unconfirmed_error = refl
failure_of-terminal true thrown abort_error = refl
failure_of-terminal true thrown other_error = refl
failure_of-terminal false thrown kind = refl

module _ (m : OperationManager) (v : IsValid (heap m)) (ref : ℕ) (op : Operation) (task : Task)
    (held : get ref m.objects ≡ some op) (tasked : get ref m.tasks ≡ some task) where
  fitted : fits task.phase op.status ≡ true
  fitted = v.fitting ref op task held tasked

  -- A task that changes alone must fit the operation as it is.
  alone :
      (new : Task)
      → fits new.phase op.status ≡ true
      → IsValid (record (heap m) { tasks = set ref new m.tasks })
  alone new f = task-IsValid (heap m) v ref task new tasked (λ o e. ground (arith, held))

  -- The operation ends, with its task in any phase.
  ended :
      (phase : Phase) (timer : Option ℕ) (o : Operation) (s : OperationStatus)
      (result : Option Object) (error : Option OperationError) (now : ℕ) (kind : EventKind)
      (payload : EventData)
      → is_terminal_operation_status s ≡ true
      → IsValid (
          heap (
            settled
              (emit
                (transition (set_task m ref phase timer) ref o s result error now)
                kind
                op
                now
                payload)
              op.id))
  ended phase timer o s result error now kind payload t =
      subst IsValid
        (sym (heap-ending (set_task m ref phase timer) ref o op s result error now kind payload))
        (both-IsValid (heap m) v ref task (record { phase = phase; timer = timer })
          (moved o s result error now) tasked (fits_terminal phase s t))

  enter-IsValid : task.phase ≡ scheduled → IsValid (heap (enter m ref op task))
  unfolding enter
  enter-IsValid p = elim (Bool-cases (is_terminal_operation_status op.status)) [
    | inl t ↦ rw (t, enter) (alone (record { phase = over; timer = none }) t)
    | inr t ↦
        rw (t, enter)
          (alone (record { phase = before_hook; timer = task.timer }) (ground (arith, fitted)))
  ]

  dispatch-IsValid :
      (hook : Option String) (now : ℕ) → IsValid (heap (dispatch m ref op task hook now))
  unfolding dispatch emit set is_terminal_operation_status
  dispatch-IsValid (some message) now = ended over none op aborted _ _ now _ _ refl
  dispatch-IsValid none now =
      both-IsValid (heap m) v ref task (record { phase = in_run; timer = task.timer })
        (record op { status = running; started_at = some now }) tasked refl

  finish-IsValid :
      (outcome : Result Thrown Object) (now : ℕ)
      → task.phase ≡ in_run
      → IsValid (heap (finish m ref op task outcome now))
  unfolding finish fail
  finish-IsValid (ok result) now p = elim (Bool-cases (is_terminal_operation_status op.status)) [
    | inl t ↦ rw (t, finish) (alone (record { phase = over; timer = none }) t)
    | inr t ↦
        rw (t, finish)
          (alone (record { phase = after_hook result; timer = task.timer })
            (ground (arith, fitted)))
  ]
  finish-IsValid (err thrown) now p = elim (Bool-cases (is_terminal_operation_status op.status)) [
    | inl t ↦ rw (t, finish) (alone (record { phase = over; timer = none }) t)
    | inr t ↦
        let failure = failure_of (or_default op.abort_signal false) thrown thrown.kind in
        rw (t, finish)
          (ended over none op failure.status none (some failure.error) now failure.kind
            failure.payload (failure_of-terminal _ thrown thrown.kind))
  ]

  acknowledge-IsValid :
      (result : Object) (hook : Option String) (now : ℕ)
      → IsValid (heap (acknowledge m ref op result hook now))
  unfolding acknowledge is_terminal_operation_status
  acknowledge-IsValid result (some message) now =
      ended over none op requires_reconciliation _ _ now _ _ refl
  acknowledge-IsValid result none now = ended over none op completed _ _ now _ _ refl

  expire-IsValid : (now : ℕ) → IsValid (heap (expire m ref op task now))
  unfolding expire is_terminal_operation_status
  expire-IsValid now = elim (Bool-cases (is_running op.status)) [
    | inl t ↦
        rw (t, expire)
          (ended task.phase none (record op { abort_signal = some true }) timed_out none _ now _ _
            refl)
    | inr t ↦ rw (t, expire) (alone (record { phase = task.phase; timer = none }) fitted)
  ]

  fire-IsValid : (now : ℕ) → IsValid (heap (fire m ref op task now))
  unfolding fire
  fire-IsValid now = elim (Option-cases task.timer) [
    | inl e ↦ rw (e, fire) v
    | inr (deadline, e) ↦ elim (Bool-cases (leb deadline now)) [
      | inl t ↦ rw (e, fire) (rw t (expire-IsValid now))
      | inr t ↦ rw (e, fire) (rw t v)
    ]
  ]

  task_step-IsValid :
      (phase : Phase) (s : TaskStep) (now : ℕ)
      → task.phase ≡ phase
      → IsValid (heap (task_step m ref op task phase s now))
  unfolding task_step
  task_step-IsValid scheduled enters now p = enter-IsValid p
  task_step-IsValid before_hook (dispatches hook) now p = dispatch-IsValid hook now
  task_step-IsValid in_run (finishes outcome) now p = finish-IsValid outcome now p
  task_step-IsValid (after_hook result) (acknowledges hook) now p =
      acknowledge-IsValid result hook now
  task_step-IsValid scheduled expires now p = fire-IsValid now
  task_step-IsValid before_hook expires now p = fire-IsValid now
  task_step-IsValid in_run expires now p = fire-IsValid now
  task_step-IsValid (after_hook _) expires now p = fire-IsValid now
  task_step-IsValid over expires now p = fire-IsValid now
  task_step-IsValid phase s now p = v

pub run_task-IsValid :
    (m : OperationManager) (ref : ℕ) (s : TaskStep) (now : ℕ)
    → IsValid (heap m)
    → IsValid (heap (run_task m ref s now))
unfolding run_task
run_task-IsValid m ref s now v = elim (Option-cases (get ref m.objects)) [
  | inl e ↦ rw (e, run_task) v
  | inr (op, e) ↦ elim (Option-cases (get ref m.tasks)) [
    | inl f ↦ rw (e, run_task) (rw f v)
    | inr (task, f) ↦
        rw (e, run_task) (rw f (task_step-IsValid m v ref op task e f task.phase s now refl))
  ]
]
