-- ===== src/Operation/Races.antt =====
-- operationManager.ts: what an operation that is over meets when its task goes on.
use pinout.Prelude.{
  ℕ, ◌≤◌, ◌≡◌, ◌∙◌, refl, ap, Bool, true, false, Option, none, some, List, [], ◌∷◌, String,
  IssuedId, nat_eq, arith, Option-cases, Bool-cases, inl, inr, leb,
}
use pinout.Prelude.Map.{get, get-set_self}
use pinout.Prelude.Json.{Object}
use pinout.Snapshot.{
  running, timed_out, completed, cancelled, queued, Operation, is_terminal_operation_status,
}
use pinout.Operation.{
  OperationManager, Task, Phase, scheduled, before_hook, in_run, after_hook, over, find_operation,
  moved, emit, write,
}
use pinout.Operation.Requests.{cancel, cancel_queued, cancelled_before_start}
use pinout.Operation.Tasks.{
  TaskStep, enters, dispatches, finishes, acknowledges, expires, acknowledge, timeout_error, enter,
  finish, expire, fire, is_running, set_task, task_step, run_task, dispatch,
}
use pinout.Operation.Heap.{Heap, heap}
use pinout.Operation.Calls.{heap-cancel_queued}
use pinout.Operation.Steps.{heap-ending}

-- The task waits for one of the two hooks, behind which the source does not look at the status.
abbrev pub awaits_hook : Phase → Bool
awaits_hook before_hook = true
awaits_hook (after_hook _) = true
awaits_hook _ = false

-- The steps of one task, each with its time.
unfoldable pub run_steps : OperationManager → ℕ → List (TaskStep × ℕ) → OperationManager
run_steps m ref [] = m
run_steps m ref ((s, now) ∷ ss) = run_steps (run_task m ref s now) ref ss

-- The operation is over, its task waits for no hook, and the events are `events`.
record Ended (ref : ℕ) (op : Operation) (m m' : OperationManager) : Type 0 where
  kept : get ref m'.objects ≡ some op
  silent : m'.events ≡ m.events
  task : Task
  tasked : get ref m'.tasks ≡ some task
  past_hooks : awaits_hook task.phase ≡ false

module _ (m : OperationManager) (ref : ℕ) (op : Operation)
    (t : is_terminal_operation_status op.status ≡ true) where
  not_running : is_running op.status ≡ false
  unfolding is_terminal_operation_status
  not_running = ground arith

  module _ (m' : OperationManager) (task : Task) (k : get ref m'.objects ≡ some op)
      (e : m'.events ≡ m.events) (f : get ref m'.tasks ≡ some task) where
    untouched : awaits_hook task.phase ≡ false → Ended ref op m m'
    untouched p = record { kept = k; silent = e; task = task; tasked = f; past_hooks = p }

    set_task-Ended :
        (phase : Phase) (timer : Option ℕ)
        → awaits_hook phase ≡ false
        → Ended ref op m (set_task m' ref phase timer)
    set_task-Ended phase timer p = record {
      kept = k;
      silent = e;
      task = record { phase = phase; timer = timer };
      tasked = get-set_self ref (record { phase = phase; timer = timer }) m'.tasks;
      past_hooks = p;
    }

    fire-Ended :
        (now : ℕ) → awaits_hook task.phase ≡ false → Ended ref op m (fire m' ref op task now)
    unfolding fire expire
    fire-Ended now p = elim (Option-cases task.timer) [
      | inl g ↦ rw (g, fire) (untouched p)
      | inr (deadline, g) ↦ elim (Bool-cases (leb deadline now)) [
        | inl h ↦ rw (g, fire) (rw (h, expire) (rw not_running (set_task-Ended task.phase none p)))
        | inr h ↦ rw (g, fire) (rw h (untouched p))
      ]
    ]

    enter-Ended : Ended ref op m (enter m' ref op task)
    unfolding enter
    enter-Ended = rw (t, enter) (set_task-Ended over none refl)

    finish-Ended : (outcome : _) (now : ℕ) → Ended ref op m (finish m' ref op task outcome now)
    unfolding finish
    finish-Ended outcome now = rw (t, finish) (set_task-Ended over none refl)

    step-Ended :
        (phase : Phase) (s : TaskStep) (now : ℕ)
        → task.phase ≡ phase
        → awaits_hook phase ≡ false
        → Ended ref op m (task_step m' ref op task phase s now)
    unfolding task_step
    step-Ended scheduled enters now q p = enter-Ended
    step-Ended in_run (finishes outcome) now q p = finish-Ended outcome now
    step-Ended scheduled expires now q p = fire-Ended now (ap awaits_hook q ∙ p)
    step-Ended before_hook expires now q p = fire-Ended now (ap awaits_hook q ∙ p)
    step-Ended in_run expires now q p = fire-Ended now (ap awaits_hook q ∙ p)
    step-Ended (after_hook _) expires now q p = fire-Ended now (ap awaits_hook q ∙ p)
    step-Ended over expires now q p = fire-Ended now (ap awaits_hook q ∙ p)
    step-Ended before_hook s now q p = absurd (ground arith)
    step-Ended (after_hook _) s now q p = absurd (ground arith)
    step-Ended phase s now q p = untouched (ap awaits_hook q ∙ p)

    run_task-Ended :
        (s : TaskStep) (now : ℕ)
        → awaits_hook task.phase ≡ false
        → Ended ref op m (run_task m' ref s now)
    unfolding run_task
    run_task-Ended s now p = rw (k, run_task) (rw f (step-Ended task.phase s now refl p))

  run_steps-Ended :
      (m' : OperationManager) (ss : List (TaskStep × ℕ))
      → Ended ref op m m'
      → Ended ref op m (run_steps m' ref ss)
  unfolding run_steps
  run_steps-Ended m' [] e = e
  run_steps-Ended m' ((s, now) ∷ ss) e =
      run_steps-Ended (run_task m' ref s now) ss
        (run_task-Ended m' e.task e.kept e.silent e.tasked s now e.past_hooks)

-- An operation that is over stays as it is, and nothing more is announced, whatever steps its task
-- makes and however late its timer fires, unless the task waits in one of the two hooks.
pub run_steps-keeps :
    (m : OperationManager) (ref : ℕ) (op : Operation) (task : Task) (ss : List (TaskStep × ℕ))
    → get ref m.objects ≡ some op
    → get ref m.tasks ≡ some task
    → is_terminal_operation_status op.status ≡ true
    → awaits_hook task.phase ≡ false
    → (get ref (run_steps m ref ss).objects ≡ some op) × ((run_steps m ref ss).events ≡ m.events)
run_steps-keeps m ref op task ss held tasked t p =
    let ended = run_steps-Ended m ref op t m ss (untouched m ref op t m task held refl tasked p) in
    (ended.kept, ended.silent)

pub cancel-queued :
    (m : OperationManager) (id : IssuedId) (ref : ℕ) (op : Operation) (reason : Option String)
    (waiter now : ℕ)
    → find_operation m id ≡ some (ref, op)
    → op.status ≡ queued
    → cancel m id reason waiter now ≡ cancel_queued m ref op reason now
unfolding cancel is_terminal_operation_status
cancel-queued m id ref op reason waiter now e q = rw (e, cancel) (rw q refl)

dispatched_at :
    (m : OperationManager) (ref : ℕ) (op : Operation) (task : Task) (now : ℕ)
    → get ref m.objects ≡ some op
    → get ref m.tasks ≡ some task
    → task.phase ≡ before_hook
    → (o : Operation) × (get ref (run_task m ref (dispatches none) now).objects ≡ some o)
      × (o.status ≡ running)
unfolding run_task task_step dispatch emit
dispatched_at m ref op task now held tasked p =
    let o = record op { status = running; started_at = some now } in
    (o, rw (held, run_task) (rw tasked (rw p (get-set_self ref o m.objects))), refl)

-- Behind `beforeDispatch` the status is not looked at again: `cancel` ends a queued operation
-- whose task waits in that hook, and when the hook returns the task dispatches it all the same, so
-- that the cancelled operation runs.
pub cancelled_then_dispatched :
    (m : OperationManager) (id : IssuedId) (ref : ℕ) (op : Operation) (task : Task)
    (reason : Option String) (waiter now later : ℕ)
    → find_operation m id ≡ some (ref, op)
    → op.status ≡ queued
    → get ref m.tasks ≡ some task
    → task.phase ≡ before_hook
    → let m₁ = (cancel m id reason waiter now).0 in
      let m₂ = run_task m₁ ref (dispatches none) later in
      (o : Operation) × (o' : Operation) × (get ref m₁.objects ≡ some o)
      × (o.status ≡ cancelled)
      × (get ref m₂.objects ≡ some o')
      × (o'.status ≡ running)
cancelled_then_dispatched m id ref op task reason waiter now later e q tasked p =
    let o = moved op cancelled none (some (cancelled_before_start reason)) now in
    let m₁ = (cancel m id reason waiter now).0 in
    let h : heap m₁ ≡ heap (write m ref o) =
      ap (λ r. heap r.0) (cancel-queued m id ref op reason waiter now e q)
      ∙ heap-cancel_queued m ref op reason now in
    let written : get ref m₁.objects ≡ some o =
      ap (λ (x : Heap). get ref x.objects) h ∙ get-set_self ref o m.objects in
    let (o', dispatched, runs) =
      dispatched_at m₁ ref o task later written (ap (λ (x : Heap). get ref x.tasks) h ∙ tasked) p in
    (o, o', written, refl, dispatched, runs)

-- Behind `afterDispatchBeforeAck` the status is not looked at again either: an operation that runs
-- out of time while its task waits in that hook is timed out, and when the hook returns the task
-- completes it all the same.
timed_out_then_completed :
    (m : OperationManager) (ref : ℕ) (op : Operation) (result : Object) (at now later : ℕ)
    → get ref m.objects ≡ some op
    → op.status ≡ running
    → get ref m.tasks ≡ some (record { phase = after_hook result; timer = some at })
    → at ≤ now
    → let m₁ = run_task m ref expires now in
      let m₂ = run_task m₁ ref (acknowledges none) later in
      (o : Operation) × (o' : Operation) × (get ref m₁.objects ≡ some o)
      × (o.status ≡ timed_out)
      × (get ref m₂.objects ≡ some o')
      × (o'.status ≡ completed)
unfolding run_task task_step fire expire acknowledge
timed_out_then_completed m ref op result at now later held r tasked due =
    let aborted = record op { abort_signal = some true } in
    let o = moved aborted timed_out none (some timeout_error) now in
    let o' = moved o completed (some result) none later in
    let waiting : Task = record { phase = after_hook result; timer = none } in
    let m₁ = run_task m ref expires now in
    let m₂ = run_task m₁ ref (acknowledges none) later in
    let late : leb at now ≡ true = ground arith in
    let runs : is_running op.status ≡ true = ground arith in
    let h₁ : heap m₁ ≡ heap (write (set_task m ref (after_hook result) none) ref o) =
      rw (held, run_task)
        (rw tasked (
          rw late (
            rw runs (
              heap-ending (set_task m ref (after_hook result) none) ref aborted op timed_out none
                (some timeout_error) now _ _)))) in
    let held₁ : get ref m₁.objects ≡ some o =
      ap (λ (x : Heap). get ref x.objects) h₁ ∙ get-set_self ref o m.objects in
    let tasked₁ : get ref m₁.tasks ≡ some waiting =
      ap (λ (x : Heap). get ref x.tasks) h₁ ∙ get-set_self ref waiting m.tasks in
    let h₂ : heap m₂ ≡ heap (write (set_task m₁ ref over none) ref o') =
      rw (held₁, run_task)
        (rw tasked₁ (
          heap-ending (set_task m₁ ref over none) ref o o completed (some result) none later _
            _)) in
    (
      o,
      o',
      held₁,
      refl,
      ap (λ (x : Heap). get ref x.objects) h₂ ∙ get-set_self ref o' m₁.objects,
      refl,
    )
