-- ===== src/Operation/Iteration.antt =====
-- operationManager.ts: what the iterable over the progress of an operation hands out.
use pinout.Prelude.{
  ℕ, ◌≡◌, ◌≢◌, refl, sym, ap, subst, ◌∙◌, Bool, true, false, some, List, [], ◌∷◌, ◌++◌, arith,
  nat_eq, issued_id_eq, if◌then◌else◌, All, All-append, Bool-cases, Option-cases, inl, inr,
}
use mathlib.Core.List.{append-nil, append_assoc}
use pinout.Snapshot.{OperationProgress}
use pinout.Operation.Watch.{
  ProgressIterable, progressed, finished, Answers, new_iterable, resolve_from, call_notify,
  receive_progress, finish_iterable, next_from, next_progress, return_iterable, IterableCall,
  receives, finishes, nexts, returns, iterable_step, iterable_run,
}

-- The progress among the answers.
abbrev pub handed_out : Answers → List OperationProgress
handed_out [] = []
handed_out ((promise, progressed p) ∷ answers) = p ∷ handed_out answers
handed_out ((promise, finished) ∷ answers) = handed_out answers

handed_out-append : (xs ys : Answers) → handed_out (xs ++ ys) ≡ handed_out xs ++ handed_out ys
handed_out-append [] ys = refl
handed_out-append ((promise, progressed p) ∷ xs) ys = ap (λ l. p ∷ l) (handed_out-append xs ys)
handed_out-append ((promise, finished) ∷ xs) ys = handed_out-append xs ys

-- What was reported before `return`.
abbrev pub reported : Bool → List IterableCall → List OperationProgress
reported subscribed [] = []
reported subscribed (receives p ∷ calls) =
    (if subscribed then p ∷ [] else []) ++ reported subscribed calls
reported subscribed (finishes ∷ calls) = reported subscribed calls
reported subscribed (nexts promise ∷ calls) = reported subscribed calls
reported subscribed (returns promise ∷ calls) = reported false calls

-- A call leaves the subscription as it is, and hands out from the front of the queue.
abbrev IsInOrder : ProgressIterable → List OperationProgress → ProgressIterable × Answers → Type 0
IsInOrder it more (next, answers) = handed_out answers ++ next.queue ≡ it.queue ++ more

resolve_from-order :
    (it : ProgressIterable) (promise : ℕ) (queue : List OperationProgress)
    → queue ≡ it.queue
    → IsInOrder it [] (resolve_from it promise queue)
      × ((resolve_from it promise queue).0.subscribed ≡ it.subscribed)
resolve_from-order it promise (p ∷ queue) e = (e ∙ sym (append-nil it.queue), refl)
resolve_from-order it promise [] e = elim (Bool-cases it.done) [
  | inl t ↦ rw (t) (sym (append-nil it.queue), refl)
  | inr f ↦ rw (f) (sym (append-nil it.queue), refl)
]

call_notify-order :
    (it : ProgressIterable)
    → IsInOrder it [] (call_notify it) × ((call_notify it).0.subscribed ≡ it.subscribed)
unfolding call_notify
call_notify-order it = elim (Option-cases it.notify) [
  | inl e ↦ rw (e, call_notify) (sym (append-nil it.queue), refl)
  | inr (promise, e) ↦ rw (e, call_notify) (resolve_from-order it promise it.queue refl)
]

next_from-order :
    (it : ProgressIterable) (promise : ℕ) (queue : List OperationProgress)
    → queue ≡ it.queue
    → IsInOrder it [] (next_from it promise queue)
      × ((next_from it promise queue).0.subscribed ≡ it.subscribed)
next_from-order it promise (p ∷ queue) e = (e ∙ sym (append-nil it.queue), refl)
next_from-order it promise [] e = elim (Bool-cases it.done) [
  | inl t ↦ rw (t) (sym (append-nil it.queue), refl)
  | inr f ↦ rw (f) (sym (append-nil it.queue), refl)
]

received-order :
    (it : ProgressIterable) (p : OperationProgress) (subscribed : Bool)
    → let turn =
        if subscribed then call_notify (record it { queue = it.queue ++ p ∷ [] }) else (it, []) in
      IsInOrder it (if subscribed then p ∷ [] else []) turn × (turn.0.subscribed ≡ it.subscribed)
received-order it p true =
    let full = record it { queue = it.queue ++ p ∷ [] } in
    let (order, same) = call_notify-order full in (order ∙ append-nil full.queue, same)
received-order it p false = (sym (append-nil it.queue), refl)

-- A call and those that follow it.
then_iterate :
    (it : ProgressIterable) (turn rest : ProgressIterable × Answers)
    (now later : List OperationProgress)
    → IsInOrder it now turn
    → IsInOrder turn.0 later rest
    → IsInOrder it (now ++ later) (rest.0, turn.1 ++ rest.1)
then_iterate it turn rest now later e f =
    ap (λ l. l ++ rest.0.queue) (handed_out-append turn.1 rest.1)
    ∙ append_assoc (handed_out turn.1) (handed_out rest.1) rest.0.queue
    ∙ ap (λ l. handed_out turn.1 ++ l) f
    ∙ sym (append_assoc (handed_out turn.1) turn.0.queue later)
    ∙ ap (λ l. l ++ later) e
    ∙ append_assoc it.queue now later

-- A turn that leaves the subscription, and the calls that follow.
then_same :
    (it : ProgressIterable) (turn : ProgressIterable × Answers) (now : List OperationProgress)
    (calls : List IterableCall)
    → IsInOrder it now turn × (turn.0.subscribed ≡ it.subscribed)
    → IsInOrder turn.0 (reported turn.0.subscribed calls) (iterable_run turn.0 calls)
    → IsInOrder it
        (now ++ reported it.subscribed calls)
        ((iterable_run turn.0 calls).0, turn.1 ++ (iterable_run turn.0 calls).1)
then_same it turn now calls (order, same) later =
    then_iterate it turn (iterable_run turn.0 calls) now (reported it.subscribed calls) order
      (subst (λ b. IsInOrder turn.0 (reported b calls) (iterable_run turn.0 calls)) same later)

iterable_run-order :
    (it : ProgressIterable) (calls : List IterableCall)
    → IsInOrder it (reported it.subscribed calls) (iterable_run it calls)
unfolding receive_progress finish_iterable next_progress return_iterable
iterable_run-order it [] = sym (append-nil it.queue)
iterable_run-order it (receives p ∷ calls) =
    let now = if it.subscribed then p ∷ [] else [] in
    then_same it (receive_progress it p) now calls (received-order it p it.subscribed)
      (iterable_run-order (receive_progress it p).0 calls)
iterable_run-order it (finishes ∷ calls) =
    then_same it (finish_iterable it) [] calls (call_notify-order (record it { done = true }))
      (iterable_run-order (finish_iterable it).0 calls)
iterable_run-order it (nexts promise ∷ calls) =
    then_same it (next_progress it promise) [] calls (next_from-order it promise it.queue refl)
      (iterable_run-order (next_progress it promise).0 calls)
iterable_run-order it (returns promise ∷ calls) =
    iterable_run-order (return_iterable it promise).0 calls

-- However the reports of an operation, its end and the calls of a consumer of its progress
-- interleave: what the consumer was handed, followed by what is still queued, is what was
-- reported before `return`, in order.
pub iterable_run-new_iterable :
    (calls : List IterableCall)
    → let (last, answers) = iterable_run new_iterable calls in
      handed_out answers ++ last.queue ≡ reported true calls
iterable_run-new_iterable calls = iterable_run-order new_iterable calls

-- A call that makes no promise, or another one.
abbrev pub MakesOther : ℕ → IterableCall → Type 0
MakesOther promise (nexts other) = other ≢ promise
MakesOther promise (returns other) = other ≢ promise
MakesOther promise (receives p) = Unit
MakesOther promise finishes = Unit

module _ (promise : ℕ) where
  abbrev pub IsUnanswered : Answers → Type 0
  IsUnanswered answers = All (λ a. a.0 ≢ promise) answers

  -- The promise is neither answered nor does it wait any more.
  abbrev IsForgotten : ProgressIterable × Answers → Type 0
  IsForgotten (it, answers) = (it.notify ≢ some promise) × IsUnanswered answers

  resolve_from-IsForgotten :
      (it : ProgressIterable) (other : ℕ) (queue : List OperationProgress)
      → other ≢ promise
      → IsForgotten (resolve_from it other queue)
  resolve_from-IsForgotten it other (p ∷ queue) n = (λ e. ground (arith, e), (n, tt))
  resolve_from-IsForgotten it other [] n = ((λ e. ground (arith, e)), ground (arith, n))

  call_notify-IsForgotten :
      (it : ProgressIterable) → it.notify ≢ some promise → IsForgotten (call_notify it)
  unfolding call_notify
  call_notify-IsForgotten it n = elim (Option-cases it.notify) [
    | inl e ↦ rw (e, call_notify) (n, tt)
    | inr (other, e) ↦
        rw (e, call_notify)
          (resolve_from-IsForgotten it other it.queue (λ h. n (e ∙ ap (λ x. some x) h)))
  ]

  next_from-IsForgotten :
      (it : ProgressIterable) (other : ℕ) (queue : List OperationProgress)
      → other ≢ promise
      → it.notify ≢ some promise
      → IsForgotten (next_from it other queue)
  next_from-IsForgotten it other (p ∷ queue) n h = (h, (n, tt))
  next_from-IsForgotten it other [] n h = elim (Bool-cases it.done) [
    | inl t ↦ rw (t) (h, (n, tt))
    | inr f ↦ rw (f) ((λ e. ground (arith, e, n)), tt)
  ]

  iterable_step-IsForgotten :
      (it : ProgressIterable) (call : IterableCall)
      → MakesOther promise call
      → it.notify ≢ some promise
      → IsForgotten (iterable_step it call)
  unfolding receive_progress finish_iterable next_progress return_iterable
  iterable_step-IsForgotten it (receives p) o n = received it.subscribed
    where
      received :
          (subscribed : Bool)
          → IsForgotten (
              if subscribed
              then call_notify (record it { queue = it.queue ++ p ∷ [] })
              else (it, []))
      received true = call_notify-IsForgotten (record it { queue = it.queue ++ p ∷ [] }) n
      received false = (n, tt)
  iterable_step-IsForgotten it finishes o n = call_notify-IsForgotten (record it { done = true }) n
  iterable_step-IsForgotten it (nexts other) o n = next_from-IsForgotten it other it.queue o n
  iterable_step-IsForgotten it (returns other) o n = (n, (o, tt))

  iterable_run-IsUnanswered :
      (it : ProgressIterable) (calls : List IterableCall)
      → All (MakesOther promise) calls
      → it.notify ≢ some promise
      → IsUnanswered (iterable_run it calls).1
  iterable_run-IsUnanswered it [] h n = tt
  iterable_run-IsUnanswered it (call ∷ calls) (o, h) n =
      let (forgotten, unanswered) = iterable_step-IsForgotten it call o n in
      let (next, answers) = iterable_step it call in
      All-append (λ a. a.0 ≢ promise) answers (iterable_run next calls).1 unanswered
        (iterable_run-IsUnanswered next calls h forgotten)

  -- A consumer that asks for the next progress a second time while it waits forgets the first
  -- promise: it is never settled, whatever is reported and even when the operation ends.
  pub second_next_forgets_first :
      (it : ProgressIterable) (second : ℕ) (calls : List IterableCall)
      → it.queue ≡ []
      → it.done ≡ false
      → second ≢ promise
      → All (MakesOther promise) calls
      → IsUnanswered (iterable_run it (nexts promise ∷ nexts second ∷ calls)).1
  unfolding next_progress
  second_next_forgets_first it second calls q d n h =
      rw (q, d)
        (iterable_run-IsUnanswered (record it { queue = []; notify = some second; done = false })
          calls h (λ e. ground (arith, e, n)))
