-- ===== src/Operation/Watch.antt =====
-- operationManager.ts: `list`, the listeners for progress, and the iterable that hands the progress
-- of an operation to a consumer. A listener and a promise of `next` are each known by a number. What
-- the manager calls, the listener of the iterable and what waits for the operation, are calls here.
use pinout.Prelude.{
  ℕ, Bool, true, false, not, ◌&&◌, Option, none, some, List, [], ◌∷◌, ◌++◌, String, ◌==◌, string_eq,
  nat_eq, IssuedId, issued_id_eq, if◌then◌else◌, any, keep, or_default, nat_beq, length, ◌+◌,
}
use pinout.Prelude.Map.{Map, get, set, delete}
use pinout.Snapshot.{
  OperationStatus, queued, running, cancelling, completed, failed, cancelled, timed_out, rejected,
  requires_reconciliation, uncertain, aborted, stop_unconfirmed, Operation, OperationProgress,
}
use pinout.Operation.{OperationManager, public_snapshot, truthy}

-- The place of a status among the twelve, by which two are compared.
abbrev pub status_index : OperationStatus → ℕ
status_index queued = 0
status_index running = 1
status_index cancelling = 2
status_index completed = 3
status_index failed = 4
status_index cancelled = 5
status_index timed_out = 6
status_index rejected = 7
status_index requires_reconciliation = 8
status_index uncertain = 9
status_index aborted = 10
status_index stop_unconfirmed = 11

-- `filter && value !== filter`, with the comparison given.
abbrev pub fits_filter : {A : Type 0} → (A → Bool) → Option A → Bool
fits_filter same none = true
fits_filter same (some wanted) = same wanted

abbrev pub is_listed : Option String → Option OperationStatus → Operation → Bool
is_listed device_id status op =
    fits_filter (λ wanted. op.device_id == wanted) device_id
    && fits_filter (λ wanted. nat_beq (status_index op.status) (status_index wanted)) status

abbrev pub list_refs :
    Map ℕ Operation → Option String → Option OperationStatus → Map IssuedId ℕ → List Operation
list_refs objects device_id status [] = []
list_refs objects device_id status ((id, ref) ∷ operations) =
    let rest = list_refs objects device_id status operations in
    elim (get ref objects) [
      | none ↦ rest
      | some op ↦ if is_listed device_id status op then public_snapshot op ∷ rest else rest
    ]

unfoldable pub list_operations :
    OperationManager → Option String → Option OperationStatus → List Operation
list_operations m device_id status = list_refs m.objects (truthy device_id) status m.operations

-- A `Set` of listeners is an object, which a function that unsubscribes goes on holding when the
-- map has dropped it.
pub record ProgressListeners : Type 0 where
  pub sets : Map ℕ (List ℕ)
  pub next_set : ℕ
  pub by_operation : Map IssuedId ℕ

abbrev pub no_listeners : ProgressListeners
no_listeners = record { sets = []; next_set = 0; by_operation = [] }

abbrev pub add_listener : List ℕ → ℕ → List ℕ
add_listener present listener =
    if any (λ l. nat_beq l listener) present then present else present ++ listener ∷ []

abbrev pub add_to_set : ProgressListeners → ℕ → ℕ → ProgressListeners
add_to_set p ref listener = record p {
  sets = set ref (add_listener (or_default (get ref p.sets) []) listener) p.sets;
}

-- The set that the listener is in is what the function that unsubscribes holds.
unfoldable pub subscribe_progress : ProgressListeners → IssuedId → ℕ → ProgressListeners × ℕ
subscribe_progress p id listener = elim (get id p.by_operation) [
  | some ref ↦ (add_to_set p ref listener, ref)
  | none ↦ (
    add_to_set
        (record p { next_set = p.next_set + 1; by_operation = set id p.next_set p.by_operation })
        p.next_set listener,
    p.next_set,
  )
]

-- What `subscribeProgress` returns.
unfoldable pub unsubscribe_progress : ProgressListeners → IssuedId → ℕ → ℕ → ProgressListeners
unsubscribe_progress p id ref listener =
    let left = keep (λ l. not (nat_beq l listener)) (or_default (get ref p.sets) []) in
    record p {
      sets = set ref left p.sets;
      by_operation = if nat_beq (length left) 0 then delete id p.by_operation else p.by_operation;
    }

-- The listeners that `reportProgress` calls.
unfoldable pub listeners_of : ProgressListeners → IssuedId → List ℕ
listeners_of p id = elim (get id p.by_operation) [
  | none ↦ []
  | some ref ↦ or_default (get ref p.sets) []
]

pub record ProgressIterable : Type 0 where
  pub queue : List OperationProgress
  pub notify : Option ℕ
  pub done : Bool
  pub subscribed : Bool

-- What a promise of the iterator is resolved with.
pub data Iteration : Type 0 where
  progressed : OperationProgress → Iteration
  finished : Iteration

abbrev pub Answers : Type 0
Answers = List (ℕ × Iteration)

abbrev pub new_iterable : ProgressIterable
new_iterable = record { queue = []; notify = none; done = false; subscribed = true }

-- `notify`, which forgets itself first.
abbrev pub resolve_from : ProgressIterable → ℕ → List OperationProgress → ProgressIterable × Answers
resolve_from it promise (progress ∷ queue) =
    (record it { queue = queue; notify = none }, (promise, progressed progress) ∷ [])
resolve_from it promise [] =
    (record it { notify = none }, if it.done then (promise, finished) ∷ [] else [])

unfoldable pub call_notify : ProgressIterable → ProgressIterable × Answers
call_notify it = elim it.notify [
  | none ↦ (it, [])
  | some promise ↦ resolve_from it promise it.queue
]

-- The listener.
unfoldable pub receive_progress : ProgressIterable → OperationProgress → ProgressIterable × Answers
receive_progress it progress =
    if it.subscribed
    then call_notify (record it { queue = it.queue ++ progress ∷ [] })
    else (it, [])

-- What is called when the operation is over. For one that is not there `waitFor` throws at once,
-- and there is no iterable.
unfoldable pub finish_iterable : ProgressIterable → ProgressIterable × Answers
finish_iterable it = call_notify (record it { done = true })

abbrev pub next_from : ProgressIterable → ℕ → List OperationProgress → ProgressIterable × Answers
next_from it promise (progress ∷ queue) =
    (record it { queue = queue }, (promise, progressed progress) ∷ [])
next_from it promise [] =
    if it.done then (it, (promise, finished) ∷ []) else (record it { notify = some promise }, [])

unfoldable pub next_progress : ProgressIterable → ℕ → ProgressIterable × Answers
next_progress it promise = next_from it promise it.queue

unfoldable pub return_iterable : ProgressIterable → ℕ → ProgressIterable × Answers
return_iterable it promise =
    (record it { subscribed = false; done = true }, (promise, finished) ∷ [])

pub data IterableCall : Type 0 where
  receives : OperationProgress → IterableCall
  finishes : IterableCall
  nexts returns : ℕ → IterableCall

abbrev pub iterable_step : ProgressIterable → IterableCall → ProgressIterable × Answers
iterable_step it (receives progress) = receive_progress it progress
iterable_step it finishes = finish_iterable it
iterable_step it (nexts promise) = next_progress it promise
iterable_step it (returns promise) = return_iterable it promise

abbrev pub iterable_run : ProgressIterable → List IterableCall → ProgressIterable × Answers
iterable_run it [] = (it, [])
iterable_run it (call ∷ calls) =
    let (next, answers) = iterable_step it call in
    let (last, more) = iterable_run next calls in (last, answers ++ more)
