-- ===== src/Operation/ProgressExamples.antt =====
-- operationManager.ts: a consumer of the progress of an operation, and lists of operations.
use pinout.Prelude.{ℕ, ◌++◌, ◌≡◌, refl, true, none, some, List, [], ◌∷◌, nat_eq, issued_id_eq}
use pinout.Snapshot.{OperationProgress}
use pinout.Operation.Watch.{
  progressed, finished, new_iterable, call_notify, receive_progress, finish_iterable, next_progress,
  return_iterable, IterableCall, receives, finishes, nexts, returns, iterable_run,
}
use pinout.Operation.Iteration.{handed_out, reported, iterable_run-new_iterable}

abbrev at : ℕ → OperationProgress
at n = record { fraction = some n; message = none; at = n }

-- The consumer waits for the second report, the third comes before it asks again.
abbrev watched : List IterableCall
watched =
    receives (at 1)
    ∷ nexts 10
    ∷ nexts 11
    ∷ receives (at 2)
    ∷ receives (at 3)
    ∷ finishes
    ∷ nexts 12
    ∷ nexts 13
    ∷ returns 14
    ∷ receives (at 4)
    ∷ []

answers_in_order :
    (iterable_run new_iterable watched).1
    ≡ (10, progressed (at 1))
      ∷ (11, progressed (at 2))
      ∷ (12, progressed (at 3))
      ∷ (13, finished)
      ∷ (14, finished)
      ∷ []
unfolding call_notify receive_progress finish_iterable next_progress return_iterable
answers_in_order = refl

-- The first of two promises is forgotten.
forgets_first :
    (iterable_run new_iterable (nexts 10 ∷ nexts 11 ∷ receives (at 1) ∷ finishes ∷ [])).1
    ≡ (11, progressed (at 1)) ∷ []
unfolding call_notify receive_progress finish_iterable next_progress
forgets_first = refl

iterable_run-new_iterable_example :
    let (last, answers) = iterable_run new_iterable watched in
    handed_out answers ++ last.queue ≡ reported true watched
iterable_run-new_iterable_example = iterable_run-new_iterable watched
