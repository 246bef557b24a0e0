-- ===== src/Operation/Hydrate/Examples.antt =====
-- operationManager.ts: restarts with concrete journals.
use pinout.Prelude.{
  ℕ, ◌≡◌, refl, true, none, some, List, [], ◌∷◌, IssuedId, issued_id_eq, nat_eq, map,
}
use pinout.Prelude.Map.{get, set, values}
use pinout.Snapshot.{is_terminal_operation_status, requires_reconciliation, completed}
use pinout.Idempotency as Idempotency
use pinout.Operation.{OperationManager, EventKind, no_data, init}
use pinout.Operation.Begin.{BeginOperationOptions, insert_object}
use pinout.Operation.Hydrate.{
  JournalEntry, OpState, apply_kind, found_state, read_entry, read_entries, conclude, new_state,
}
use pinout.Operation.Hydrate.Restore.{snapshot_of, restore, restore_all, hydrate_operations}
use pinout.Operation.Hydrate.Recovery.{orderly}

hydration : Unit {0}
unfolding init apply_kind found_state read_entry read_entries conclude snapshot_of restore
    restore_all hydrate_operations insert_object orderly get set is_terminal_operation_status
hydration = tt

abbrev manager : OperationManager
manager = init (Idempotency.init none none) none none

abbrev id_of : ℕ → IssuedId
id_of n = record { sequence = n; suffix = "aa" }

abbrev entry : EventKind → ℕ → ℕ → JournalEntry
entry kind n at = record {
  kind = kind;
  operation_id = some (id_of n);
  device_id = some "arm";
  at = at;
  payload = record no_data { capability = some "motion.move_to" };
}

-- The first operation completed, and the second was in flight.
abbrev journal : List JournalEntry
journal =
    entry EventKind.requested 1 5
    ∷ entry EventKind.started 1 6
    ∷ entry EventKind.completed 1 9
    ∷ entry EventKind.requested 2 10
    ∷ entry EventKind.started 2 11
    ∷ []

recovered :
    map (λ o. o.status) (values (hydrate_operations manager journal 50).objects)
    ≡ completed ∷ requires_reconciliation ∷ []
unfolding hydration
recovered = refl

abbrev move_to : BeginOperationOptions
move_to = record {
  device_id = "arm";
  capability = "motion.move_to";
  owner = none;
  idempotency_key = none;
  deadline = none;
  timeout_ms = none;
}

-- The operation was cancelled at 7 and dispatched at 8.
abbrev stopped_state : OpState
stopped_state =
    apply_kind EventKind.cancelled (entry EventKind.cancelled 1 7)
      (new_state (id_of 1) "arm" (entry EventKind.requested 1 5))

stopped_over : stopped_state.has_terminal ≡ true
unfolding hydration
stopped_over = refl
