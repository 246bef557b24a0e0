-- ===== src/Operation/Hydrate/Recovery.antt =====
-- operationManager.ts: what a restart makes of the operations that the journal tells of.
use pinout.Prelude.{
  ℕ, ◌<◌, ◌≤◌, ◌≡◌, ap, Bool, true, false, not, ◌&&◌, none, some, List, [], ◌∷◌, String, IssuedId,
  issued_id_eq, nat_eq, arith, All, All-map,
}
use pinout.Prelude.Map.{Map, get, values}
use pinout.Snapshot.{is_terminal_operation_status, running}
use pinout.Operation.{OperationManager, EventKind}
use pinout.Operation.Begin.{BeginOperationOptions, insert_object, begin_new}
use pinout.Operation.Hydrate.{JournalEntry, OpState, apply_kind, read_entry, read_entries, conclude}
use pinout.Operation.Hydrate.Restore.{restore, restore_all, hydrate_operations}

-- A `requested` or `started` entry sets the status of an operation back to an active one.
abbrev pub reactivates : EventKind → Bool
reactivates EventKind.requested = true
reactivates EventKind.started = true
reactivates _ = false

-- The journal has told that the operation ended.
abbrev pub ended_before : Map IssuedId OpState → IssuedId → Bool
ended_before ops id = elim (get id ops) [ none ↦ false | some op ↦ op.has_terminal ]

-- No entry reactivates an operation that had ended in the journal before.
abbrev pub orderly_entry : Map IssuedId OpState → JournalEntry → Bool
orderly_entry ops entry = elim entry.operation_id [
  | none ↦ true
  | some id ↦ not (reactivates entry.kind && ended_before ops id)
]

unfoldable pub orderly : Map IssuedId OpState → List JournalEntry → Bool
orderly ops [] = true
orderly ops (entry ∷ entries) = orderly_entry ops entry && orderly (read_entry ops entry) entries

-- Its status is one of an operation that is over, if its journal has a terminal entry.
abbrev Settled : OpState → Type 0
Settled op = (op.has_terminal && not (is_terminal_operation_status op.status)) ≡ false

conclude-id : (op : OpState) (now : ℕ) → (conclude op now).operation_id ≡ op.operation_id
unfolding conclude
conclude-id op now = ground arith

restore_all-sequence :
    (m : OperationManager) (ops : List OpState) (now : ℕ)
    → (m.sequence ≤ (restore_all m ops now).0.sequence)
      × All (λ (op : OpState). op.operation_id.sequence ≤ (restore_all m ops now).0.sequence) ops
unfolding restore_all restore insert_object
restore_all-sequence m [] now = (omega arith, tt)
restore_all-sequence m (op ∷ ops) now =
    let (above, all_above) = restore_all-sequence (restore m (conclude op now)) ops now in
    let same = ap (λ (i : IssuedId). i.sequence) (conclude-id op now) in
    (omega (arith, above), (omega (arith, above, same), all_above))

-- Behind a restart a new operation has a higher sequence number, and so another id, than every
-- operation of the journal.
pub begin_new-hydrate :
    (m : OperationManager) (entries : List JournalEntry) (now later : ℕ)
    (options : BeginOperationOptions) (random : String)
    → All
        (λ (op : OpState).
          op.operation_id.sequence
          < (begin_new (hydrate_operations m entries now) options later random).1.id.sequence)
        (values (read_entries [] entries))
unfolding hydrate_operations begin_new
begin_new-hydrate m entries now later options random =
    All-map (λ op h. omega (arith, h)) (values (read_entries [] entries))
      (restore_all-sequence m (values (read_entries [] entries)) now).1

-- An operation that is reactivated in the journal behind its end, as one that was cancelled and
-- dispatched all the same, is restored as running: neither aborted nor left for reconciliation.
pub conclude-reactivated :
    (op : OpState) (entry : JournalEntry) (now : ℕ)
    → op.has_terminal ≡ true
    → (conclude (apply_kind EventKind.started entry op) now).status ≡ running
unfolding conclude apply_kind
conclude-reactivated op entry now h = ground arith
