-- ===== src/Operation/Report.antt =====
-- operationManager.ts: `reportProgress`, which the context of a task offers.
use pinout.Prelude.{
  ℕ, Option, none, some, String, nat_eq, if◌then◌else◌, Result, ok, err, leb, Num, not_finite, int,
  pos, negsuc,
}
use pinout.Snapshot.{is_terminal_operation_status, Operation}
use pinout.Operation.{
  OperationManager, EventKind, ManagerError, invalid_progress, no_data, write, emit,
}

-- The progress is in millionths; `none` stands for the source's `null`.
abbrev in_unit_range : Num → Option ℕ
in_unit_range not_finite = none
in_unit_range (int (negsuc _)) = none
in_unit_range (int (pos n)) = if leb n 1_000_000 then some n else none

unfoldable pub report_valid :
    OperationManager → ℕ → Operation → Option ℕ → Option String → ℕ → OperationManager
report_valid m ref op fraction message now =
    let op' = record op {
      progress = some (record { fraction = fraction; message = message; at = now });
    } in
    emit (write m ref op') EventKind.progress op' now
      (record no_data { fraction = fraction; message = message })

unfoldable pub report_progress :
    OperationManager
    → ℕ
    → Operation
    → Option Num
    → Option String
    → ℕ
    → OperationManager × Result ManagerError (Unit {0})
report_progress m ref op fraction message now =
    if is_terminal_operation_status op.status then (m, ok tt) else elim fraction [
      | none ↦ (report_valid m ref op none message now, ok tt)
      | some f ↦ elim (in_unit_range f) [
        | none ↦ (m, err invalid_progress)
        | some n ↦ (report_valid m ref op (some n) message now, ok tt)
      ]
    ]
