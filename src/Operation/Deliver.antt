-- ===== src/Operation/Deliver.antt =====
-- operationManager.ts: `waitForResult`: what the promise of a result becomes when the operation is
-- over. `some retryable` is a flag that is given to the error.
use pinout.Prelude.{Bool, true, false, Option, none, some, String, Result, ok, err, or_default}
use pinout.Prelude.Json.{Object, end}
use pinout.Snapshot.{
  OperationStatus, completed, requires_reconciliation, uncertain, aborted, stop_unconfirmed, failed,
  cancelled, timed_out, Operation,
}

-- Why the promise is rejected: a structured error with its code, category, message, details and
-- flag, or an `AbortedError`.
pub data Rejection : Type 0 where
  structured : String → String → String → Option Object → Option Bool → Rejection
  aborted_error : String → Rejection

abbrev message_of : Operation → String → String
message_of op fallback = elim op.error [ none ↦ fallback | some e ↦ e.message ]

abbrev code_of : Operation → String → String
code_of op fallback = elim op.error [ none ↦ fallback | some e ↦ e.code ]

abbrev details_of : Operation → Option Object
details_of op = elim op.error [ none ↦ none | some e ↦ e.details ]

abbrev retryable_of : Operation → Option Bool
retryable_of op = elim op.error [ none ↦ none | some e ↦ some e.retryable ]

unfoldable pub deliver_at : OperationStatus → Operation → Result Rejection Object
deliver_at completed op = ok (or_default op.result end)
deliver_at requires_reconciliation op = err (
    structured "OPERATION_REQUIRES_RECONCILIATION" "OPERATION"
      (message_of op "Operation outcome is uncertain and requires reconciliation.") (details_of op)
      (some false))
deliver_at uncertain op = err (
    structured "OPERATION_REQUIRES_RECONCILIATION" "OPERATION"
      (message_of op "Operation outcome is uncertain and requires reconciliation.") (details_of op)
      (some false))
deliver_at aborted op = err (
    structured (code_of op "OPERATION_ABORTED") "OPERATION"
      (message_of op "Operation was aborted before dispatch.") (details_of op) (some false))
deliver_at stop_unconfirmed op = err (
    structured "OPERATION_STOP_UNCONFIRMED" "OPERATION"
      (message_of op "Cancellation requested but device stop was unconfirmed.") (details_of op)
      (some false))
deliver_at failed op = err (
    structured (code_of op "OPERATION_FAILED") "OPERATION" (message_of op "Operation failed.")
      (details_of op) (retryable_of op))
deliver_at cancelled op = err (aborted_error (message_of op "Operation cancelled."))
deliver_at timed_out op = err (
    structured "OPERATION_TIMEOUT" "TIMEOUT" (message_of op "Operation exceeded its deadline.") none
      (some true))
deliver_at _ op = err (
    structured "OPERATION_REJECTED" "OPERATION"
      (message_of op "Operation was rejected before start.") none none)

unfoldable pub deliver : Operation → Result Rejection Object
deliver op = deliver_at op.status op
