-- ===== src/Snapshot.antt =====
-- packages/core/src/spec/types.ts and packages/core/src/operation/operationManager.ts: the status,
-- the error and the snapshot of an operation.
use pinout.Prelude.{ℕ, Bool, true, false, Option, String, IssuedId}
use pinout.Prelude.Json.{Object}

pub data OperationStatus : Type 0 where
  queued running cancelling completed failed cancelled timed_out rejected : OperationStatus
  requires_reconciliation uncertain aborted stop_unconfirmed : OperationStatus

unfoldable pub is_terminal_operation_status : OperationStatus → Bool
is_terminal_operation_status queued = false
is_terminal_operation_status running = false
is_terminal_operation_status cancelling = false
is_terminal_operation_status _ = true

pub record OperationError : Type 0 where
  pub code : String
  pub message : String
  pub retryable : Bool
  pub details : Option Object

pub data ReconciliationResolution : Type 0 where
  observed_complete observed_not_done abandoned : ReconciliationResolution

pub record ReconciliationRecord : Type 0 where
  pub resolution : ReconciliationResolution
  pub note : Option String
  pub actor : Option String
  pub reconciled_at : ℕ

-- A fraction is `none` for indeterminate work, and otherwise stands in millionths.
pub record OperationProgress : Type 0 where
  pub fraction : Option ℕ
  pub message : Option String
  pub at : ℕ

-- The operation as the manager keeps it. `abort_signal` is `abort.signal.aborted`, and is `none`
-- for an operation without an `AbortController`, which is one that was restored.
pub record Operation : Type 0 where
  pub id : IssuedId
  pub device_id : String
  pub capability : String
  pub status : OperationStatus
  pub idempotency_key : Option String
  pub owner : Option String
  pub created_at : ℕ
  pub started_at : Option ℕ
  pub cancel_requested_at : Option ℕ
  pub finished_at : Option ℕ
  pub deadline : Option ℕ
  pub progress : Option OperationProgress
  pub result : Option Object
  pub error : Option OperationError
  pub reconciled : Bool
  pub reconciliation : Option ReconciliationRecord
  pub abort_signal : Option Bool
