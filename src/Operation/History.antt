-- ===== src/Operation/History.antt =====
-- operationManager.ts: sequences of calls on the manager and of steps of its tasks, as the event
-- loop may interleave them.
use pinout.Prelude.{ℕ, Option, none, some, List, [], ◌∷◌, String, IssuedId, nat_eq, Num}
use pinout.Prelude.Map.{get}
use pinout.Operation.{OperationManager}
use pinout.Operation.Begin.{BeginOperationOptions, begin}
use pinout.Operation.Requests.{ReconcileOptions, cancel, reconcile, wait_for}
use pinout.Operation.Tasks.{TaskStep, run_task}
use pinout.Operation.Report.{report_progress}

pub data Call : Type 0 where
  begins : BeginOperationOptions → ℕ → String → Call
  cancels : IssuedId → Option String → ℕ → ℕ → Call
  reconciles : IssuedId → ReconcileOptions → ℕ → Call
  waits : IssuedId → ℕ → Call
  reports : ℕ → Option Num → Option String → ℕ → Call
  continues : ℕ → TaskStep → ℕ → Call

unfoldable pub report : OperationManager → ℕ → Option Num → Option String → ℕ → OperationManager
report m ref fraction message now = elim (get ref m.objects) [
  | none ↦ m
  | some op ↦ (report_progress m ref op fraction message now).0
]

unfoldable pub step : OperationManager → Call → OperationManager
step m (begins options now random) = (begin m options now random).0
step m (cancels id reason waiter now) = (cancel m id reason waiter now).0
step m (reconciles id options now) = (reconcile m id options now).0
step m (waits id waiter) = (wait_for m id waiter).0
step m (reports ref fraction message now) = report m ref fraction message now
step m (continues ref s now) = run_task m ref s now

unfoldable pub run : OperationManager → List Call → OperationManager
run m [] = m
run m (c ∷ cs) = run (step m c) cs
