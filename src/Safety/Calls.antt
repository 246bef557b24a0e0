-- ===== src/Safety/Calls.antt =====
-- safety.ts: histories of calls. The clocks of each call are given with it, and the reservations
-- are kept in the order in which they were granted, for their `commit` and `rollback` to name.
use pinout.Prelude.{ℕ, zero, suc, Option, List, [], ◌∷◌, ◌++◌, String, ok, err}
use pinout.Policy.{RuleValue}
use pinout.Policy.Evaluate.{PolicyContext, Thrown}
use pinout.Safety.{
  SafetyEngine, ApprovalRecord, set_interlock, set_sequence_step, record_approval,
  heartbeat_deadman, clear_deadman, configure_budget,
}
use pinout.Safety.Enforce.{Clocks}
use pinout.Safety.Reserve.{
  Reserved, SafetyReservation, reserve, enforce, check, preview, commit, rollback,
}

pub data Call : Type 0 where
  reserve_call enforce_call check_call preview_call : PolicyContext → Clocks → Call
  -- The reservations are numbered from 0.
  commit_call rollback_call : ℕ → Call
  interlock_call : String → RuleValue → Call
  sequence_call : String → ℕ → Call
  approval_call : ApprovalRecord → Option ℕ → ℕ → Call
  heartbeat_call : String → ℕ → Call
  clear_call : String → Call
  budget_call : String → ℕ → ℕ → Call

pub record World : Type 0 where
  pub engine : SafetyEngine
  pub reservations : List SafetyReservation

abbrev pub granted : Reserved → List SafetyReservation
granted (ok r) = r ∷ []
granted (err t) = []

abbrev pub commit_at : List SafetyReservation → ℕ → List SafetyReservation
commit_at [] n = []
commit_at (r ∷ rs) zero = commit r ∷ rs
commit_at (r ∷ rs) (suc n) = r ∷ commit_at rs n

abbrev pub rollback_at : SafetyEngine → List SafetyReservation → ℕ → World
rollback_at e [] n = record { engine = e; reservations = [] }
rollback_at e (r ∷ rs) zero =
    let (e', r') = rollback e r in record { engine = e'; reservations = r' ∷ rs }
rollback_at e (r ∷ rs) (suc n) =
    let w = rollback_at e rs n in record w { reservations = r ∷ w.reservations }

module _ (evaluate : ℕ → PolicyContext → Option Thrown) where
  unfoldable pub step : World → Call → World
  step w (reserve_call x c) =
      let (e, r) = reserve evaluate w.engine x c in
      record { engine = e; reservations = w.reservations ++ granted r }
  step w (enforce_call x c) = record w { engine = (enforce evaluate w.engine x c).0 }
  step w (check_call x c) = record w { engine = (check evaluate w.engine x c).0 }
  step w (preview_call x c) = record w { engine = (preview evaluate w.engine x c).0 }
  step w (commit_call n) = record w { reservations = commit_at w.reservations n }
  step w (rollback_call n) = rollback_at w.engine w.reservations n
  step w (interlock_call name value) = record w { engine = set_interlock w.engine name value }
  step w (sequence_call name n) = record w { engine = set_sequence_step w.engine name n }
  step w (approval_call r at_time now) = record w {
    engine = (record_approval w.engine r at_time now).0;
  }
  step w (heartbeat_call device_id now) = record w {
    engine = heartbeat_deadman w.engine device_id now;
  }
  step w (clear_call device_id) = record w { engine = clear_deadman w.engine device_id }
  step w (budget_call name limit window_ms) = record w {
    engine = configure_budget w.engine name limit window_ms;
  }

  unfoldable pub run : World → List Call → World
  run w [] = w
  run w (call ∷ calls) = run (step w call) calls
