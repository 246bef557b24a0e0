-- ===== src/Safety.antt =====
-- packages/core/src/policy/safety.ts: the safety engine, its state and what feeds it. The rules
-- and their merge are in Policy. A budget, an approval and a window of timestamps are objects that
-- only the engine holds (callers get copies), so a change of one is a change of the engine.
-- Times are in milliseconds. Counts, steps, the limits of rates and budgets, and costs are whole
-- numbers; those of ranges are any finite ones.
pub mod Enforce
pub mod Reserve
pub mod Accepted
pub mod Frame
pub mod Granted
pub mod Approvals
pub mod Budgets
pub mod Rates
pub mod RateLimit
pub mod Lost
pub mod Calls
mod Examples
use pinout.Prelude.{
  ℕ, ◌+◌, Bool, true, false, ◌≡◌, Option, none, some, List, [], ◌∷◌, String, string_eq,
  if◌then◌else◌, keep, or_default,
}
use pinout.Prelude.Map.{Map, get, set, delete}
use pinout.Lease.{LeaseManager}
use pinout.Policy.{RuleValue, RuleKind, deadman, SafetyRule}

pub record ApprovalRecord : Type 0 where
  pub id : String
  pub device_id : String
  pub capability : String
  pub granted_by : String
  pub granted_at : ℕ
  pub expires_at : Option ℕ
  pub used_at : Option ℕ

pub record Consumption : Type 0 where
  pub time : ℕ
  pub cost : ℕ

pub record ResourceBudget : Type 0 where
  pub limit : ℕ
  pub window_ms : ℕ
  pub consumed : List Consumption

-- What a reservation saves, and a rollback restores.
pub record Consumables : Type 0 where
  pub rate_windows : Map String (List ℕ)
  pub approvals : Map String ApprovalRecord
  pub budgets : Map String ResourceBudget

-- `consumables` are the three fields that are not `readonly`.
pub record SafetyEngine : Type 0 where
  pub rules : List SafetyRule
  pub lease_manager : Option LeaseManager
  pub interlocks : Map String RuleValue
  pub sequences : Map String ℕ
  pub deadmen : Map String ℕ
  pub consumables : Consumables

abbrev pub nothing_consumed : Consumables
nothing_consumed = record { rate_windows = []; approvals = []; budgets = [] }

unfoldable pub init : List SafetyRule → Option LeaseManager → SafetyEngine
init rules manager = record {
  rules = rules;
  lease_manager = manager;
  interlocks = [];
  sequences = [];
  deadmen = [];
  consumables = nothing_consumed;
}

unfoldable pub set_interlock : SafetyEngine → String → RuleValue → SafetyEngine
set_interlock e name value = record e { interlocks = set name value e.interlocks }

unfoldable pub get_interlock : SafetyEngine → String → Option RuleValue
get_interlock e name = get name e.interlocks

unfoldable pub set_sequence_step : SafetyEngine → String → ℕ → SafetyEngine
set_sequence_step e sequence step = record e { sequences = set sequence step e.sequences }

abbrev pub with_approvals : SafetyEngine → Map String ApprovalRecord → SafetyEngine
with_approvals e m = record e { consumables = record (e.consumables) { approvals = m } }

abbrev pub with_budgets : SafetyEngine → Map String ResourceBudget → SafetyEngine
with_budgets e m = record e { consumables = record (e.consumables) { budgets = m } }

abbrev pub with_rate_windows : SafetyEngine → Map String (List ℕ) → SafetyEngine
with_rate_windows e m = record e { consumables = record (e.consumables) { rate_windows = m } }

-- The record that is handed over, its `grantedAt` apart, and the record that is stored.
unfoldable pub record_approval :
    SafetyEngine → ApprovalRecord → Option ℕ → ℕ → SafetyEngine × ApprovalRecord
record_approval e r granted_at now =
    let full = record r { granted_at = or_default granted_at now } in
    (with_approvals e (set full.id full e.consumables.approvals), full)

unfoldable pub heartbeat_deadman : SafetyEngine → String → ℕ → SafetyEngine
heartbeat_deadman e device_id now = record e { deadmen = set device_id now e.deadmen }

unfoldable pub get_deadman_last_alive : SafetyEngine → String → Option ℕ
get_deadman_last_alive e device_id = get device_id e.deadmen

unfoldable pub clear_deadman : SafetyEngine → String → SafetyEngine
clear_deadman e device_id = record e { deadmen = delete device_id e.deadmen }

abbrev pub is_deadman : RuleKind → Bool
is_deadman (deadman _) = true
is_deadman _ = false

unfoldable pub list_deadman_rules : SafetyEngine → List SafetyRule
list_deadman_rules e = keep (λ r. is_deadman r.kind) e.rules

unfoldable pub configure_budget : SafetyEngine → String → ℕ → ℕ → SafetyEngine
configure_budget e resource limit window_ms =
    let fresh : ResourceBudget = record { limit = limit; window_ms = window_ms; consumed = [] } in
    with_budgets e (set resource fresh e.consumables.budgets)
