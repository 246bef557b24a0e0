-- ===== src/Safety/Reserve.antt =====
-- safety.ts: reservations, and the calls that reserve. `evaluate` is what the functions of the
-- custom rules throw, and the callback of rejections is in the answers.
use pinout.Prelude.{
  ℕ, Bool, true, false, Option, none, some, String, if◌then◌else◌, Result, ok, err,
}
use pinout.Policy.Evaluate.{
  PolicyContext, Thrown, not_a_number, out_of_range, precondition_failed, state_stale, rejected,
  custom_error, type_error, foreign,
}
use pinout.Safety.{SafetyEngine, Consumables}
use pinout.Safety.Enforce.{Clocks, Checked, enforce_rules}

pub record PolicyDecision : Type 0 where
  pub allowed : Bool
  pub code : Option String
  pub rule_id : Option String

abbrev pub allow : PolicyDecision
allow = record { allowed = true; code = none; rule_id = none }

abbrev pub deny : String → Option String → PolicyDecision
deny code rule_id = record { allowed = false; code = some code; rule_id = rule_id }

-- The decision that an error of one of the policy's classes stands for. None of the classes has a
-- `ruleId` of its own: `reject` puts the rule's id into the details.
unfoldable pub decision_of : Thrown → Option PolicyDecision
decision_of (not_a_number _ _) = some (deny "POLICY_CONSTRAINT_VIOLATION" none)
decision_of (out_of_range _ _ _ _) = some (deny "POLICY_CONSTRAINT_VIOLATION" none)
decision_of (precondition_failed _ _ _ _) = some (deny "POLICY_PRECONDITION_FAILED" none)
decision_of (state_stale _) = some (deny "SAFETY_STATE_STALE" none)
decision_of (rejected code _) = some (deny code none)
decision_of (custom_error code rule_id) = some (deny code rule_id)
decision_of type_error = none
decision_of (foreign _) = none

-- The closure of a reservation: what it saved, and whether it can still be rolled back.
pub record SafetyReservation : Type 0 where
  pub saved : Consumables
  pub active : Bool

unfoldable pub snapshot_consumables : SafetyEngine → Consumables
snapshot_consumables e = e.consumables

unfoldable pub restore_consumables : SafetyEngine → Consumables → SafetyEngine
restore_consumables e saved = record e { consumables = saved }

unfoldable pub commit : SafetyReservation → SafetyReservation
commit r = record r { active = false }

unfoldable pub rollback : SafetyEngine → SafetyReservation → SafetyEngine × SafetyReservation
unfolding restore_consumables
rollback e r =
    if r.active then (restore_consumables e r.saved, record r { active = false }) else (e, r)

-- What `reserve` returns or throws. What is thrown goes together with the decision that
-- `onRejection` hears.
abbrev pub Reserved : Type 0
Reserved = Result (Thrown × Option PolicyDecision) SafetyReservation

abbrev pub reserved : Consumables → Checked → SafetyEngine × Reserved
reserved saved (e, ok _) = (e, ok (record { saved = saved; active = true }))
reserved saved (e, err t) = (restore_consumables e saved, err (t, decision_of t))

abbrev pub committed : Reserved → Reserved
committed (ok r) = ok (commit r)
committed (err t) = err t

-- The catch clause of `check`.
unfoldable pub decide : Reserved → Result Thrown PolicyDecision
unfolding decision_of
decide (ok _) = ok allow
decide (err (t, _)) = elim (decision_of t) [ none ↦ err t | some d ↦ ok d ]

module _ (evaluate : ℕ → PolicyContext → Option Thrown) where
  unfoldable pub reserve : SafetyEngine → PolicyContext → Clocks → SafetyEngine × Reserved
  unfolding restore_consumables snapshot_consumables
  reserve e context c = reserved (snapshot_consumables e) (enforce_rules evaluate e context c)

  -- `reserve`, and at once `commit`, which is the reservation's last use.
  unfoldable pub enforce : SafetyEngine → PolicyContext → Clocks → SafetyEngine × Reserved
  enforce e context c = let (e', r) = reserve e context c in (e', committed r)

  -- The decision, or the error that is thrown on.
  unfoldable pub check :
      SafetyEngine → PolicyContext → Clocks → SafetyEngine × Result Thrown PolicyDecision
  check e context c = let (e', r) = enforce e context c in (e', decide r)

  unfoldable pub preview :
      SafetyEngine → PolicyContext → Clocks → SafetyEngine × Result Thrown PolicyDecision
  unfolding restore_consumables snapshot_consumables
  preview e context c =
      let (e', r) = check e context c in (restore_consumables e' (snapshot_consumables e), r)
