-- ===== src/Safety/Examples.antt =====
-- safety.ts: an engine with a rule of each kind, and calls on it.
use pinout.Prelude.{
  ℕ, ◌+◌, ◌≤◌, ◌≡◌, refl, true, Option, none, some, List, [], ◌∷◌, ◌++◌, String, arith, ok, All,
  keep, length, finite, whole, fraction, pos, string_eq, ◌==◌,
}
use pinout.Prelude.Json.{Json, end, field, property}
use pinout.Prelude.Map.{get, set}
use pinout.Policy.{
  RuleKind, numeric_range, rate, interlock, sequence, approval, deadman, resource, SafetyRule, flag,
}
use pinout.Policy.Evaluate.{
  PolicyContext, Thrown, fields, evaluate_policies, evaluate_kind, evaluate_numeric_range,
}
use pinout.Safety.{
  SafetyEngine, ApprovalRecord, init, set_interlock, set_sequence_step, record_approval,
  heartbeat_deadman, configure_budget,
}
use pinout.Safety.Enforce.{
  Clocks, enforce_rules, enforce_each, enforce_kind, enforce_rate, enforce_interlock,
  enforce_sequence, enforce_approval, enforce_deadman, enforce_resource, applies, rate_key,
  use_first, usable, charge, total_cost,
}
use pinout.Safety.Reserve.{
  reserve, enforce, check, preview, commit, rollback, decide, decision_of, restore_consumables,
  snapshot_consumables, deny,
}
use pinout.Safety.Frame.{LeavesAsItWas, undone, undone-reserve_and_preview}
use pinout.Safety.Granted.{Respects, Allows, reserve-Respects}
use pinout.Safety.Approvals.{usable_approvals, approvals_demanded, reserve-usable}
use pinout.Safety.Budgets.{AreCovered, run-init-AreCovered}
use pinout.Safety.Calls.{
  Call, run, step, reserve_call, enforce_call, budget_call, commit_call, rollback_call,
}
use pinout.Safety.RateLimit.{within, accepted, Attempts, accepted-within, key_of}
use pinout.Safety.Lost.{lost_behind_rollback, short_window_empties_long, rate_rule}

running : Unit {0}
unfolding init set_interlock set_sequence_step record_approval heartbeat_deadman configure_budget
    enforce_rules enforce_each enforce_kind enforce_rate enforce_interlock enforce_sequence
    enforce_approval enforce_deadman enforce_resource applies rate_key use_first usable charge
    total_cost reserve enforce check preview commit rollback decide decision_of restore_consumables
    snapshot_consumables evaluate_policies evaluate_kind evaluate_numeric_range get set property run
    step accepted
running = tt

abbrev silent : ℕ → PolicyContext → Option Thrown
silent f x = none

abbrev rule : RuleKind → SafetyRule
rule kind = record {
  id = some "r";
  provenance = none;
  capability = "motor.run";
  message = none;
  kind = kind;
}

abbrev rules : List SafetyRule
rules =
    rule (numeric_range "speed" (record { min = whole (pos 0); max = fraction (pos 90) 0 }))
    ∷ rule (rate 2 (some 500))
    ∷ rule (interlock "door.closed" none none)
    ∷ rule (sequence "startup" 3)
    ∷ rule approval
    ∷ rule (deadman none)
    ∷ rule (resource "motion" (some 4))
    ∷ []

abbrev call_of : ℕ → PolicyContext
call_of speed = record {
  device_id = "arm";
  capability = "motor.run";
  payload = field "speed" (Json.num (finite (whole (pos speed)))) end;
  operational_state = fields end;
  owner = none;
}

abbrev at_time : ℕ → Clocks
at_time t = record { now = t; lease_now = t; system_now = t }

abbrev approval_of : String → ApprovalRecord
approval_of id = record {
  id = id;
  device_id = "arm";
  capability = "motor.run";
  granted_by = "ann";
  granted_at = 0;
  expires_at = none;
  used_at = none;
}

fed : SafetyEngine
unfolding running
fed =
    let a =
      set_sequence_step (set_interlock (init rules none) "door.closed" (flag true)) "startup" 3 in
    let b = heartbeat_deadman (configure_budget a "motion" 10 60_000) "arm" 9_900 in
    (record_approval (record_approval b (approval_of "a1") none 9_000).0 (approval_of "a2") none
      9_000).0

-- The first call passes; the second is let through too, and the third has no approval.
passes :
    (reserve silent fed (call_of 40) (at_time 10_000)).1
    ≡ ok (record { saved = fed.consumables; active = true })
unfolding running fed
passes = refl

too_fast :
    (check silent fed (call_of 140) (at_time 10_000)).1
    ≡ ok (deny "POLICY_CONSTRAINT_VIOLATION" none)
unfolding running fed
too_fast = refl

stale : (check silent fed (call_of 40) (at_time 10_901)).1 ≡ ok (deny "SAFETY_DEADMAN_STALE" none)
unfolding running fed
stale = refl

undone-reserve_and_preview_example :
    LeavesAsItWas 10_000 fed (undone (reserve silent fed (call_of 40) (at_time 10_000)))
    × LeavesAsItWas 10_000 fed (preview silent fed (call_of 40) (at_time 10_000)).0
undone-reserve_and_preview_example =
    undone-reserve_and_preview silent fed (call_of 40) (at_time 10_000)

reserve-Respects_example :
    let mine = keep (λ r. r.capability == "motor.run") fed.rules in
    All (λ r. Respects (call_of 40) r.kind) mine
    × All (λ r. Allows fed (call_of 40) 10_000 r.kind) mine
reserve-Respects_example = reserve-Respects silent fed (call_of 40) (at_time 10_000) passes

reserve-usable_example :
    usable_approvals (call_of 40) 10_000 (reserve silent fed (call_of 40) (at_time 10_000)).0
      + approvals_demanded (call_of 40) fed.rules
    ≡ usable_approvals (call_of 40) 10_000 fed
reserve-usable_example = reserve-usable silent fed (call_of 40) (at_time 10_000) passes

abbrev budget_rules : List SafetyRule
budget_rules = rule (resource "motion" (some 4)) ∷ []

abbrev spending : List Call
spending =
    budget_call "motion" 9 1_000
    ∷ reserve_call (call_of 1) (at_time 10)
    ∷ enforce_call (call_of 1) (at_time 20)
    ∷ enforce_call (call_of 1) (at_time 30)
    ∷ rollback_call 0
    ∷ []

run-init-AreCovered_example :
    AreCovered
      (run silent
        (record { engine = init budget_rules none; reservations = [] })
        spending).engine.consumables
run-init-AreCovered_example = run-init-AreCovered silent budget_rules none spending

abbrev limited : List SafetyRule
limited = rule (rate 2 (some 500)) ∷ []

abbrev attempts : Attempts
attempts =
    (call_of 1, at_time 0)
    ∷ (call_of 2, at_time 100)
    ∷ (call_of 3, at_time 499)
    ∷ (call_of 4, at_time 500)
    ∷ []

third_is_refused : accepted silent (init limited none) [] attempts ≡ 0 ∷ 100 ∷ 500 ∷ []
unfolding running
third_is_refused = refl

limited_rules : (init limited none).rules ≡ limited
unfolding init
limited_rules = refl

limited_fresh : get (key_of "arm" "motor.run") (init limited none).consumables.rate_windows ≡ none
unfolding init get
limited_fresh = refl

accepted-within_example :
    length (within 500 499 (accepted silent (init limited none) [] attempts)) ≤ 2
accepted-within_example =
    accepted-within silent limited "arm" "motor.run" (rule (rate 2 (some 500))) 2 (some 500) refl
      refl (init limited none) 0 attempts limited_rules limited_fresh
      (
        refl,
        refl,
        omega arith,
        (refl, refl, omega arith, (refl, refl, omega arith, (refl, refl, omega arith, tt))),
      )
      499

-- The first call waits for its device while a second one uses the other approval.
abbrev meanwhile : List Call
meanwhile = reserve_call (call_of 50) (at_time 10_100) ∷ commit_call 1 ∷ []

both_approvals_are_used :
    usable_approvals
      (call_of 1)
      10_200
      (run silent
        (record { engine = fed; reservations = [] })
        (reserve_call (call_of 40) (at_time 10_000) ∷ meanwhile)).engine
    ≡ 0
unfolding running fed
both_approvals_are_used = refl

lost_behind_rollback_example :
    (run silent
      (record { engine = fed; reservations = [] })
      (reserve_call (call_of 40) (at_time 10_000) ∷ meanwhile
        ++ rollback_call 0 ∷ [])).engine.consumables
    ≡ fed.consumables
lost_behind_rollback_example =
    lost_behind_rollback silent fed (call_of 40) (at_time 10_000) meanwhile passes
      (refl, (refl, tt))

abbrev twice_limited : List SafetyRule
twice_limited = rate_rule "motor.run" 10 1_000 ∷ rate_rule "motor.run" 3 60_000 ∷ []

-- Three calls within the last minute.
busy : SafetyEngine
unfolding init
busy =
    let e = init twice_limited none in
    record e {
      consumables = record (e.consumables) {
        rate_windows = (key_of "arm" "motor.run", 100 ∷ 200 ∷ 300 ∷ []) ∷ [];
      };
    }

busy_windows :
    get (rate_key (call_of 1)) busy.consumables.rate_windows ≡ some (100 ∷ 200 ∷ 300 ∷ [])
unfolding busy rate_key get
busy_windows = refl

short_window_empties_long_example :
    let r = enforce_each busy twice_limited (call_of 1) (at_time 2_000) in
    (r.1 ≡ ok tt)
    × (get (rate_key (call_of 1)) r.0.consumables.rate_windows ≡ some (2_000 ∷ 2_000 ∷ []))
short_window_empties_long_example =
    short_window_empties_long busy (call_of 1) (at_time 2_000) 10 3 1_000 60_000
      (100 ∷ 200 ∷ 300 ∷ []) busy_windows (omega arith) (omega arith) (omega arith) (omega arith)
