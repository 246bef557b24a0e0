-- ===== src/Safety/Enforce.antt =====
-- safety.ts: what each kind of rule demands of a call, and what it consumes. A call that throws
-- has changed the engine up to there, so a rule gives the engine and whether it threw.
use pinout.Prelude.{
  ℕ, ◌+◌, Bool, true, false, not, ◌&&◌, ◌||◌, Option, none, some, List, [], ◌∷◌, ◌++◌, String, ◌==◌,
  string_eq, if◌then◌else◌, ltb, leb, keep, length, or_default, Result, ok, err,
}
use Prim.Native.String
use pinout.Prelude.Map.{Map, get, set, has}
use pinout.Lease.{exclusive, permits}
use pinout.Policy.{
  RuleKind, RuleValue, rate, interlock, sequence, approval, lease, deadman, resource, SafetyRule,
  value_beq, flag,
}
use pinout.Policy.Evaluate.{PolicyContext, Thrown, rejected, assert_age, evaluate_policies}
use pinout.Safety.{
  ApprovalRecord, Consumption, ResourceBudget, SafetyEngine, with_approvals, with_budgets,
  with_rate_windows,
}

-- The clocks that one call reads: the engine's, the lease manager's and the system's. A call does
-- not wait for anything, so that each reads the same throughout.
pub record Clocks : Type 0 where
  pub now : ℕ
  pub lease_now : ℕ
  pub system_now : ℕ

abbrev pub Checked : Type 0
Checked = SafetyEngine × Result Thrown (Unit {0})

abbrev pub reject : SafetyEngine → SafetyRule → String → Checked
reject e rule code = (e, err (rejected code rule.id))

-- The next step of a chain, unless one before it threw.
abbrev pub and_then : Checked → (SafetyEngine → Checked) → Checked
and_then (e, ok _) next = next e
and_then (e, err t) next = (e, err t)

unfoldable pub rate_key : PolicyContext → String
rate_key context = String.◌++◌ context.device_id (String.◌++◌ "::" context.capability)

-- `t > now - windowMs`
abbrev pub in_window : ℕ → ℕ → ℕ → Bool
in_window window_ms now t = ltb now (t + window_ms)

-- The timestamps that still count; a window that is not there yet is empty.
abbrev pub recent : Map String (List ℕ) → String → ℕ → ℕ → List ℕ
recent windows key window_ms now = keep (in_window window_ms now) (or_default (get key windows) [])

unfoldable pub enforce_rate : SafetyEngine → SafetyRule → ℕ → Option ℕ → PolicyContext → ℕ → Checked
enforce_rate e rule max_per_window window context now =
    let window_ms = or_default window 1000 in
    let key = rate_key context in
    let windows = e.consumables.rate_windows in
    let timestamps = recent windows key window_ms now in
    if leb max_per_window (length timestamps)
    then reject (if has key windows then with_rate_windows e (set key timestamps windows) else e)
        rule "SAFETY_RATE_LIMIT"
    else (with_rate_windows e (set key (timestamps ++ now ∷ []) windows), ok tt)

abbrev pub holds : Option RuleValue → RuleValue → Bool
holds none expected = false
holds (some actual) expected = value_beq actual expected

unfoldable pub enforce_interlock :
    SafetyEngine → SafetyRule → String → Option RuleValue → Option ℕ → PolicyContext → ℕ → Checked
enforce_interlock e rule name must_be age context now =
    and_then (e, assert_age context.operational_state age now)
      (λ e.
        if holds (get name e.interlocks) (or_default must_be (flag true))
        then (e, ok tt)
        else reject e rule "SAFETY_INTERLOCK_NOT_SATISFIED")

abbrev pub reached : Option ℕ → ℕ → Bool
reached none at_least = false
reached (some step) at_least = not (ltb step at_least)

unfoldable pub enforce_sequence : SafetyEngine → SafetyRule → String → ℕ → Checked
enforce_sequence e rule name at_least =
    if reached (get name e.sequences) at_least
    then (e, ok tt)
    else reject e rule "SAFETY_SEQUENCE_NOT_SATISFIED"

abbrev pub is_none {ℓ} : {A : Type ℓ} → Option A → Bool
is_none none = true
is_none (some _) = false

abbrev pub runs_at : Option ℕ → ℕ → Bool
runs_at none now = true
runs_at (some expires_at) now = not (leb expires_at now)

-- The three tests of the loop over the approvals.
unfoldable pub usable : PolicyContext → ℕ → ApprovalRecord → Bool
usable context now a =
    a.device_id == context.device_id
    && a.capability == context.capability
    && is_none a.used_at
    && runs_at a.expires_at now

-- The loop: the first approval that is usable is marked as used.
unfoldable pub use_first :
    (ApprovalRecord → Bool) → ℕ → Map String ApprovalRecord → Option (Map String ApprovalRecord)
use_first p now [] = none
use_first p now ((k, a) ∷ m) =
    if p a
    then some ((k, record a { used_at = some now }) ∷ m)
    else elim (use_first p now m) [ none ↦ none | some m' ↦ some ((k, a) ∷ m') ]

unfoldable pub enforce_approval : SafetyEngine → SafetyRule → PolicyContext → ℕ → Checked
enforce_approval e rule context now =
    elim (use_first (usable context now) now e.consumables.approvals) [
      | none ↦ reject e rule "SAFETY_APPROVAL_REQUIRED"
      | some m ↦ (with_approvals e m, ok tt)
    ]

-- The caller of a lease, with `''` as no owner.
abbrev pub owner_of : PolicyContext → Option String
owner_of context = elim context.owner [
  | none ↦ none
  | some owner ↦ if owner == "" then none else some owner
]

unfoldable pub enforce_lease : SafetyEngine → SafetyRule → PolicyContext → ℕ → Checked
enforce_lease e rule context lease_now = elim e.lease_manager [
  | none ↦ reject e rule "SAFETY_LEASE_MANAGER_MISSING"
  | some manager ↦ elim (owner_of context) [
    | none ↦ reject e rule "SAFETY_LEASE_OWNER_REQUIRED"
    | some owner ↦
        let r = permits manager owner context.device_id context.capability exclusive lease_now in
        let e' = record e { lease_manager = some r.0 } in
        if r.1.permitted then (e', ok tt) else reject e' rule "SAFETY_LEASE_REQUIRED"
  ]
]

-- `lastAlive !== undefined && now - lastAlive <= maxAge`
abbrev pub is_alive : Option ℕ → ℕ → ℕ → Bool
is_alive none max_age_ms now = false
is_alive (some last_alive) max_age_ms now = not (ltb (last_alive + max_age_ms) now)

unfoldable pub enforce_deadman : SafetyEngine → SafetyRule → Option ℕ → PolicyContext → ℕ → Checked
enforce_deadman e rule age context now =
    if is_alive (get context.device_id e.deadmen) (or_default age 1000) now
    then (e, ok tt)
    else reject e rule "SAFETY_DEADMAN_STALE"

unfoldable pub total_cost : List Consumption → ℕ
total_cost [] = 0
total_cost (c ∷ cs) = c.cost + total_cost cs

unfoldable pub charge : ResourceBudget → ℕ → ℕ → ResourceBudget × Bool
charge budget cost now =
    let consumed = keep (λ c. in_window budget.window_ms now c.time) budget.consumed in
    if ltb budget.limit (total_cost consumed + cost)
    then (record budget { consumed = consumed }, false)
    else (record budget { consumed = consumed ++ record { time = now; cost = cost } ∷ [] }, true)

unfoldable pub enforce_resource : SafetyEngine → SafetyRule → String → Option ℕ → ℕ → Checked
enforce_resource e rule name cost now = elim (get name e.consumables.budgets) [
  | none ↦ reject e rule "SAFETY_BUDGET_NOT_CONFIGURED"
  | some budget ↦
      let r = charge budget (or_default cost 1) now in
      let e' = with_budgets e (set name r.0 e.consumables.budgets) in
      if r.1 then (e', ok tt) else reject e' rule "SAFETY_BUDGET_EXHAUSTED"
]

-- The switch of `enforceRules`, which skips the kinds that `evaluatePolicies` has checked.
unfoldable pub enforce_kind :
    SafetyEngine → SafetyRule → RuleKind → PolicyContext → Clocks → Checked
enforce_kind e rule (rate max window) context c = enforce_rate e rule max window context c.now
enforce_kind e rule (interlock name must_be age) context c =
    enforce_interlock e rule name must_be age context c.now
enforce_kind e rule (sequence name at_least) context c = enforce_sequence e rule name at_least
enforce_kind e rule approval context c = enforce_approval e rule context c.now
enforce_kind e rule lease context c = enforce_lease e rule context c.lease_now
enforce_kind e rule (deadman age) context c = enforce_deadman e rule age context c.now
enforce_kind e rule (resource name cost) context c = enforce_resource e rule name cost c.now
enforce_kind e rule _ context c = (e, ok tt)

abbrev pub is_lease : RuleKind → Bool
is_lease lease = true
is_lease _ = false

-- A lease rule holds for every capability, whatever its own.
unfoldable pub applies : PolicyContext → SafetyRule → Bool
applies context rule = is_lease rule.kind || rule.capability == context.capability

unfoldable pub enforce_each : SafetyEngine → List SafetyRule → PolicyContext → Clocks → Checked
enforce_each e [] context c = (e, ok tt)
enforce_each e (rule ∷ rules) context c =
    and_then (if applies context rule then enforce_kind e rule rule.kind context c else (e, ok tt))
      (λ e'. enforce_each e' rules context c)

module _ (evaluate : ℕ → PolicyContext → Option Thrown) where
  unfoldable pub enforce_rules : SafetyEngine → PolicyContext → Clocks → Checked
  enforce_rules e context c =
      and_then (e, evaluate_policies evaluate e.rules context c.system_now)
        (λ e'. enforce_each e' e'.rules context c)
