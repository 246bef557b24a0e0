-- ===== src/Safety/Approvals.antt =====
-- safety.ts: an approval is used once.
use pinout.Prelude.{
  ℕ, suc, ◌+◌, ◌≡◌, refl, Bool, true, false, ◌&&◌, Option, some, List, [], ◌∷◌, String, ◌==◌,
  string_eq, arith, ok, if◌then◌else◌, Bool-cases, inl, inr, Option-cases, keep, length,
}
use pinout.Prelude.Map.{Map, values}
use pinout.Policy.{
  RuleKind, rate, interlock, sequence, approval, lease, deadman, resource, SafetyRule,
}
use pinout.Policy.Evaluate.{PolicyContext, Thrown}
use pinout.Safety.{SafetyEngine, ApprovalRecord}
use pinout.Safety.Enforce.{
  Clocks, enforce_rate, enforce_interlock, enforce_sequence, enforce_approval, enforce_lease,
  enforce_deadman, enforce_resource, enforce_kind, enforce_each, applies, usable, use_first,
  is_lease,
}
use pinout.Safety.Accepted.{round, enforce_each-ok, reserve-ok}
use pinout.Safety.Reserve.{SafetyReservation, reserve}

-- How many approvals the call could use.
abbrev pub usable_approvals : PolicyContext → ℕ → SafetyEngine → ℕ
usable_approvals x now e = length (keep (usable x now) (values e.consumables.approvals))

abbrev pub is_approval : RuleKind → Bool
is_approval approval = true
is_approval _ = false

-- How many rules demand an approval for the call.
abbrev pub approvals_demanded : PolicyContext → List SafetyRule → ℕ
approvals_demanded x rules =
    length (keep (λ r. is_approval r.kind && r.capability == x.capability) rules)

used_is_unusable :
    (x : PolicyContext) (now later : ℕ) (a : ApprovalRecord)
    → usable x now (record a { used_at = some later }) ≡ false
unfolding usable
used_is_unusable x now later a = ground arith

use_first-length :
    (x : PolicyContext) (now : ℕ) (m m' : Map String ApprovalRecord)
    → use_first (usable x now) now m ≡ some m'
    → length (keep (usable x now) (values m)) ≡ suc (length (keep (usable x now) (values m')))
unfolding use_first
use_first-length x now [] m' h = ground arith
use_first-length x now ((k, a) ∷ m) m' h = elim (Bool-cases (usable x now a)) [
  | inl t ↦
      let q : m' ≡ (k, record a { used_at = some now }) ∷ m = ground arith in
      rw q (ground (arith, used_is_unusable x now now a))
  | inr t ↦ elim (Option-cases (use_first (usable x now) now m)) [
    | inl n ↦ ground arith
    | inr (m'', s) ↦
        let q : m' ≡ (k, a) ∷ m'' = ground arith in
        rw q (ground (arith, use_first-length x now m m''))
  ]
]

enforce_kind-usable :
    (e : SafetyEngine) (rule : SafetyRule) (kind : RuleKind) (x : PolicyContext) (c : Clocks)
    → (enforce_kind e rule kind x c).1 ≡ ok tt
    → usable_approvals x c.now (enforce_kind e rule kind x c).0
        + (if is_approval kind then 1 else 0)
      ≡ usable_approvals x c.now e
unfolding enforce_kind enforce_rate enforce_interlock enforce_sequence enforce_approval
    enforce_lease enforce_deadman enforce_resource
enforce_kind-usable e rule (rate _ _) x c h = ground arith
enforce_kind-usable e rule (interlock _ _ _) x c h = ground arith
enforce_kind-usable e rule (sequence _ _) x c h = ground arith
enforce_kind-usable e rule approval x c h =
    elim (Option-cases (use_first (usable x c.now) c.now e.consumables.approvals)) [
      | inl n ↦ ground arith
      | inr (m, s) ↦
          let l = use_first-length x c.now e.consumables.approvals m s in
          rw (s, enforce_kind, enforce_approval) (omega arith)
    ]
enforce_kind-usable e rule lease x c h = ground arith
enforce_kind-usable e rule (deadman _) x c h = ground arith
enforce_kind-usable e rule (resource _ _) x c h = ground arith
enforce_kind-usable e rule kind x c h = ground arith

approval_is_no_lease : (kind : RuleKind) → (is_approval kind && is_lease kind) ≡ false
approval_is_no_lease lease = refl
approval_is_no_lease kind = refl

round-usable :
    (e : SafetyEngine) (rule : SafetyRule) (x : PolicyContext) (c : Clocks)
    → let r = round e rule x c in
      r.1 ≡ ok tt
      → usable_approvals x c.now r.0
          + (if is_approval rule.kind && rule.capability == x.capability then 1 else 0)
        ≡ usable_approvals x c.now e
unfolding applies
round-usable e rule x c h =
    ground (arith, approval_is_no_lease rule.kind, enforce_kind-usable e rule rule.kind x c)

enforce_each-usable :
    (e : SafetyEngine) (rules : List SafetyRule) (x : PolicyContext) (c : Clocks)
    → (enforce_each e rules x c).1 ≡ ok tt
    → usable_approvals x c.now (enforce_each e rules x c).0 + approvals_demanded x rules
      ≡ usable_approvals x c.now e
unfolding enforce_each applies
enforce_each-usable e [] x c h = omega arith
enforce_each-usable e (rule ∷ rules) x c h =
    let (first, q, rest) = enforce_each-ok e rule rules x c h in
    let l = enforce_each-usable (round e rule x c).0 rules x c rest in
    rw q (ground (arith, round-usable e rule x c first, l))

module _ (evaluate : ℕ → PolicyContext → Option Thrown) where
  -- A call that the engine lets through uses one approval for each rule that demands one, of those
  -- that were granted for its device and capability, are unexpired and were never used.
  pub reserve-usable :
      (e : SafetyEngine) (x : PolicyContext) (c : Clocks) {r : SafetyReservation}
      → (reserve evaluate e x c).1 ≡ ok r
      → usable_approvals x c.now (reserve evaluate e x c).0 + approvals_demanded x e.rules
        ≡ usable_approvals x c.now e
  reserve-usable e x c h =
      let (passed, same, _) = reserve-ok evaluate e x c h in
      rw same (enforce_each-usable e e.rules x c passed)
