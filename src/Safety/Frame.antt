-- ===== src/Safety/Frame.antt =====
-- safety.ts: what a call leaves as it was.
use mathlib.Core.Logic.{◌⊎◌}
use pinout.Prelude.{
  ℕ, ◌≡◌, refl, ap, ◌∙◌, not, Option, none, some, arith, ok, err, inl, inr, Option-cases,
  Bool-cases,
}
use pinout.Prelude.Map.{retain-retain}
use pinout.Lease.{LeaseManager, exclusive, is_expired, drain_expired, reap_expired, permits}
use pinout.Policy.{
  RuleKind, rate, interlock, sequence, approval, lease, deadman, resource, SafetyRule,
}
use pinout.Policy.Evaluate.{PolicyContext, Thrown}
use pinout.Safety.{SafetyEngine, Consumables}
use pinout.Safety.Enforce.{
  Clocks, Checked, enforce_rate, enforce_interlock, enforce_sequence, enforce_approval,
  enforce_lease, enforce_deadman, enforce_resource, enforce_kind, enforce_rules, owner_of,
}
use pinout.Safety.Accepted.{round, enforce_rules-keeps}
use pinout.Safety.Reserve.{
  Reserved, reserved, rollback, reserve, enforce, check, preview, restore_consumables,
  snapshot_consumables,
}

-- All but what is consumed and the leases, which lose those that ran out.
abbrev pub Same : SafetyEngine → SafetyEngine → Type 0
Same e e' =
    (e'.rules ≡ e.rules)
    × (e'.interlocks ≡ e.interlocks)
    × (e'.sequences ≡ e.sequences)
    × (e'.deadmen ≡ e.deadmen)

-- The lease manager without the leases that have run out.
abbrev pub reaped : Option LeaseManager → ℕ → Option LeaseManager
reaped none now = none
reaped (some m) now = some (reap_expired m now).0

-- The engine is as it was, but that leases which have run out may be gone.
abbrev pub LeavesAsItWas : ℕ → SafetyEngine → SafetyEngine → Type 0
LeavesAsItWas now e e' = (e' ≡ e) ⊎ (e' ≡ record e { lease_manager = reaped e.lease_manager now })

abbrev HasReaped : ℕ → Option LeaseManager → Option LeaseManager → Type 0
HasReaped now m m' = (m' ≡ m) ⊎ (m' ≡ reaped m now)

reaped-twice : (m : Option LeaseManager) (now : ℕ) → reaped (reaped m now) now ≡ reaped m now
unfolding reap_expired drain_expired
reaped-twice none now = refl
reaped-twice (some m) now =
    ap (λ ls. some (record m { leases = ls }))
      (retain-retain (λ l. not (is_expired now l)) m.leases)

HasReaped-reaped :
    (m m' : Option LeaseManager) (now : ℕ) → HasReaped now m m' → HasReaped now m (reaped m' now)
HasReaped-reaped m m' now (inl q) = inr (ap (λ x. reaped x now) q)
HasReaped-reaped m m' now (inr q) = inr (ap (λ x. reaped x now) q ∙ reaped-twice m now)

enforce_lease-lease_manager :
    (e : SafetyEngine) (rule : SafetyRule) (x : PolicyContext) (now : ℕ)
    → HasReaped now e.lease_manager (enforce_lease e rule x now).0.lease_manager
unfolding enforce_lease permits
enforce_lease-lease_manager e rule x now = elim (Option-cases e.lease_manager) [
  | inl n ↦ rw (n, enforce_lease) (inl n)
  | inr (m, s) ↦ elim (Option-cases (owner_of x)) [
    | inl n ↦ rw (s, enforce_lease) (rw n (inl s))
    | inr (owner, t) ↦
        let verdict = (permits m owner x.device_id x.capability exclusive now).1 in
        elim (Bool-cases verdict.permitted) [
          | inl p ↦ rw (s, enforce_lease) (rw t (rw p (inr refl)))
          | inr p ↦ rw (s, enforce_lease) (rw t (rw p (inr refl)))
        ]
  ]
]

enforce_kind-lease_manager :
    (m : Option LeaseManager) (e : SafetyEngine) (rule : SafetyRule) (kind : RuleKind)
    (x : PolicyContext) (c : Clocks)
    → HasReaped c.lease_now m e.lease_manager
    → HasReaped c.lease_now m (enforce_kind e rule kind x c).0.lease_manager
unfolding enforce_kind enforce_rate enforce_interlock enforce_sequence enforce_approval
    enforce_deadman enforce_resource
enforce_kind-lease_manager m e rule (rate _ _) x c h = ground arith
enforce_kind-lease_manager m e rule (interlock _ _ _) x c h = ground arith
enforce_kind-lease_manager m e rule (sequence _ _) x c h = ground arith
enforce_kind-lease_manager m e rule approval x c h = ground arith
enforce_kind-lease_manager m e rule lease x c h =
    elim (enforce_lease-lease_manager e rule x c.lease_now) [
      | inl q ↦ rw q h
      | inr q ↦ rw q (HasReaped-reaped m e.lease_manager c.lease_now h)
    ]
enforce_kind-lease_manager m e rule (deadman _) x c h = ground arith
enforce_kind-lease_manager m e rule (resource _ _) x c h = ground arith
enforce_kind-lease_manager m e rule kind x c h = h

-- The engine behind a reservation that is rolled back, if there is one.
abbrev pub undone : SafetyEngine × Reserved → SafetyEngine
undone (e, ok r) = (rollback e r).0
undone (e, err t) = e

enforce_kind-Same :
    (e : SafetyEngine) (rule : SafetyRule) (kind : RuleKind) (x : PolicyContext) (c : Clocks)
    → Same e (enforce_kind e rule kind x c).0
unfolding enforce_kind enforce_rate enforce_interlock enforce_sequence enforce_approval
    enforce_lease enforce_deadman enforce_resource
enforce_kind-Same e rule (rate _ _) x c = ground arith
enforce_kind-Same e rule (interlock _ _ _) x c = ground arith
enforce_kind-Same e rule (sequence _ _) x c = ground arith
enforce_kind-Same e rule approval x c = ground arith
enforce_kind-Same e rule lease x c = ground arith
enforce_kind-Same e rule (deadman _) x c = ground arith
enforce_kind-Same e rule (resource _ _) x c = ground arith
enforce_kind-Same e rule kind x c = ground arith

pub round-Same :
    (e : SafetyEngine) (rule : SafetyRule) (x : PolicyContext) (c : Clocks)
    → Same e (round e rule x c).0
round-Same e rule x c = ground (arith, enforce_kind-Same e rule rule.kind x c)

module _ (evaluate : ℕ → PolicyContext → Option Thrown) where
  enforce_rules-Same :
      (e : SafetyEngine) (x : PolicyContext) (c : Clocks) → Same e (enforce_rules evaluate e x c).0
  enforce_rules-Same e x c =
      enforce_rules-keeps (Same e) x c
        (λ f rule kind s. ground (arith, enforce_kind-Same f rule kind x c)) evaluate e
        (refl, refl, refl, refl)

  reserved-eq :
      (saved : Consumables) (e : SafetyEngine) (r : Checked)
      → Same e r.0
      → e.consumables ≡ saved
      → undone (reserved saved r) ≡ record e { lease_manager = (reserved saved r).0.lease_manager }
  unfolding rollback restore_consumables
  reserved-eq saved e (e', ok _) s h = ground arith
  reserved-eq saved e (e', err t) s h = ground arith

  reserved-Same :
      (saved : Consumables) (e : SafetyEngine) (r : Checked)
      → Same e r.0
      → Same e (reserved saved r).0
  unfolding restore_consumables
  reserved-Same saved e (e', ok _) s = s
  reserved-Same saved e (e', err t) s = s

  pub reserve-Same :
      (e : SafetyEngine) (x : PolicyContext) (c : Clocks) → Same e (reserve evaluate e x c).0
  unfolding reserve snapshot_consumables
  reserve-Same e x c =
      reserved-Same e.consumables e (enforce_rules evaluate e x c) (enforce_rules-Same e x c)

  pub undone-reserve :
      (e : SafetyEngine) (x : PolicyContext) (c : Clocks)
      → undone (reserve evaluate e x c)
        ≡ record e { lease_manager = (reserve evaluate e x c).0.lease_manager }
  unfolding reserve snapshot_consumables
  undone-reserve e x c =
      reserved-eq e.consumables e (enforce_rules evaluate e x c) (enforce_rules-Same e x c) refl

  preview-eq :
      (e : SafetyEngine) (x : PolicyContext) (c : Clocks)
      → (preview evaluate e x c).0
        ≡ record e { lease_manager = (preview evaluate e x c).0.lease_manager }
  unfolding preview check enforce reserve snapshot_consumables restore_consumables
  preview-eq e x c =
      let (a, b, d, f) : Same e (reserve evaluate e x c).0 = reserve-Same e x c in ground arith

  reserved-lease_manager :
      (saved : Consumables) (r : Checked) → (reserved saved r).0.lease_manager ≡ r.0.lease_manager
  unfolding restore_consumables
  reserved-lease_manager saved (e, ok _) = refl
  reserved-lease_manager saved (e, err t) = refl

  reserve-HasReaped :
      (e : SafetyEngine) (x : PolicyContext) (c : Clocks)
      → HasReaped c.lease_now e.lease_manager (reserve evaluate e x c).0.lease_manager
  unfolding reserve snapshot_consumables
  reserve-HasReaped e x c =
      rw (reserved-lease_manager e.consumables (enforce_rules evaluate e x c)) (
        enforce_rules-keeps (λ f. HasReaped c.lease_now e.lease_manager f.lease_manager) x c
          (λ f rule kind h. enforce_kind-lease_manager e.lease_manager f rule kind x c h) evaluate e
          (inl refl))

  preview-lease_manager :
      (e : SafetyEngine) (x : PolicyContext) (c : Clocks)
      → (preview evaluate e x c).0.lease_manager ≡ (reserve evaluate e x c).0.lease_manager
  unfolding preview check enforce restore_consumables
  preview-lease_manager e x c = refl

  -- An engine that differs in its lease manager only, which lost at most what had run out.
  with_manager :
      (e f : SafetyEngine) (m : Option LeaseManager) (now : ℕ)
      → f ≡ record e { lease_manager = m }
      → HasReaped now e.lease_manager m
      → LeavesAsItWas now e f
  with_manager e f m now q (inl s) = inl (q ∙ ap (λ x. record e { lease_manager = x }) s)
  with_manager e f m now q (inr s) = inr (q ∙ ap (λ x. record e { lease_manager = x }) s)

  -- A reservation that is refused, one that is rolled back before the engine is used again, and a
  -- preview, whatever it decides or throws, leave the engine as it was, with its rate windows,
  -- approvals and budgets. Only the leases that have run out may be gone from the lease manager,
  -- and then no others.
  pub undone-reserve_and_preview :
      (e : SafetyEngine) (x : PolicyContext) (c : Clocks)
      → LeavesAsItWas c.lease_now e (undone (reserve evaluate e x c))
        × LeavesAsItWas c.lease_now e (preview evaluate e x c).0
  undone-reserve_and_preview e x c =
      let h = reserve-HasReaped e x c in
      (
        with_manager e _ _ c.lease_now (undone-reserve e x c) h,
        with_manager e _ _ c.lease_now (preview-eq e x c) (rw (preview-lease_manager e x c) h),
      )
