-- ===== src/Safety/Accepted.antt =====
-- safety.ts: how the outcome of a call hangs on its single rules.
use pinout.Prelude.{
  ℕ, ◌≡◌, refl, ap, sym, ◌∙◌, true, Option, List, [], ◌∷◌, arith, ok, err, if◌then◌else◌,
  Bool-cases, inl, inr,
}
use pinout.Policy.{SafetyRule, RuleKind}
use pinout.Policy.Evaluate.{PolicyContext, Thrown, evaluate_policies}
use pinout.Safety.{SafetyEngine, Consumables}
use pinout.Safety.Enforce.{
  Clocks, Checked, and_then, applies, enforce_kind, enforce_each, enforce_rules,
}
use pinout.Safety.Reserve.{reserved, SafetyReservation, reserve, snapshot_consumables}

-- One round of the loop over the rules.
abbrev pub round : SafetyEngine → SafetyRule → PolicyContext → Clocks → Checked
round e rule x c = if applies x rule then enforce_kind e rule rule.kind x c else (e, ok tt)

-- Behind a chain that did not throw, its first step did not, and the rest went on from it.
pub and_then-ok :
    (r : Checked) (next : SafetyEngine → Checked)
    → (and_then r next).1 ≡ ok tt
    → (r.1 ≡ ok tt) × (and_then r next ≡ next r.0)
and_then-ok (e, ok tt) next h = (refl, refl)
and_then-ok (e, err t) next h = absurd (ground arith)

-- The same of the loop.
pub enforce_each-ok :
    (e : SafetyEngine) (rule : SafetyRule) (rules : List SafetyRule) (x : PolicyContext)
    (c : Clocks)
    → (enforce_each e (rule ∷ rules) x c).1 ≡ ok tt
    → ((round e rule x c).1 ≡ ok tt)
      × (enforce_each e (rule ∷ rules) x c ≡ enforce_each (round e rule x c).0 rules x c)
      × ((enforce_each (round e rule x c).0 rules x c).1 ≡ ok tt)
unfolding enforce_each
enforce_each-ok e rule rules x c h =
    let (first, q) = and_then-ok (round e rule x c) (λ f. enforce_each f rules x c) h in
    (first, q, ap (λ r. r.1) (sym q) ∙ h)

reserved-ok :
    (saved : Consumables) (r : Checked) {s : SafetyReservation}
    → (reserved saved r).1 ≡ ok s
    → (r.1 ≡ ok tt) × ((reserved saved r).0 ≡ r.0) × (s ≡ record { saved = saved; active = true })
reserved-ok saved (e, ok tt) h = ground arith
reserved-ok saved (e, err t) h = absurd (ground arith)

-- A property that each rule keeps, whether it throws or not, is kept by the loop.
module _ {ℓ} (P : SafetyEngine → Type ℓ) (x : PolicyContext) (c : Clocks)
    (kept : (e : SafetyEngine) (rule : SafetyRule) (kind : RuleKind)
      → P e
      → P (enforce_kind e rule kind x c).0) where
  and_then-keeps :
      (r : Checked) (next : SafetyEngine → Checked)
      → P r.0
      → ((e : SafetyEngine) → P e → P (next e).0)
      → P (and_then r next).0
  and_then-keeps (e, ok _) next p h = h e p
  and_then-keeps (e, err _) next p h = p

  round-keeps : (e : SafetyEngine) (rule : SafetyRule) → P e → P (round e rule x c).0
  round-keeps e rule p = elim (Bool-cases (applies x rule)) [
    | inl t ↦ rw t (kept e rule rule.kind p)
    | inr t ↦ rw t p
  ]

  enforce_each-keeps :
      (e : SafetyEngine) (rules : List SafetyRule) → P e → P (enforce_each e rules x c).0
  unfolding enforce_each
  enforce_each-keeps e [] p = p
  enforce_each-keeps e (rule ∷ rules) p =
      and_then-keeps (round e rule x c) (λ f. enforce_each f rules x c) (round-keeps e rule p)
        (λ f q. enforce_each-keeps f rules q)

  pub enforce_rules-keeps :
      (evaluate : ℕ → PolicyContext → Option Thrown) (e : SafetyEngine)
      → P e
      → P (enforce_rules evaluate e x c).0
  unfolding enforce_rules
  enforce_rules-keeps evaluate e p =
      and_then-keeps (e, evaluate_policies evaluate e.rules x c.system_now)
        (λ f. enforce_each f f.rules x c) p (λ f q. enforce_each-keeps f f.rules q)

module _ (evaluate : ℕ → PolicyContext → Option Thrown) where
  -- A reservation that is granted is that of a call that no rule rejects.
  pub reserve-ok :
      (e : SafetyEngine) (x : PolicyContext) (c : Clocks) {r : SafetyReservation}
      → (reserve evaluate e x c).1 ≡ ok r
      → ((enforce_each e e.rules x c).1 ≡ ok tt)
        × ((reserve evaluate e x c).0 ≡ (enforce_each e e.rules x c).0)
        × (r ≡ record { saved = e.consumables; active = true })
  unfolding reserve enforce_rules snapshot_consumables
  reserve-ok e x c {r} h =
      let checked : Checked = (e, evaluate_policies evaluate e.rules x c.system_now) in
      let next : SafetyEngine → Checked = λ f. enforce_each f f.rules x c in
      let (passed, same, saved) = reserved-ok e.consumables (and_then checked next) {s = r} h in
      let (_, q) = and_then-ok checked next passed in
      (ap (λ r. r.1) (sym q) ∙ passed, same ∙ ap (λ r. r.0) q, saved)

  -- And its policies were evaluated without an error.
  pub reserve-policies :
      (e : SafetyEngine) (x : PolicyContext) (c : Clocks) {r : SafetyReservation}
      → (reserve evaluate e x c).1 ≡ ok r
      → evaluate_policies evaluate e.rules x c.system_now ≡ ok tt
  unfolding reserve enforce_rules snapshot_consumables
  reserve-policies e x c {r} h =
      let checked : Checked = (e, evaluate_policies evaluate e.rules x c.system_now) in
      let next : SafetyEngine → Checked = λ f. enforce_each f f.rules x c in
      let (passed, _, _) = reserved-ok e.consumables (and_then checked next) {s = r} h in
      (and_then-ok checked next passed).0
