-- ===== src/Safety/Rates.antt =====
-- safety.ts: the rate limits.
use pinout.Prelude.{
  ℕ, ◌<◌, ◌≡◌, refl, ap, subst, ◌∙◌, Bool, true, false, ◌&&◌, Option, List, [], ◌∷◌, ◌++◌, String,
  ◌==◌, string_eq, arith, ok, keep, length, Bool-cases, inl, inr, or_default, beq_refl, eq_of_beq,
}
use pinout.Prelude.Map.{Map, set}
use pinout.Policy.{
  RuleKind, rate, interlock, sequence, approval, lease, deadman, resource, SafetyRule,
}
use pinout.Policy.Evaluate.{PolicyContext}
use pinout.Safety.{SafetyEngine}
use pinout.Safety.Enforce.{
  Clocks, enforce_rate, enforce_interlock, enforce_sequence, enforce_approval, enforce_lease,
  enforce_deadman, enforce_resource, enforce_kind, enforce_each, applies, is_lease, recent,
  rate_key,
}
use pinout.Safety.Accepted.{round, enforce_each-ok}

abbrev pub is_rate : RuleKind → Bool
is_rate (rate _ _) = true
is_rate _ = false

-- The rate rules that a call falls under.
abbrev pub rate_rules : String → List SafetyRule → List SafetyRule
rate_rules capability rules = keep (λ r. is_rate r.kind && r.capability == capability) rules

enforce_kind-rate_windows :
    (e : SafetyEngine) (rule : SafetyRule) (kind : RuleKind) (x : PolicyContext) (c : Clocks)
    → is_rate kind ≡ false
    → (enforce_kind e rule kind x c).0.consumables.rate_windows ≡ e.consumables.rate_windows
unfolding enforce_kind enforce_interlock enforce_sequence enforce_approval enforce_lease
    enforce_deadman enforce_resource
enforce_kind-rate_windows e rule (rate _ _) x c h = absurd (ground arith)
enforce_kind-rate_windows e rule (interlock _ _ _) x c h = ground arith
enforce_kind-rate_windows e rule (sequence _ _) x c h = ground arith
enforce_kind-rate_windows e rule approval x c h = ground arith
enforce_kind-rate_windows e rule lease x c h = ground arith
enforce_kind-rate_windows e rule (deadman _) x c h = ground arith
enforce_kind-rate_windows e rule (resource _ _) x c h = ground arith
enforce_kind-rate_windows e rule kind x c h = refl

rate_is_no_lease : (kind : RuleKind) → (is_rate kind && is_lease kind) ≡ false
rate_is_no_lease lease = refl
rate_is_no_lease kind = refl

-- A round for a rule that is no rate rule of the call.
round-rate_windows :
    (e : SafetyEngine) (rule : SafetyRule) (x : PolicyContext) (c : Clocks)
    → (is_rate rule.kind && rule.capability == x.capability) ≡ false
    → (round e rule x c).0.consumables.rate_windows ≡ e.consumables.rate_windows
unfolding applies
round-rate_windows e rule x c h = elim (Bool-cases (is_rate rule.kind)) [
  | inl r ↦ ground (arith, rate_is_no_lease rule.kind)
  | inr n ↦ ground (arith, enforce_kind-rate_windows e rule rule.kind x c n)
]

module _ (x : PolicyContext) (c : Clocks) where
  enforce_each-no_rate :
      (e : SafetyEngine) (rules : List SafetyRule)
      → rate_rules x.capability rules ≡ []
      → (enforce_each e rules x c).1 ≡ ok tt
      → (enforce_each e rules x c).0.consumables.rate_windows ≡ e.consumables.rate_windows
  unfolding enforce_each
  enforce_each-no_rate e [] n h = refl
  enforce_each-no_rate e (rule ∷ rules) n h =
      let (first, q, rest) = enforce_each-ok e rule rules x c h in
      let o = round-rate_windows e rule x c (ground arith) in
      let l = enforce_each-no_rate (round e rule x c).0 rules (ground arith) rest in
      ap (λ r. r.0.consumables.rate_windows) q ∙ l ∙ o

  -- What a rate rule does to the timestamps of a call that it lets through.
  abbrev pub Counted : Map String (List ℕ) → ℕ → ℕ → Map String (List ℕ) → Type 0
  Counted before max window_ms after =
      let timestamps = recent before (rate_key x) window_ms c.now in
      (length timestamps < max) × (after ≡ set (rate_key x) (timestamps ++ c.now ∷ []) before)

  enforce_rate-Counted :
      (e : SafetyEngine) (rule : SafetyRule) (max : ℕ) (window : Option ℕ)
      → (enforce_rate e rule max window x c.now).1 ≡ ok tt
      → Counted e.consumables.rate_windows max
          (or_default window 1000)
          (enforce_rate e rule max window x c.now).0.consumables.rate_windows
  unfolding enforce_rate
  enforce_rate-Counted e rule max window h = ground arith

  round-eq_enforce_rate :
      (e : SafetyEngine) (rule : SafetyRule) (max : ℕ) (window : Option ℕ)
      → rule.kind ≡ rate max window
      → rule.capability ≡ x.capability
      → round e rule x c ≡ enforce_rate e rule max window x c.now
  unfolding applies enforce_kind enforce_rate
  round-eq_enforce_rate e rule max window k s = rw (k, s, beq_refl x.capability, enforce_kind) refl

  pub enforce_each-Counted :
      (e : SafetyEngine) (rules : List SafetyRule) (r : SafetyRule) (max : ℕ) (window : Option ℕ)
      → rate_rules x.capability rules ≡ r ∷ []
      → r.kind ≡ rate max window
      → (enforce_each e rules x c).1 ≡ ok tt
      → Counted e.consumables.rate_windows max
          (or_default window 1000)
          (enforce_each e rules x c).0.consumables.rate_windows
  unfolding enforce_each
  enforce_each-Counted e [] r max window n k h = absurd (ground arith)
  enforce_each-Counted e (rule ∷ rules) r max window n k h =
      let (first, q, rest) = enforce_each-ok e rule rules x c h in
      let p = is_rate rule.kind && rule.capability == x.capability in
      let windows = e.consumables.rate_windows in
      elim (Bool-cases p) [
        | inl t ↦
            let same : rule ≡ r = ground arith in
            let o =
              round-eq_enforce_rate e rule max window (rw same k)
                (eq_of_beq rule.capability x.capability (ground arith)) in
            let (low, after) = enforce_rate-Counted e rule max window (rw (← o) first) in
            let l = enforce_each-no_rate (round e rule x c).0 rules (ground arith) rest in
            (
              low,
              ap (λ r. r.0.consumables.rate_windows) (q)
                  ∙ l
                  ∙ ap (λ r. r.0.consumables.rate_windows) o
                  ∙ after,
            )
        | inr t ↦
            let o = round-rate_windows e rule x c t in
            let l =
              enforce_each-Counted (round e rule x c).0 rules r max window (ground arith) k rest in
            rw q (
              subst
                (λ m.
                  Counted m max (or_default window 1000)
                    (enforce_each (round e rule x c).0 rules x c).0.consumables.rate_windows)
                o l)
      ]
