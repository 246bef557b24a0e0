-- ===== src/Safety/Granted.antt =====
-- safety.ts and engine.ts: what holds of a call that the engine lets through.
use pinout.Prelude.{
  ℕ, ◌≡◌, refl, true, Option, some, List, [], ◌∷◌, String, ◌==◌, string_eq, arith, Result, ok, err,
  ◌>>◌, All, keep, Bool-cases, inl, inr, if◌then◌else◌, Finite, finite, ◌≤F◌, or_default,
}
use pinout.Prelude.Json.{Json, property}
use pinout.Prelude.Map.{get}
use pinout.Policy.{
  RuleKind, Range, numeric_range, state_equals, workspace_bounds, custom, rate, interlock, sequence,
  approval, lease, deadman, resource, SafetyRule, flag,
}
use pinout.Policy.Evaluate.{
  PolicyContext, Thrown, in_range, evaluate_policies, evaluate_kind, evaluate_numeric_range,
  evaluate_axis, evaluate_workspace_bounds, evaluate_state_equals, strictly_equals, actual_of,
  assert_age,
}
use pinout.Safety.{SafetyEngine}
use pinout.Safety.Enforce.{
  Clocks, enforce_each, enforce_kind, enforce_interlock, enforce_sequence, enforce_deadman, applies,
  holds, reached, is_alive,
}
use pinout.Safety.Accepted.{round, enforce_each-ok, reserve-policies, reserve-ok}
use pinout.Safety.Frame.{Same, round-Same}
use pinout.Safety.Reserve.{SafetyReservation, reserve}

-- A field of the payload is a finite number within the range.
abbrev pub LiesIn : String → Range → PolicyContext → Type 0
LiesIn field range x =
    (v : Finite) × (property field x.payload ≡ some (Json.num (finite v)))
    × (range.min ≤F v)
    × (v ≤F range.max)

-- What a rule of each kind demands of the payload and of the device's state.
abbrev pub Respects : PolicyContext → RuleKind → Type 0
Respects x (numeric_range field range) = LiesIn field range x
Respects x (workspace_bounds a b c) = LiesIn "x" a x × LiesIn "y" b x × LiesIn "z" c x
Respects x (state_equals field value _) =
    strictly_equals (actual_of x.operational_state field) value ≡ true
Respects x _ = Unit

-- What it demands of the engine's interlocks, sequences and heartbeats.
abbrev pub Allows : SafetyEngine → PolicyContext → ℕ → RuleKind → Type 0
Allows e x now (interlock name must_be _) =
    holds (get name e.interlocks) (or_default must_be (flag true)) ≡ true
Allows e x now (sequence name at_least) = reached (get name e.sequences) at_least ≡ true
Allows e x now (deadman age) = is_alive (get x.device_id e.deadmen) (or_default age 1000) now ≡ true
Allows e x now _ = Unit

in_range-LiesIn :
    (lacking : Thrown) (message : Option String) (field : String) (range : Range)
    (x : PolicyContext) (o : Option Json)
    → property field x.payload ≡ o
    → in_range lacking message field range o ≡ ok tt
    → LiesIn field range x
in_range-LiesIn lacking message field range x (some (Json.num (finite v))) q h =
    (v, q, ground arith, ground arith)
in_range-LiesIn lacking message field range x o q h = absurd (ground arith)

>>-ok : (a b : Result Thrown (Unit {0})) → (a >> b) ≡ ok tt → (a ≡ ok tt) × (b ≡ ok tt)
>>-ok (ok tt) b h = (refl, h)
>>-ok (err e) b h = absurd (ground arith)

module _ (evaluate : ℕ → PolicyContext → Option Thrown) where
  evaluate_kind-Respects :
      (rule : SafetyRule) (kind : RuleKind) (x : PolicyContext) (now : ℕ)
      → evaluate_kind evaluate rule kind x now ≡ ok tt
      → Respects x kind
  unfolding evaluate_kind evaluate_numeric_range evaluate_workspace_bounds evaluate_axis
      evaluate_state_equals
  evaluate_kind-Respects rule (numeric_range field range) x now h =
      in_range-LiesIn _ rule.message field range x (property field x.payload) refl h
  evaluate_kind-Respects rule (state_equals field value age) x now h =
      let (_, k) = >>-ok (assert_age x.operational_state age now) _ h in ground arith
  evaluate_kind-Respects rule (workspace_bounds a b c) x now h =
      let (hab, hc) =
        >>-ok (evaluate_axis rule "x" a x >> evaluate_axis rule "y" b x)
          (evaluate_axis rule "z" c x) h in
      let (ha, hb) = >>-ok (evaluate_axis rule "x" a x) (evaluate_axis rule "y" b x) hab in
      (
        in_range-LiesIn _ rule.message "x" a x (property "x" x.payload) refl ha,
        in_range-LiesIn _ rule.message "y" b x (property "y" x.payload) refl hb,
        in_range-LiesIn _ rule.message "z" c x (property "z" x.payload) refl hc,
      )
  evaluate_kind-Respects rule (custom f) x now h = tt
  evaluate_kind-Respects rule (rate _ _) x now h = tt
  evaluate_kind-Respects rule (interlock _ _ _) x now h = tt
  evaluate_kind-Respects rule (sequence _ _) x now h = tt
  evaluate_kind-Respects rule approval x now h = tt
  evaluate_kind-Respects rule lease x now h = tt
  evaluate_kind-Respects rule (deadman _) x now h = tt
  evaluate_kind-Respects rule (resource _ _) x now h = tt

  evaluate_policies-Respects :
      (rules : List SafetyRule) (x : PolicyContext) (now : ℕ)
      → evaluate_policies evaluate rules x now ≡ ok tt
      → All (λ r. Respects x r.kind) (keep (λ r. r.capability == x.capability) rules)
  unfolding evaluate_policies
  evaluate_policies-Respects [] x now h = tt
  evaluate_policies-Respects (rule ∷ rules) x now h =
      let first =
        if rule.capability == x.capability
        then evaluate_kind evaluate rule rule.kind x now
        else ok tt in
      let (one, rest) = >>-ok first (evaluate_policies evaluate rules x now) h in
      let more = evaluate_policies-Respects rules x now rest in
      elim (Bool-cases (rule.capability == x.capability)) [
        | inl t ↦ rw t (evaluate_kind-Respects rule rule.kind x now (ground arith), more)
        | inr t ↦ rw t more
      ]

enforce_kind-Allows :
    (e : SafetyEngine) (rule : SafetyRule) (kind : RuleKind) (x : PolicyContext) (c : Clocks)
    → (enforce_kind e rule kind x c).1 ≡ ok tt
    → Allows e x c.now kind
unfolding enforce_kind enforce_interlock enforce_sequence enforce_deadman
enforce_kind-Allows e rule (interlock _ _ _) x c h = ground arith
enforce_kind-Allows e rule (sequence _ _) x c h = ground arith
enforce_kind-Allows e rule (deadman _) x c h = ground arith
enforce_kind-Allows e rule (numeric_range _ _) x c h = tt
enforce_kind-Allows e rule (state_equals _ _ _) x c h = tt
enforce_kind-Allows e rule (workspace_bounds _ _ _) x c h = tt
enforce_kind-Allows e rule (custom _) x c h = tt
enforce_kind-Allows e rule (rate _ _) x c h = tt
enforce_kind-Allows e rule approval x c h = tt
enforce_kind-Allows e rule lease x c h = tt
enforce_kind-Allows e rule (resource _ _) x c h = tt

Same-Allows :
    (e f : SafetyEngine) (x : PolicyContext) (now : ℕ) (kind : RuleKind)
    → Same e f
    → Allows f x now kind
    → Allows e x now kind
Same-Allows e f x now (interlock name must_be _) (_, i, _, _) h = rw (← i) h
Same-Allows e f x now (sequence name _) (_, _, q, _) h = rw (← q) h
Same-Allows e f x now (deadman _) (_, _, _, d) h = rw (← d) h
Same-Allows e f x now (numeric_range _ _) s h = tt
Same-Allows e f x now (state_equals _ _ _) s h = tt
Same-Allows e f x now (workspace_bounds _ _ _) s h = tt
Same-Allows e f x now (custom _) s h = tt
Same-Allows e f x now (rate _ _) s h = tt
Same-Allows e f x now approval s h = tt
Same-Allows e f x now lease s h = tt
Same-Allows e f x now (resource _ _) s h = tt

enforce_each-Allows :
    (e f : SafetyEngine) (rules : List SafetyRule) (x : PolicyContext) (c : Clocks)
    → Same e f
    → (enforce_each f rules x c).1 ≡ ok tt
    → All (λ r. Allows e x c.now r.kind) (keep (λ r. r.capability == x.capability) rules)
unfolding applies
enforce_each-Allows e f [] x c s h = tt
enforce_each-Allows e f (rule ∷ rules) x c s h =
    let (first, _, rest) = enforce_each-ok f rule rules x c h in
    let s' = round-Same f rule x c in
    let more = enforce_each-Allows e (round f rule x c).0 rules x c (ground arith) rest in
    elim (Bool-cases (rule.capability == x.capability)) [
      | inl t ↦ rw t (
        Same-Allows e f x c.now rule.kind s
            (enforce_kind-Allows f rule rule.kind x c (ground arith)),
        more,
      )
      | inr t ↦ rw t more
    ]

-- A call that the engine lets through respects every rule for its capability: each field that a
-- range or a workspace limits is a finite number within the limits, each state that is demanded is
-- there, each interlock holds, each sequence has come far enough and the device's heartbeat is
-- fresh.
pub reserve-Respects :
    (evaluate : ℕ → PolicyContext → Option Thrown) (e : SafetyEngine) (x : PolicyContext)
    (c : Clocks) {r : SafetyReservation}
    → (reserve evaluate e x c).1 ≡ ok r
    → let rules = keep (λ r. r.capability == x.capability) e.rules in
      All (λ r. Respects x r.kind) rules × All (λ r. Allows e x c.now r.kind) rules
reserve-Respects evaluate e x c h = (
  evaluate_policies-Respects evaluate e.rules x c.system_now (reserve-policies evaluate e x c h),
  enforce_each-Allows e e e.rules x c (refl, refl, refl, refl) (reserve-ok evaluate e x c h).0,
)
