-- ===== src/Policy/Merge.antt =====
-- safety.ts: a deployment can only make the rules of a module stricter.
use pinout.Prelude.{
  ℕ, ◌≡◌, refl, sym, ap, ◌∙◌, Bool, true, false, not, ◌&&◌, ◌||◌, List, [], ◌∷◌, ◌++◌, map, String,
  ◌==◌, string_eq, arith, any, All, Bool-cases, inl, inr, Option, beq_refl,
}
use mathlib.Core.List.{append_assoc, append-nil}
use pinout.Policy.{
  RuleKind, RuleValue, Range, numeric_range, state_equals, workspace_bounds, custom, rate,
  interlock, sequence, approval, lease, deadman, resource, SafetyRule, Merged, widens, value_beq,
  range_conflict, state_conflict, concat_map, is_mismatch, is_nil, as_configured, merge_kind,
  merge_all, merge_module_and_deployment_rules,
}

-- The module's rule of the second kind limits a field to a range that the first kind goes beyond,
-- or asks a field to be in another state.
abbrev pub contradicts : RuleKind → RuleKind → Bool
contradicts (numeric_range field range) (numeric_range f r) = f == field && widens range r
contradicts (state_equals field value _) (state_equals f v _) =
    f == field && not (value_beq v value)
contradicts _ _ = false

-- The rule of a deployment would loosen the module's.
abbrev pub clashes : SafetyRule → SafetyRule → Bool
clashes rule m = m.capability == rule.capability && contradicts rule.kind m.kind

range_conflict-nil :
    (c f : String) (r : Range) (m : SafetyRule) (kind : RuleKind)
    → m.kind ≡ kind
    → is_nil (range_conflict c f r m)
      ≡ not (m.capability == c && contradicts (numeric_range f r) kind)
unfolding range_conflict
range_conflict-nil c f r m (numeric_range g s) e = rw e (ground arith)
range_conflict-nil c f r m (state_equals _ _ _) e = rw e (ground arith)
range_conflict-nil c f r m (workspace_bounds _ _ _) e = rw e (ground arith)
range_conflict-nil c f r m (custom _) e = rw e (ground arith)
range_conflict-nil c f r m (rate _ _) e = rw e (ground arith)
range_conflict-nil c f r m (interlock _ _ _) e = rw e (ground arith)
range_conflict-nil c f r m (sequence _ _) e = rw e (ground arith)
range_conflict-nil c f r m approval e = rw e (ground arith)
range_conflict-nil c f r m lease e = rw e (ground arith)
range_conflict-nil c f r m (deadman _) e = rw e (ground arith)
range_conflict-nil c f r m (resource _ _) e = rw e (ground arith)

is_nil-append : {A : Type 0} (xs ys : List A) → is_nil (xs ++ ys) ≡ (is_nil xs && is_nil ys)
is_nil-append [] ys = refl
is_nil-append (x ∷ xs) ys = refl

range_conflicts-nil :
    (c f : String) (r : Range) (ms : List SafetyRule)
    → is_nil (concat_map (range_conflict c f r) ms)
      ≡ not (any (λ m. m.capability == c && contradicts (numeric_range f r) m.kind) ms)
unfolding concat_map
range_conflicts-nil c f r [] = refl
range_conflicts-nil c f r (m ∷ ms) =
    rw
      (
        is_nil-append (range_conflict c f r m) (concat_map (range_conflict c f r) ms),
        range_conflict-nil c f r m m.kind refl,
        range_conflicts-nil c f r ms,
      )
      (ground arith)

state_conflict-mismatch :
    (c f : String) (v : RuleValue) (age : Option ℕ) (m : SafetyRule) (kind : RuleKind)
    → m.kind ≡ kind
    → any (is_mismatch c f) (state_conflict c f v m)
      ≡ (m.capability == c && contradicts (state_equals f v age) kind)
unfolding state_conflict
state_conflict-mismatch c f v age m (numeric_range _ _) e = rw e (ground arith)
state_conflict-mismatch c f v age m (state_equals g w _) e =
    rw e (ground (arith, beq_refl c, beq_refl f))
state_conflict-mismatch c f v age m (workspace_bounds _ _ _) e = rw e (ground arith)
state_conflict-mismatch c f v age m (custom _) e = rw e (ground arith)
state_conflict-mismatch c f v age m (rate _ _) e = rw e (ground arith)
state_conflict-mismatch c f v age m (interlock _ _ _) e = rw e (ground arith)
state_conflict-mismatch c f v age m (sequence _ _) e = rw e (ground arith)
state_conflict-mismatch c f v age m approval e = rw e (ground arith)
state_conflict-mismatch c f v age m lease e = rw e (ground arith)
state_conflict-mismatch c f v age m (deadman _) e = rw e (ground arith)
state_conflict-mismatch c f v age m (resource _ _) e = rw e (ground arith)

any-append :
    {A : Type 0} (p : A → Bool) (xs ys : List A) → any p (xs ++ ys) ≡ (any p xs || any p ys)
any-append p [] ys = refl
any-append p (x ∷ xs) ys = ground (arith, any-append p xs ys)

state_conflicts-mismatch :
    (c f : String) (v : RuleValue) (age : Option ℕ) (ms : List SafetyRule)
    → any (is_mismatch c f) (concat_map (state_conflict c f v) ms)
      ≡ any (λ m. m.capability == c && contradicts (state_equals f v age) m.kind) ms
unfolding concat_map
state_conflicts-mismatch c f v age [] = refl
state_conflicts-mismatch c f v age (m ∷ ms) =
    rw
      (
        any-append (is_mismatch c f) (state_conflict c f v m)
            (concat_map (state_conflict c f v) ms),
        state_conflict-mismatch c f v age m m.kind refl,
        state_conflicts-mismatch c f v age ms,
      )
      refl

no_clash :
    (rule : SafetyRule) (ms : List SafetyRule)
    → ((k : RuleKind) → contradicts rule.kind k ≡ false)
    → any (clashes rule) ms ≡ false
no_clash rule [] h = refl
no_clash rule (m ∷ ms) h = ground (arith, h m.kind, no_clash rule ms h)

-- A round adds the rule, and then it clashes with no rule of the module, or adds none.
data Round (modules : List SafetyRule) (rule : SafetyRule) (before after : List SafetyRule)
    : Type 0 where
  skipped : after ≡ before → Round modules rule before after
  added :
      after ≡ before ++ as_configured rule ∷ []
      → any (clashes rule) modules ≡ false
      → Round modules rule before after

merge_kind-Round :
    (modules : List SafetyRule) (m : Merged) (rule : SafetyRule) (kind : RuleKind)
    → rule.kind ≡ kind
    → Round modules rule m.rules (merge_kind modules m rule kind).rules
unfolding merge_kind
merge_kind-Round modules m rule (numeric_range f r) e =
    let found = concat_map (range_conflict rule.capability f r) modules in
    elim (Bool-cases (is_nil found)) [
      | inl t ↦
          rw t (added refl (rw e (ground (arith, range_conflicts-nil rule.capability f r modules))))
      | inr t ↦ rw t (skipped refl)
    ]
merge_kind-Round modules m rule (state_equals f v age) e =
    let found = concat_map (state_conflict rule.capability f v) modules in
    elim (Bool-cases (any (is_mismatch rule.capability f) (m.conflicts ++ found))) [
      | inl t ↦ rw t (skipped refl)
      | inr t ↦ rw t (
          added refl (
            rw e (
              ground (
                arith,
                any-append (is_mismatch rule.capability f) m.conflicts found,
                state_conflicts-mismatch rule.capability f v age modules,
              ))))
    ]
merge_kind-Round modules m rule kind e = added refl (no_clash rule modules (λ k. rw e refl))

merge_all-adds :
    (modules : List SafetyRule) (m : Merged) (rules : List SafetyRule)
    → (more : List SafetyRule) × ((merge_all modules m rules).rules ≡ m.rules ++ more)
      × All (λ r. any (clashes r) modules ≡ false) more
unfolding merge_all
merge_all-adds modules m [] = ([], sym (append-nil m.rules), tt)
merge_all-adds modules m (rule ∷ rules) =
    let (more, e, a) = merge_all-adds modules (merge_kind modules m rule rule.kind) rules in
    elim (merge_kind-Round modules m rule rule.kind refl) [
      | skipped same ↦ (more, e ∙ ap (λ x. x ++ more) same, a)
      | added one fits ↦ (
        as_configured rule ∷ more,
        e ∙ (ap (λ x. x ++ more) one ∙ append_assoc m.rules (as_configured rule ∷ []) more),
        (fits, a),
      )
    ]

-- A merge keeps the rules of the module as they are and in front, and each rule that it adds from
-- the deployment clashes with none of them: its range lies inside every range that the module gives
-- for the field, and its precondition is the module's.
pub merge_extends :
    (modules deployments : List SafetyRule)
    → (more : List SafetyRule) × ((merge_module_and_deployment_rules modules deployments).rules
        ≡ modules ++ more)
      × All (λ r. any (clashes r) modules ≡ false) more
unfolding merge_module_and_deployment_rules
merge_extends modules deployments =
    merge_all-adds modules (record { rules = modules; conflicts = [] }) deployments

any-nil : {A : Type 0} (p : A → Bool) (xs : List A) → is_nil xs ≡ true → any p xs ≡ false
any-nil p [] h = refl
any-nil p (x ∷ xs) h = absurd (ground arith)

merge_kind-conflicts :
    (modules : List SafetyRule) (m : Merged) (rule : SafetyRule) (kind : RuleKind)
    → is_nil (merge_kind modules m rule kind).conflicts ≡ true
    → (is_nil m.conflicts ≡ true)
      × ((merge_kind modules m rule kind).rules ≡ m.rules ++ as_configured rule ∷ [])
unfolding merge_kind
merge_kind-conflicts modules m rule (numeric_range f r) h =
    let found = concat_map (range_conflict rule.capability f r) modules in
    let split = is_nil-append m.conflicts found in
    elim (Bool-cases (is_nil found)) [
      | inl t ↦ (ground (arith, split), rw t refl)
      | inr t ↦ absurd (ground (arith, split))
    ]
merge_kind-conflicts modules m rule (state_equals f v age) h =
    let found = concat_map (state_conflict rule.capability f v) modules in
    let split = is_nil-append m.conflicts found in
    let mismatch = is_mismatch rule.capability f in
    elim (Bool-cases (any mismatch (m.conflicts ++ found))) [
      | inl t ↦ absurd (ground (arith, any-nil mismatch (m.conflicts ++ found)))
      | inr t ↦ (ground (arith, split), rw t refl)
    ]
merge_kind-conflicts modules m rule kind h = (h, refl)

merge_all-conflicts :
    (modules : List SafetyRule) (m : Merged) (rules : List SafetyRule)
    → is_nil (merge_all modules m rules).conflicts ≡ true
    → (is_nil m.conflicts ≡ true)
      × ((merge_all modules m rules).rules ≡ m.rules ++ map as_configured rules)
unfolding merge_all
merge_all-conflicts modules m [] h = (h, sym (append-nil m.rules))
merge_all-conflicts modules m (rule ∷ rules) h =
    let m' = merge_kind modules m rule rule.kind in
    let (quiet, rest) = merge_all-conflicts modules m' rules h in
    let (before, one) = merge_kind-conflicts modules m rule rule.kind quiet in
    (
      before,
      rest
          ∙ ap (λ x. x ++ map as_configured rules) one
          ∙ append_assoc m.rules (as_configured rule ∷ []) (map as_configured rules),
    )

-- A merge without conflicts drops no rule: the result is the rules of the module and behind them
-- all those of the deployment, in order. A rule that is not taken over is reported.
pub merge_complete :
    (modules deployments : List SafetyRule)
    → is_nil (merge_module_and_deployment_rules modules deployments).conflicts ≡ true
    → (merge_module_and_deployment_rules modules deployments).rules
      ≡ modules ++ map as_configured deployments
unfolding merge_module_and_deployment_rules
merge_complete modules deployments h =
    (merge_all-conflicts modules (record { rules = modules; conflicts = [] }) deployments h).1
