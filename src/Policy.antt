-- ===== src/Policy.antt =====
-- packages/core/src/policy/safety.ts: the kinds of safety rules, and the merge of a module's rules
-- with those of a deployment. The limits and values of a rule are finite numbers, and a custom
-- rule's function is known by a number. The text that describes a conflict is left out.
pub mod Evaluate
pub mod Merge
mod Examples
use pinout.Prelude.{
  ℕ, ◌+◌, Bool, true, false, not, ◌&&◌, ◌||◌, Option, none, some, List, [], ◌∷◌, ◌++◌, String, ◌==◌,
  string_eq, if◌then◌else◌, any, keep, or_default, Finite, less, finite_beq,
}

pub data ConstraintProvenance : Type 0 where
  documented configured inferred unknown conflicting : ConstraintProvenance

pub data RuleValue : Type 0 where
  text : String → RuleValue
  number : Finite → RuleValue
  flag : Bool → RuleValue

pub record Range : Type 0 where
  pub min : Finite
  pub max : Finite

pub data RuleKind : Type 0 where
  numeric_range : String → Range → RuleKind
  state_equals : String → RuleValue → Option ℕ → RuleKind
  workspace_bounds : Range → Range → Range → RuleKind
  custom : ℕ → RuleKind
  rate : ℕ → Option ℕ → RuleKind
  interlock : String → Option RuleValue → Option ℕ → RuleKind
  sequence : String → ℕ → RuleKind
  approval lease : RuleKind
  deadman : Option ℕ → RuleKind
  resource : String → Option ℕ → RuleKind

-- The fields that every kind has, and the kind with its own.
pub record SafetyRule : Type 0 where
  pub id : Option String
  pub provenance : Option ConstraintProvenance
  pub capability : String
  pub message : Option String
  pub kind : RuleKind

-- `===`
abbrev pub value_beq : RuleValue → RuleValue → Bool
value_beq (text a) (text b) = a == b
value_beq (number a) (number b) = finite_beq a b
value_beq (flag true) (flag b) = b
value_beq (flag false) (flag b) = not b
value_beq _ _ = false

pub data ConstraintConflict : Type 0 where
  -- The capability, the field, and the ranges of the module and of the deployment.
  range_widening : String → String → Range → Range → ConstraintConflict
  state_mismatch : String → String → RuleValue → RuleValue → ConstraintConflict

pub record Merged : Type 0 where
  pub rules : List SafetyRule
  pub conflicts : List ConstraintConflict

-- `deployment.min < module.min || deployment.max > module.max`
abbrev pub widens : Range → Range → Bool
widens d m = less d.min m.min || less m.max d.max

-- The conflicts of a deployment's range with a rule of the module.
unfoldable pub range_conflict : String → String → Range → SafetyRule → List ConstraintConflict
range_conflict capability field range rule = at rule.kind
  where
    at : RuleKind → List ConstraintConflict
    at (numeric_range f r) =
        if rule.capability == capability && (f == field && widens range r)
        then range_widening capability field r range ∷ []
        else []
    at _ = []

unfoldable pub state_conflict : String → String → RuleValue → SafetyRule → List ConstraintConflict
state_conflict capability field value rule = at rule.kind
  where
    at : RuleKind → List ConstraintConflict
    at (state_equals f v _) =
        if rule.capability == capability && (f == field && not (value_beq v value))
        then state_mismatch capability field v value ∷ []
        else []
    at _ = []

unfoldable pub concat_map {ℓ κ} : {A : Type ℓ} {B : Type κ} → (A → List B) → List A → List B
concat_map f [] = []
concat_map f (x ∷ xs) = f x ++ concat_map f xs

abbrev pub is_mismatch : String → String → ConstraintConflict → Bool
is_mismatch capability field (range_widening _ _ _ _) = false
is_mismatch capability field (state_mismatch c f _ _) = c == capability && f == field

abbrev pub is_nil {ℓ} : {A : Type ℓ} → List A → Bool
is_nil [] = true
is_nil (_ ∷ _) = false

-- `{ ...deployment, provenance: deployment.provenance ?? 'CONFIGURED' }`
abbrev pub as_configured : SafetyRule → SafetyRule
as_configured rule = record rule { provenance = some (or_default rule.provenance configured) }

abbrev pub add_rule : Merged → SafetyRule → Merged
add_rule m rule = record m { rules = m.rules ++ as_configured rule ∷ [] }

-- One round of the loop over the deployment's rules.
unfoldable pub merge_kind : List SafetyRule → Merged → SafetyRule → RuleKind → Merged
merge_kind modules m rule (numeric_range field range) =
    let found = concat_map (range_conflict rule.capability field range) modules in
    let m' = record m { conflicts = m.conflicts ++ found } in
    if is_nil found then add_rule m' rule else m'
merge_kind modules m rule (state_equals field value _) =
    let found = concat_map (state_conflict rule.capability field value) modules in
    let m' = record m { conflicts = m.conflicts ++ found } in
    if any (is_mismatch rule.capability field) m'.conflicts then m' else add_rule m' rule
merge_kind modules m rule _ = add_rule m rule

unfoldable pub merge_all : List SafetyRule → Merged → List SafetyRule → Merged
merge_all modules m [] = m
merge_all modules m (rule ∷ rules) = merge_all modules (merge_kind modules m rule rule.kind) rules

unfoldable pub merge_module_and_deployment_rules : List SafetyRule → List SafetyRule → Merged
merge_module_and_deployment_rules modules deployments =
    merge_all modules (record { rules = modules; conflicts = [] }) deployments
