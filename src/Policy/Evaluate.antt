-- ===== src/Policy/Evaluate.antt =====
-- packages/core/src/policy/engine.ts, types.ts and errors.ts: the rules that look at the payload
-- and the state of a call. Of the objects that are thrown the class, the code and the data are
-- kept, and of their messages only the one that a rule brings.
use pinout.Prelude.{
  ℕ, ◌+◌, Bool, false, ◌||◌, Option, none, some, List, [], ◌∷◌, String, ◌==◌, string_eq, ltb,
  if◌then◌else◌, Finite, finite, less, above, below, scale, ◌*◌, Result, ok, err, ◌>>◌,
}
use pinout.Prelude.Json.{Json, Object, property}
use pinout.Policy.{
  RuleKind, RuleValue, Range, text, number, flag, numeric_range, state_equals, workspace_bounds,
  custom, SafetyRule, value_beq,
}

-- What a device reports as its state: `null` or `undefined`, a text, number or Boolean, or an
-- object. An array is an object with its indices and its length as fields.
pub data OperationalState : Type 0 where
  nullish primitive : OperationalState
  fields : Object → OperationalState

-- `owner` is the field that the safety engine adds.
pub record PolicyContext : Type 0 where
  pub device_id : String
  pub capability : String
  pub payload : Object
  pub operational_state : OperationalState
  pub owner : Option String

pub data Thrown : Type 0 where
  -- The rule's message and the field, then the limits and the value.
  not_a_number : Option String → String → Thrown
  out_of_range : Option String → String → Range → Finite → Thrown
  precondition_failed : Option String → String → RuleValue → Option Json → Thrown
  state_stale : ℕ → Thrown
  -- `SafetyEngine.reject`: the code and the rule's id, which stands in the details.
  rejected : String → Option String → Thrown
  -- An error of a custom rule that is one of the policy's classes: its code and its `ruleId`.
  custom_error : String → Option String → Thrown
  type_error : Thrown
  -- Any other value that a custom rule throws.
  foreign : ℕ → Thrown

-- `actual === rule.equals`
abbrev pub strictly_equals : Option Json → RuleValue → Bool
strictly_equals (some (Json.text s)) v = value_beq (text s) v
strictly_equals (some (Json.num (finite n))) v = value_beq (number n) v
strictly_equals (some (Json.bool b)) v = value_beq (flag b) v
strictly_equals _ v = false

abbrev pub outside : Finite → Range → Bool
outside value range = less value range.min || less range.max value

-- The test of one field of the payload: `lacking` is thrown if it is no finite number.
abbrev pub in_range :
    Thrown → Option String → String → Range → Option Json → Result Thrown (Unit {0})
in_range lacking message field range (some (Json.num (finite value))) =
    if outside value range then err (out_of_range message field range value) else ok tt
in_range lacking message field range _ = err lacking

unfoldable pub evaluate_numeric_range :
    SafetyRule → String → Range → PolicyContext → Result Thrown (Unit {0})
evaluate_numeric_range rule field range context =
    in_range (not_a_number rule.message field) rule.message field range
      (property field context.payload)

unfoldable pub evaluate_axis :
    SafetyRule → String → Range → PolicyContext → Result Thrown (Unit {0})
evaluate_axis rule axis range context =
    in_range (not_a_number none axis) rule.message axis range (property axis context.payload)

unfoldable pub evaluate_workspace_bounds :
    SafetyRule → Range → Range → Range → PolicyContext → Result Thrown (Unit {0})
unfolding evaluate_axis
evaluate_workspace_bounds rule x y z context =
    evaluate_axis rule "x" x context
    >> evaluate_axis rule "y" y context
    >> evaluate_axis rule "z" z context

-- `age < 0 || age > maxAgeMs`, for the age of what was observed at a time.
abbrev pub is_stale : Finite → ℕ → ℕ → Bool
is_stale t max_age_ms now =
    ltb (now * scale t + below t) (above t)
    || ltb (above t + max_age_ms * scale t) (now * scale t + below t)

abbrev pub fresh_at : Option Json → ℕ → ℕ → Result Thrown (Unit {0})
fresh_at (some (Json.num (finite t))) max_age_ms now =
    if is_stale t max_age_ms now then err (state_stale max_age_ms) else ok tt
fresh_at _ max_age_ms now = err (state_stale max_age_ms)

-- `state.observedAt` throws on `null` and is `undefined` on a primitive value.
unfoldable pub assert_fresh_state : OperationalState → ℕ → ℕ → Result Thrown (Unit {0})
assert_fresh_state nullish max_age_ms now = err type_error
assert_fresh_state primitive max_age_ms now = err (state_stale max_age_ms)
assert_fresh_state (fields o) max_age_ms now = fresh_at (property "observedAt" o) max_age_ms now

abbrev pub assert_age : OperationalState → Option ℕ → ℕ → Result Thrown (Unit {0})
assert_age state none now = ok tt
assert_age state (some max_age_ms) now = assert_fresh_state state max_age_ms now

abbrev pub actual_of : OperationalState → String → Option Json
actual_of nullish field = none
actual_of primitive field = none
actual_of (fields o) field = property field o

-- `now` is `Date.now()`: the age is measured by the system's clock.
unfoldable pub evaluate_state_equals :
    SafetyRule → String → RuleValue → Option ℕ → PolicyContext → ℕ → Result Thrown (Unit {0})
evaluate_state_equals rule field value age context now =
    let actual = actual_of context.operational_state field in
    assert_age context.operational_state age now
    >> (if strictly_equals actual value
        then ok tt
        else err (precondition_failed rule.message field value actual))

-- What a custom rule's function throws, if it throws.
abbrev pub raised : Option Thrown → Result Thrown (Unit {0})
raised none = ok tt
raised (some e) = err e

module _ (evaluate : ℕ → PolicyContext → Option Thrown) where
  unfoldable pub evaluate_kind :
      SafetyRule → RuleKind → PolicyContext → ℕ → Result Thrown (Unit {0})
  evaluate_kind rule (numeric_range field range) context now =
      evaluate_numeric_range rule field range context
  evaluate_kind rule (state_equals field value age) context now =
      evaluate_state_equals rule field value age context now
  evaluate_kind rule (workspace_bounds x y z) context now =
      evaluate_workspace_bounds rule x y z context
  evaluate_kind rule (custom f) context now = raised (evaluate f context)
  evaluate_kind rule _ context now = ok tt

  unfoldable pub evaluate_policies : List SafetyRule → PolicyContext → ℕ → Result Thrown (Unit {0})
  evaluate_policies [] context now = ok tt
  evaluate_policies (rule ∷ rules) context now =
      (if rule.capability == context.capability
        then evaluate_kind rule rule.kind context now
        else ok tt)
      >> evaluate_policies rules context now
