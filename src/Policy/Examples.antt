-- ===== src/Policy/Examples.antt =====
-- safety.ts: merges of concrete rules.
use pinout.Prelude.{
  ◌≡◌, refl, true, false, none, List, [], ◌∷◌, ◌++◌, All, any, map, pos, negsuc, whole, fraction,
}
use pinout.Policy.Evaluate.{outside}
use pinout.Policy.{
  Range, SafetyRule, RuleKind, numeric_range, rate, merge_module_and_deployment_rules, merge_all,
  merge_kind, concat_map, range_conflict, state_conflict, is_nil,
}
use pinout.Policy.Merge.{clashes, merge_extends}

merging : Unit {0}
unfolding merge_module_and_deployment_rules merge_all merge_kind concat_map range_conflict
    state_conflict
merging = tt

abbrev rule : RuleKind → SafetyRule
rule kind = record {
  id = none;
  provenance = none;
  capability = "heater.set";
  message = none;
  kind = kind;
}

abbrev module_rules : List SafetyRule
module_rules =
    rule (numeric_range "celsius" (record { min = whole (pos 4); max = whole (pos 95) })) ∷ []

abbrev stricter : List SafetyRule
stricter =
    rule (numeric_range "celsius" (record { min = whole (pos 10); max = whole (pos 60) }))
    ∷ rule (rate 2 none)
    ∷ []

-- A range from -1.5 to 1.5, with numbers inside and outside it.
abbrev reach : Range
reach = record { min = fraction (negsuc 1) 0; max = fraction (pos 1) 0 }

within_reach :
    map
      (λ v. outside v reach)
      (fraction (negsuc 5) 2
        ∷ fraction (pos 1) 0
        ∷ fraction (pos 6) 2
        ∷ whole (negsuc 1)
        ∷ fraction (negsuc 6) 2
        ∷ [])
    ≡ false ∷ false ∷ true ∷ true ∷ true ∷ []
within_reach = refl

abbrev looser : List SafetyRule
looser =
    rule (numeric_range "celsius" (record { min = whole (pos 10); max = whole (pos 120) })) ∷ []

looser_is_dropped : (merge_module_and_deployment_rules module_rules looser).rules ≡ module_rules
unfolding merging
looser_is_dropped = refl

stricter_has_none :
    is_nil (merge_module_and_deployment_rules module_rules stricter).conflicts ≡ true
unfolding merging
stricter_has_none = refl

merge_extends_example :
    (more : List SafetyRule) × ((merge_module_and_deployment_rules module_rules looser).rules
      ≡ module_rules ++ more)
    × All (λ r. any (clashes r) module_rules ≡ false) more
merge_extends_example = merge_extends module_rules looser
