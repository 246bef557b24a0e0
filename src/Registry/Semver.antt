-- ===== src/Registry/Semver.antt =====
-- packages/registry/src/semver.ts: versions, their order and ranges of them.
-- A text is the list of its UTF-16 code units. `localeCompare` depends on the host's locale, so its
-- sign is an argument. Numbers are exact, as the code's are below 2^53.
mod Decimal
pub mod Ranges
pub mod Order
pub mod Best
pub mod Version
mod Examples
use Prim.Native.Nat.{compare, Ordering}
use pinout.Prelude.{
  ℕ, zero, suc, ◌+◌, ◌-◌, ◌*◌, ◌/◌, ◌%◌, Bool, true, false, not, ◌&&◌, ◌||◌, Option, none, some,
  List, [], ◌∷◌, ◌++◌, if◌then◌else◌, ltb, leb, nat_beq, is_some, any,
}
use pinout.Prelude.Text.{Text, trim}
use pinout.Registry.Semver.Version.{ParsedSemver, parse_semver}

-- `===` on texts.
abbrev pub text_beq : Text → Text → Bool
text_beq [] [] = true
text_beq [] (d ∷ ds) = false
text_beq (c ∷ cs) [] = false
text_beq (c ∷ cs) (d ∷ ds) = nat_beq c d && text_beq cs ds

-- The first difference decides.
abbrev pub or_else_by : Ordering → Ordering → Ordering
or_else_by Ordering.eq later = later
or_else_by Ordering.lt later = Ordering.lt
or_else_by Ordering.gt later = Ordering.gt

pub data VersionRange : Type 0 where
  any_release : VersionRange
  exact caret tilde : Text → VersionRange

abbrev pub operator_range : (Text → VersionRange) → Text → Option VersionRange
operator_range kind version =
    if is_some (parse_semver version) && not (any (nat_beq 45) version)
    then some (kind version)
    else none

abbrev pub parse_trimmed : Text → Option VersionRange
parse_trimmed [] = none
parse_trimmed (c ∷ cs) =
    if nat_beq c 42 && not (any (λ _. true) cs)
    then some any_release
    else if nat_beq c 94
    then operator_range caret cs
    else if nat_beq c 126
    then operator_range tilde cs
    else if is_some (parse_semver (c ∷ cs))
    then some (exact (c ∷ cs))
    else none

unfoldable pub parse_version_range : Text → Option VersionRange
parse_version_range range = parse_trimmed (trim range)

unfoldable pub is_valid_range : Text → Bool
is_valid_range range = is_some (parse_version_range range)

-- A number in a template string. Its fuel is one more than the number, which has fewer digits.
abbrev pub print_digits : ℕ → ℕ → Text
print_digits zero n = []
print_digits (suc fuel) n =
    let higher = print_digits fuel (n / 10) in
    (if ltb n 10 then [] else higher) ++ (48 + n % 10) ∷ []

unfoldable pub print_number : ℕ → Text
print_number n = print_digits (suc n) n

abbrev pub print_version : ℕ → ℕ → ℕ → Text
print_version major minor patch =
    print_number major ++ 46 ∷ (print_number minor ++ 46 ∷ print_number patch)

unfoldable pub caret_upper_bound : ParsedSemver → Text
caret_upper_bound base =
    if ltb 0 base.major
    then print_version (base.major + 1) 0 0
    else if ltb 0 base.minor
    then print_version 0 (base.minor + 1) 0
    else print_version 0 0 (base.patch + 1)

abbrev pub is_lt : Ordering → Bool
is_lt Ordering.lt = true
is_lt Ordering.eq = false
is_lt Ordering.gt = false

abbrev pub is_eq : Ordering → Bool
is_eq Ordering.lt = false
is_eq Ordering.eq = true
is_eq Ordering.gt = false

abbrev pub is_gt : Ordering → Bool
is_gt Ordering.lt = false
is_gt Ordering.eq = false
is_gt Ordering.gt = true

module _ (locale_compare : Text → Text → Ordering) where
  abbrev pub compare_tags : Option Text → Option Text → Ordering
  compare_tags none none = Ordering.eq
  compare_tags none (some b) = Ordering.gt
  compare_tags (some a) none = Ordering.lt
  compare_tags (some a) (some b) = if text_beq a b then Ordering.eq else locale_compare a b

  abbrev pub compare_parsed : ParsedSemver → ParsedSemver → Ordering
  compare_parsed left right = or_else_by (compare left.major right.major) (
      or_else_by (compare left.minor right.minor) (
        or_else_by (compare left.patch right.patch)
          (compare_tags left.prerelease right.prerelease)))

  -- The sign of what `compareSemver` returns.
  unfoldable pub compare_semver : Text → Text → Ordering
  compare_semver a b = elim (parse_semver a) [
    | none ↦ locale_compare a b
    | some left ↦ elim (parse_semver b) [
      | none ↦ locale_compare a b
      | some right ↦ compare_parsed left right
    ]
  ]

  -- The version is a release that is at least the base and below the bound.
  abbrev pub between : Text → ParsedSemver → Text → Text → Bool
  between version parsed base upper =
      not (is_some parsed.prerelease)
      && not (is_lt (compare_semver version base))
      && is_lt (compare_semver version upper)

  abbrev pub satisfies : Text → ParsedSemver → VersionRange → Bool
  satisfies version parsed any_release = not (is_some parsed.prerelease)
  satisfies version parsed (exact base) = is_eq (compare_semver version base)
  satisfies version parsed (caret base) = elim (parse_semver base) [
    | none ↦ false
    | some lowest ↦ between version parsed base (caret_upper_bound lowest)
  ]
  satisfies version parsed (tilde base) = elim (parse_semver base) [
    | none ↦ false
    | some lowest ↦ between version parsed base (print_version lowest.major (lowest.minor + 1) 0)
  ]

  unfoldable pub satisfies_range : Text → Text → Bool
  satisfies_range version range = elim (parse_version_range range) [
    | none ↦ false
    | some parsed_range ↦ elim (parse_semver version) [
      | none ↦ false
      | some parsed ↦ satisfies version parsed parsed_range
    ]
  ]

  abbrev pub better : Option Text → Text → Option Text
  better none candidate = some candidate
  better (some best) candidate =
      if is_gt (compare_semver candidate best) then some candidate else some best

  abbrev pub select_from : Option Text → List Text → Text → Option Text
  select_from best [] range = best
  select_from best (candidate ∷ candidates) range =
      if satisfies_range candidate range
      then select_from (better best candidate) candidates range
      else select_from best candidates range

  unfoldable pub select_best_version : List Text → Text → Option Text
  select_best_version candidates range = select_from none candidates range
