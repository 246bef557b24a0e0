-- ===== src/Registry/Semver/Examples.antt =====
-- packages/registry/src/semver.ts: versions and ranges as they are written.
use Prim.Native.Nat.{compare, Ordering}
use pinout.Prelude.{
  ℕ, ◌+◌, ◌≡◌, refl, true, false, not, ◌&&◌, none, some, List, [], ◌∷◌, ◌++◌, arith, length,
  is_some, All,
}
use mathlib.Core.Logic.{◌⊎◌}
use pinout.Prelude.Text.{Text, trim}
use pinout.Registry.Semver.{
  is_valid_range, parse_version_range, print_number, caret_upper_bound, compare_semver,
  satisfies_range, select_best_version, is_gt,
}
use pinout.Registry.Semver.Version.{ParsedSemver, parse_semver, read_number, is_valid_semver}
use pinout.Registry.Semver.Ranges.{is_compatible, satisfies_range-caret}
use pinout.Registry.Semver.Order.{Orders, Occurs}
use pinout.Registry.Semver.Best.{select_best_version-cases}

-- A locale that sorts texts by their length.
abbrev by_length : Text → Text → Ordering
by_length a b = compare (length a) (length b)

by_length-Orders : Orders by_length
by_length-Orders = record {
  reverse = λ a b h. ground (arith, h);
  chain = λ a b c h k. ground (arith, h, k);
}

abbrev dots : ℕ → ℕ → ℕ → Text
dots a b c = (48 + a) ∷ 46 ∷ (48 + b) ∷ 46 ∷ (48 + c) ∷ []

-- `^0.2.3`, and `1.5.0-b`
abbrev minor_range : Text
minor_range = 94 ∷ dots 0 2 3

abbrev beta : Text
beta = dots 1 5 0 ++ 45 ∷ 98 ∷ []

parses_beta :
    parse_semver beta ≡ some record { major = 1; minor = 5; patch = 0; prerelease = some (98 ∷ []) }
unfolding parse_semver read_number
parses_beta = refl

ranges_of_the_grammar :
    (is_valid_range (42 ∷ []) ≡ true)
    × (is_valid_range (94 ∷ beta) ≡ false)
    × (is_valid_range (49 ∷ 46 ∷ 50 ∷ []) ≡ false)
    × (is_valid_range [] ≡ false)
    × (is_valid_semver (118 ∷ dots 1 2 3) ≡ false)
unfolding is_valid_range is_valid_semver parse_version_range parse_semver read_number trim
ranges_of_the_grammar = (refl, refl, refl, refl, refl)

zero_major :
    (satisfies_range by_length (dots 0 2 9) minor_range ≡ true)
    × (satisfies_range by_length (dots 0 3 0) minor_range ≡ false)
    × (satisfies_range by_length beta (94 ∷ dots 1 2 3) ≡ false)
    × (satisfies_range by_length (dots 1 2 9) (126 ∷ dots 1 2 3) ≡ true)
    × (satisfies_range by_length beta beta ≡ true)
unfolding satisfies_range parse_version_range parse_semver read_number trim print_number
    caret_upper_bound compare_semver
zero_major = (refl, refl, refl, refl, refl)

abbrev published : List Text
published = dots 0 1 0 ∷ dots 0 2 7 ∷ dots 0 2 4 ∷ beta ∷ []

selects_latest : select_best_version by_length published minor_range ≡ some (dots 0 2 7)
unfolding select_best_version satisfies_range parse_version_range parse_semver read_number trim
    print_number caret_upper_bound compare_semver
selects_latest = refl

abbrev release : ℕ → ℕ → ℕ → ParsedSemver
release a b c = record { major = a; minor = b; patch = c; prerelease = none }

satisfies_range-caret_example :
    satisfies_range by_length (dots 0 2 9) minor_range
    ≡ (not (is_some (release 0 2 9).prerelease) && is_compatible (release 0 2 3) (release 0 2 9))
unfolding parse_version_range parse_semver read_number trim
satisfies_range-caret_example =
    satisfies_range-caret by_length (dots 0 2 9) minor_range (dots 0 2 3) (release 0 2 9)
      (release 0 2 3) refl refl refl

select_best_version-cases_example :
    ((select_best_version by_length published minor_range ≡ none)
      × All (λ c. satisfies_range by_length c minor_range ≡ false) published)
    ⊎ ((best : Text) × (select_best_version by_length published minor_range ≡ some best)
        × (Occurs best published × (satisfies_range by_length best minor_range ≡ true))
        × All
            (λ c.
              satisfies_range by_length c minor_range ≡ true
              → is_gt (compare_semver by_length c best) ≡ false)
            published)
select_best_version-cases_example =
    select_best_version-cases by_length by_length-Orders published minor_range
