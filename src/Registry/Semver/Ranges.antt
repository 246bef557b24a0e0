-- ===== src/Registry/Semver/Ranges.antt =====
-- packages/registry/src/semver.ts: caret and tilde ranges against the releases they stand for.
use Prim.Native.Nat.{Ordering}
use pinout.Prelude.{
  ℕ, ◌+◌, ◌≡◌, refl, ap, ◌∙◌, Bool, true, false, not, ◌&&◌, ◌||◌, Option, none, some, arith,
  if◌then◌else◌, ltb, leb, nat_beq, is_some, Option-cases, inl, inr, Bool-cases, ◌<◌,
}
use mathlib.Core.Logic.{◌⊎◌}
use pinout.Prelude.Text.{Text}
use pinout.Registry.Semver.{
  caret, tilde, parse_version_range, print_version, caret_upper_bound, is_lt, compare_parsed,
  compare_semver, between, satisfies, satisfies_range,
}
use pinout.Registry.Semver.Version.{ParsedSemver, parse_semver}
use pinout.Registry.Semver.Decimal.{parse_semver-print}

-- A release of the same major version, or of the same minor one while that is 0, or of the same
-- patch while both are: what a caret range promises.
abbrev pub is_compatible : ParsedSemver → ParsedSemver → Bool
is_compatible base release =
    if ltb 0 base.major
    then nat_beq release.major base.major
      && (ltb base.minor release.minor
          || nat_beq release.minor base.minor && leb base.patch release.patch)
    else nat_beq release.major 0
      && nat_beq release.minor base.minor
      && (if ltb 0 base.minor
          then leb base.patch release.patch
          else nat_beq release.patch base.patch)

-- A later patch of the same minor version: what a tilde range promises.
abbrev pub is_patch : ParsedSemver → ParsedSemver → Bool
is_patch base release =
    nat_beq release.major base.major
    && nat_beq release.minor base.minor
    && leb base.patch release.patch

module _ (locale_compare : Text → Text → Ordering) where
  -- Triples in lexicographic order.
  abbrev below : ParsedSemver → ℕ → ℕ → ℕ → Bool
  below p major minor patch =
      ltb p.major major
      || nat_beq p.major major && (ltb p.minor minor || nat_beq p.minor minor && ltb p.patch patch)

  compare_parsed_release :
      (p : ParsedSemver) (major minor patch : ℕ) (tag : Option Text)
      → p.prerelease ≡ none
      → is_lt (
          compare_parsed locale_compare p
            record { major = major; minor = minor; patch = patch; prerelease = tag })
        ≡ below p major minor patch
  compare_parsed_release p major minor patch none e = ground (arith, e)
  compare_parsed_release p major minor patch (some tag) e = ground (arith, e)

  pub compare_semver-parsed :
      (a b : Text) (left right : ParsedSemver)
      → parse_semver a ≡ some left
      → parse_semver b ≡ some right
      → compare_semver locale_compare a b ≡ compare_parsed locale_compare left right
  unfolding compare_semver
  compare_semver-parsed a b left right p q = rw (p, q, compare_semver) refl

  between-below :
      (version base : Text) (p lowest : ParsedSemver) (major minor patch : ℕ)
      → parse_semver version ≡ some p
      → parse_semver base ≡ some lowest
      → between locale_compare version p base (print_version major minor patch) ≡ (
          not (is_some p.prerelease)
          && not (below p lowest.major lowest.minor lowest.patch)
          && below p major minor patch)
  between-below version base p lowest major minor patch v b = elim (Option-cases p.prerelease) [
    | inr (tag, e) ↦ rw (e) refl
    | inl e ↦
        let upper = print_version major minor patch in
        let over = compare_semver-parsed version base p lowest v b in
        let under =
          compare_semver-parsed version upper p
            record { major = major; minor = minor; patch = patch; prerelease = none } v
            (parse_semver-print major minor patch) in
        let low =
          ap is_lt over
          ∙ compare_parsed_release p lowest.major lowest.minor lowest.patch lowest.prerelease e in
        let high = ap is_lt under ∙ compare_parsed_release p major minor patch none e in
        let release = not (is_some p.prerelease) in
        ap (λ l. release && not l && is_lt (compare_semver locale_compare version upper)) low
        ∙ ap (λ h. release && not (below p lowest.major lowest.minor lowest.patch) && h) high
  ]

  caret_bound :
      (lowest : ParsedSemver)
      → (caret_upper_bound lowest ≡ print_version (lowest.major + 1) 0 0) × (0 < lowest.major)
        ⊎ (caret_upper_bound lowest ≡ print_version 0 (lowest.minor + 1) 0)
          × (lowest.major ≡ 0)
          × (0 < lowest.minor)
        ⊎ (caret_upper_bound lowest ≡ print_version 0 0 (lowest.patch + 1))
          × (lowest.major ≡ 0)
          × (lowest.minor ≡ 0)
  unfolding caret_upper_bound
  caret_bound lowest = elim (Bool-cases (ltb 0 lowest.major)) [
    | inl t ↦ inl (rw (t) refl, ground (arith, t))
    | inr f ↦ elim (Bool-cases (ltb 0 lowest.minor)) [
      | inl t ↦ inr (inl (rw (f, t) refl, ground (arith, f), ground (arith, t)))
      | inr g ↦ inr (inr (rw (f, g) refl, ground (arith, f), ground (arith, g)))
    ]
  ]

  compatible_major :
      (p b : ParsedSemver)
      → 0 < b.major
      → (not (below p b.major b.minor b.patch) && below p (b.major + 1) 0 0) ≡ is_compatible b p
  compatible_major p b h = ground arith

  compatible_minor :
      (p b : ParsedSemver)
      → b.major ≡ 0
      → 0 < b.minor
      → (not (below p b.major b.minor b.patch) && below p 0 (b.minor + 1) 0) ≡ is_compatible b p
  compatible_minor p b h k = ground arith

  compatible_patch :
      (p b : ParsedSemver)
      → b.major ≡ 0
      → b.minor ≡ 0
      → (not (below p b.major b.minor b.patch) && below p 0 0 (b.patch + 1)) ≡ is_compatible b p
  compatible_patch p b h k = ground arith

  patch_bound :
      (p b : ParsedSemver)
      → (not (below p b.major b.minor b.patch) && below p b.major (b.minor + 1) 0) ≡ is_patch b p
  patch_bound p b = ground arith

  allowed :
      (release over under answer : Bool)
      → (over && under) ≡ answer
      → (release && over && under) ≡ (release && answer)
  allowed true over under answer e = e
  allowed false over under answer e = refl

  -- A version is in a caret range exactly when it is a release of the base's major version (of its
  -- minor version while the major one is 0, of its patch while both are) and not below the base.
  pub satisfies_range-caret :
      (version range base : Text) (p lowest : ParsedSemver)
      → parse_version_range range ≡ some (caret base)
      → parse_semver base ≡ some lowest
      → parse_semver version ≡ some p
      → satisfies_range locale_compare version range
        ≡ (not (is_some p.prerelease) && is_compatible lowest p)
  unfolding satisfies_range
  satisfies_range-caret version range base p lowest r b v =
      let release = not (is_some p.prerelease) in
      let over = not (below p lowest.major lowest.minor lowest.patch) in
      let read : satisfies_range locale_compare version range
          ≡ between locale_compare version p base (caret_upper_bound lowest) =
        rw (r, v, b, satisfies_range, satisfies) refl in
      let bound : (major minor patch : ℕ)
          → caret_upper_bound lowest ≡ print_version major minor patch
          → between locale_compare version p base (caret_upper_bound lowest)
            ≡ (release && over && below p major minor patch) =
        λ major minor patch e.
          ap (between locale_compare version p base) e
          ∙ between-below version base p lowest major minor patch v b in
      let answer = is_compatible lowest p in
      read ∙ elim (caret_bound lowest) [
        | inl (e, h) ↦
            bound (lowest.major + 1) 0 0 e
            ∙ allowed release over (below p (lowest.major + 1) 0 0) answer
                (compatible_major p lowest h)
        | inr (inl (e, h, k)) ↦
            bound 0 (lowest.minor + 1) 0 e
            ∙ allowed release over (below p 0 (lowest.minor + 1) 0) answer
                (compatible_minor p lowest h k)
        | inr (inr (e, h, k)) ↦
            bound 0 0 (lowest.patch + 1) e
            ∙ allowed release over (below p 0 0 (lowest.patch + 1)) answer
                (compatible_patch p lowest h k)
      ]

  -- A version is in a tilde range exactly when it is a release of the base's minor version that is
  -- not below the base.
  pub satisfies_range-tilde :
      (version range base : Text) (p lowest : ParsedSemver)
      → parse_version_range range ≡ some (tilde base)
      → parse_semver base ≡ some lowest
      → parse_semver version ≡ some p
      → satisfies_range locale_compare version range
        ≡ (not (is_some p.prerelease) && is_patch lowest p)
  unfolding satisfies_range
  satisfies_range-tilde version range base p lowest r b v =
      let read : satisfies_range locale_compare version range
          ≡ between locale_compare version p base
              (print_version lowest.major (lowest.minor + 1) 0) =
        rw (r, v, b, satisfies_range, satisfies) refl in
      read
      ∙ between-below version base p lowest lowest.major (lowest.minor + 1) 0 v b
      ∙ allowed (not (is_some p.prerelease)) (not (below p lowest.major lowest.minor lowest.patch))
          (below p lowest.major (lowest.minor + 1) 0) (is_patch lowest p) (patch_bound p lowest)
