-- ===== src/Registry/Semver/Version.antt =====
-- packages/registry/src/semver.ts: the pattern for versions, as a parser.
use pinout.Prelude.{
  ℕ, ◌+◌, ◌-◌, ◌*◌, Bool, true, not, ◌&&◌, ◌||◌, Option, none, some, [], ◌∷◌, if◌then◌else◌, leb,
  nat_beq, is_some, any,
}
use pinout.Prelude.Text.{Text}

pub record ParsedSemver : Type 0 where
  pub major : ℕ
  pub minor : ℕ
  pub patch : ℕ
  pub prerelease : Option Text

abbrev pub is_digit : ℕ → Bool
is_digit c = leb 48 c && leb c 57

-- `[a-zA-Z0-9.-]`
abbrev pub is_tag_char : ℕ → Bool
is_tag_char c =
    is_digit c || leb 65 c && leb c 90 || leb 97 c && leb c 122 || nat_beq c 45 || nat_beq c 46

-- The longest beginning of which each character passes, and the rest.
abbrev pub span : (ℕ → Bool) → Text → Text × Text
span p [] = ([], [])
span p (c ∷ cs) = let (found, rest) = span p cs in if p c then (c ∷ found, rest) else ([], c ∷ cs)

-- `Number.parseInt(digits, 10)`, the value of the digits before it given.
abbrev pub parse_int : ℕ → Text → ℕ
parse_int n [] = n
parse_int n (c ∷ cs) = parse_int (n * 10 + (c - 48)) cs

abbrev pub one_or_more : Text × Text → Option (Text × Text)
one_or_more ([], rest) = none
one_or_more (c ∷ cs, rest) = some (c ∷ cs, rest)

abbrev pub number_of : Option (Text × Text) → Option (ℕ × Text)
number_of none = none
number_of (some (digits, rest)) = some (parse_int 0 digits, rest)

-- `(\d+)`
unfoldable pub read_number : Text → Option (ℕ × Text)
read_number text = number_of (one_or_more (span is_digit text))

-- `\.`
abbrev pub read_char : ℕ → Text → Option Text
read_char c [] = none
read_char c (d ∷ ds) = if nat_beq c d then some ds else none

-- `(?:\+[a-zA-Z0-9.-]+)?$`, the rest of the pattern behind the prerelease.
abbrev pub is_build : Text → Bool
is_build [] = true
is_build (c ∷ cs) = nat_beq c 43 && any (λ _. true) cs && not (any (λ d. not (is_tag_char d)) cs)

abbrev pub with_prerelease : ℕ → ℕ → ℕ → Option (Text × Text) → Option ParsedSemver
with_prerelease major minor patch none = none
with_prerelease major minor patch (some (tag, rest)) =
    if is_build rest
    then some record { major = major; minor = minor; patch = patch; prerelease = some tag }
    else none

-- The pattern behind the three numbers.
abbrev pub parse_tags : ℕ → ℕ → ℕ → Text → Option ParsedSemver
parse_tags major minor patch rest = elim (read_char 45 rest) [
  | some tagged ↦ with_prerelease major minor patch (one_or_more (span is_tag_char tagged))
  | none ↦
      if is_build rest
      then some record { major = major; minor = minor; patch = patch; prerelease = none }
      else none
]

infixl 5 ◌>>=◌
abbrev pub ◌>>=◌ {ℓ κ} : {A : Type ℓ} {B : Type κ} → Option A → (A → Option B) → Option B
none >>= f = none
some a >>= f = f a

unfoldable pub parse_semver : Text → Option ParsedSemver
parse_semver value = do
  (major, behind_major) ← read_number value
  dotted ← read_char 46 behind_major
  (minor, behind_minor) ← read_number dotted
  dotted_again ← read_char 46 behind_minor
  (patch, behind_patch) ← read_number dotted_again
  parse_tags major minor patch behind_patch

unfoldable pub is_valid_semver : Text → Bool
is_valid_semver value = is_some (parse_semver value)
