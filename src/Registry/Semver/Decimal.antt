-- ===== src/Registry/Semver/Decimal.antt =====
-- packages/registry/src/semver.ts: a version that is printed is read back.
use pinout.Prelude.{
  ℕ, zero, suc, ◌+◌, ◌-◌, ◌*◌, ◌/◌, ◌%◌, ◌<◌, ◌≡◌, refl, sym, ap, ◌∙◌, Bool, true, none, some, [],
  ◌∷◌, ◌++◌, arith, if◌then◌else◌, ltb, All, All-append, Bool-cases, inl, inr,
}
use mathlib.Core.List.{append-nil}
use pinout.Prelude.Text.{Text}
use pinout.Registry.Semver.{print_digits, print_number, print_version}
use pinout.Registry.Semver.Version.{
  is_digit, span, parse_int, one_or_more, number_of, read_number, parse_semver,
}

parse_int-append :
    (n c : ℕ) (text : Text) → parse_int n (text ++ c ∷ []) ≡ parse_int n text * 10 + (c - 48)
parse_int-append n c [] = refl
parse_int-append n c (d ∷ ds) = parse_int-append (n * 10 + (d - 48)) c ds

last_digit : (n : ℕ) → is_digit (48 + n % 10) ≡ true
last_digit n = ground arith

parse_int-print : (fuel n : ℕ) → n < fuel → parse_int 0 (print_digits fuel n) ≡ n
parse_int-print zero n h = absurd (omega arith)
parse_int-print (suc fuel) n h = elim (Bool-cases (ltb n 10)) [
  | inl t ↦ ground (arith, t)
  | inr f ↦
      let small : n / 10 < fuel = ground (arith, f, h) in
      let higher = parse_int-print fuel (n / 10) small in
      let joined = parse_int-append 0 (48 + n % 10) (print_digits fuel (n / 10)) in
      rw (f) (joined ∙ ground (arith, higher))
]

print_digits-digits : (fuel n : ℕ) → All (λ c. is_digit c ≡ true) (print_digits fuel n)
print_digits-digits zero n = tt
print_digits-digits (suc fuel) n =
    let rest = print_digits-digits fuel (n / 10) in
    elim (Bool-cases (ltb n 10)) [
      | inl t ↦ rw (t) (last_digit n, tt)
      | inr f ↦ rw (f) (
          All-append (λ c. is_digit c ≡ true) (print_digits fuel (n / 10)) ((48 + n % 10) ∷ []) rest
            (last_digit n, tt))
    ]

span-append :
    (p : ℕ → Bool) (text rest : Text)
    → All (λ c. p c ≡ true) text
    → span p rest ≡ ([], rest)
    → span p (text ++ rest) ≡ (text, rest)
span-append p [] rest h e = e
span-append p (c ∷ cs) rest (t, h) e = rw (t, span-append p cs rest h e) refl

one_or_more-append :
    (c : ℕ) (text rest : Text) → one_or_more (text ++ c ∷ [], rest) ≡ some (text ++ c ∷ [], rest)
one_or_more-append c [] rest = refl
one_or_more-append c (d ∷ ds) rest = refl

one_or_more-print :
    (n : ℕ) (rest : Text) → one_or_more (print_number n, rest) ≡ some (print_number n, rest)
unfolding print_number
one_or_more-print n rest =
    one_or_more-append (48 + n % 10) (if ltb n 10 then [] else print_digits n (n / 10)) rest

read_number-print :
    (n : ℕ) (rest : Text)
    → span is_digit rest ≡ ([], rest)
    → read_number (print_number n ++ rest) ≡ some (n, rest)
unfolding print_number read_number
read_number-print n rest h =
    let parted = span-append is_digit (print_number n) rest (print_digits-digits (suc n) n) h in
    ap (λ s. number_of (one_or_more s)) parted
    ∙ ap number_of (one_or_more-print n rest)
    ∙ ap (λ m. some (m, rest)) (parse_int-print (suc n) n (omega arith))

read_number_last : (n : ℕ) → read_number (print_number n) ≡ some (n, [])
read_number_last n =
    ap read_number (sym (append-nil (print_number n))) ∙ read_number-print n [] refl

pub parse_semver-print :
    (major minor patch : ℕ)
    → parse_semver (print_version major minor patch)
      ≡ some record { major = major; minor = minor; patch = patch; prerelease = none }
unfolding parse_semver
parse_semver-print major minor patch =
    let third = print_number patch in
    let second = print_number minor ++ 46 ∷ third in
    simp
      (
        read_number-print major (46 ∷ second) refl,
        read_number-print minor (46 ∷ third) refl,
        read_number_last patch,
      )
      refl
