-- ===== src/Registry/Semver/Order.antt =====
-- packages/registry/src/semver.ts: the order of versions.
use Prim.Native.Nat.{compare, Ordering}
use pinout.Prelude.{
  ℕ, ◌≡◌, refl, sym, ap, ◌∙◌, subst, true, false, Option, none, some, List, [], ◌∷◌, ◌++◌, arith,
  inl, inr, Bool-cases,
}
use pinout.Registry.Semver.Ranges.{compare_semver-parsed}
use pinout.Prelude.Text.{Text}
use pinout.Registry.Semver.{
  or_else_by, is_gt, text_beq, compare_tags, compare_parsed, compare_semver,
}
use pinout.Registry.Semver.Version.{ParsedSemver, parse_semver}

-- What the code relies on of `localeCompare`: that it orders texts.
pub record Orders (locale_compare : Text → Text → Ordering) : Type 0 where
  pub reverse :
      (a b : Text) → is_gt (locale_compare a b) ≡ true → is_gt (locale_compare b a) ≡ false
  pub chain :
      (a b c : Text)
      → is_gt (locale_compare a b) ≡ false
      → is_gt (locale_compare b c) ≡ false
      → is_gt (locale_compare a c) ≡ false

eq_of_text_beq : (a b : Text) → text_beq a b ≡ true → a ≡ b
eq_of_text_beq [] [] e = refl
eq_of_text_beq [] (d ∷ ds) e = ground (arith, e)
eq_of_text_beq (c ∷ cs) [] e = ground (arith, e)
eq_of_text_beq (c ∷ cs) (d ∷ ds) e = ground (arith, e, eq_of_text_beq cs ds)

lexicographic_chain :
    (a b c : ℕ) (s t u : Ordering)
    → (is_gt s ≡ false → is_gt t ≡ false → is_gt u ≡ false)
    → is_gt (or_else_by (compare a b) s) ≡ false
    → is_gt (or_else_by (compare b c) t) ≡ false
    → is_gt (or_else_by (compare a c) u) ≡ false
lexicographic_chain a b c s t u k p q = ground (arith, k, p, q)

lexicographic_reverse :
    (a b : ℕ) (s t : Ordering)
    → (is_gt s ≡ true → is_gt t ≡ false)
    → is_gt (or_else_by (compare a b) s) ≡ true
    → is_gt (or_else_by (compare b a) t) ≡ false
lexicographic_reverse a b s t k p = ground (arith, k, p)

-- The text is one of the list.
abbrev pub Occurs : Text → List Text → Type 0
Occurs text texts = (before : List Text) × (behind : List Text) × (texts ≡ before ++ text ∷ behind)

abbrev pub Parses : Text → Type 0
Parses text = (p : ParsedSemver) × (parse_semver text ≡ some p)

module _ (locale_compare : Text → Text → Ordering) where
  -- The first is not above the second.
  abbrev pub IsUpTo : Text → Text → Type 0
  IsUpTo a b = is_gt (compare_semver locale_compare a b) ≡ false

module _ (locale_compare : Text → Text → Ordering) (orders : Orders locale_compare) where
  tags_chain :
      (a b c : Option Text)
      → is_gt (compare_tags locale_compare a b) ≡ false
      → is_gt (compare_tags locale_compare b c) ≡ false
      → is_gt (compare_tags locale_compare a c) ≡ false
  tags_chain none none c p q = q
  tags_chain none (some b) c p q = ground (arith, p)
  tags_chain (some a) none none p q = refl
  tags_chain (some a) none (some c) p q = ground (arith, q)
  tags_chain (some a) (some b) none p q = refl
  tags_chain (some a) (some b) (some c) p q = elim (Bool-cases (text_beq a b)) [
    | inl t ↦
        subst (λ x. is_gt (compare_tags locale_compare (some x) (some c)) ≡ false)
          (sym (eq_of_text_beq a b t)) q
    | inr f ↦ elim (Bool-cases (text_beq b c)) [
      | inl t ↦
          subst (λ x. is_gt (compare_tags locale_compare (some a) (some x)) ≡ false)
            (eq_of_text_beq b c t) p
      | inr g ↦ ground (arith, f, g, p, q, orders.chain a b c)
    ]
  ]

  tags_reverse :
      (a b : Option Text)
      → is_gt (compare_tags locale_compare a b) ≡ true
      → is_gt (compare_tags locale_compare b a) ≡ false
  tags_reverse none none p = refl
  tags_reverse none (some b) p = refl
  tags_reverse (some a) none p = ground (arith, p)
  tags_reverse (some a) (some b) p = ground (arith, p, orders.reverse a b)

  parsed_chain :
      (a b c : ParsedSemver)
      → is_gt (compare_parsed locale_compare a b) ≡ false
      → is_gt (compare_parsed locale_compare b c) ≡ false
      → is_gt (compare_parsed locale_compare a c) ≡ false
  parsed_chain a b c = lexicographic_chain a.major b.major c.major _ _ _ (
      lexicographic_chain a.minor b.minor c.minor _ _ _ (
        lexicographic_chain a.patch b.patch c.patch _ _ _
          (tags_chain a.prerelease b.prerelease c.prerelease)))

  parsed_reverse :
      (a b : ParsedSemver)
      → is_gt (compare_parsed locale_compare a b) ≡ true
      → is_gt (compare_parsed locale_compare b a) ≡ false
  parsed_reverse a b = lexicographic_reverse a.major b.major _ _ (
      lexicographic_reverse a.minor b.minor _ _
        (lexicographic_reverse a.patch b.patch _ _ (tags_reverse a.prerelease b.prerelease)))

  pub semver_chain :
      (a b c : Text)
      → Parses a
      → Parses b
      → Parses c
      → IsUpTo locale_compare a b
      → IsUpTo locale_compare b c
      → IsUpTo locale_compare a c
  semver_chain a b c (p, e) (q, f) (r, g) h k =
      let h' = subst (λ o. is_gt o ≡ false) (compare_semver-parsed locale_compare a b p q e f) h in
      let k' = subst (λ o. is_gt o ≡ false) (compare_semver-parsed locale_compare b c q r f g) k in
      ap is_gt (compare_semver-parsed locale_compare a c p r e g) ∙ parsed_chain p q r h' k'

  pub semver_reverse :
      (a b : Text)
      → Parses a
      → Parses b
      → is_gt (compare_semver locale_compare a b) ≡ true
      → IsUpTo locale_compare b a
  semver_reverse a b (p, e) (q, f) h =
      let h' = subst (λ o. is_gt o ≡ true) (compare_semver-parsed locale_compare a b p q e f) h in
      ap is_gt (compare_semver-parsed locale_compare b a q p f e) ∙ parsed_reverse p q h'
