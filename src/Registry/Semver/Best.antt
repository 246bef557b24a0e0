-- ===== src/Registry/Semver/Best.antt =====
-- packages/registry/src/semver.ts: the version that is selected.
use Prim.Native.Nat.{Ordering}
use mathlib.Core.Logic.{◌⊎◌}
use pinout.Prelude.{
  ◌≡◌, refl, sym, ap, ◌∙◌, true, false, none, some, List, [], ◌∷◌, Option-cases, inl, inr,
  Bool-cases, All,
}
use pinout.Prelude.Text.{Text}
use pinout.Registry.Semver.{
  parse_version_range, is_gt, compare_semver, satisfies_range, select_from, select_best_version,
}
use pinout.Registry.Semver.Version.{parse_semver}
use pinout.Registry.Semver.Order.{Orders, Occurs, Parses, IsUpTo, semver_chain, semver_reverse}

module _ (locale_compare : Text → Text → Ordering) (orders : Orders locale_compare) where
  rejects_unparsed :
      (version range : Text)
      → parse_semver version ≡ none
      → satisfies_range locale_compare version range ≡ false
  unfolding satisfies_range
  rejects_unparsed version range n = elim (Option-cases (parse_version_range range)) [
    | inl m ↦ rw (m, satisfies_range) refl
    | inr (r, e) ↦ rw (e, n, satisfies_range) refl
  ]

  satisfies_range-Parses :
      (version range : Text) → satisfies_range locale_compare version range ≡ true → Parses version
  satisfies_range-Parses version range h = elim (Option-cases (parse_semver version)) [
    | inl n ↦ absurd (cc (sym h ∙ rejects_unparsed version range n))
    | inr found ↦ found
  ]

  abbrev IsBounded : Text → Text → List Text → Type 0
  IsBounded range top candidates =
      All (λ c. satisfies_range locale_compare c range ≡ true → IsUpTo locale_compare c top)
        candidates

  abbrev IsFound : Text → Text → List Text → Type 0
  IsFound range top candidates =
      Occurs top candidates × (satisfies_range locale_compare top range ≡ true)

  IsFound-first :
      (range top first : Text) (texts : List Text)
      → satisfies_range locale_compare first range ≡ true
      → top ≡ first
      → IsFound range top (first ∷ texts)
  IsFound-first range top first texts t e = (
    ([], texts, ap (λ x. x ∷ texts) (sym e)),
    ap (λ x. satisfies_range locale_compare x range) e ∙ t,
  )

  IsFound-later :
      (range top first : Text) (texts : List Text)
      → IsFound range top texts
      → IsFound range top (first ∷ texts)
  IsFound-later range top first texts ((before, behind, e), t) =
      ((first ∷ before, behind, ap (λ ts. first ∷ ts) e), t)

  -- What stands when the loop is over that begins with a best version.
  record IsBest (best : Text) (candidates : List Text) (range top : Text) : Type 0 where
    selected : select_from locale_compare (some best) candidates range ≡ some top
    parses : Parses top
    above : IsUpTo locale_compare best top
    bounded : IsBounded range top candidates
    found : (top ≡ best) ⊎ IsFound range top candidates

  IsUpTo-self : (a : Text) → Parses a → IsUpTo locale_compare a a
  IsUpTo-self a v = elim (Bool-cases (is_gt (compare_semver locale_compare a a))) [
    | inl g ↦ semver_reverse locale_compare orders a a v v g
    | inr f ↦ f
  ]

  select_from-IsBest :
      (best : Text) (candidates : List Text) (range : Text)
      → Parses best
      → (top : Text) × IsBest best candidates range top
  select_from-IsBest best [] range v = (
    best,
    record {
      selected = refl;
      parses = v;
      above = IsUpTo-self best v;
      bounded = tt;
      found = inl refl;
    },
  )
  select_from-IsBest best (c ∷ cs) range v =
      elim (Bool-cases (satisfies_range locale_compare c range)) [
        | inr f ↦
            let (top, b) = select_from-IsBest best cs range v in
            (
              top,
              record {
                selected = rw (f) b.selected;
                parses = b.parses;
                above = b.above;
                bounded = (λ t. absurd (cc (sym t ∙ f)), b.bounded);
                found = elim b.found [
                  | inl e ↦ inl e
                  | inr m ↦ inr (IsFound-later range top c cs m)
                ];
              },
            )
        | inl t ↦ elim (Bool-cases (is_gt (compare_semver locale_compare c best))) [
          | inr f ↦
              let (top, b) = select_from-IsBest best cs range v in
              let w = satisfies_range-Parses c range t in
              (
                top,
                record {
                  selected = rw (t, f) b.selected;
                  parses = b.parses;
                  above = b.above;
                  bounded = (
                    λ _. semver_chain locale_compare orders c best top w v b.parses f b.above,
                    b.bounded,
                  );
                  found = elim b.found [
                    | inl e ↦ inl e
                    | inr m ↦ inr (IsFound-later range top c cs m)
                  ];
                },
              )
          | inl g ↦
              let w = satisfies_range-Parses c range t in
              let (top, b) = select_from-IsBest c cs range w in
              let up = semver_reverse locale_compare orders c best w v g in
              (
                top,
                record {
                  selected = rw (t, g) b.selected;
                  parses = b.parses;
                  above = semver_chain locale_compare orders best c top v w b.parses up b.above;
                  bounded = (λ _. b.above, b.bounded);
                  found = elim b.found [
                    | inl e ↦ inr (IsFound-first range top c cs t e)
                    | inr m ↦ inr (IsFound-later range top c cs m)
                  ];
                },
              )
        ]
      ]

  select_from-cases :
      (candidates : List Text) (range : Text)
      → ((select_from locale_compare none candidates range ≡ none)
          × All (λ c. satisfies_range locale_compare c range ≡ false) candidates)
        ⊎ ((best : Text) × (select_from locale_compare none candidates range ≡ some best)
            × IsFound range best candidates
            × IsBounded range best candidates)
  select_from-cases [] range = inl (refl, tt)
  select_from-cases (c ∷ cs) range = elim (Bool-cases (satisfies_range locale_compare c range)) [
    | inr f ↦ elim (select_from-cases cs range) [
      | inl (e, none_fits) ↦ inl (rw (f) e, (f, none_fits))
      | inr (best, e, m, bounded) ↦
          inr (
            best,
            rw (f) e,
            IsFound-later range best c cs m,
            (λ t. absurd (cc (sym t ∙ f)), bounded),
          )
    ]
    | inl t ↦
        let (best, b) = select_from-IsBest c cs range (satisfies_range-Parses c range t) in
        let found : IsFound range best (c ∷ cs) = elim b.found [
          | inl e ↦ IsFound-first range best c cs t e
          | inr m ↦ IsFound-later range best c cs m
        ] in
        inr (best, rw (t) b.selected, found, (λ _. b.above, b.bounded))
  ]

  -- If `localeCompare` orders texts: either no candidate is in the range, and none is selected, or the
  -- selected version is one of the candidates in the range, and none of these is above it.
  pub select_best_version-cases :
      (candidates : List Text) (range : Text)
      → ((select_best_version locale_compare candidates range ≡ none)
          × All (λ c. satisfies_range locale_compare c range ≡ false) candidates)
        ⊎ ((best : Text) × (select_best_version locale_compare candidates range ≡ some best)
            × IsFound range best candidates
            × IsBounded range best candidates)
  unfolding select_best_version
  select_best_version-cases candidates range = select_from-cases candidates range
