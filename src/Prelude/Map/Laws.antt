-- ===== src/Prelude/Map/Laws.antt =====
-- The `Map` of JavaScript: what an operation keeps of its values, its keys and its size.
use Prim.Native.Nat.{◌+◌, ◌≤◌}
use mathlib.Core.Path.{◌≡◌, refl, sym, subst, ap, ◌∙◌}
use mathlib.Core.Logic.{◌⊎◌, ◌≢◌, inl, inr}
use mathlib.Core.Bool.{Bool, false}
use mathlib.Core.Option.{none, some, some-injective}
use mathlib.Core.List.{[], ◌∷◌, ◌++◌}
use native.Mathlib.Omega.{arith}
use pinout.Prelude.Tests.{if◌then◌else◌, Bool-cases}
use pinout.Prelude.Lists.{length, All, All-map, Pairwise}
use pinout.Prelude.Equality.{Eq, ◌==◌, eq_of_beq, ne_of_beq}
use pinout.Prelude.Map.{Map, values, get, set, delete, retain, get-set_self, get-set_ne}

module _ {ℓ κ} {K : Type ℓ} {V : Type κ} ⦃e : Eq K⦄ where
  abbrev pub DistinctKeys : Map K V → Type κ
  DistinctKeys [] = Unit
  DistinctKeys ((k, v) ∷ m) = (get k m ≡ none) × DistinctKeys m

  pub get-delete-none : (j k : K) (m : Map K V) → get j m ≡ none → get j (delete k m) ≡ none
  unfolding get delete
  get-delete-none j k [] h = refl
  get-delete-none j k ((i, w) ∷ m) h = ground (arith, get-delete-none j k m)

  get-set-none :
      (j k : K) (v : V) (m : Map K V) → (j == k) ≡ false → get j m ≡ none → get j (set k v m) ≡ none
  unfolding get set
  get-set-none j k v [] n h = ground (arith, e.equals_iff k j, e.equals_iff j k)
  get-set-none j k v ((i, w) ∷ m) n h = ground (arith, get-set-none j k v m n)

  pub delete-DistinctKeys : (k : K) (m : Map K V) → DistinctKeys m → DistinctKeys (delete k m)
  unfolding delete get
  delete-DistinctKeys k [] d = tt
  delete-DistinctKeys k ((j, w) ∷ m) (f, d) =
      ground (arith, get-delete-none j k m f, delete-DistinctKeys k m d)

  pub set-DistinctKeys : (k : K) (v : V) (m : Map K V) → DistinctKeys m → DistinctKeys (set k v m)
  unfolding set get
  set-DistinctKeys k v [] d = (refl, tt)
  set-DistinctKeys k v ((j, w) ∷ m) (f, d) =
      ground (arith, get-set-none j k v m, set-DistinctKeys k v m d)

  pub get-retain-none :
      (k : K) (p : V → Bool) (m : Map K V) → get k m ≡ none → get k (retain p m) ≡ none
  unfolding get retain
  get-retain-none k p [] h = refl
  get-retain-none k p ((j, w) ∷ m) h = ground (arith, get-retain-none k p m)

  pub retain-DistinctKeys :
      (p : V → Bool) (m : Map K V) → DistinctKeys m → DistinctKeys (retain p m)
  unfolding retain
  retain-DistinctKeys p [] d = tt
  retain-DistinctKeys p ((j, w) ∷ m) (f, d) =
      ground (arith, get-retain-none j p m, retain-DistinctKeys p m d)

  -- A value that passes stays where it was, and one that does not is gone.
  pub get-retain :
      (k : K) (p : V → Bool) (m : Map K V) {v : V}
      → DistinctKeys m
      → get k m ≡ some v
      → get k (retain p m) ≡ (if p v then some v else none)
  unfolding get retain
  get-retain k p [] d h = ground arith
  get-retain k p ((j, w) ∷ m) {v} (f, d) h =
      ground (arith, e.equals_iff j k, get-retain-none j p m f, get-retain k p m {v = v} d)

  pub values-set_new :
      (k : K) (v : V) (m : Map K V) → get k m ≡ none → values (set k v m) ≡ values m ++ v ∷ []
  unfolding get set
  values-set_new k v [] h = refl
  values-set_new k v ((j, w) ∷ m) h = ground (arith, values-set_new k v m)

  pub length-set_old :
      (k : K) (v : V) (m : Map K V) {w : V} → get k m ≡ some w → length (set k v m) ≡ length m
  unfolding get set
  length-set_old k v [] h = ground arith
  length-set_old k v ((j, u) ∷ m) {w} h = ground (arith, length-set_old k v m {w = w})

  pub length-set-le : (k : K) (v : V) (m : Map K V) → length (set k v m) ≤ length m + 1
  unfolding set
  length-set-le k v [] = omega arith
  length-set-le k v ((j, w) ∷ m) = ground (arith, length-set-le k v m)

  pub length-delete-le : (k : K) (m : Map K V) → length (delete k m) ≤ length m
  unfolding delete
  length-delete-le k [] = omega arith
  length-delete-le k ((j, w) ∷ m) = ground (arith, length-delete-le k m)

module _ {ℓ κ μ} {K : Type ℓ} {V : Type κ} ⦃e : Eq K⦄ (P : V → Type μ) where
  pub All-get : (k : K) (m : Map K V) {v : V} → All P (values m) → get k m ≡ some v → P v
  unfolding get
  All-get k [] a h = ground arith
  All-get k ((j, w) ∷ m) {v} (p, a) h = elim (Bool-cases (j == k)) [
    | inl t ↦ subst P (ground arith) p
    | inr t ↦ All-get k m a (ground arith)
  ]

  pub All-set : (k : K) (v : V) (m : Map K V) → P v → All P (values m) → All P (values (set k v m))
  unfolding set
  All-set k v [] p a = (p, tt)
  All-set k v ((j, w) ∷ m) p (q, a) = ground (arith, p, q, All-set k v m p a)

  pub All-delete : (k : K) (m : Map K V) → All P (values m) → All P (values (delete k m))
  unfolding delete
  All-delete k [] a = tt
  All-delete k ((j, w) ∷ m) (q, a) = ground (arith, q, All-delete k m a)

  pub All-retain : (p : V → Bool) (m : Map K V) → All P (values m) → All P (values (retain p m))
  unfolding retain
  All-retain p [] a = tt
  All-retain p ((j, w) ∷ m) (q, a) = ground (arith, q, All-retain p m a)

module _ {ℓ κ μ} {K : Type ℓ} {V : Type κ} ⦃e : Eq K⦄ (R : V → V → Type μ) where
  pub Pairwise-delete :
      (k : K) (m : Map K V) → Pairwise R (values m) → Pairwise R (values (delete k m))
  unfolding delete
  Pairwise-delete k [] h = tt
  Pairwise-delete k ((j, w) ∷ m) (q, h) =
      ground (arith, All-delete (R w) k m q, Pairwise-delete k m h)

  pub Pairwise-retain :
      (p : V → Bool) (m : Map K V) → Pairwise R (values m) → Pairwise R (values (retain p m))
  unfolding retain
  Pairwise-retain p [] h = tt
  Pairwise-retain p ((j, w) ∷ m) (q, h) =
      ground (arith, All-retain (R w) p m q, Pairwise-retain p m h)

  -- A value replaced by one that stands in the same relations.
  pub Pairwise-set_old :
      (k : K) (v : V) (m : Map K V) {w : V}
      → get k m ≡ some w
      → ((x : V) → R w x → R v x)
      → ((x : V) → R x w → R x v)
      → Pairwise R (values m)
      → Pairwise R (values (set k v m))
  unfolding get set
  Pairwise-set_old k v [] h to from q = ground arith
  Pairwise-set_old k v ((j, u) ∷ m) {w} h to from (q, r) = elim (Bool-cases (j == k)) [
    | inl t ↦ rw t (All-map to (values m) (subst (λ x. All (R x) (values m)) (ground arith) q), r)
    | inr t ↦
        let old : get k m ≡ some w = ground arith in
        rw t (
          All-set (R u) k v m (from u (All-get (R u) k m q old)) q,
          Pairwise-set_old k v m old to from r,
        )
  ]

-- The same of whole entries, where a fact ties a value to its key.
module _ {ℓ κ μ} {K : Type ℓ} {V : Type κ} ⦃e : Eq K⦄ (P : K × V → Type μ) where
  pub All-set_entry : (k : K) (v : V) (m : Map K V) → P (k, v) → All P m → All P (set k v m)
  unfolding set
  All-set_entry k v [] p a = (p, tt)
  All-set_entry k v ((j, w) ∷ m) p (q, a) = elim (Bool-cases (j == k)) [
    | inl t ↦ rw t (subst (λ i. P (i, v)) (sym (eq_of_beq j k t)) p, a)
    | inr t ↦ rw t (q, All-set_entry k v m p a)
  ]

  pub All-delete_entry : (k : K) (m : Map K V) → All P m → All P (delete k m)
  unfolding delete
  All-delete_entry k [] a = tt
  All-delete_entry k ((j, w) ∷ m) (q, a) = ground (arith, q, All-delete_entry k m a)

  pub All-retain_entry : (p : V → Bool) (m : Map K V) → All P m → All P (retain p m)
  unfolding retain
  All-retain_entry p [] a = tt
  All-retain_entry p ((j, w) ∷ m) (q, a) = ground (arith, q, All-retain_entry p m a)

  pub All-get_entry : (k : K) (m : Map K V) {v : V} → All P m → get k m ≡ some v → P (k, v)
  unfolding get
  All-get_entry k [] a h = ground arith
  All-get_entry k ((j, w) ∷ m) {v} (p, a) h = elim (Bool-cases (j == k)) [
    | inl t ↦
        let same : w ≡ v = ground arith in
        subst (λ i. P (i, v)) (eq_of_beq j k t) (subst (λ x. P (j, x)) same p)
    | inr t ↦ All-get_entry k m a (ground arith)
  ]

-- A stored value is related to each other one, in one of the two orders.
pub Pairwise-get {ℓ κ μ} :
    {K : Type ℓ} {V : Type κ} ⦃e : Eq K⦄ (R : V → V → Type μ) (k : K) (m : Map K V) {v : V}
    → Pairwise R (values m)
    → get k m ≡ some v
    → All (λ x. (x ≡ v) ⊎ (R x v ⊎ R v x)) (values m)
unfolding get
Pairwise-get R k [] q h = tt
Pairwise-get R k ((j, u) ∷ m) {v} (q, r) h = elim (Bool-cases (j == k)) [
  | inl t ↦
      let same : u ≡ v = ground arith in
      (inl same, All-map (λ x p. inr (inr (subst (λ w. R w x) same p))) (values m) q)
  | inr t ↦
      let old : get k m ≡ some v = ground arith in
      (inr (inl (All-get (R u) k m q old)), Pairwise-get R k m r old)
]

module _ {ℓ κ} {K : Type ℓ} {V : Type κ} ⦃e : Eq K⦄ where
  pub get-set_cases :
      (k i : K) (v w : V) (m : Map K V)
      → get i (set k v m) ≡ some w
      → ((k ≡ i) × (v ≡ w)) ⊎ ((k ≢ i) × (get i m ≡ some w))
  get-set_cases k i v w m h = elim (Bool-cases (k == i)) [
    | inl t ↦
        let same = eq_of_beq k i t in
        inl (
          same,
          some-injective v w (sym (get-set_self k v m) ∙ (ap (λ j. get j (set k v m)) same ∙ h)),
        )
    | inr t ↦ let other = ne_of_beq k i t in inr (other, sym (get-set_ne k i v m other) ∙ h)
  ]
