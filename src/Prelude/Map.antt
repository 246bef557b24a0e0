-- ===== src/Prelude/Map.antt =====
-- JavaScript's `Map`: entries in insertion order, with distinct keys. `set` on a key that is present
-- keeps its place, and a new key goes to the end.
pub mod Laws
use Prim.Native.Nat.{ℕ, suc, ◌+◌, ◌≤◌}
use mathlib.Core.Path.{◌≡◌, refl}
use mathlib.Core.Logic.{◌≢◌}
use mathlib.Core.Bool.{Bool, true, false}
use mathlib.Core.Option.{Option, none, some}
use mathlib.Core.List.{List, [], ◌∷◌}
use native.Mathlib.Omega.{arith}
use pinout.Prelude.Tests.{if◌then◌else◌, is_some, Bool-cases}
use pinout.Prelude.Lists.{length, All, keep}
use pinout.Prelude.Equality.{Eq, ◌==◌, eq_of_beq, beq_refl}

abbrev pub Map {ℓ κ} : Type ℓ → Type κ → Type (ℓ ⊔ κ)
Map K V = List (K × V)

module _ {ℓ κ} {K : Type ℓ} {V : Type κ} where
  abbrev pub keys : Map K V → List K
  keys [] = []
  keys ((k, v) ∷ m) = k ∷ keys m

  abbrev pub values : Map K V → List V
  values [] = []
  values ((k, v) ∷ m) = v ∷ values m

module _ {ℓ κ} {K : Type ℓ} {V : Type κ} ⦃e : Eq K⦄ where
  unfoldable pub get : K → Map K V → Option V
  get k [] = none
  get k ((j, v) ∷ m) = if j == k then some v else get k m

  unfoldable pub set : K → V → Map K V → Map K V
  set k v [] = (k, v) ∷ []
  set k v ((j, w) ∷ m) = if j == k then (j, v) ∷ m else (j, w) ∷ set k v m

  unfoldable pub delete : K → Map K V → Map K V
  delete k [] = []
  delete k ((j, w) ∷ m) = if j == k then delete k m else (j, w) ∷ delete k m

  abbrev pub has : K → Map K V → Bool
  has k m = is_some (get k m)

  pub get-set_self : (k : K) (v : V) (m : Map K V) → get k (set k v m) ≡ some v
  unfolding get set
  get-set_self k v [] = ground (arith, beq_refl k)
  get-set_self k v ((j, w) ∷ m) = ground (arith, get-set_self k v m)

  pub get-set_ne : (k i : K) (v : V) (m : Map K V) → k ≢ i → get i (set k v m) ≡ get i m
  unfolding get set
  get-set_ne k i v [] h = ground (arith, e.equals_iff k i)
  get-set_ne k i v ((j, w) ∷ m) h =
      ground (arith, e.equals_iff j k, e.equals_iff j i, get-set_ne k i v m h)

  pub get-delete_self : (k : K) (m : Map K V) → get k (delete k m) ≡ none
  unfolding get delete
  get-delete_self k [] = refl
  get-delete_self k ((j, w) ∷ m) = ground (arith, get-delete_self k m)

  pub get-delete_ne : (k i : K) (m : Map K V) → k ≢ i → get i (delete k m) ≡ get i m
  unfolding get delete
  get-delete_ne k i [] h = refl
  get-delete_ne k i ((j, w) ∷ m) h =
      ground (arith, e.equals_iff j k, e.equals_iff j i, get-delete_ne k i m h)

module _ {ℓ κ} {K : Type ℓ} {V : Type κ} where
  -- `for (const [k, v] of m) if (!p(v)) m.delete(k)`, for distinct keys.
  unfoldable pub retain : (V → Bool) → Map K V → Map K V
  retain p [] = []
  retain p ((k, v) ∷ m) = if p v then (k, v) ∷ retain p m else retain p m

  pub retain-retain : (p : V → Bool) (m : Map K V) → retain p (retain p m) ≡ retain p m
  unfolding retain
  retain-retain p [] = refl
  retain-retain p ((k, v) ∷ m) = ground (arith, retain-retain p m)

  pub values-retain : (p : V → Bool) (m : Map K V) → values (retain p m) ≡ keep p (values m)
  unfolding retain
  values-retain p [] = refl
  values-retain p ((k, v) ∷ m) = ground (arith, values-retain p m)
