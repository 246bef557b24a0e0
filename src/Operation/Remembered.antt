-- ===== src/Operation/Remembered.antt =====
-- operationManager.ts: how the idempotency store remembers a command through all calls and steps.
use mathlib.Core.Logic.{◌⊎◌}
use pinout.Prelude.{
  ℕ, ◌+◌, ◌-◌, ◌≤◌, ◌<◌, ◌≡◌, ◌≢◌, ◌∙◌, refl, sym, ap, subst, Bool, true, false, not, ◌||◌, Option,
  none, some, List, [], ◌∷◌, ◌==◌, String, IssuedId, issued_id_eq, nat_eq, arith, Option-cases,
  Bool-cases, inl, inr, leb, if◌then◌else◌, ne_of_beq, All,
}
use pinout.Prelude.Map.{has}
use pinout.Idempotency.{
  IdempotencyStore, IdempotencyTombstone, IdempotencyLookup, miss, hit, expired_or_evicted, lookup,
  key_for, record_under, ScopedKey, scoped_key_eq,
}
use pinout.Idempotency.Remembers.{
  Remembers, Remembers-le, update_under-Remembers, record_under-Remembers, lookup-Remembers,
  lookup-hit-Remembers,
}
use pinout.Operation.History.{
  Call, begins, cancels, reconciles, waits, reports, continues, step, run,
}
use pinout.Operation.CallUpdates.{is_begin, step-keeps}
use pinout.Operation.{OperationManager, truthy, emit}
use pinout.Operation.Begin.{
  BeginOperationOptions, begin, begin_at, begin_new, begin_again, insert_object, new_tombstone,
  record_key, start,
}

pub begin_keyed :
    (m : OperationManager) (options : BeginOperationOptions) (now : ℕ) (random key : String)
    → truthy options.idempotency_key ≡ some key
    → let looked =
        lookup m.store (key_for options.device_id options.capability options.owner key) now in
      begin m options now random
      ≡ begin_at looked.1 (record m { store = looked.0 }) options now random
unfolding begin
begin_keyed m options now random key keyed = rw (keyed, begin) refl

module _ (m : OperationManager) (options : BeginOperationOptions) (now : ℕ) (random key : String)
    (keyed : truthy options.idempotency_key ≡ some key) where
  abbrev pub new_id : IssuedId
  new_id = record { sequence = m.sequence + 1; suffix = random }

  abbrev full_key : ScopedKey
  full_key = key_for options.device_id options.capability options.owner key

  record_key-eq :
      (m' : OperationManager)
      → record_key m' options new_id now ≡ record m' {
        store = record_under m'.store full_key (new_tombstone options new_id key now) now;
      }
  unfolding record_key
  record_key-eq m' = rw (keyed, record_key) refl

  pub begin_new-store :
      (begin_new m options now random).0.store
      ≡ record_under m.store full_key (new_tombstone options new_id key now) now
  unfolding begin_new start emit insert_object
  begin_new-store = ap (λ (x : OperationManager). x.store) (record_key-eq _)

abbrev pub is_hit : IdempotencyLookup → Bool
is_hit (hit _) = true
is_hit miss = false
is_hit expired_or_evicted = false

abbrev pub command_key : BeginOperationOptions → String → ScopedKey
command_key o key = key_for o.device_id o.capability o.owner key

-- The key of a call that begins an operation.
abbrev pub begin_key : BeginOperationOptions → Option ScopedKey
begin_key o = elim (truthy o.idempotency_key) [ none ↦ none | some key ↦ some (command_key o key) ]

-- The call begins an operation under another key.
abbrev pub uses_other : ScopedKey → Call → Bool
uses_other k (begins o _ _) = elim (begin_key o) [ none ↦ false | some j ↦ not (j == k) ]
uses_other k _ = false

-- Calls that begin an operation under the key come within the retention of its operation.
abbrev pub in_time : ScopedKey → ℕ → ℕ → Call → Bool
in_time k made retention (begins o now _) = elim (begin_key o) [
  | none ↦ true
  | some j ↦ not (j == k) || leb (now - made) retention
]
in_time k made retention _ = true

unfoldable pub other_keys : ScopedKey → List Call → ℕ
other_keys k [] = 0
other_keys k (c ∷ cs) = (if uses_other k c then 1 else 0) + other_keys k cs

begin_again-store :
    (m : OperationManager) (t : IdempotencyTombstone) → (begin_again m t).0.store ≡ m.store
unfolding begin_again insert_object
begin_again-store m t = elim (Bool-cases (has t.operation_id m.operations)) [
  | inl h ↦ rw (h, begin_again) refl
  | inr h ↦ rw (h, begin_again) refl
]

begin_new-unkeyed :
    (m : OperationManager) (options : BeginOperationOptions) (now : ℕ) (random : String)
    → truthy options.idempotency_key ≡ none
    → (begin_new m options now random).0.store ≡ m.store
unfolding begin_new start emit insert_object record_key
begin_new-unkeyed m options now random e = rw (e, record_key) refl

module _ (k : ScopedKey) (id : IssuedId) (made limit retention : ℕ) where
  begin_other :
      (n : ℕ) (m : OperationManager) (o : BeginOperationOptions) (now : ℕ) (random key : String)
      → truthy o.idempotency_key ≡ some key
      → key_for o.device_id o.capability o.owner key ≢ k
      → n + 1 < limit
      → Remembers k id made limit retention n m.store
      → Remembers k id made limit retention (n + 1) (begin m o now random).0.store
  unfolding begin_at
  begin_other n m o now random key e ne few r =
      let j = key_for o.device_id o.capability o.owner key in
      let looked = lookup m.store j now in
      let (grown, found) = lookup-Remembers k id made limit retention n m.store j now ne r in
      let m' = record m { store = looked.0 } in
      rw (begin_keyed m o now random key e) (go looked.1 looked.0 refl grown found)
    where
      go :
          (l : IdempotencyLookup) (s : IdempotencyStore)
          → (lookup m.store (key_for o.device_id o.capability o.owner key) now).1 ≡ l
          → Remembers k id made limit retention (n + 1) s
          → (((t : IdempotencyTombstone) × ((lookup m.store
                    (key_for o.device_id o.capability o.owner key)
                    now).1
                  ≡ hit t))
              ⊎ Remembers k id made limit retention n s)
          → Remembers k id made limit retention
              (n + 1)
              (begin_at l (record m { store = s }) o now random).0.store
      go (hit t) s q grown found = rw (begin_again-store (record m { store = s }) t) grown
      go miss s q grown (inl (t, h)) = absurd (ground (arith, q, h))
      go miss s q grown (inr left) =
          rw (begin_new-store (record m { store = s }) o now random key e)
            (record_under-Remembers k id made limit retention n s _ _ now ne few left)
      go expired_or_evicted s q grown (inl (t, h)) = absurd (ground (arith, q, h))
      go expired_or_evicted s q grown (inr left) =
          rw (begin_new-store (record m { store = s }) o now random key e)
            (record_under-Remembers k id made limit retention n s _ _ now ne few left)

  -- The key itself leads to the operation: nothing is begun, and it is the last one used.
  pub begin_repeat :
      (n : ℕ) (m : OperationManager) (o : BeginOperationOptions) (now : ℕ) (random key : String)
      → truthy o.idempotency_key ≡ some key
      → key_for o.device_id o.capability o.owner key ≡ k
      → now - made ≤ retention
      → Remembers k id made limit retention n m.store
      → (t : IdempotencyTombstone) × (s : IdempotencyStore) × (begin m o now random
          ≡ begin_again (record m { store = s }) t)
        × (t.operation_id ≡ id)
        × Remembers k id made limit retention 0 s
  unfolding begin_at
  begin_repeat n m o now random key e same recent r =
      let (t, found, names, last) =
        lookup-hit-Remembers k id made limit retention n m.store now recent r in
      (
        t,
        (lookup m.store k now).0,
        begin_keyed m o now random key e ∙ rw (same) (rw (found) refl),
        names,
        last,
      )

  begin-Remembers :
      (n : ℕ) (m : OperationManager) (o : BeginOperationOptions) (now : ℕ) (random : String)
      → in_time k made retention (begins o now random) ≡ true
      → n + (if uses_other k (begins o now random) then 1 else 0) < limit
      → Remembers k id made limit retention n m.store
      → Remembers k id made limit retention
          (n + (if uses_other k (begins o now random) then 1 else 0))
          (begin m o now random).0.store
  unfolding begin
  begin-Remembers n m o now random intime few r =
      let used : ℕ = if uses_other k (begins o now random) then 1 else 0 in
      elim (Option-cases (truthy o.idempotency_key)) [
        | inl e ↦
            subst (Remembers k id made limit retention (n + used))
              (sym (rw (e, begin) (begin_new-unkeyed m o now random e)))
              (Remembers-le k id made limit retention n (n + used) m.store (omega arith) r)
        | inr (key, e) ↦
            let j = key_for o.device_id o.capability o.owner key in
            elim (Bool-cases (j == k)) [
              | inl t ↦
                  let recent : now - made ≤ retention = ground (arith, e, t, intime) in
                  let (tomb, s, q, _, last) =
                    begin_repeat n m o now random key e ((scoped_key_eq.equals_iff j k).0 t) recent
                      r in
                  let stored : (begin m o now random).0.store ≡ s =
                    ap (λ x. x.0.store) q ∙ begin_again-store (record m { store = s }) tomb in
                  subst (Remembers k id made limit retention (n + used)) (sym stored)
                    (Remembers-le k id made limit retention 0 (n + used) s (omega arith) last)
              | inr t ↦
                  let counted : used ≡ 1 = ground (arith, e, t) in
                  Remembers-le k id made limit retention (n + 1) (n + used) _
                    (omega (arith, counted))
                    (begin_other n m o now random key e (ne_of_beq j k t)
                      (omega (arith, few, counted)) r)
            ]
      ]

  kept :
      (n : ℕ) (m : OperationManager) (c : Call)
      → is_begin c ≡ false
      → Remembers k id made limit retention n m.store
      → Remembers k id made limit retention (n + 0) (step m c).store
  kept n m c b r = Remembers-le k id made limit retention n (n + 0) _ (omega arith) (
      step-keeps (Remembers k id made limit retention n)
        (λ s j p now h. update_under-Remembers k id made limit retention n s j p now h) m c b r)

  step-Remembers :
      (n : ℕ) (m : OperationManager) (c : Call)
      → in_time k made retention c ≡ true
      → n + (if uses_other k c then 1 else 0) < limit
      → Remembers k id made limit retention n m.store
      → Remembers k id made limit retention (n + (if uses_other k c then 1 else 0)) (step m c).store
  unfolding step
  step-Remembers n m (begins o now random) i few r = begin-Remembers n m o now random i few r
  step-Remembers n m (cancels x reason waiter now) i few r =
      kept n m (cancels x reason waiter now) refl r
  step-Remembers n m (reconciles x options now) i few r = kept n m (reconciles x options now) refl r
  step-Remembers n m (waits x waiter) i few r = kept n m (waits x waiter) refl r
  step-Remembers n m (reports ref fraction message now) i few r =
      kept n m (reports ref fraction message now) refl r
  step-Remembers n m (continues ref s now) i few r = kept n m (continues ref s now) refl r

  pub run-Remembers :
      (n : ℕ) (m : OperationManager) (cs : List Call)
      → All (λ c. in_time k made retention c ≡ true) cs
      → n + other_keys k cs < limit
      → Remembers k id made limit retention n m.store
      → Remembers k id made limit retention (n + other_keys k cs) (run m cs).store
  unfolding run other_keys
  run-Remembers n m [] i few r = Remembers-le k id made limit retention n (n + 0) _ (omega arith) r
  run-Remembers n m (c ∷ cs) (i, is) few r =
      let used : ℕ = if uses_other k c then 1 else 0 in
      let later =
        run-Remembers (n + used) (step m c) cs is (omega (arith, few))
          (step-Remembers n m c i (omega (arith, few)) r) in
      Remembers-le k id made limit retention (n + used + other_keys k cs)
        (n + (used + other_keys k cs)) _ (omega arith) later
