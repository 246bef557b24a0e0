-- ===== src/Idempotency/Remembers.antt =====
-- idempotencyStore.ts: how long a key is remembered. A key outlives the calls that use fewer other
-- keys than the limit behind it.
use pinout.Prelude.{
  ℕ, ◌+◌, ◌-◌, ◌≤◌, ◌<◌, ◌≡◌, ◌≢◌, refl, ap, ◌∙◌, none, some, [], ◌∷◌, ◌==◌, arith, length,
  Bool-cases, Option-cases, inl, inr, IssuedId, false, sym, ne_of_beq,
}
use mathlib.Core.Logic.{◌⊎◌}
use pinout.Prelude.Map.{
  Map, get, set, delete, get-set_self, get-set_ne, get-delete_self, get-delete_ne,
}
use pinout.Prelude.Map.Laws.{length-set_old, length-delete-le}
use pinout.Idempotency.{
  IdempotencyStore, IdempotencyTombstone, ScopedKey, scoped_key_eq, Patch, patched, touched, lookup,
  hit, record_under, evict_overflow, update_under, is_stale,
}
use pinout.Idempotency.Dedupe.{
  behind, behind-set_ne, behind-set_new, get-drop_overflow, record_under-keeps,
}

behind-set_old :
    (k j : ScopedKey) (v : IdempotencyTombstone) (m : Map ScopedKey IdempotencyTombstone)
    {u : IdempotencyTombstone}
    → get j m ≡ some u
    → behind k (set j v m) ≡ behind k m
unfolding behind set get
behind-set_old k j v [] h = ground arith
behind-set_old k j v ((i, w) ∷ m) {u} h =
    ground (arith, length-set_old j v m {w = u}, behind-set_old k j v m {u = u})

behind-delete-le :
    (k j : ScopedKey) (m : Map ScopedKey IdempotencyTombstone)
    → j ≢ k
    → behind k (delete j m) ≤ behind k m
unfolding behind delete
behind-delete-le k j [] n = omega arith
behind-delete-le k j ((i, w) ∷ m) n = ground (
  arith,
  scoped_key_eq.equals_iff i j,
  scoped_key_eq.equals_iff i k,
  length-delete-le j m,
  behind-delete-le k j m n,
)

module _ (k : ScopedKey) (id : IssuedId) (made limit retention : ℕ) where
  -- The key leads to the operation, and at most `n` other keys were used behind it.
  pub record Remembers (n : ℕ) (s : IdempotencyStore) : Type 0 where
    pub tombstone : IdempotencyTombstone
    pub found : get k s.tombstones ≡ some tombstone
    pub same : tombstone.operation_id ≡ id
    pub born : tombstone.created_at ≡ made
    pub place : behind k s.tombstones ≤ n
    pub limited : s.max_entries ≡ limit
    pub kept_for : s.retention_ms ≡ retention

  pub Remembers-le : (n o : ℕ) (s : IdempotencyStore) → n ≤ o → Remembers n s → Remembers o s
  Remembers-le n o s h r = record {
    tombstone = r.tombstone;
    found = r.found;
    same = r.same;
    born = r.born;
    place = omega (arith, r.place);
    limited = r.limited;
    kept_for = r.kept_for;
  }

  pub update_under-Remembers :
      (n : ℕ) (s : IdempotencyStore) (j : ScopedKey) (p : Patch) (now : ℕ)
      → Remembers n s
      → Remembers n (update_under s j p now)
  unfolding update_under
  update_under-Remembers n s j p now r = elim (Option-cases (get j s.tombstones)) [
    | inl e ↦ rw (e, update_under) r
    | inr (u, e) ↦
        let v = patched u p now in
        let same_place = behind-set_old k j v s.tombstones e in
        elim (Bool-cases (j == k)) [
          | inl t ↦
              let f : j ≡ k = (scoped_key_eq.equals_iff j k).0 t in
              let old : some u ≡ some r.tombstone =
                sym e ∙ ap (λ i. get i s.tombstones) f ∙ r.found in
              rw (e, update_under)
                record {
                  tombstone = v;
                  found =
                      ap (λ i. get i (set j v s.tombstones)) (sym f)
                      ∙ get-set_self j v s.tombstones;
                  same = ground (arith, old, r.same);
                  born = ground (arith, old, r.born);
                  place = omega (arith, same_place, r.place);
                  limited = r.limited;
                  kept_for = r.kept_for;
                }
          | inr t ↦
              rw (e, update_under)
                record {
                  tombstone = r.tombstone;
                  found = get-set_ne j k v s.tombstones (ne_of_beq j k t) ∙ r.found;
                  same = r.same;
                  born = r.born;
                  place = omega (arith, same_place, r.place);
                  limited = r.limited;
                  kept_for = r.kept_for;
                }
        ]
  ]

  pub record_under-Remembers :
      (n : ℕ) (s : IdempotencyStore) (j : ScopedKey) (t : IdempotencyTombstone) (now : ℕ)
      → j ≢ k
      → n + 1 < limit
      → Remembers n s
      → Remembers (n + 1) (record_under s j t now)
  unfolding record_under evict_overflow
  record_under-Remembers n s j t now ne few r =
      let (kept, place, limited) =
        record_under-keeps s k j r.tombstone t now ne r.found (omega (arith, r.place, r.limited)) in
      record {
        tombstone = r.tombstone;
        found = kept;
        same = r.same;
        born = r.born;
        place = omega (arith, place, r.place);
        limited = limited ∙ r.limited;
        kept_for = r.kept_for;
      }

  -- Another key is looked up: a hit moves it behind this one.
  pub lookup-Remembers :
      (n : ℕ) (s : IdempotencyStore) (j : ScopedKey) (now : ℕ)
      → j ≢ k
      → Remembers n s
      → Remembers (n + 1) (lookup s j now).0
        × (((t : IdempotencyTombstone) × ((lookup s j now).1 ≡ hit t))
            ⊎ Remembers n (lookup s j now).0)
  unfolding lookup
  lookup-Remembers n s j now ne r = elim (Option-cases (get j s.tombstones)) [
    | inl e ↦ rw (e, lookup) (Remembers-le n (n + 1) s (omega arith) r, inr r)
    | inr (u, e) ↦
        let without = behind-delete-le k j s.tombstones ne in
        let gone : get k (delete j s.tombstones) ≡ some r.tombstone =
          get-delete_ne j k s.tombstones ne ∙ r.found in
        elim (Bool-cases (is_stale s now u)) [
          | inl old ↦
              let left : Remembers n (record s {
                tombstones = delete j s.tombstones;
                evicted_lookups = s.evicted_lookups + 1;
              }) =
                record {
                  tombstone = r.tombstone;
                  found = gone;
                  same = r.same;
                  born = r.born;
                  place = omega (arith, without, r.place);
                  limited = r.limited;
                  kept_for = r.kept_for;
                } in
              rw (e, lookup) (rw old (Remembers-le n (n + 1) _ (omega arith) left, inr left))
          | inr fresh ↦
              let v = touched u now in
              let moved = behind-set_ne k j v (delete j s.tombstones) ne gone in
              rw (e, lookup)
                (rw fresh (
                  record {
                    tombstone = r.tombstone;
                    found = get-set_ne j k v (delete j s.tombstones) ne ∙ gone;
                    same = r.same;
                    born = r.born;
                    place = omega (arith, moved, without, r.place);
                    limited = r.limited;
                    kept_for = r.kept_for;
                  },
                  inl (v, refl),
                ))
        ]
  ]

  -- The key itself is looked up within the retention: a hit, which makes it the last one.
  pub lookup-hit-Remembers :
      (n : ℕ) (s : IdempotencyStore) (now : ℕ)
      → now - made ≤ retention
      → Remembers n s
      → (t : IdempotencyTombstone) × ((lookup s k now).1 ≡ hit t)
        × (t.operation_id ≡ id)
        × Remembers 0 (lookup s k now).0
  unfolding lookup is_stale
  lookup-hit-Remembers n s now recent r =
      let v = touched r.tombstone now in
      let fresh : is_stale s now r.tombstone ≡ false = ground (arith, recent, r.born, r.kept_for) in
      rw (r.found, lookup)
        (rw fresh (
          v,
          refl,
          r.same,
          record {
            tombstone = v;
            found = get-set_self k v (delete k s.tombstones);
            same = r.same;
            born = r.born;
            place = omega (
              arith,
              behind-set_new k v (delete k s.tombstones) (get-delete_self k s.tombstones),
            );
            limited = r.limited;
            kept_for = r.kept_for;
          },
        ))

  -- A key that is recorded for the operation.
  pub record_under-self-Remembers :
      (s : IdempotencyStore) (t : IdempotencyTombstone) (now n : ℕ)
      → 0 < limit
      → length s.tombstones ≤ limit
      → s.max_entries ≡ limit
      → s.retention_ms ≡ retention
      → t.operation_id ≡ id
      → t.created_at ≡ made
      → get k s.tombstones ≡ none
      → Remembers 0 (record_under s k t now)
  unfolding record_under evict_overflow
  record_under-self-Remembers s t now n p within q w same born new =
      let v = touched t now in
      let last = behind-set_new k v s.tombstones new in
      let (kept, place) =
        get-drop_overflow s.max_entries k (set k v s.tombstones) (get-set_self k v s.tombstones)
          (omega (arith, last, p, q)) in
      record {
        tombstone = v;
        found = kept;
        same = same;
        born = born;
        place = omega (arith, place, last);
        limited = q;
        kept_for = w;
      }
