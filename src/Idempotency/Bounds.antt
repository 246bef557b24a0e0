-- ===== src/Idempotency/Bounds.antt =====
-- idempotencyStore.ts: the store never holds more than `maxEntries` tombstones.
use pinout.Prelude.{
  ℕ, ◌≤◌, ◌<◌, ◌≡◌, refl, ◌∙◌, Option, List, [], ◌∷◌, arith, length, inl, inr, is_some,
  Option-cases, String, not, ap, Bool, true, or_default,
}
use pinout.Prelude.Map.{Map, get, delete, retain}
use pinout.Prelude.Map.Laws.{length-set_old, length-set-le, length-delete-le}
use pinout.Idempotency.{
  IdempotencyStore, IdempotencyTombstone, ScopedKey, scoped_key_eq, Patch, patched, touched, init,
  lookup, drop_overflow, evict_overflow, record_under, update_under, delete_under, remove, size,
  imported, import_tombstones, hydrate, reap_expired, is_stale,
}

-- The limit is the one that was configured, and the store is not above it.
abbrev pub WithinLimit : ℕ → IdempotencyStore → Type 0
WithinLimit limit s = (s.max_entries ≡ limit) × (size s ≤ limit)

drop_overflow-le :
    (most : ℕ) (m : Map ScopedKey IdempotencyTombstone) → length (drop_overflow most m).0 ≤ most
unfolding drop_overflow
drop_overflow-le most [] = omega arith
drop_overflow-le most (e ∷ m) = ground (arith, drop_overflow-le most m)

evict_overflow-WithinLimit :
    (limit : ℕ) (s : IdempotencyStore)
    → s.max_entries ≡ limit
    → WithinLimit limit (evict_overflow s)
unfolding evict_overflow size
evict_overflow-WithinLimit limit s e =
    (e, omega (arith, drop_overflow-le s.max_entries s.tombstones))

imported-limit :
    (s : IdempotencyStore) (t : IdempotencyTombstone) (now : ℕ)
    → (imported s t now).max_entries ≡ s.max_entries
unfolding imported
imported-limit s t now = ground arith

import_tombstones-limit :
    (s : IdempotencyStore) (ts : List IdempotencyTombstone) (now : ℕ)
    → (import_tombstones s ts now).max_entries ≡ s.max_entries
unfolding import_tombstones
import_tombstones-limit s [] now = refl
import_tombstones-limit s (t ∷ ts) now =
    import_tombstones-limit (imported s t now) ts now ∙ imported-limit s t now

length-retain : {V : Type 0} (p : V → Bool) (m : Map ScopedKey V) → length (retain p m) ≤ length m
unfolding retain
length-retain p [] = omega arith
length-retain p ((k, v) ∷ m) = ground (arith, length-retain p m)

length-delete_held :
    {V : Type 0} (k : ScopedKey) (m : Map ScopedKey V)
    → is_some (get k m) ≡ true
    → length (delete k m) < length m
unfolding get delete
length-delete_held k [] h = ground arith
length-delete_held k ((j, v) ∷ m) h = ground (arith, length-delete_held k m, length-delete-le k m)

pub data Call : Type 0 where
  looks_up : ScopedKey → ℕ → Call
  records : ScopedKey → IdempotencyTombstone → ℕ → Call
  updates : ScopedKey → Patch → ℕ → Call
  deletes : ScopedKey → Call
  removes : String → String → Option String → String → Call
  hydrates : List IdempotencyTombstone → ℕ → Call
  reaps : ℕ → Call

unfoldable pub step : IdempotencyStore → Call → IdempotencyStore
step s (looks_up id now) = (lookup s id now).0
step s (records id t now) = record_under s id t now
step s (updates id p now) = update_under s id p now
step s (deletes id) = (delete_under s id).0
step s (removes device_id capability owner key) = (remove s device_id capability owner key).0
step s (hydrates ts now) = (hydrate s ts now).0
step s (reaps now) = (reap_expired s now).0

pub lookup-WithinLimit :
    (limit : ℕ) (s : IdempotencyStore) (id : ScopedKey) (now : ℕ)
    → WithinLimit limit s
    → WithinLimit limit (lookup s id now).0
unfolding lookup size
lookup-WithinLimit limit s id now h = elim (Option-cases (get id s.tombstones)) [
  | inl e ↦ rw (e, lookup) h
  | inr (t, e) ↦
      rw (e, lookup)
        (ground (
          arith,
          length-delete-le id s.tombstones,
          length-delete_held id s.tombstones (ap is_some e),
          length-set-le id (touched t now) (delete id s.tombstones),
        ))
]

update_under-WithinLimit :
    (limit : ℕ) (s : IdempotencyStore) (id : ScopedKey) (p : Patch) (now : ℕ)
    → WithinLimit limit s
    → WithinLimit limit (update_under s id p now)
unfolding update_under size
update_under-WithinLimit limit s id p now h = elim (Option-cases (get id s.tombstones)) [
  | inl e ↦ rw (e, update_under) h
  | inr (t, e) ↦
      rw (e, update_under) (omega (arith, length-set_old id (patched t p now) s.tombstones e))
]

pub step-WithinLimit :
    (limit : ℕ) (s : IdempotencyStore) (c : Call)
    → WithinLimit limit s
    → WithinLimit limit (step s c)
unfolding step record_under delete_under remove hydrate reap_expired size
step-WithinLimit limit s (looks_up id now) h = lookup-WithinLimit limit s id now h
step-WithinLimit limit s (records id t now) h = evict_overflow-WithinLimit limit _ h.0
step-WithinLimit limit s (updates id p now) h = update_under-WithinLimit limit s id p now h
step-WithinLimit limit s (deletes id) h = omega (arith, length-delete-le id s.tombstones)
step-WithinLimit limit s (removes d c o k) h = omega (
  arith,
  length-delete-le (record { device_id = d; capability = c; owner = o; key = k }) s.tombstones,
)
step-WithinLimit limit s (hydrates ts now) h =
    evict_overflow-WithinLimit limit _ (import_tombstones-limit s ts now ∙ h.0)
step-WithinLimit limit s (reaps now) h =
    omega (arith, length-retain (λ t. not (is_stale s now t)) s.tombstones)

unfoldable pub run : IdempotencyStore → List Call → IdempotencyStore
run s [] = s
run s (c ∷ cs) = run (step s c) cs

run-WithinLimit :
    (limit : ℕ) (s : IdempotencyStore) (cs : List Call)
    → WithinLimit limit s
    → WithinLimit limit (run s cs)
unfolding run
run-WithinLimit limit s [] h = h
run-WithinLimit limit s (c ∷ cs) h =
    run-WithinLimit limit (step s c) cs (step-WithinLimit limit s c h)

-- No calls make a new store hold more tombstones than its configured limit, 10 000 by default.
pub size-run-init :
    (max_entries retention_ms : Option ℕ) (cs : List Call)
    → size (run (init max_entries retention_ms) cs) ≤ or_default max_entries 10_000
unfolding init size
size-run-init max_entries retention_ms cs =
    (run-WithinLimit (or_default max_entries 10_000) _ cs (refl, omega arith)).1
