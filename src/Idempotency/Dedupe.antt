-- ===== src/Idempotency/Dedupe.antt =====
-- idempotencyStore.ts: what a later lookup finds, and which tombstones the limit evicts.
use pinout.Prelude.{
  ℕ, ◌+◌, ◌-◌, ◌≤◌, ◌<◌, ◌≡◌, ◌≢◌, refl, ap, ◌∙◌, none, some, List, [], ◌∷◌, ◌==◌, arith, length,
  leb, Bool-cases, inl, inr, Option-cases, if◌then◌else◌, All,
}
use pinout.Prelude.Map.{Map, get, set, delete, get-set_self, get-set_ne, get-delete_self}
use pinout.Prelude.Map.Laws.{length-set-le}
use pinout.Idempotency.{
  IdempotencyStore, IdempotencyTombstone, ScopedKey, scoped_key_eq, touched, lookup, hit,
  expired_or_evicted, drop_overflow, evict_overflow, record_under, size, is_stale,
}

abbrev Tombstones : Type 0
Tombstones = Map ScopedKey IdempotencyTombstone

-- How many entries stand behind the key: the number of keys used after it.
unfoldable pub behind : ScopedKey → Tombstones → ℕ
behind k [] = 0
behind k ((j, t) ∷ m) = if j == k then length m else behind k m

drop_overflow-within : (most : ℕ) (m : Tombstones) → length m ≤ most → (drop_overflow most m).0 ≡ m
unfolding drop_overflow
drop_overflow-within most [] h = refl
drop_overflow-within most (e ∷ m) h = ground arith

pub get-drop_overflow :
    (most : ℕ) (k : ScopedKey) (m : Tombstones) {t : IdempotencyTombstone}
    → get k m ≡ some t
    → behind k m < most
    → (get k (drop_overflow most m).0 ≡ some t) × (behind k (drop_overflow most m).0 ≡ behind k m)
unfolding drop_overflow get behind
get-drop_overflow most k [] h b = ground arith
get-drop_overflow most k ((j, u) ∷ m) {t} h b = ground (arith, get-drop_overflow most k m {t = t})

pub behind-set_ne :
    (k id : ScopedKey) (v : IdempotencyTombstone) (m : Tombstones) {t : IdempotencyTombstone}
    → id ≢ k
    → get k m ≡ some t
    → behind k (set id v m) ≤ behind k m + 1
unfolding behind set get
behind-set_ne k id v [] n h = ground arith
behind-set_ne k id v ((j, u) ∷ m) {t} n h = ground (
  arith,
  scoped_key_eq.equals_iff j k,
  scoped_key_eq.equals_iff j id,
  length-set-le id v m,
  behind-set_ne k id v m {t = t} n,
)

pub behind-set_new :
    (k : ScopedKey) (v : IdempotencyTombstone) (m : Tombstones)
    → get k m ≡ none
    → behind k (set k v m) ≡ 0
unfolding behind set get
behind-set_new k v [] h = ground arith
behind-set_new k v ((j, u) ∷ m) h = ground (arith, behind-set_new k v m)

-- A new entry, or a changed one, survives the eviction that follows.
behind-set_self-lt :
    (most : ℕ) (k : ScopedKey) (v : IdempotencyTombstone) (m : Tombstones)
    → 0 < most
    → length m ≤ most
    → behind k (set k v m) < most
unfolding behind set
behind-set_self-lt most k v [] p h = ground arith
behind-set_self-lt most k v ((j, u) ∷ m) p h = ground (arith, behind-set_self-lt most k v m p)

-- A key that was just recorded answers the next lookup with its tombstone, or says that it ran out
-- if its operation is older than the retention, in a store within a limit of at least one.
pub lookup-record_under :
    (s : IdempotencyStore) (id : ScopedKey) (t : IdempotencyTombstone) (now later : ℕ)
    → 0 < s.max_entries
    → size s ≤ s.max_entries
    → (lookup (record_under s id t now) id later).1 ≡ (
        if leb (later - t.created_at) s.retention_ms
        then hit (touched t later)
        else expired_or_evicted)
unfolding record_under evict_overflow size lookup is_stale
lookup-record_under s id t now later p h =
    let (kept, _) =
      get-drop_overflow s.max_entries id (set id (touched t now) s.tombstones)
        (get-set_self id (touched t now) s.tombstones)
        (behind-set_self-lt s.max_entries id (touched t now) s.tombstones p h) in
    rw (kept, lookup) (ground arith)

-- A run of records of other keys.
unfoldable pub record_all :
    IdempotencyStore → List (ScopedKey × IdempotencyTombstone × ℕ) → IdempotencyStore
record_all s [] = s
record_all s ((id, t, now) ∷ rs) = record_all (record_under s id t now) rs

pub record_under-keeps :
    (s : IdempotencyStore) (k id : ScopedKey) (t u : IdempotencyTombstone) (now : ℕ)
    → id ≢ k
    → get k s.tombstones ≡ some t
    → behind k s.tombstones + 1 < s.max_entries
    → (get k (record_under s id u now).tombstones ≡ some t)
      × (behind k (record_under s id u now).tombstones ≤ behind k s.tombstones + 1)
      × ((record_under s id u now).max_entries ≡ s.max_entries)
unfolding record_under evict_overflow
record_under-keeps s k id t u now n h b =
    let grown = behind-set_ne k id (touched u now) s.tombstones n h in
    let (kept, place) =
      get-drop_overflow s.max_entries k (set id (touched u now) s.tombstones)
        (get-set_ne id k (touched u now) s.tombstones n ∙ h) (omega (arith, grown)) in
    (kept, omega (arith, place, grown), refl)

record_all-keeps :
    (s : IdempotencyStore) (k : ScopedKey) (t : IdempotencyTombstone)
    (rs : List (ScopedKey × IdempotencyTombstone × ℕ))
    → All (λ r. r.0 ≢ k) rs
    → get k s.tombstones ≡ some t
    → behind k s.tombstones + length rs < s.max_entries
    → get k (record_all s rs).tombstones ≡ some t
unfolding record_all
record_all-keeps s k t [] n h b = h
record_all-keeps s k t ((id, u, now) ∷ rs) (n, ns) h b =
    let (kept, place, same) = record_under-keeps s k id t u now n h (omega arith) in
    record_all-keeps (record_under s id u now) k t rs ns kept (omega (arith, place, same))

-- What a hit answers and leaves behind.
lookup-eq-hit :
    (s : IdempotencyStore) (id : ScopedKey) (now : ℕ) {t : IdempotencyTombstone}
    → (lookup s id now).1 ≡ hit t
    → (get id (lookup s id now).0.tombstones ≡ some t)
      × (behind id (lookup s id now).0.tombstones ≡ 0)
      × ((lookup s id now).0.max_entries ≡ s.max_entries)
unfolding lookup
lookup-eq-hit s id now {t} e = elim (Option-cases (get id s.tombstones)) [
  | inl g ↦ absurd (ground arith)
  | inr (u, g) ↦ elim (Bool-cases (is_stale s now u)) [
    | inl old ↦ absurd (ground arith)
    | inr fresh ↦
        let same : touched u now ≡ t = ground arith in
        rw (g, lookup)
          (rw fresh (
            get-set_self id (touched u now) (delete id s.tombstones) ∙ ap some same,
            behind-set_new id (touched u now) (delete id s.tombstones)
                (get-delete_self id s.tombstones),
            refl,
          ))
  ]
]

-- A key that a lookup has hit is the last to be evicted: it outlives fewer than `maxEntries` records
-- of other keys, whatever they are, and keeps its tombstone.
pub lookup_survives :
    (s : IdempotencyStore) (id : ScopedKey) (now : ℕ) (t : IdempotencyTombstone)
    (rs : List (ScopedKey × IdempotencyTombstone × ℕ))
    → (lookup s id now).1 ≡ hit t
    → All (λ r. r.0 ≢ id) rs
    → length rs < s.max_entries
    → get id (record_all (lookup s id now).0 rs).tombstones ≡ some t
lookup_survives s id now t rs e others few =
    let (kept, last, limit) = lookup-eq-hit s id now e in
    record_all-keeps (lookup s id now).0 id t rs others kept (omega (arith, last, limit))
