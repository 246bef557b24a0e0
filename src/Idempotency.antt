-- ===== src/Idempotency.antt =====
-- packages/core/src/operation/idempotencyStore.ts: the bounded store of idempotency tombstones.
-- A key `JSON.stringify([device, capability, owner ?? null, key])` is the tuple that it prints:
-- printing arrays of texts and nulls is injective. `now` is the clock, read once in a call.
pub mod Bounds
pub mod Dedupe
pub mod Remembers
mod Examples
use pinout.Prelude.{
  ℕ, suc, ◌+◌, ◌-◌, ◌≡◌, ◌↔◌, Bool, true, false, not, ◌&&◌, Option, none, some, List, [], ◌∷◌,
  String, Eq, ◌==◌, string_eq, option_eq, option_beq, option_beq_iff, eq_iff, arith, ltb, leb,
  if◌then◌else◌, or_default, is_some, IssuedId, length,
}
use pinout.Prelude.Json.{Object}
use pinout.Prelude.Map.{Map, get, set, delete, retain, has}
use pinout.Snapshot.{OperationStatus, OperationError}

pub record IdempotencyTombstone : Type 0 where
  pub operation_id : IssuedId
  pub device_id : String
  pub capability : String
  pub owner : Option String
  pub idempotency_key : String
  pub status : OperationStatus
  pub created_at : ℕ
  pub result : Option Object
  pub error : Option OperationError
  pub last_used_at : ℕ

pub record ScopedKey : Type 0 where
  pub device_id : String
  pub capability : String
  pub owner : Option String
  pub key : String

abbrev pub scoped_key_beq : ScopedKey → ScopedKey → Bool
scoped_key_beq a b =
    a.device_id == b.device_id
    && (a.capability == b.capability && (option_beq a.owner b.owner && a.key == b.key))

pub scoped_key_beq_iff : (a b : ScopedKey) → (scoped_key_beq a b ≡ true) ↔ (a ≡ b)
scoped_key_beq_iff a b = ground (
  arith,
  eq_iff a.device_id b.device_id,
  eq_iff a.capability b.capability,
  option_beq_iff a.owner b.owner,
  eq_iff a.key b.key,
)

instance abbrev pub scoped_key_eq : Eq ScopedKey
scoped_key_eq = record { equals = scoped_key_beq; equals_iff = scoped_key_beq_iff }

pub record IdempotencyStore : Type 0 where
  pub tombstones : Map ScopedKey IdempotencyTombstone
  pub max_entries : ℕ
  pub retention_ms : ℕ
  pub evicted_lookups : ℕ

pub data IdempotencyLookup : Type 0 where
  miss expired_or_evicted : IdempotencyLookup
  hit : IdempotencyTombstone → IdempotencyLookup

unfoldable pub init : Option ℕ → Option ℕ → IdempotencyStore
init max_entries retention_ms = record {
  tombstones = [];
  max_entries = or_default max_entries 10_000;
  retention_ms = or_default retention_ms 86_400_000;
  evicted_lookups = 0;
}

abbrev pub key_for : String → String → Option String → String → ScopedKey
key_for device_id capability owner key = record {
  device_id = device_id;
  capability = capability;
  owner = owner;
  key = key;
}

abbrev pub tombstone_key : IdempotencyTombstone → ScopedKey
tombstone_key t = key_for t.device_id t.capability t.owner t.idempotency_key

unfoldable pub is_stale : IdempotencyStore → ℕ → IdempotencyTombstone → Bool
is_stale s now t = ltb s.retention_ms (now - t.created_at)

abbrev pub touched : IdempotencyTombstone → ℕ → IdempotencyTombstone
touched t now = record t { last_used_at = now }

unfoldable pub lookup : IdempotencyStore → ScopedKey → ℕ → IdempotencyStore × IdempotencyLookup
lookup s id now = elim (get id s.tombstones) [
  | none ↦ (s, miss)
  | some t ↦
      if is_stale s now t
      then (
        record s { tombstones = delete id s.tombstones; evicted_lookups = s.evicted_lookups + 1 },
        expired_or_evicted,
      )
      else (
        record s { tombstones = set id (touched t now) (delete id s.tombstones) },
        hit (touched t now),
      )
]

-- The loop of `evictOverflow`: the entries that stay, and the number that went.
unfoldable pub drop_overflow :
    ℕ → Map ScopedKey IdempotencyTombstone → Map ScopedKey IdempotencyTombstone × ℕ
drop_overflow most [] = ([], 0)
drop_overflow most (e ∷ m) =
    let (kept, dropped) = drop_overflow most m in
    if ltb most (suc (length m)) then (kept, dropped + 1) else (e ∷ m, 0)

unfoldable pub evict_overflow : IdempotencyStore → IdempotencyStore
evict_overflow s =
    let (kept, dropped) = drop_overflow s.max_entries s.tombstones in
    record s { tombstones = kept; evicted_lookups = s.evicted_lookups + dropped }

unfoldable pub record_under :
    IdempotencyStore → ScopedKey → IdempotencyTombstone → ℕ → IdempotencyStore
record_under s id t now =
    evict_overflow (record s { tombstones = set id (touched t now) s.tombstones })

-- What `updateUnder` may change: a field that the patch does not name stays.
pub record Patch : Type 0 where
  pub status : OperationStatus
  pub result : Option Object
  pub error : Option OperationError

abbrev pub or_else {ℓ} : {A : Type ℓ} → Option A → Option A → Option A
or_else none old = old
or_else (some a) old = some a

abbrev pub patched : IdempotencyTombstone → Patch → ℕ → IdempotencyTombstone
patched t p now = record t {
  status = p.status;
  result = or_else p.result t.result;
  error = or_else p.error t.error;
  last_used_at = now;
}

unfoldable pub update_under : IdempotencyStore → ScopedKey → Patch → ℕ → IdempotencyStore
update_under s id p now = elim (get id s.tombstones) [
  | none ↦ s
  | some t ↦ record s { tombstones = set id (patched t p now) s.tombstones }
]

unfoldable pub delete_under : IdempotencyStore → ScopedKey → IdempotencyStore × Bool
delete_under s id = (record s { tombstones = delete id s.tombstones }, has id s.tombstones)

unfoldable pub remove :
    IdempotencyStore → String → String → Option String → String → IdempotencyStore × Bool
remove s device_id capability owner key =
    let id = key_for device_id capability owner key in
    (record s { tombstones = delete id s.tombstones }, has id s.tombstones)

unfoldable pub size : IdempotencyStore → ℕ
size s = length s.tombstones

-- One round of the loop of `hydrate`, and the loop.
unfoldable pub imported : IdempotencyStore → IdempotencyTombstone → ℕ → IdempotencyStore
imported s t now =
    if leb (now - t.created_at) s.retention_ms
    then record s { tombstones = set (tombstone_key t) t s.tombstones }
    else s

unfoldable pub import_tombstones :
    IdempotencyStore → List IdempotencyTombstone → ℕ → IdempotencyStore
import_tombstones s [] now = s
import_tombstones s (t ∷ ts) now = import_tombstones (imported s t now) ts now

unfoldable pub hydrate : IdempotencyStore → List IdempotencyTombstone → ℕ → IdempotencyStore × ℕ
hydrate s entries now =
    let s' = evict_overflow (import_tombstones s entries now) in (s', length s'.tombstones)

unfoldable pub reap_expired : IdempotencyStore → ℕ → IdempotencyStore × ℕ
reap_expired s now =
    let kept = retain (λ t. not (is_stale s now t)) s.tombstones in
    (record s { tombstones = kept }, length s.tombstones - length kept)
