-- ===== src/Idempotency/Examples.antt =====
-- idempotencyStore.ts: runs of the store at concrete inputs.
use pinout.Prelude.{ℕ, ◌≤◌, ◌≡◌, refl, none, some, [], ◌∷◌, String}
use pinout.Prelude.Map.{get, set, delete}
use pinout.Snapshot.{running}
use pinout.Idempotency.{
  IdempotencyStore, IdempotencyTombstone, ScopedKey, scoped_key_eq, hit, touched, init, lookup,
  record_under, evict_overflow, drop_overflow, is_stale, size,
}
use pinout.Idempotency.Bounds.{records, run, size-run-init}

idempotency_store : Unit {0}
unfolding init lookup record_under evict_overflow drop_overflow is_stale size get set delete
idempotency_store = tt

abbrev tombstone : ℕ → IdempotencyTombstone
tombstone n = record {
  operation_id = record { sequence = n; suffix = "a" };
  device_id = "arm";
  capability = "motion.move_to";
  owner = none;
  idempotency_key = "k";
  status = running;
  created_at = 5;
  result = none;
  error = none;
  last_used_at = 5;
}

abbrev key : String → ScopedKey
key k = record { device_id = "arm"; capability = "motion.move_to"; owner = none; key = k }

abbrev pair_store : IdempotencyStore
pair_store = record_under (init (some 2) none) (key "k1") (tombstone 1) 5

first_hit : (lookup pair_store (key "k1") 8).1 ≡ hit (touched (tombstone 1) 8)
unfolding idempotency_store
first_hit = refl

size-run-init_example :
    size (
      run
        (init (some 1) none)
        (records (key "a") (tombstone 1) 5 ∷ records (key "b") (tombstone 2) 6 ∷ []))
    ≤ 1
size-run-init_example =
    size-run-init (some 1) none
      (records (key "a") (tombstone 1) 5 ∷ records (key "b") (tombstone 2) 6 ∷ [])
