-- ===== src/Operation/Dedupe.antt =====
-- operationManager.ts: a repeated `begin` does not run a command twice, whatever came in between.
use mathlib.Core.Logic.{◌⊎◌}
use pinout.Prelude.{
  ℕ, ◌-◌, ◌≤◌, ◌<◌, ◌≡◌, ◌∙◌, refl, sym, ap, subst, true, false, none, some, List, String,
  issued_id_eq, nat_eq, arith, Option-cases, Bool-cases, inl, inr, All,
}
use pinout.Prelude.Map.{get, set, has, get-delete_self}
use pinout.Idempotency.{
  IdempotencyStore, IdempotencyTombstone, IdempotencyLookup, miss, hit, expired_or_evicted, lookup,
  key_for, size, ScopedKey, scoped_key_eq, is_stale,
}
use pinout.Idempotency.Bounds.{lookup-WithinLimit}
use pinout.Idempotency.Remembers.{Remembers, record_under-self-Remembers}
use pinout.Operation.History.{Call, run}
use pinout.Operation.{OperationManager, truthy}
use pinout.Operation.Begin.{
  BeginOperationOptions, BeginResult, begin, begin_at, begin_new, begin_again, insert_object,
  new_tombstone,
}
use pinout.Operation.Remembered.{
  begin_keyed, begin_new-store, begin_repeat, run-Remembers, new_id, is_hit, in_time, other_keys,
  command_key,
}

-- The same command for the idempotency store.
abbrev pub Repeats : BeginOperationOptions → BeginOperationOptions → Type 0
Repeats a b =
    (b.device_id ≡ a.device_id)
    × (b.capability ≡ a.capability)
    × (b.owner ≡ a.owner)
    × (truthy b.idempotency_key ≡ truthy a.idempotency_key)

lookup-new :
    (s : IdempotencyStore) (k : ScopedKey) (now : ℕ) (l : IdempotencyLookup)
    → (lookup s k now).1 ≡ l
    → is_hit l ≡ false
    → (get k (lookup s k now).0.tombstones ≡ none)
      × ((lookup s k now).0.retention_ms ≡ s.retention_ms)
unfolding lookup
lookup-new s k now l q h = elim (Option-cases (get k s.tombstones)) [
  | inl e ↦ rw (e, lookup) (e, refl)
  | inr (t, e) ↦ elim (Bool-cases (is_stale s now t)) [
    | inl old ↦ rw (e, lookup) (rw old (get-delete_self k s.tombstones, refl))
    | inr fresh ↦ absurd (ground (arith, q, e, fresh, h))
  ]
]

begin_again-deduped :
    (m : OperationManager) (t : IdempotencyTombstone) → (begin_again m t).1.deduped ≡ true
unfolding begin_again
begin_again-deduped m t = elim (Bool-cases (has t.operation_id m.operations)) [
  | inl h ↦ rw (h, begin_again) refl
  | inr h ↦ rw (h, begin_again) refl
]

begin_at-new :
    (l : IdempotencyLookup) (m : OperationManager) (o : BeginOperationOptions) (now : ℕ)
    (random : String)
    → (begin_at l m o now random).1.deduped ≡ false
    → (is_hit l ≡ false) × (begin_at l m o now random ≡ begin_new m o now random)
unfolding begin_at
begin_at-new (hit t) m o now random new = absurd (ground (arith, begin_again-deduped m t))
begin_at-new miss m o now random new = (refl, refl)
begin_at-new expired_or_evicted m o now random new = (refl, refl)

-- A command that starts an operation is remembered with it.
begin-new-Remembers :
    (m : OperationManager) (o : BeginOperationOptions) (now : ℕ) (random key : String)
    → truthy o.idempotency_key ≡ some key
    → 0 < m.store.max_entries
    → size m.store ≤ m.store.max_entries
    → (begin m o now random).1.deduped ≡ false
    → Remembers
        (key_for o.device_id o.capability o.owner key)
        (begin m o now random).1.id
        now
        m.store.max_entries
        m.store.retention_ms
        0
        (begin m o now random).0.store
unfolding new_tombstone begin_new lookup size
begin-new-Remembers m o now random key e p within new =
    let k = key_for o.device_id o.capability o.owner key in
    let looked = lookup m.store k now in
    let m' = record m { store = looked.0 } in
    let first : begin m o now random ≡ begin_at looked.1 m' o now random =
      begin_keyed m o now random key e in
    let (missed, made) =
      begin_at-new looked.1 m' o now random (ap (λ r. r.1.deduped) (sym first) ∙ new) in
    let (limited, small) = lookup-WithinLimit m.store.max_entries m.store k now (refl, within) in
    let (absent, kept_for) = lookup-new m.store k now looked.1 refl missed in
    let whole : begin m o now random ≡ begin_new m' o now random = first ∙ made in
    subst (λ r. Remembers k r.1.id now m.store.max_entries m.store.retention_ms 0 r.0.store)
      (sym whole)
      (rw (begin_new-store m' o now random key e) (
        record_under-self-Remembers k _ now m.store.max_entries m.store.retention_ms looked.0
          (new_tombstone o (new_id m' o now random key e) key now) now 0 p small limited kept_for
          refl refl absent))

-- The call began nothing, and lists at most the operation that it answered with.
abbrev pub Deduplicated : OperationManager → OperationManager × BeginResult → Type 0
Deduplicated before second =
    (second.1.deduped ≡ true)
    × (second.0.events ≡ before.events)
    × (second.0.tasks ≡ before.tasks)
    × ((second.0.operations ≡ before.operations)
        ⊎ (second.0.operations ≡ set second.1.id before.next_object before.operations))

begin_again-Deduplicated :
    (m : OperationManager) (t : IdempotencyTombstone)
    → ((begin_again m t).1.id ≡ t.operation_id) × Deduplicated m (begin_again m t)
unfolding begin_again insert_object
begin_again-Deduplicated m t = elim (Bool-cases (has t.operation_id m.operations)) [
  | inl h ↦ rw (h, begin_again) (refl, (refl, refl, refl, inl refl))
  | inr h ↦ rw (h, begin_again) (refl, (refl, refl, refl, inr refl))
]

-- A command with an idempotency key that starts an operation is not run again by a repetition within
-- the retention, whatever calls and steps of tasks come in between, if the store is within its limit
-- and those calls bring fewer commands under other keys than the limit, and repeat the command
-- itself only within the retention. The repetition is answered with the same operation, queues no
-- task and announces nothing, and lists at most that operation again.
pub begin_twice :
    (m : OperationManager) (options again : BeginOperationOptions) (now later : ℕ)
    (random random' key : String) (between : List Call)
    → truthy options.idempotency_key ≡ some key
    → Repeats options again
    → size m.store ≤ m.store.max_entries
    → (begin m options now random).1.deduped ≡ false
    → All (λ c. in_time (command_key options key) now m.store.retention_ms c ≡ true) between
    → other_keys (command_key options key) between < m.store.max_entries
    → later - now ≤ m.store.retention_ms
    → let first = begin m options now random in
      let before = run first.0 between in
      let second = begin before again later random' in
      (second.1.id ≡ first.1.id) × Deduplicated before second
begin_twice m options again now later random random' key between e same within new intime few
      recent =
    let k = key_for options.device_id options.capability options.owner key in
    let first = begin m options now random in
    let before = run first.0 between in
    let (d, c, o, q) = same in
    let remembered =
      run-Remembers k first.1.id now m.store.max_entries m.store.retention_ms 0 first.0 between
        intime (omega (arith, few))
        (begin-new-Remembers m options now random key e (omega (arith, few)) within new) in
    let (t, s, answered, names, _) =
      begin_repeat k first.1.id now m.store.max_entries m.store.retention_ms _ before again later
        random' key (q ∙ e) (rw (d, c, o) refl) recent remembered in
    let (id, deduplicated) = begin_again-Deduplicated (record before { store = s }) t in
    subst (λ r. (r.1.id ≡ first.1.id) × Deduplicated before r) (sym answered)
      (id ∙ names, deduplicated)
