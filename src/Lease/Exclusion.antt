-- ===== src/Lease/Exclusion.antt =====
-- leaseManager.ts: no two stored leases cover one capability of one device, unless both are shared.
use pinout.Prelude.{
  IssuedId, issued_id_eq, ℕ, ◌+◌, ◌≤◌, ◌<◌, ◌≡◌, refl, inl, inr, true, false, not, ◌&&◌, ◌||◌,
  Option, none, List, [], ◌∷◌, String, string_eq, ◌==◌, eq_of_beq, eq_iff, arith, Bool-cases, any,
  All, All-map, Pairwise, Pairwise-append_last, Num,
}
use pinout.Prelude.Map.{Map, values, get, retain}
use pinout.Prelude.Map.Laws.{
  DistinctKeys, delete-DistinctKeys, set-DistinctKeys, retain-DistinctKeys, values-set_new,
  Pairwise-delete, Pairwise-retain, Pairwise-set_old, All-set_entry, All-delete_entry,
  All-retain_entry, All-get_entry,
}
use pinout.Lease.{
  Lease, LeaseMode, LeaseScope, device, capability, device_of, LeaseManager, AcquireLeaseOptions,
  includes, covers, covers_capability, capabilities_meet, scopes_overlap, is_exclusive,
  find_conflict, new_lease, insert_lease, reap_expired, drain_expired, acquire, renew, drop_lease,
  extended, is_expired, init,
}
use pinout.Lease.Cases.{acquire_cases, renew_cases}

-- What mutual exclusion asks of two leases.
abbrev pub Excludes : Lease → Lease → Type 0
Excludes a b =
    (d c : String)
    → (covers a d c && (covers b d c && (is_exclusive a.mode || is_exclusive b.mode))) ≡ false

any-includes :
    (cs ds : List String) (c : String)
    → includes cs c ≡ true
    → includes ds c ≡ true
    → any (λ x. includes cs x) ds ≡ true
any-includes cs [] c h k = ground arith
any-includes cs (d ∷ ds) c h k = elim (Bool-cases (d == c)) [
  | inl t ↦ rw (eq_of_beq d c t, h)
  | inr t ↦ ground (arith, any-includes cs ds c h)
]

capabilities_meet_complete :
    (a b : LeaseScope) (c : String)
    → covers_capability a c ≡ true
    → covers_capability b c ≡ true
    → capabilities_meet a b ≡ true
unfolding capabilities_meet
capabilities_meet_complete (device _) (device _) c h k = refl
capabilities_meet_complete (device _) (capability _ _) c h k = refl
capabilities_meet_complete (capability _ _) (device _) c h k = refl
capabilities_meet_complete (capability _ cs) (capability _ ds) c h k = any-includes cs ds c h k

-- The overlap test of `acquire` finds every pair that covers one capability of one device.
pub scopes_overlap_complete :
    (a b : Lease) (d c : String)
    → covers a d c ≡ true
    → covers b d c ≡ true
    → scopes_overlap a b.scope ≡ true
unfolding scopes_overlap
scopes_overlap_complete a b d c h k = ground (
  arith,
  eq_iff (device_of a.scope) d,
  eq_iff (device_of b.scope) d,
  eq_iff (device_of a.scope) (device_of b.scope),
  capabilities_meet_complete a.scope b.scope c,
)

pub find_conflict-none :
    (mode : LeaseMode) (scope : LeaseScope) (b : Lease) (ls : List Lease)
    → b.mode ≡ mode
    → b.scope ≡ scope
    → find_conflict mode scope ls ≡ none
    → All (λ a. Excludes a b) ls
unfolding find_conflict
find_conflict-none mode scope b [] p q h = tt
find_conflict-none mode scope b (l ∷ ls) p q h = (
  λ d c. ground (arith, scopes_overlap_complete l b d c),
  find_conflict-none mode scope b ls p q (ground arith),
)

pub record IsValid (m : LeaseManager) : Type 0 where
  pub distinct : DistinctKeys m.leases
  pub issued : All (λ e. (e.1.id ≡ e.0) × (e.0.sequence ≤ m.sequence)) m.leases
  pub disjoint : Pairwise Excludes (values m.leases)

pub init-IsValid : (max : Option ℕ) → IsValid (init max)
unfolding init
init-IsValid max = record { distinct = tt; issued = tt; disjoint = tt }

pub drain_expired-IsValid :
    (m : LeaseManager) (now : ℕ) → IsValid m → IsValid (drain_expired m now).0
unfolding drain_expired retain
drain_expired-IsValid m now v = record {
  distinct = retain-DistinctKeys (λ l. not (is_expired now l)) m.leases v.distinct;
  issued = All-retain_entry _ (λ l. not (is_expired now l)) m.leases v.issued;
  disjoint = Pairwise-retain Excludes (λ l. not (is_expired now l)) m.leases v.disjoint;
}

pub reap_expired-IsValid : (m : LeaseManager) (now : ℕ) → IsValid m → IsValid (reap_expired m now).0
unfolding reap_expired
reap_expired-IsValid m now v = drain_expired-IsValid m now v

pub drop_lease-IsValid : (m : LeaseManager) (id : IssuedId) → IsValid m → IsValid (drop_lease m id)
unfolding drop_lease
drop_lease-IsValid m id v = record {
  distinct = delete-DistinctKeys id m.leases v.distinct;
  issued = All-delete_entry _ id m.leases v.issued;
  disjoint = Pairwise-delete Excludes id m.leases v.disjoint;
}

-- A sequence number that was not given out is the id of no stored lease.
pub get_above :
    (n : ℕ) (id : IssuedId) (ls : Map IssuedId Lease)
    → All (λ e. (e.1.id ≡ e.0) × (e.0.sequence ≤ n)) ls
    → n < id.sequence
    → get id ls ≡ none
unfolding get
get_above n id [] a h = refl
get_above n id ((j, l) ∷ ls) ((_, le), a) h = ground (arith, get_above n id ls a h)

insert_lease-IsValid :
    (m : LeaseManager) (lease : Lease)
    → IsValid m
    → lease.id.sequence ≡ m.sequence + 1
    → All (λ a. Excludes a lease) (values m.leases)
    → IsValid (insert_lease m lease)
unfolding insert_lease
insert_lease-IsValid m lease v fresh alone =
    let new : get lease.id m.leases ≡ none =
      get_above m.sequence lease.id m.leases v.issued (omega arith) in
    record {
      distinct = set-DistinctKeys lease.id lease m.leases v.distinct;
      issued =
          All-set_entry _ lease.id lease m.leases (refl, omega arith)
            (All-map (λ e h. (h.0, omega (arith, h.1))) m.leases v.issued);
      disjoint =
          rw (values-set_new lease.id lease m.leases new)
            (Pairwise-append_last Excludes (values m.leases) lease v.disjoint alone);
    }

pub acquire-IsValid :
    (m : LeaseManager) (options : AcquireLeaseOptions) (now : ℕ) (suffix : String)
    → IsValid m
    → IsValid (acquire m options now suffix).0
unfolding new_lease
acquire-IsValid m options now suffix v =
    let v' = reap_expired-IsValid m now v in
    acquire_cases (λ r. IsValid r.0) m options now suffix (λ l e. v')
      λ e.
        let lease = new_lease (reap_expired m now).0 options now suffix in
        insert_lease-IsValid _ lease v' refl (find_conflict-none _ _ lease _ refl refl e)

pub renew-IsValid :
    (m : LeaseManager) (id : IssuedId) (owner : String) (ttl : Option Num) (now : ℕ)
    → IsValid m
    → IsValid (renew m id owner ttl now).0
renew-IsValid m id owner ttl now v =
    renew_cases (λ r. IsValid r.0) m id owner ttl now (λ e. drop_lease-IsValid m id v)
      (λ l e t. drop_lease-IsValid m id v) (λ l e t o. v)
      λ l e t o. record {
        distinct = set-DistinctKeys id _ m.leases v.distinct;
        issued =
            let h = All-get_entry _ id m.leases v.issued e in
            All-set_entry _ id (extended m l ttl now) m.leases h v.issued;
        disjoint =
            Pairwise-set_old Excludes id (extended m l ttl now) m.leases e (λ x h. h) (λ x h. h)
              v.disjoint;
      }
