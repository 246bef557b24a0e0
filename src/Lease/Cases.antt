-- ===== src/Lease/Cases.antt =====
-- leaseManager.ts: the ways through `acquire` and `renew`.
use pinout.Prelude.{
  ℕ, ◌≡◌, true, false, Option, none, some, String, ◌==◌, string_eq, IssuedId, issued_id_eq,
  Option-cases, Bool-cases, inl, inr, or_default, Num, Result, ok, err,
}
use pinout.Prelude.Map.{values, get, set}
use pinout.Lease.{
  AcquireLeaseOptions, Lease, LeaseError, LeaseManager, acquire, drop_lease, exclusive, extended,
  find_conflict, insert_lease, is_expired, lease_conflict, lease_expired, lease_not_owner,
  new_lease, reap_expired, renew,
}

-- A call of `acquire` either meets a conflict or inserts the new lease.
pub acquire_cases {ℓ} :
    (P : LeaseManager × Result LeaseError Lease → Type ℓ) (m : LeaseManager)
    (options : AcquireLeaseOptions) (now : ℕ) (suffix : String)
    → let m' = (reap_expired m now).0 in
      let found =
        find_conflict (or_default options.mode exclusive) options.scope (values m'.leases) in
      ((l : Lease) → found ≡ some l → P (m', err (lease_conflict l.id l.owner l.expires_at)))
      → (found ≡ none
          → P (
            insert_lease m' (new_lease m' options now suffix),
            ok (new_lease m' options now suffix),
          ))
      → P (acquire m options now suffix)
unfolding acquire
acquire_cases P m options now suffix conflict fresh =
    elim (Option-cases (
      find_conflict (or_default options.mode exclusive) options.scope
        (values (reap_expired m now).0.leases))) [
          | inl e ↦ rw (e, acquire) (fresh e)
          | inr (l, e) ↦ rw (e, acquire) (conflict l e)
        ]

-- The four ways through `renew`.
pub renew_cases {ℓ} :
    (P : LeaseManager × Result LeaseError Lease → Type ℓ) (m : LeaseManager) (id : IssuedId)
    (owner : String) (ttl_ms : Option Num) (now : ℕ)
    → (get id m.leases ≡ none → P (drop_lease m id, err (lease_expired id)))
    → ((l : Lease)
        → get id m.leases ≡ some l
        → is_expired now l ≡ true
        → P (drop_lease m id, err (lease_expired id)))
    → ((l : Lease)
        → get id m.leases ≡ some l
        → is_expired now l ≡ false
        → (l.owner == owner) ≡ false
        → P (m, err (lease_not_owner id l.owner)))
    → ((l : Lease)
        → get id m.leases ≡ some l
        → is_expired now l ≡ false
        → (l.owner == owner) ≡ true
        → P (
          record m { leases = set id (extended m l ttl_ms now) m.leases },
          ok (extended m l ttl_ms now),
        ))
    → P (renew m id owner ttl_ms now)
unfolding renew
renew_cases P m id owner ttl_ms now unknown expired foreign own =
    elim (Option-cases (get id m.leases)) [
      | inl e ↦ rw (e, renew) (unknown e)
      | inr (l, e) ↦ elim (Bool-cases (is_expired now l)) [
        | inl t ↦ rw (e, renew) (rw t (expired l e t))
        | inr t ↦ elim (Bool-cases (l.owner == owner)) [
          | inl o ↦ rw (e, renew) (rw (t, o) (own l e t o))
          | inr o ↦ rw (e, renew) (rw (t, o) (foreign l e t o))
        ]
      ]
    ]
