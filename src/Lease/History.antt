-- ===== src/Lease/History.antt =====
-- leaseManager.ts: sequences of calls of the manager, each with the clock that it reads.
use pinout.Prelude.{
  IssuedId, issued_id_eq, ℕ, Option, List, [], ◌∷◌, String, ◌==◌, string_eq, Num, Bool-cases, inl,
  inr, Option-cases,
}
use pinout.Prelude.Map.{get}
use pinout.Lease.{
  LeaseMode, AcquireLeaseOptions, LeaseManager, init, acquire, renew, release, force_release,
  get_lease, list, permits, drain_expired, is_expired,
}
use pinout.Lease.Exclusion.{
  IsValid, init-IsValid, reap_expired-IsValid, drain_expired-IsValid, drop_lease-IsValid,
  acquire-IsValid, renew-IsValid,
}

pub data Call : Type 0 where
  acquires : AcquireLeaseOptions → ℕ → String → Call
  renews : IssuedId → String → Option Num → ℕ → Call
  releases : IssuedId → String → Call
  force_releases : IssuedId → Call
  gets : IssuedId → ℕ → Call
  lists : Option String → Option String → ℕ → Call
  asks : String → String → String → LeaseMode → ℕ → Call
  drains : ℕ → Call

unfoldable pub step : LeaseManager → Call → LeaseManager
step m (acquires options now suffix) = (acquire m options now suffix).0
step m (renews id owner ttl now) = (renew m id owner ttl now).0
step m (releases id owner) = (release m id owner).0
step m (force_releases id) = force_release m id
step m (gets id now) = (get_lease m id now).0
step m (lists owner device_id now) = (list m owner device_id now).0
step m (asks owner device_id c mode now) = (permits m owner device_id c mode now).0
step m (drains now) = (drain_expired m now).0

unfoldable pub run : LeaseManager → List Call → LeaseManager
run m [] = m
run m (c ∷ cs) = run (step m c) cs

release-IsValid :
    (m : LeaseManager) (id : IssuedId) (owner : String) → IsValid m → IsValid (release m id owner).0
unfolding release
release-IsValid m id owner v = elim (Option-cases (get id m.leases)) [
  | inl e ↦ rw (e, release) v
  | inr (l, e) ↦ elim (Bool-cases (l.owner == owner)) [
    | inl o ↦ rw (e, release) (rw o (drop_lease-IsValid m id v))
    | inr o ↦ rw (e, release) (rw o v)
  ]
]

get_lease-IsValid :
    (m : LeaseManager) (id : IssuedId) (now : ℕ) → IsValid m → IsValid (get_lease m id now).0
unfolding get_lease
get_lease-IsValid m id now v = elim (Option-cases (get id m.leases)) [
  | inl e ↦ rw (e, get_lease) v
  | inr (l, e) ↦ elim (Bool-cases (is_expired now l)) [
    | inl o ↦ rw (e, get_lease) (rw o (drop_lease-IsValid m id v))
    | inr o ↦ rw (e, get_lease) (rw o v)
  ]
]

pub step-IsValid : (m : LeaseManager) (c : Call) → IsValid m → IsValid (step m c)
unfolding step force_release list permits
step-IsValid m (acquires options now suffix) v = acquire-IsValid m options now suffix v
step-IsValid m (renews id owner ttl now) v = renew-IsValid m id owner ttl now v
step-IsValid m (releases id owner) v = release-IsValid m id owner v
step-IsValid m (force_releases id) v = drop_lease-IsValid m id v
step-IsValid m (gets id now) v = get_lease-IsValid m id now v
step-IsValid m (lists owner device_id now) v = reap_expired-IsValid m now v
step-IsValid m (asks owner device_id c mode now) v = reap_expired-IsValid m now v
step-IsValid m (drains now) v = drain_expired-IsValid m now v

run-IsValid : (m : LeaseManager) (cs : List Call) → IsValid m → IsValid (run m cs)
unfolding run
run-IsValid m [] v = v
run-IsValid m (c ∷ cs) v = run-IsValid (step m c) cs (step-IsValid m c v)

-- After any calls on a new manager, whatever the clock reads in each, two stored leases that cover
-- one capability of one device are both shared; the keys are distinct, each lease stands under its
-- own id, and no id was issued beyond the sequence counter.
pub run-init-IsValid : (max : Option ℕ) (cs : List Call) → IsValid (run (init max) cs)
run-init-IsValid max cs = run-IsValid (init max) cs (init-IsValid max)
