-- ===== src/Lease/Examples.antt =====
-- leaseManager.ts: runs of the manager at concrete inputs.
use pinout.Prelude.{
  ◌≡◌, refl, true, not, ◌&&◌, none, some, List, [], ◌∷◌, ◌++◌, IssuedId, issued_id_eq, arith,
  ne_of_beq, string_eq, int, pos, ok, err, any, keep, inr, if◌then◌else◌,
}
use pinout.Prelude.Map.{get, set, retain, values, delete}
use pinout.Lease.{
  exclusive, shared_read, device, capability, Lease, LeaseManager, AcquireLeaseOptions,
  lease_conflict, init, acquire, renew, release, permits, scan, reap_expired, drain_expired,
  find_conflict, scopes_overlap, capabilities_meet, clamp_ttl, is_expired, new_lease, insert_lease,
  drop_lease,
}
use pinout.Lease.Exclusion.{IsValid}
use pinout.Lease.History.{Call, acquires, releases, run, step, run-init-IsValid}
use pinout.Lease.Permits.{grants, forbids, permits_lem}
use pinout.Lease.Expiry.{acquire_after_ttl}
use pinout.Lease.Ownership.{step-keeps}
use pinout.Lease.Outcome.{is_err, stands_in_the_way, live, acquire_outcome}

-- All that a run of the manager computes with.
lease_manager : Unit {0}
unfolding acquire renew release permits scan reap_expired drain_expired find_conflict scopes_overlap
    capabilities_meet clamp_ttl is_expired new_lease insert_lease drop_lease init run step get set
    retain delete
lease_manager = tt

abbrev arm_request : AcquireLeaseOptions
arm_request = record {
  scope = capability "arm" ("motion.move_to" ∷ "gripper.close" ∷ []);
  owner = "ann";
  ttl_ms = some (int (pos 1_000));
  mode = none;
}

abbrev device_request : AcquireLeaseOptions
device_request = record {
  scope = device "arm";
  owner = "bob";
  ttl_ms = none;
  mode = some shared_read;
}

abbrev held_id : IssuedId
held_id = record { sequence = 1; suffix = "k3x" }

abbrev held_lease : Lease
held_lease = record {
  id = held_id;
  mode = exclusive;
  scope = arm_request.scope;
  owner = "ann";
  created_at = 10;
  expires_at = 1_010;
  renewable = true;
}

abbrev calls : List Call
calls = acquires arm_request 10 "k3x" ∷ []

abbrev held : LeaseManager
held = run (init none) calls

held_stored : get held_id held.leases ≡ some held_lease
unfolding lease_manager
held_stored = refl

bob_is_refused : (acquire held device_request 500 "zz").1 ≡ err (lease_conflict held_id "ann" 1_010)
unfolding lease_manager
bob_is_refused = refl

ann_is_permitted : (permits held "ann" "arm" "gripper.close" exclusive 500).1.permitted ≡ true
unfolding lease_manager
ann_is_permitted = refl

run-init-IsValid_example : IsValid held
run-init-IsValid_example = run-init-IsValid none calls

permits_lem_example : (permits held "bob" "arm" "gripper.close" shared_read 500).1.permitted ≡ (
    any
      (grants "bob" "arm" "gripper.close" shared_read)
      (keep (λ l. not (is_expired 500 l)) (values held.leases))
    && not (
        any
          (forbids "bob" "arm" "gripper.close" shared_read)
          (keep (λ l. not (is_expired 500 l)) (values held.leases))))
permits_lem_example = permits_lem held "bob" "arm" "gripper.close" shared_read 500

acquire_after_ttl_example :
    (l : Lease) × ((acquire held device_request 300_010 "zz").1 ≡ ok l)
    × (l.owner ≡ "bob")
    × (l.scope ≡ device "arm")
unfolding init
acquire_after_ttl_example =
    acquire_after_ttl none calls 10 300_010 device_request "zz" (omega arith) (omega arith)

step-keeps_example : get held_id (step held (releases held_id "bob")).leases ≡ some held_lease
step-keeps_example =
    step-keeps held held_id held_lease (run-init-IsValid none calls) held_stored
      (releases held_id "bob") (inr (ne_of_beq "ann" "bob" refl))

acquire_outcome_example :
    let r = acquire held device_request 500 "zz" in
    let blocked = any (stands_in_the_way device_request) (live held 500) in
    (is_err r.1 ≡ blocked)
    × (values r.0.leases ≡ (
        if blocked
        then live held 500
        else live held 500 ++ new_lease (reap_expired held 500).0 device_request 500 "zz" ∷ []))
acquire_outcome_example = acquire_outcome held device_request 500 "zz" (run-init-IsValid none calls)
