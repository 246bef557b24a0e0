-- ===== src/Lease.antt =====
-- packages/core/src/lease/leaseManager.ts: the lease manager.
-- The clock is read once in each call and handed over as `now`; times are in milliseconds. The
-- leases of the map are objects that only the manager holds (callers get copies), so a mutation is
-- a `set`.
pub mod Exclusion
pub mod History
pub mod Permits
pub mod Expiry
pub mod Ownership
pub mod Outcome
pub mod Cases
mod Examples
use pinout.Prelude.{
  ℕ, ◌+◌, ◌≡◌, ◌↔◌, Bool, true, false, not, ◌&&◌, ◌||◌, Option, none, some, List, [], ◌∷◌, String,
  Eq, ◌==◌, string_eq, IssuedId, issued_id_eq, eq_iff, nat_beq, arith, ltb, leb, min, if◌then◌else◌,
  Option-cases, Bool-cases, inl, inr, or_default, any, keep, Num, not_finite, int, pos, negsuc,
  Result, ok, err, length,
}
use pinout.Prelude.Map.{Map, values, get, set, delete, retain}

pub data LeaseMode : Type 0 where
  exclusive shared_read : LeaseMode

pub data LeaseScope : Type 0 where
  device : String → LeaseScope
  capability : String → List String → LeaseScope

pub record Lease : Type 0 where
  pub id : IssuedId
  pub mode : LeaseMode
  pub scope : LeaseScope
  pub owner : String
  pub created_at : ℕ
  pub expires_at : ℕ
  pub renewable : Bool

-- `wait` is accepted by the source and read by nothing.
pub record AcquireLeaseOptions : Type 0 where
  pub scope : LeaseScope
  pub owner : String
  pub ttl_ms : Option Num
  pub mode : Option LeaseMode

pub data LeaseError : Type 0 where
  lease_conflict : IssuedId → String → ℕ → LeaseError
  lease_expired : IssuedId → LeaseError
  lease_not_owner : IssuedId → String → LeaseError

abbrev pub default_ttl_ms : ℕ
default_ttl_ms = 60_000

abbrev pub default_max_lease_ttl_ms : ℕ
default_max_lease_ttl_ms = 300_000

pub record LeaseManager : Type 0 where
  pub leases : Map IssuedId Lease
  pub sequence : ℕ
  pub max_ttl_ms : ℕ

unfoldable pub init : Option ℕ → LeaseManager
init max = record {
  leases = [];
  sequence = 0;
  max_ttl_ms = or_default max default_max_lease_ttl_ms;
}

abbrev pub device_of : LeaseScope → String
device_of (device d) = d
device_of (capability d _) = d

abbrev pub lease_covers_device : Lease → String → Bool
lease_covers_device lease device_id = device_of lease.scope == device_id

abbrev pub includes : List String → String → Bool
includes xs x = any (λ y. y == x) xs

-- The last two lines of `scopesOverlap`: a device scope on either side, or a common capability.
unfoldable pub capabilities_meet : LeaseScope → LeaseScope → Bool
capabilities_meet a (device _) = true
capabilities_meet (device _) (capability _ _) = true
capabilities_meet (capability _ cs) (capability _ ds) = any (λ c. includes cs c) ds

unfoldable pub scopes_overlap : Lease → LeaseScope → Bool
scopes_overlap a b =
    if lease_covers_device a (device_of b) then capabilities_meet a.scope b else false

abbrev pub is_exclusive : LeaseMode → Bool
is_exclusive exclusive = true
is_exclusive shared_read = false

unfoldable pub clamp_ttl : LeaseManager → Num → ℕ
clamp_ttl m not_finite = 1
clamp_ttl m (int (negsuc _)) = 1
clamp_ttl m (int (pos n)) = if ltb n 1 then 1 else min n m.max_ttl_ms

unfoldable pub is_expired : ℕ → Lease → Bool
is_expired now lease = leb lease.expires_at now

-- The leases that are drained, and the manager without them.
unfoldable pub drain_expired : LeaseManager → ℕ → LeaseManager × List Lease
drain_expired m now = (
  record m { leases = retain (λ l. not (is_expired now l)) m.leases },
  keep (is_expired now) (values m.leases),
)

unfoldable pub reap_expired : LeaseManager → ℕ → LeaseManager × ℕ
reap_expired m now = let (m', expired) = drain_expired m now in (m', length expired)

-- The loop of `acquire`: the first lease that conflicts.
unfoldable pub find_conflict : LeaseMode → LeaseScope → List Lease → Option Lease
find_conflict mode scope [] = none
find_conflict mode scope (lease ∷ rest) =
    if scopes_overlap lease scope && (is_exclusive lease.mode || is_exclusive mode)
    then some lease
    else find_conflict mode scope rest

-- The lease that `acquire` makes; `suffix` is the random part of its id.
unfoldable pub new_lease : LeaseManager → AcquireLeaseOptions → ℕ → String → Lease
new_lease m options now suffix = record {
  id = record { sequence = m.sequence + 1; suffix = suffix };
  mode = or_default options.mode exclusive;
  scope = options.scope;
  owner = options.owner;
  created_at = now;
  expires_at = now + clamp_ttl m (or_default options.ttl_ms (int (pos default_ttl_ms)));
  renewable = true;
}

unfoldable pub insert_lease : LeaseManager → Lease → LeaseManager
insert_lease m lease = record m { leases = set lease.id lease m.leases; sequence = m.sequence + 1 }

unfoldable pub acquire :
    LeaseManager → AcquireLeaseOptions → ℕ → String → LeaseManager × Result LeaseError Lease
acquire m options now suffix =
    let m' = (reap_expired m now).0 in
    elim (find_conflict (or_default options.mode exclusive) options.scope (values m'.leases)) [
      | some l ↦ (m', err (lease_conflict l.id l.owner l.expires_at))
      | none ↦ let lease = new_lease m' options now suffix in (insert_lease m' lease, ok lease)
    ]

unfoldable pub drop_lease : LeaseManager → IssuedId → LeaseManager
drop_lease m id = record m { leases = delete id m.leases }

-- The lease with the new expiry that `renew` writes into it.
abbrev pub extended : LeaseManager → Lease → Option Num → ℕ → Lease
extended m lease ttl_ms now = record lease {
  expires_at = now + clamp_ttl m (or_default ttl_ms (int (pos default_ttl_ms)));
}

unfoldable pub renew :
    LeaseManager → IssuedId → String → Option Num → ℕ → LeaseManager × Result LeaseError Lease
renew m id owner ttl_ms now = elim (get id m.leases) [
  | none ↦ (drop_lease m id, err (lease_expired id))
  | some lease ↦
      if is_expired now lease
      then (drop_lease m id, err (lease_expired id))
      else if not (lease.owner == owner)
      then (m, err (lease_not_owner id lease.owner))
      else let ttl = clamp_ttl m (or_default ttl_ms (int (pos default_ttl_ms))) in
        let renewed = record lease { expires_at = now + ttl } in
        (record m { leases = set id renewed m.leases }, ok renewed)
]

unfoldable pub release :
    LeaseManager → IssuedId → String → LeaseManager × Result LeaseError (Unit {0})
release m id owner = elim (get id m.leases) [
  | none ↦ (m, ok tt)
  | some lease ↦
      if not (lease.owner == owner)
      then (m, err (lease_not_owner id lease.owner))
      else (drop_lease m id, ok tt)
]

unfoldable pub force_release : LeaseManager → IssuedId → LeaseManager
force_release m id = drop_lease m id

unfoldable pub get_lease : LeaseManager → IssuedId → ℕ → LeaseManager × Option Lease
get_lease m id now = elim (get id m.leases) [
  | none ↦ (m, none)
  | some lease ↦ if is_expired now lease then (drop_lease m id, none) else (m, some lease)
]

-- `filter.owner && lease.owner !== filter.owner`: an empty text filters nothing.
abbrev passes : Option String → Bool → Bool
passes none same = true
passes (some wanted) same = wanted == "" || same

unfoldable pub list : LeaseManager → Option String → Option String → ℕ → LeaseManager × List Lease
list m owner device_id now =
    let m' = (reap_expired m now).0 in
    (
      m',
      keep
          (λ l.
            passes owner (l.owner == or_default owner "")
            && passes device_id (lease_covers_device l (or_default device_id "")))
          (values m'.leases),
    )

pub record Verdict : Type 0 where
  pub permitted : Bool
  pub conflict : Option Lease

abbrev pub covers_capability : LeaseScope → String → Bool
covers_capability (device _) c = true
covers_capability (capability _ cs) c = includes cs c

-- The lease covers the capability on the device.
abbrev pub covers : Lease → String → String → Bool
covers lease device_id c = lease_covers_device lease device_id && covers_capability lease.scope c

-- The loop of `permits`, with `held` for `ownerHasRequiredLease`.
unfoldable pub scan : String → String → String → LeaseMode → Bool → List Lease → Verdict
scan owner device_id c mode held [] = record { permitted = held; conflict = none }
scan owner device_id c mode held (lease ∷ rest) =
    let skipped = scan owner device_id c mode held rest in
    let own =
      scan owner device_id c mode (not (is_exclusive mode) || is_exclusive lease.mode || held)
        rest in
    if not (covers lease device_id c)
    then skipped
    else if lease.owner == owner
    then own
    else if not (is_exclusive mode) && not (is_exclusive lease.mode)
    then skipped
    else record { permitted = false; conflict = some lease }

unfoldable pub permits :
    LeaseManager → String → String → String → LeaseMode → ℕ → LeaseManager × Verdict
permits m owner device_id c mode now =
    let m' = (reap_expired m now).0 in (m', scan owner device_id c mode false (values m'.leases))
