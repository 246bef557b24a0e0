-- ===== src/Lease/Expiry.antt =====
-- leaseManager.ts: a lease runs out within the longest ttl, so a crashed owner cannot hold a device.
use pinout.Prelude.{
  IssuedId, issued_id_eq, ℕ, ◌+◌, ◌≤◌, ◌≡◌, ◌∙◌, refl, max, not, Option, List, [], ◌∷◌, String,
  arith, Num, not_finite, int, pos, negsuc, All, keep, ok, or_default,
}
use pinout.Prelude.Map.{values, values-retain}
use pinout.Prelude.Map.Laws.{All-set, All-delete, All-retain}
use pinout.Lease.{
  Lease, AcquireLeaseOptions, LeaseManager, init, clamp_ttl, is_expired, drain_expired,
  reap_expired, find_conflict, new_lease, insert_lease, acquire, extended, drop_lease, renew,
  release, force_release, get_lease, list, permits,
}
use pinout.Lease.Cases.{acquire_cases, renew_cases}
use pinout.Lease.History.{
  Call, acquires, renews, releases, force_releases, gets, lists, asks, drains, step, run,
}

pub clamp_ttl_bounds : (m : LeaseManager) (ttl : Num) → clamp_ttl m ttl ≤ max 1 m.max_ttl_ms
unfolding clamp_ttl
clamp_ttl_bounds m not_finite = omega arith
clamp_ttl_bounds m (int (pos n)) = ground arith
clamp_ttl_bounds m (int (negsuc n)) = omega arith

-- Every stored lease ends at most the longest ttl after `t`, and the limit is still `limit`.
pub record Bounded (limit t : ℕ) (m : LeaseManager) : Type 0 where
  pub limit_kept : m.max_ttl_ms ≡ limit
  pub ends : All (λ l. l.expires_at ≤ t + max 1 limit) (values m.leases)

-- The call reads the clock no later than `t`.
abbrev pub ReadsBy : ℕ → Call → Type 0
ReadsBy t (acquires _ now _) = now ≤ t
ReadsBy t (renews _ _ _ now) = now ≤ t
ReadsBy t (releases _ _) = Unit
ReadsBy t (force_releases _) = Unit
ReadsBy t (gets _ now) = now ≤ t
ReadsBy t (lists _ _ now) = now ≤ t
ReadsBy t (asks _ _ _ _ now) = now ≤ t
ReadsBy t (drains now) = now ≤ t

module _ {limit t : ℕ} where
  drop_lease-Bounded :
      (m : LeaseManager) (id : IssuedId) → Bounded limit t m → Bounded limit t (drop_lease m id)
  unfolding drop_lease
  drop_lease-Bounded m id b = record {
    limit_kept = b.limit_kept;
    ends = All-delete _ id m.leases b.ends;
  }

  drain_expired-Bounded :
      (m : LeaseManager) (now : ℕ) → Bounded limit t m → Bounded limit t (drain_expired m now).0
  unfolding drain_expired
  drain_expired-Bounded m now b = record {
    limit_kept = b.limit_kept;
    ends = All-retain _ (λ l. not (is_expired now l)) m.leases b.ends;
  }

  reap_expired-Bounded :
      (m : LeaseManager) (now : ℕ) → Bounded limit t m → Bounded limit t (reap_expired m now).0
  unfolding reap_expired
  reap_expired-Bounded m now b = drain_expired-Bounded m now b

  insert_lease-Bounded :
      (m : LeaseManager) (o : AcquireLeaseOptions) (now : ℕ) (suffix : String)
      → now ≤ t
      → Bounded limit t m
      → Bounded limit t (insert_lease m (new_lease m o now suffix))
  unfolding insert_lease new_lease
  insert_lease-Bounded m o now suffix h b = record {
    limit_kept = b.limit_kept;
    ends =
        All-set _ _ (new_lease m o now suffix) m.leases
          (omega (arith, b.limit_kept, clamp_ttl_bounds m (or_default o.ttl_ms (int (pos 60_000)))))
          b.ends;
  }

  acquire-Bounded :
      (m : LeaseManager) (o : AcquireLeaseOptions) (now : ℕ) (suffix : String)
      → now ≤ t
      → Bounded limit t m
      → Bounded limit t (acquire m o now suffix).0
  acquire-Bounded m o now suffix h b =
      let b' = reap_expired-Bounded m now b in
      acquire_cases (λ r. Bounded limit t r.0) m o now suffix (λ l e. b')
        λ e. insert_lease-Bounded _ o now suffix h b'

  renew-Bounded :
      (m : LeaseManager) (id : IssuedId) (owner : String) (ttl : Option Num) (now : ℕ)
      → now ≤ t
      → Bounded limit t m
      → Bounded limit t (renew m id owner ttl now).0
  renew-Bounded m id owner ttl now h b =
      renew_cases (λ r. Bounded limit t r.0) m id owner ttl now (λ e. drop_lease-Bounded m id b)
        (λ l e x. drop_lease-Bounded m id b) (λ l e x o. b)
        λ l e x o. record {
          limit_kept = b.limit_kept;
          ends =
              All-set _ id (extended m l ttl now) m.leases
                (omega
                  (arith, b.limit_kept, clamp_ttl_bounds m (or_default ttl (int (pos 60_000)))))
                b.ends;
        }

  step-Bounded :
      (m : LeaseManager) (c : Call) → ReadsBy t c → Bounded limit t m → Bounded limit t (step m c)
  unfolding step force_release list permits release get_lease
  step-Bounded m (acquires o now suffix) h b = acquire-Bounded m o now suffix h b
  step-Bounded m (renews id owner ttl now) h b = renew-Bounded m id owner ttl now h b
  step-Bounded m (releases id owner) h b = ground (arith, drop_lease-Bounded m id b)
  step-Bounded m (force_releases id) h b = drop_lease-Bounded m id b
  step-Bounded m (gets id now) h b = ground (arith, drop_lease-Bounded m id b)
  step-Bounded m (lists _ _ now) h b = reap_expired-Bounded m now b
  step-Bounded m (asks _ _ _ _ now) h b = reap_expired-Bounded m now b
  step-Bounded m (drains now) h b = drain_expired-Bounded m now b

  run-Bounded :
      (m : LeaseManager) (cs : List Call)
      → All (ReadsBy t) cs
      → Bounded limit t m
      → Bounded limit t (run m cs)
  unfolding run
  run-Bounded m [] h b = b
  run-Bounded m (c ∷ cs) (h, k) b = run-Bounded (step m c) cs k (step-Bounded m c h b)

expired_out :
    (limit t now : ℕ) (ls : List Lease)
    → t + max 1 limit ≤ now
    → All (λ l. l.expires_at ≤ t + max 1 limit) ls
    → keep (λ l. not (is_expired now l)) ls ≡ []
unfolding is_expired
expired_out limit t now [] h a = refl
expired_out limit t now (l ∷ ls) h (e, a) = ground (arith, expired_out limit t now ls h a)

init-Bounded : (max_ttl : Option ℕ) (t : ℕ) → Bounded (init max_ttl).max_ttl_ms t (init max_ttl)
unfolding init
init-Bounded max_ttl t = record { limit_kept = refl; ends = tt }

reaped_empty :
    (max_ttl : Option ℕ) (cs : List Call) (t now : ℕ)
    → All (ReadsBy t) cs
    → t + max 1 (init max_ttl).max_ttl_ms ≤ now
    → values (reap_expired (run (init max_ttl) cs) now).0.leases ≡ []
unfolding reap_expired drain_expired
reaped_empty max_ttl cs t now h late =
    let m = run (init max_ttl) cs in
    let b =
      run-Bounded {limit = (init max_ttl).max_ttl_ms} {t = t} (init max_ttl) cs h
        (init-Bounded max_ttl t) in
    values-retain (λ l. not (is_expired now l)) m.leases
    ∙ expired_out (init max_ttl).max_ttl_ms t now (values m.leases) late b.ends

-- After any calls that read the clock by `t`, nothing is leased any more once the longest ttl has
-- passed since `t`: every request is granted, whatever its scope and mode and whoever asks.
pub acquire_after_ttl :
    (max_ttl : Option ℕ) (cs : List Call) (t now : ℕ) (o : AcquireLeaseOptions) (suffix : String)
    → All (ReadsBy t) cs
    → t + max 1 (init max_ttl).max_ttl_ms ≤ now
    → (l : Lease) × ((acquire (run (init max_ttl) cs) o now suffix).1 ≡ ok l)
      × (l.owner ≡ o.owner)
      × (l.scope ≡ o.scope)
unfolding acquire find_conflict new_lease
acquire_after_ttl max_ttl cs t now o suffix h late =
    let m = run (init max_ttl) cs in
    let empty : values (reap_expired m now).0.leases ≡ [] = reaped_empty max_ttl cs t now h late in
    (new_lease (reap_expired m now).0 o now suffix, rw (empty, acquire), refl, refl)
