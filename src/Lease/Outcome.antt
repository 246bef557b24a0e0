-- ===== src/Lease/Outcome.antt =====
-- leaseManager.ts: when `acquire` succeeds, and what it stores on both branches.
use pinout.Prelude.{
  issued_id_eq, ℕ, ◌≡◌, refl, sym, ap, ◌∙◌, Bool, true, false, not, ◌&&◌, ◌||◌, is_some, List, [],
  ◌∷◌, ◌++◌, String, arith, if◌then◌else◌, any, keep, or_default, Result, ok, err,
}
use pinout.Prelude.Map.{values, values-retain}
use pinout.Prelude.Map.Laws.{values-set_new}
use pinout.Lease.{
  LeaseMode, LeaseScope, Lease, LeaseManager, LeaseError, AcquireLeaseOptions, exclusive,
  is_exclusive, is_expired, scopes_overlap, find_conflict, acquire, reap_expired, drain_expired,
  new_lease, insert_lease,
}
use pinout.Lease.Cases.{acquire_cases}
use pinout.Lease.Exclusion.{IsValid, reap_expired-IsValid, get_above}

abbrev pub is_err {ℓ κ} : {E : Type ℓ} {A : Type κ} → Result E A → Bool
is_err (ok _) = false
is_err (err _) = true

-- The lease stands in the way of a request.
abbrev pub stands_in_the_way : AcquireLeaseOptions → Lease → Bool
stands_in_the_way o l =
    scopes_overlap l o.scope && (is_exclusive l.mode || is_exclusive (or_default o.mode exclusive))

-- The stored leases that have not run out.
abbrev pub live : LeaseManager → ℕ → List Lease
live m now = keep (λ l. not (is_expired now l)) (values m.leases)

find_conflict-any :
    (mode : LeaseMode) (scope : LeaseScope) (ls : List Lease)
    → is_some (find_conflict mode scope ls)
      ≡ any (λ l. scopes_overlap l scope && (is_exclusive l.mode || is_exclusive mode)) ls
unfolding find_conflict
find_conflict-any mode scope [] = refl
find_conflict-any mode scope (l ∷ ls) = ground (arith, find_conflict-any mode scope ls)

values-reap_expired :
    (m : LeaseManager) (now : ℕ) → values (reap_expired m now).0.leases ≡ live m now
unfolding reap_expired drain_expired
values-reap_expired m now = values-retain (λ l. not (is_expired now l)) m.leases

values-insert_lease :
    (m : LeaseManager) (o : AcquireLeaseOptions) (now : ℕ) (suffix : String)
    → IsValid m
    → values (insert_lease m (new_lease m o now suffix)).leases
      ≡ values m.leases ++ new_lease m o now suffix ∷ []
unfolding insert_lease new_lease
values-insert_lease m o now suffix v =
    values-set_new _ (new_lease m o now suffix) m.leases
      (get_above m.sequence (new_lease m o now suffix).id m.leases v.issued (omega arith))

blocked_iff :
    (m : LeaseManager) (o : AcquireLeaseOptions) (now : ℕ)
    → is_some
        (find_conflict (or_default o.mode exclusive) o.scope (values (reap_expired m now).0.leases))
      ≡ any (stands_in_the_way o) (live m now)
blocked_iff m o now =
    rw (values-reap_expired m now)
      (find_conflict-any (or_default o.mode exclusive) o.scope (live m now))

abbrev Outcome :
    LeaseManager
    → AcquireLeaseOptions
    → ℕ
    → String
    → LeaseManager × Result LeaseError Lease
    → Type 0
Outcome m o now suffix r =
    (is_err r.1 ≡ any (stands_in_the_way o) (live m now))
    × (values r.0.leases ≡ (
        if any (stands_in_the_way o) (live m now)
        then live m now
        else live m now ++ new_lease (reap_expired m now).0 o now suffix ∷ []))

-- In a valid manager a request fails exactly when an unexpired lease overlaps it and one of the
-- two is exclusive. Then the unexpired leases are left, and otherwise the new lease stands behind
-- them.
pub acquire_outcome :
    (m : LeaseManager) (o : AcquireLeaseOptions) (now : ℕ) (suffix : String)
    → IsValid m
    → let r = acquire m o now suffix in
      let blocked = any (stands_in_the_way o) (live m now) in
      (is_err r.1 ≡ blocked)
      × (values r.0.leases ≡ (
          if blocked
          then live m now
          else live m now ++ new_lease (reap_expired m now).0 o now suffix ∷ []))
acquire_outcome m o now suffix v =
    let stored = values-reap_expired m now in
    let iff = blocked_iff m o now in
    acquire_cases (Outcome m o now suffix) m o now suffix
      (λ l e.
        let hit : any (stands_in_the_way o) (live m now) ≡ true = sym iff ∙ ap is_some e in
        rw hit (refl, stored))
      λ e.
        let clear : any (stands_in_the_way o) (live m now) ≡ false = sym iff ∙ ap is_some e in
        rw clear (
          refl,
          values-insert_lease (reap_expired m now).0 o now suffix (reap_expired-IsValid m now v)
              ∙ ap (λ ls. ls ++ new_lease (reap_expired m now).0 o now suffix ∷ []) stored,
        )
