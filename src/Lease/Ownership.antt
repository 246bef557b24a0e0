-- ===== src/Lease/Ownership.antt =====
-- leaseManager.ts: only its owner, an administrator or the clock takes a lease away.
use pinout.Prelude.{
  IssuedId, issued_id_eq, ℕ, ◌+◌, ◌<◌, ◌≡◌, ◌≢◌, sym, ◌∙◌, ◌⊎◌, inl, inr, refl, true, not, Option,
  some, String, ◌==◌, string_eq, eq_iff, arith, Num, ap, Bool-cases, Option-cases,
}
use pinout.Prelude.Map.{get, get-set_ne, get-delete_ne}
use pinout.Prelude.Map.Laws.{get-retain, All-get_entry}
use pinout.Lease.{
  Lease, AcquireLeaseOptions, LeaseManager, is_expired, drain_expired, reap_expired, new_lease,
  insert_lease, acquire, drop_lease, renew, release, force_release, get_lease, list, permits,
}
use pinout.Lease.Cases.{acquire_cases, renew_cases}
use pinout.Lease.Exclusion.{IsValid, reap_expired-IsValid}
use pinout.Lease.History.{
  Call, acquires, renews, releases, force_releases, gets, lists, asks, drains, step,
}

-- The call comes before the lease ends, and is neither a forced release of it nor a renewal or
-- release of it by its owner.
abbrev pub Leaves : IssuedId → Lease → Call → Type 0
Leaves id l (acquires _ now _) = now < l.expires_at
Leaves id l (renews j owner _ now) = (now < l.expires_at) × ((id ≢ j) ⊎ (l.owner ≢ owner))
Leaves id l (releases j owner) = (id ≢ j) ⊎ (l.owner ≢ owner)
Leaves id l (force_releases j) = id ≢ j
Leaves id l (gets _ now) = now < l.expires_at
Leaves id l (lists _ _ now) = now < l.expires_at
Leaves id l (asks _ _ _ _ now) = now < l.expires_at
Leaves id l (drains now) = now < l.expires_at

module _ (m : LeaseManager) (id : IssuedId) (l : Lease) (v : IsValid m)
    (held : get id m.leases ≡ some l) where
  drain_expired-keeps :
      (now : ℕ) → now < l.expires_at → get id (drain_expired m now).0.leases ≡ some l
  unfolding drain_expired is_expired
  drain_expired-keeps now h =
      ground (arith, get-retain id (λ y. not (is_expired now y)) m.leases v.distinct held)

  drop_lease-keeps : (j : IssuedId) → id ≢ j → get id (drop_lease m j).leases ≡ some l
  unfolding drop_lease
  drop_lease-keeps j n = get-delete_ne j id m.leases (λ e. n (sym e)) ∙ held

  insert_lease-keeps :
      (new : Lease) → new.id.sequence ≡ m.sequence + 1 → get id (insert_lease m new).leases ≡ some l
  unfolding insert_lease
  insert_lease-keeps new e =
      let old = All-get_entry _ id m.leases v.issued held in
      get-set_ne new.id id new m.leases
        (λ same. absurd (omega (arith, old.1, e, ap (λ (i : IssuedId). i.sequence) same)))
      ∙ held

module _ (m : LeaseManager) (id : IssuedId) (l : Lease) (v : IsValid m)
    (held : get id m.leases ≡ some l) where
  reap_expired-keeps :
      (now : ℕ) → now < l.expires_at → get id (reap_expired m now).0.leases ≡ some l
  unfolding reap_expired
  reap_expired-keeps now h = drain_expired-keeps m id l v held now h

  acquire-keeps :
      (o : AcquireLeaseOptions) (now : ℕ) (suffix : String)
      → now < l.expires_at
      → get id (acquire m o now suffix).0.leases ≡ some l
  unfolding new_lease
  acquire-keeps o now suffix h =
      let kept = reap_expired-keeps now h in
      acquire_cases (λ r. get id r.0.leases ≡ some l) m o now suffix (λ _ e. kept)
        λ e.
          insert_lease-keeps (reap_expired m now).0 id l (reap_expired-IsValid m now v) kept
            (new_lease (reap_expired m now).0 o now suffix) refl

  differs : (j : IssuedId) {found : Option Lease} → get j m.leases ≡ found → found ≢ some l → id ≢ j
  differs j e n same = n (sym e ∙ (ap (λ i. get i m.leases) (sym same) ∙ held))

  differs_expired :
      (j : IssuedId) (now : ℕ) (y : Lease)
      → now < l.expires_at
      → get j m.leases ≡ some y
      → is_expired now y ≡ true
      → id ≢ j
  unfolding is_expired
  differs_expired j now y h e t = differs j e (λ same. ground arith)

  differs_foreign :
      (j : IssuedId) (owner : String) (y : Lease)
      → (id ≢ j) ⊎ (l.owner ≢ owner)
      → get j m.leases ≡ some y
      → (y.owner == owner) ≡ true
      → id ≢ j
  differs_foreign j owner y (inl n) e o = n
  differs_foreign j owner y (inr n) e o = differs j e (λ same. ground (arith, eq_iff y.owner owner))

  renew-keeps :
      (j : IssuedId) (owner : String) (ttl : Option Num) (now : ℕ)
      → now < l.expires_at
      → (id ≢ j) ⊎ (l.owner ≢ owner)
      → get id (renew m j owner ttl now).0.leases ≡ some l
  renew-keeps j owner ttl now h n =
      renew_cases (λ r. get id r.0.leases ≡ some l) m j owner ttl now
        (λ e. drop_lease-keeps m id l v held j (differs j e (λ x. cc)))
        (λ y e t. drop_lease-keeps m id l v held j (differs_expired j now y h e t))
        (λ y e t o. held)
        λ y e t o. get-set_ne j id _ m.leases (λ x. differs_foreign j owner y n e o (sym x)) ∙ held

  release-keeps :
      (j : IssuedId) (owner : String)
      → (id ≢ j) ⊎ (l.owner ≢ owner)
      → get id (release m j owner).0.leases ≡ some l
  unfolding release
  release-keeps j owner n = elim (Option-cases (get j m.leases)) [
    | inl e ↦ rw (e, release) held
    | inr (y, e) ↦ elim (Bool-cases (y.owner == owner)) [
      | inl o ↦
          rw (e, release)
            (rw o (drop_lease-keeps m id l v held j (differs_foreign j owner y n e o)))
      | inr o ↦ rw (e, release) (rw o held)
    ]
  ]

  get_lease-keeps :
      (j : IssuedId) (now : ℕ) → now < l.expires_at → get id (get_lease m j now).0.leases ≡ some l
  unfolding get_lease
  get_lease-keeps j now h = elim (Option-cases (get j m.leases)) [
    | inl e ↦ rw (e, get_lease) held
    | inr (y, e) ↦ elim (Bool-cases (is_expired now y)) [
      | inl o ↦
          rw (e, get_lease)
            (rw o (drop_lease-keeps m id l v held j (differs_expired j now y h e o)))
      | inr o ↦ rw (e, get_lease) (rw o held)
    ]
  ]

  -- Calls of other owners, and calls on other leases, leave a lease as it is until it runs out.
  pub step-keeps : (c : Call) → Leaves id l c → get id (step m c).leases ≡ some l
  unfolding step force_release list permits
  step-keeps (acquires o now suffix) h = acquire-keeps o now suffix h
  step-keeps (renews j owner ttl now) (h, n) = renew-keeps j owner ttl now h n
  step-keeps (releases j owner) n = release-keeps j owner n
  step-keeps (force_releases j) n = drop_lease-keeps m id l v held j n
  step-keeps (gets j now) h = get_lease-keeps j now h
  step-keeps (lists _ _ now) h = reap_expired-keeps now h
  step-keeps (asks _ _ _ _ now) h = reap_expired-keeps now h
  step-keeps (drains now) h = drain_expired-keeps m id l v held now h
