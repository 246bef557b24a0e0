-- ===== src/Lease/Permits.antt =====
-- leaseManager.ts: what `permits` answers, and who holds permission.
use pinout.Prelude.{
  IssuedId, issued_id_eq, ℕ, ◌<◌, ◌≡◌, ◌≢◌, refl, Bool, true, false, not, ◌&&◌, ◌||◌, ◌⊎◌, some,
  List, [], ◌∷◌, String, ◌==◌, string_eq, eq_iff, arith, if◌then◌else◌, Bool-cases, inl, inr, All,
  any, keep, subst, sym, beq_refl,
}
use pinout.Prelude.Map.{Map, get, values, retain, values-retain}
use pinout.Prelude.Map.Laws.{Pairwise-retain, Pairwise-get, get-retain}
use pinout.Lease.{
  LeaseMode, Verdict, exclusive, device_of, Lease, LeaseManager, covers, is_exclusive, scan,
  permits, reap_expired, drain_expired, is_expired,
}
use pinout.Lease.Exclusion.{IsValid, Excludes}

-- A lease of the caller that grants access in the mode.
abbrev pub grants : String → String → String → LeaseMode → Lease → Bool
grants owner d c mode l =
    covers l d c && (l.owner == owner && (not (is_exclusive mode) || is_exclusive l.mode))

-- A lease of somebody else that forbids access in the mode.
abbrev pub forbids : String → String → String → LeaseMode → Lease → Bool
forbids owner d c mode l =
    covers l d c && (not (l.owner == owner) && (is_exclusive mode || is_exclusive l.mode))

-- One round of the loop, over the tests that it makes.
scan_round :
    (covered own wanted held_mode held found bad : Bool) (skipped taken stop : Verdict)
    → skipped.permitted ≡ ((held || found) && not bad)
    → taken.permitted ≡ (((not wanted || held_mode || held) || found) && not bad)
    → stop.permitted ≡ false
    → (if not covered
        then skipped
        else if own
        then taken
        else if not wanted && not held_mode
        then skipped
        else stop).permitted
      ≡ ((held || ((covered && (own && (not wanted || held_mode))) || found))
          && not ((covered && (not own && (wanted || held_mode))) || bad))
scan_round false own wanted held_mode held found bad skipped taken stop p q r = ground arith
scan_round true true wanted held_mode held found bad skipped taken stop p q r = ground arith
scan_round true false wanted held_mode held found bad skipped taken stop p q r = ground arith

scan_permitted :
    (owner d c : String) (mode : LeaseMode) (held : Bool) (ls : List Lease)
    → (scan owner d c mode held ls).permitted
      ≡ ((held || any (grants owner d c mode) ls) && not (any (forbids owner d c mode) ls))
unfolding scan
scan_permitted owner d c mode held [] = ground arith
scan_permitted owner d c mode held (l ∷ ls) =
    scan_round (covers l d c) (l.owner == owner) (is_exclusive mode) (is_exclusive l.mode) held _ _
      _ _ _ (scan_permitted owner d c mode held ls)
      (scan_permitted owner d c mode (not (is_exclusive mode) || is_exclusive l.mode || held) ls)
      refl

-- `permits` answers yes exactly when the owner has an unexpired lease that covers the capability (an
-- exclusive one if the access is exclusive) and nobody else has an unexpired lease that covers it
-- and is exclusive or meets an exclusive access.
pub permits_lem :
    (m : LeaseManager) (owner d c : String) (mode : LeaseMode) (now : ℕ)
    → (permits m owner d c mode now).1.permitted ≡ (
        any (grants owner d c mode) (keep (λ l. not (is_expired now l)) (values m.leases))
        && not
            (any (forbids owner d c mode) (keep (λ l. not (is_expired now l)) (values m.leases))))
unfolding permits reap_expired drain_expired
permits_lem m owner d c mode now =
    rw (scan_permitted owner d c mode false _, values-retain (λ l. not (is_expired now l)) m.leases)

grants-forbids :
    (o p d c : String) (mode : LeaseMode) (ls : List Lease)
    → o ≢ p
    → any (grants o d c exclusive) ls ≡ true
    → any (forbids p d c mode) ls ≡ true
grants-forbids o p d c mode [] n h = ground arith
grants-forbids o p d c mode (l ∷ ls) n h = ground (
  arith,
  eq_iff l.owner o,
  eq_iff l.owner p,
  eq_iff (device_of l.scope) d,
  grants-forbids o p d c mode ls n,
)

-- Two different owners never both have exclusive access to one capability; while one has it, the
-- other has not even shared access.
pub permits_exclusive :
    (m : LeaseManager) (o p d c : String) (mode : LeaseMode) (now : ℕ)
    → o ≢ p
    → (permits m o d c exclusive now).1.permitted ≡ true
    → (permits m p d c mode now).1.permitted ≡ false
permits_exclusive m o p d c mode now n h = ground (
  arith,
  permits_lem m o d c exclusive now,
  permits_lem m p d c mode now,
  grants-forbids o p d c mode (keep (λ l. not (is_expired now l)) (values m.leases)) n,
)

-- A lease of the owner, or one that excludes the owner's, does not forbid.
own_not_forbidden :
    (l y : Lease) (d c : String) (mode : LeaseMode)
    → is_exclusive l.mode ≡ true
    → covers l d c ≡ true
    → (y ≡ l) ⊎ (Excludes y l ⊎ Excludes l y)
    → forbids l.owner d c mode y ≡ false
own_not_forbidden l y d c mode x h (inl e) =
    subst (λ z. forbids l.owner d c mode z ≡ false) (sym e) (ground (arith, beq_refl l.owner))
own_not_forbidden l y d c mode x h (inr (inl r)) = ground (arith, r d c)
own_not_forbidden l y d c mode x h (inr (inr r)) = ground (arith, r d c)

not_forbidden :
    (l : Lease) (d c : String) (mode : LeaseMode) (ls : List Lease)
    → is_exclusive l.mode ≡ true
    → covers l d c ≡ true
    → All (λ x. (x ≡ l) ⊎ (Excludes x l ⊎ Excludes l x)) ls
    → any (forbids l.owner d c mode) ls ≡ false
not_forbidden l d c mode [] x h a = refl
not_forbidden l d c mode (y ∷ ls) x h (q, a) =
    rw (own_not_forbidden l y d c mode x h q) (not_forbidden l d c mode ls x h a)

granted :
    (l : Lease) (d c : String) (mode : LeaseMode) (id : IssuedId) (ls : Map IssuedId Lease)
    → is_exclusive l.mode ≡ true
    → covers l d c ≡ true
    → get id ls ≡ some l
    → any (grants l.owner d c mode) (values ls) ≡ true
unfolding get
granted l d c mode id [] x h g = ground arith
granted l d c mode id ((j, y) ∷ ls) x h g = elim (Bool-cases (j == id)) [
  | inl t ↦
      let same : y ≡ l = ground arith in
      subst (λ z. (grants l.owner d c mode z || any (grants l.owner d c mode) (values ls)) ≡ true)
        (sym same) (ground (arith, beq_refl l.owner))
  | inr t ↦ ground (arith, granted l d c mode id ls x h)
]

-- In a valid manager the holder of an unexpired exclusive lease has permission, in either mode, for
-- every capability that it covers.
pub permits_holder :
    (m : LeaseManager) (id : IssuedId) (l : Lease) (d c : String) (mode : LeaseMode) (now : ℕ)
    → IsValid m
    → get id m.leases ≡ some l
    → now < l.expires_at
    → is_exclusive l.mode ≡ true
    → covers l d c ≡ true
    → (permits m l.owner d c mode now).1.permitted ≡ true
unfolding is_expired
permits_holder m id l d c mode now v g t x h =
    let live = λ (y : Lease). not (is_expired now y) in
    let kept : get id (retain live m.leases) ≡ some l =
      ground (arith, get-retain id live m.leases v.distinct g) in
    rw
      (
        permits_lem m l.owner d c mode now,
        ← values-retain live m.leases,
        granted l d c mode id (retain live m.leases) x h kept,
        not_forbidden l d c mode (values (retain live m.leases)) x h (
            Pairwise-get Excludes id (retain live m.leases)
              (Pairwise-retain Excludes live m.leases v.disjoint) kept),
      )
      refl
