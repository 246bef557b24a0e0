-- ===== src/Safety/RateLimit.antt =====
-- safety.ts: what a rate rule promises of the calls that are let through.
use pinout.Prelude.{
  ℕ, ◌+◌, ◌≤◌, ◌<◌, ◌≡◌, refl, sym, ap, subst, ◌∙◌, Bool, true, false, ◌&&◌, Option, none, List, [],
  ◌∷◌, ◌++◌, String, string_eq, arith, ok, err, All, All-append, All-map, keep, length, inl, inr,
  ltb, leb, if◌then◌else◌, or_default, length-append,
}
use Prim.Native.String
use native.Mathlib.Nat.{le_trans, le_refl}
use mathlib.Core.Logic.{◌⊎◌}
use pinout.Prelude.Map.{Map, get, set, get-set_self}
use pinout.Policy.{rate, SafetyRule}
use pinout.Policy.Evaluate.{PolicyContext, Thrown}
use pinout.Safety.{SafetyEngine}
use pinout.Safety.Enforce.{Clocks, in_window, recent, rate_key}
use pinout.Safety.Accepted.{reserve-ok}
use pinout.Safety.Frame.{reserve-Same, undone, undone-reserve}
use pinout.Safety.Reserve.{Reserved, SafetyReservation, reserve, enforce, committed}
use pinout.Safety.Rates.{rate_rules, enforce_each-Counted}

keep-append : (p : ℕ → Bool) (xs ys : List ℕ) → keep p (xs ++ ys) ≡ keep p xs ++ keep p ys
keep-append p [] ys = refl
keep-append p (x ∷ xs) ys = ground (arith, keep-append p xs ys)

-- What counts later counts now.
keep-keep :
    (w now later : ℕ) (xs : List ℕ)
    → now ≤ later
    → keep (in_window w later) (keep (in_window w now) xs) ≡ keep (in_window w later) xs
keep-keep w now later [] h = refl
keep-keep w now later (x ∷ xs) h = ground (arith, keep-keep w now later xs h)

-- The times in a window of length `w` that ends at `t`.
abbrev pub within : ℕ → ℕ → List ℕ → List ℕ
within w t xs = keep (λ s. leb s t && ltb t (s + w)) xs

-- As many as ever stood in a window that ends later are still in the one that ends now.
within-le :
    (w now t : ℕ) (xs : List ℕ)
    → now ≤ t
    → length (within w t xs) ≤ length (keep (in_window w now) xs)
within-le w now t [] h = omega arith
within-le w now t (x ∷ xs) h = ground (arith, within-le w now t xs h)

abbrev pub is_ok : Reserved → Bool
is_ok (ok _) = true
is_ok (err _) = false

-- The calls that are made one after the other, and when those were made that were let through.
abbrev pub Attempts : Type 0
Attempts = List (PolicyContext × Clocks)

-- The calls are for one capability of one device, and the clock does not go back.
abbrev pub OneByOne : String → String → ℕ → Attempts → Type 0
OneByOne device capability since [] = Unit
OneByOne device capability since ((x, c) ∷ rest) =
    (x.device_id ≡ device)
    × (x.capability ≡ capability)
    × (since ≤ c.now)
    × OneByOne device capability c.now rest

module _ (evaluate : ℕ → PolicyContext → Option Thrown) where
  unfoldable pub accepted : SafetyEngine → List ℕ → Attempts → List ℕ
  accepted e done [] = done
  accepted e done ((x, c) ∷ rest) =
      let (e', r) = enforce evaluate e x c in
      accepted e' (if is_ok r then done ++ c.now ∷ [] else done) rest

abbrev pub key_of : String → String → String
key_of device capability = String.◌++◌ device (String.◌++◌ "::" capability)

rate_key-eq :
    (x : PolicyContext) (device capability : String)
    → x.device_id ≡ device
    → x.capability ≡ capability
    → rate_key x ≡ key_of device capability
unfolding rate_key
rate_key-eq x device capability p q = cc

recent-set_self :
    (m : Map String (List ℕ)) (k : String) (ts : List ℕ) (w now : ℕ)
    → recent (set k ts m) k w now ≡ keep (in_window w now) ts
recent-set_self m k ts w now = rw (get-set_self k ts m) refl

Reserved-cases : (r : Reserved) → ((s : SafetyReservation) × (r ≡ ok s)) ⊎ (is_ok r ≡ false)
Reserved-cases (ok s) = inl (s, refl)
Reserved-cases (err t) = inr refl

is_ok-committed : (r : Reserved) → is_ok (committed r) ≡ is_ok r
is_ok-committed (ok s) = refl
is_ok-committed (err t) = refl

undone-err : (q : SafetyEngine × Reserved) → is_ok q.1 ≡ false → undone q ≡ q.0
undone-err (e, ok s) h = absurd (ground arith)
undone-err (e, err t) h = refl

module _ (key : String) (w max : ℕ) where
  -- What the stored timestamps say of the calls that were let through.
  record Tracks (e : SafetyEngine) (since : ℕ) (done : List ℕ) : Type 0 where
    early : All (λ s. s ≤ since) done
    mirrored :
        (now : ℕ)
        → since ≤ now
        → keep (in_window w now) done ≡ recent e.consumables.rate_windows key w now
    low : (t : ℕ) → length (within w t done) ≤ max

  Tracks-later :
      {e : SafetyEngine} {done : List ℕ} (since now : ℕ)
      → since ≤ now
      → Tracks e since done
      → Tracks e now done
  Tracks-later {e} {done} since now h v = record {
    early = All-map (λ s (p : s ≤ since). le_trans p h) done v.early;
    mirrored = λ later k. v.mirrored later (omega arith);
    low = v.low;
  }

  Tracks-kept :
      (e e' : SafetyEngine) (now : ℕ) (done : List ℕ)
      → e'.consumables.rate_windows ≡ e.consumables.rate_windows
      → Tracks e now done
      → Tracks e' now done
  Tracks-kept e e' now done q v = record {
    early = v.early;
    mirrored = λ later k. v.mirrored later k ∙ ap (λ m. recent m key w later) (sym q);
    low = v.low;
  }

  -- A call that was let through.
  Tracks-counted :
      (e e' : SafetyEngine) (now : ℕ) (done : List ℕ)
      → length (recent e.consumables.rate_windows key w now) < max
      → e'.consumables.rate_windows
        ≡ set key
            (recent e.consumables.rate_windows key w now ++ now ∷ [])
            e.consumables.rate_windows
      → Tracks e now done
      → Tracks e' now (done ++ now ∷ [])
  Tracks-counted e e' now done few q v =
      let old = e.consumables.rate_windows in
      let stored = or_default (get key old) [] in
      let counted = recent old key w now in
      record {
        early = All-append (λ s. s ≤ now) done (now ∷ []) v.early (omega arith);
        mirrored = λ later k.
            let late = in_window w later in
            keep-append late done (now ∷ [])
            ∙ ap (λ l. l ++ keep late (now ∷ []))
                (v.mirrored later k ∙ sym (keep-keep w now later stored k))
            ∙ sym (keep-append late counted (now ∷ []))
            ∙ sym (recent-set_self old key (counted ++ now ∷ []) w later)
            ∙ ap (λ m. recent m key w later) (sym q);
        low = λ t. counted_low t;
      }
    where
      counted_low : (t : ℕ) → length (within w t (done ++ now ∷ [])) ≤ max
      counted_low t =
          let span = λ (s : ℕ). leb s t && ltb t (s + w) in
          rw (keep-append span done (now ∷ [])) (
            ground (
              arith,
              length-append (within w t done) (within w t (now ∷ [])),
              within-le w now t done,
              v.low t,
              ap length (v.mirrored now (le_refl now)),
              few,
            ))

module _ (evaluate : ℕ → PolicyContext → Option Thrown) (rules : List SafetyRule)
    (device capability : String) (rule : SafetyRule) (max : ℕ) (window : Option ℕ)
    (only : rate_rules capability rules ≡ rule ∷ []) (limits : rule.kind ≡ rate max window) where
  abbrev Follows : SafetyEngine → ℕ → List ℕ → Type 0
  Follows e since done =
      (e.rules ≡ rules)
      × Tracks (key_of device capability) (or_default window 1000) max e since done

  enforce-Follows :
      (e : SafetyEngine) (x : PolicyContext) (c : Clocks) (since : ℕ) (done : List ℕ)
      → x.device_id ≡ device
      → x.capability ≡ capability
      → since ≤ c.now
      → Follows e since done
      → Follows
          (reserve evaluate e x c).0
          c.now
          (if is_ok (reserve evaluate e x c).1 then done ++ c.now ∷ [] else done)
  enforce-Follows e x c since done d p h (r, v) =
      let (same, _, _, _) = reserve-Same evaluate e x c in
      let v' =
        Tracks-later (key_of device capability) (or_default window 1000) max since c.now h v in
      elim (Reserved-cases (reserve evaluate e x c).1) [
        | inl (s, granted) ↦
            let (passed, after, _) = reserve-ok evaluate e x c granted in
            let demanded : rate_rules x.capability e.rules ≡ rule ∷ [] =
              ap (λ c. rate_rules c e.rules) p ∙ ap (λ l. rate_rules capability l) r ∙ only in
            let (few, q) =
              enforce_each-Counted x c e e.rules rule max window demanded limits passed in
            let k = rate_key-eq x device capability d p in
            let w = or_default window 1000 in
            let old = e.consumables.rate_windows in
            rw granted (
              same ∙ r,
              Tracks-counted (key_of device capability) w max e (reserve evaluate e x c).0 c.now
                  done (subst (λ k. length (recent old k w c.now) < max) k few)
                  (ap (λ f. f.consumables.rate_windows) after
                    ∙ q
                    ∙ ap (λ k. set k (recent old k w c.now ++ c.now ∷ []) old) k)
                  v',
            )
        | inr refused ↦
            let kept =
              ap (λ f. f.consumables.rate_windows)
                (sym (undone-err (reserve evaluate e x c) refused)
                  ∙ undone-reserve evaluate e x c) in
            rw refused (
              same ∙ r,
              Tracks-kept (key_of device capability) (or_default window 1000) max e
                  (reserve evaluate e x c).0 c.now done kept v',
            )
      ]

  accepted-low :
      (e : SafetyEngine) (since : ℕ) (done : List ℕ) (attempts : Attempts)
      → OneByOne device capability since attempts
      → Follows e since done
      → (t : ℕ)
      → length (within (or_default window 1000) t (accepted evaluate e done attempts)) ≤ max
  unfolding accepted enforce
  accepted-low e since done [] o (_, v) t = v.low t
  accepted-low e since done ((x, c) ∷ rest) (d, p, h, o) f t =
      rw (is_ok-committed (reserve evaluate e x c).1) (
        accepted-low (reserve evaluate e x c).0 c.now
          (if is_ok (reserve evaluate e x c).1 then done ++ c.now ∷ [] else done) rest o
          (enforce-Follows e x c since done d p h f) t)

  -- If one rate rule holds for a capability, then of the calls of that capability on one device
  -- that are made one after the other, on an engine that has not counted any of them, no more than
  -- the rule's number are let through in any window of its length, wherever the window lies.
  pub accepted-within :
      (e : SafetyEngine) (since : ℕ) (attempts : Attempts)
      → e.rules ≡ rules
      → get (key_of device capability) e.consumables.rate_windows ≡ none
      → OneByOne device capability since attempts
      → (t : ℕ) → length (within (or_default window 1000) t (accepted evaluate e [] attempts)) ≤ max
  accepted-within e since attempts r n o t =
      accepted-low e since [] attempts o
        (r, record { early = tt; mirrored = λ later k. rw n refl; low = λ t. omega arith }) t
