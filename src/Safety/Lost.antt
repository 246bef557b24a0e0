-- ===== src/Safety/Lost.antt =====
-- safety.ts: what the engine forgets. A reservation saves all that can be consumed, and its
-- rollback restores all of it, also what other calls consumed in between; and the rate rules of
-- one capability count into the same list.
use pinout.Prelude.{
  ℕ, zero, suc, ◌+◌, ◌≤◌, ◌<◌, ◌≡◌, refl, ap, ◌∙◌, Bool, true, false, Option, none, some, List, [],
  ◌∷◌, ◌++◌, String, string_eq, arith, ok, All, keep, length, beq_refl,
}
use pinout.Prelude.Map.{get, set, get-set_self}
use pinout.Policy.{SafetyRule, rate}
use pinout.Policy.Evaluate.{PolicyContext, Thrown}
use pinout.Safety.{SafetyEngine, with_rate_windows}
use pinout.Safety.Enforce.{
  Clocks, rate_key, in_window, recent, enforce_each, enforce_kind, enforce_rate, applies,
}
use pinout.Safety.Accepted.{reserve-ok}
use pinout.Safety.Reserve.{SafetyReservation, reserve, rollback, restore_consumables}
use pinout.Safety.Calls.{
  World, Call, step, run, granted, commit_at, rollback_at, reserve_call, commit_call, rollback_call,
}

-- The call commits or rolls back the first reservation.
abbrev pub ends_first : Call → Bool
ends_first (commit_call zero) = true
ends_first (rollback_call zero) = true
ends_first _ = false

-- The first reservation is still active, and saves what it saved.
abbrev Pending : SafetyReservation → World → Type 0
Pending r w = (rs : List SafetyReservation) × (w.reservations ≡ r ∷ rs)

rollback_at-Pending :
    (e : SafetyEngine) (r : SafetyReservation) (rs : List SafetyReservation) (n : ℕ)
    → Pending r (rollback_at e (r ∷ rs) (suc n))
rollback_at-Pending e r rs n = ((rollback_at e rs n).reservations, refl)

rollback-active :
    (e : SafetyEngine) (r : SafetyReservation)
    → r.active ≡ true
    → (rollback e r).0.consumables ≡ r.saved
unfolding rollback restore_consumables
rollback-active e r a = ground arith

module _ (evaluate : ℕ → PolicyContext → Option Thrown) where
  step-Pending :
      (r : SafetyReservation) (w : World) (call : Call)
      → ends_first call ≡ false
      → Pending r w
      → Pending r (step evaluate w call)
  unfolding step
  step-Pending r w (reserve_call x c) h (rs, q) =
      let more = granted (reserve evaluate w.engine x c).1 in (rs ++ more, ap (λ l. l ++ more) q)
  step-Pending r w (commit_call zero) h (rs, q) = absurd (ground arith)
  step-Pending r w (commit_call (suc n)) h (rs, q) =
      (commit_at rs n, ap (λ l. commit_at l (suc n)) q)
  step-Pending r w (rollback_call zero) h (rs, q) = absurd (ground arith)
  step-Pending r w (rollback_call (suc n)) h (rs, q) = (
    (rollback_at w.engine rs n).reservations,
    ap (λ l. (rollback_at w.engine l (suc n)).reservations) q,
  )
  step-Pending r w call h (rs, q) = (rs, q)

  rollback_first :
      (r : SafetyReservation) (w : World)
      → r.active ≡ true
      → Pending r w
      → (step evaluate w (rollback_call 0)).engine.consumables ≡ r.saved
  unfolding step
  rollback_first r w a (rs, q) =
      ap (λ l. (rollback_at w.engine l 0).engine.consumables) q ∙ rollback-active w.engine r a

  run-Pending :
      (r : SafetyReservation) (w : World) (calls : List Call)
      → r.active ≡ true
      → All (λ call. ends_first call ≡ false) calls
      → Pending r w
      → (run evaluate w (calls ++ rollback_call 0 ∷ [])).engine.consumables ≡ r.saved
  unfolding run
  run-Pending r w [] a h p = rollback_first r w a p
  run-Pending r w (call ∷ calls) a (h, k) p =
      run-Pending r (step evaluate w call) calls a k (step-Pending r w call h p)

  -- When a reservation is rolled back, the rate windows, approvals and budgets are as they stood
  -- when it was granted, whatever was done in between and committed: approvals that other calls
  -- used can be used once more, and approvals that were recorded are gone.
  pub lost_behind_rollback :
      (e : SafetyEngine) (x : PolicyContext) (c : Clocks) (calls : List Call)
      {r : SafetyReservation}
      → (reserve evaluate e x c).1 ≡ ok r
      → All (λ call. ends_first call ≡ false) calls
      → let w : World = record { engine = e; reservations = [] } in
        (run evaluate w (reserve_call x c ∷ calls ++ rollback_call 0 ∷ [])).engine.consumables
        ≡ e.consumables
  unfolding run step
  lost_behind_rollback e x c calls {r} h k =
      let w : World = record { engine = e; reservations = [] } in
      let (_, _, saved) = reserve-ok evaluate e x c h in
      run-Pending r (step evaluate w (reserve_call x c)) calls (ap (λ s. s.active) saved) k
        ([], ap granted h)
      ∙ ap (λ s. s.saved) saved

-- Each timestamp is older than the window.
abbrev pub Outdated : ℕ → ℕ → List ℕ → Type 0
Outdated window_ms now ts = All (λ t. t + window_ms ≤ now) ts

keep-Outdated : (w now : ℕ) (ts : List ℕ) → Outdated w now ts → keep (in_window w now) ts ≡ []
keep-Outdated w now [] h = refl
keep-Outdated w now (t ∷ ts) (h, k) = ground (arith, keep-Outdated w now ts k)

abbrev pub rate_rule : String → ℕ → ℕ → SafetyRule
rate_rule capability max window_ms = record {
  id = none;
  provenance = none;
  capability = capability;
  message = none;
  kind = rate max (some window_ms);
}

enforce_rate-passes :
    (e : SafetyEngine) (rule : SafetyRule) (x : PolicyContext) (max window_ms now : ℕ) (ts : List ℕ)
    → recent e.consumables.rate_windows (rate_key x) window_ms now ≡ ts
    → length ts < max
    → enforce_rate e rule max (some window_ms) x now
      ≡ (with_rate_windows e (set (rate_key x) (ts ++ now ∷ []) e.consumables.rate_windows), ok tt)
unfolding enforce_rate
enforce_rate-passes e rule x max window_ms now ts q h = rw q (ground arith)

-- Of two rate rules for one capability the first forgets the timestamps that the second counts: a
-- call whose predecessors are all older than the first rule's window is let through, however many
-- of them lie in the second one's, if the first rule allows a call, the second at least two, and
-- the second one's window is not empty. And the call is counted twice.
pub short_window_empties_long :
    (e : SafetyEngine) (x : PolicyContext) (c : Clocks) (max longer_max window_ms longer_ms : ℕ)
    (timestamps : List ℕ)
    → get (rate_key x) e.consumables.rate_windows ≡ some timestamps
    → Outdated window_ms c.now timestamps
    → 0 < max
    → 1 < longer_max
    → 0 < longer_ms
    → let rules =
        rate_rule x.capability max window_ms ∷ rate_rule x.capability longer_max longer_ms ∷ [] in
      let r = enforce_each e rules x c in
      (r.1 ≡ ok tt) × (get (rate_key x) r.0.consumables.rate_windows ≡ some (c.now ∷ c.now ∷ []))
unfolding enforce_each enforce_kind applies
short_window_empties_long e x c max longer_max window_ms longer_ms timestamps g o m l w =
    let windows = e.consumables.rate_windows in
    let key = rate_key x in
    let once = set key (c.now ∷ []) windows in
    let first =
      enforce_rate-passes e (rate_rule x.capability max window_ms) x max window_ms c.now []
        (rw g (keep-Outdated window_ms c.now timestamps o)) m in
    let second =
      enforce_rate-passes (with_rate_windows e once) (rate_rule x.capability longer_max longer_ms) x
        longer_max longer_ms c.now (c.now ∷ [])
        (rw (get-set_self key (c.now ∷ []) windows) (ground arith)) l in
    rw (beq_refl x.capability, first, second) (refl, get-set_self key (c.now ∷ c.now ∷ []) once)
