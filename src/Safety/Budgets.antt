-- ===== src/Safety/Budgets.antt =====
-- safety.ts: no budget is overdrawn.
use pinout.Prelude.{
  ℕ, zero, suc, ◌+◌, ◌≤◌, ◌≡◌, Bool, Option, List, [], ◌∷◌, ◌++◌, String, string_eq, arith, ok, err,
  All, or_default, All-append, keep, Option-cases, inl, inr, ltb,
}
use pinout.Prelude.Map.{values, get}
use pinout.Prelude.Map.Laws.{All-get, All-set}
use pinout.Lease.{LeaseManager}
use pinout.Policy.{
  RuleKind, rate, interlock, sequence, approval, lease, deadman, resource, SafetyRule,
}
use pinout.Policy.Evaluate.{PolicyContext, Thrown}
use pinout.Safety.{
  SafetyEngine, Consumables, Consumption, ResourceBudget, init, set_interlock, set_sequence_step,
  record_approval, heartbeat_deadman, clear_deadman, configure_budget,
}
use pinout.Safety.Enforce.{
  Clocks, Checked, enforce_rate, enforce_interlock, enforce_sequence, enforce_approval,
  enforce_lease, enforce_deadman, enforce_resource, enforce_kind, enforce_rules, total_cost, charge,
}
use pinout.Safety.Accepted.{enforce_rules-keeps}
use pinout.Safety.Reserve.{
  reserved, SafetyReservation, reserve, enforce, check, preview, commit, rollback,
  restore_consumables, snapshot_consumables,
}
use pinout.Safety.Calls.{
  World, Call, step, run, granted, commit_at, rollback_at, reserve_call, enforce_call, check_call,
  preview_call, commit_call, rollback_call, budget_call,
}

-- What is charged to a budget lies within its limit.
abbrev pub IsCovered : ResourceBudget → Type 0
IsCovered b = total_cost b.consumed ≤ b.limit

abbrev pub AreCovered : Consumables → Type 0
AreCovered s = All IsCovered (values s.budgets)

total_cost-append :
    (xs ys : List Consumption) → total_cost (xs ++ ys) ≡ total_cost xs + total_cost ys
unfolding total_cost
total_cost-append [] ys = omega arith
total_cost-append (x ∷ xs) ys = omega (arith, total_cost-append xs ys)

total_cost-keep-le :
    (p : Consumption → Bool) (xs : List Consumption) → total_cost (keep p xs) ≤ total_cost xs
unfolding total_cost
total_cost-keep-le p [] = omega arith
total_cost-keep-le p (x ∷ xs) = ground (arith, total_cost-keep-le p xs)

charge-IsCovered :
    (b : ResourceBudget) (cost now : ℕ) → IsCovered b → IsCovered (charge b cost now).0
unfolding charge total_cost
charge-IsCovered b cost now h =
    let kept = keep (λ c. ltb now (c.time + b.window_ms)) b.consumed in
    let l = total_cost-keep-le (λ c. ltb now (c.time + b.window_ms)) b.consumed in
    let a = total_cost-append kept (record { time = now; cost = cost } ∷ []) in ground (arith, l, a)

enforce_resource-AreCovered :
    (e : SafetyEngine) (rule : SafetyRule) (name : String) (cost : Option ℕ) (now : ℕ)
    → AreCovered e.consumables
    → AreCovered (enforce_resource e rule name cost now).0.consumables
unfolding enforce_resource
enforce_resource-AreCovered e rule name cost now h =
    let budgets = e.consumables.budgets in
    elim (Option-cases (get name budgets)) [
      | inl n ↦ rw (n, enforce_resource) h
      | inr (b, s) ↦
          let b' = (charge b (or_default cost 1) now).0 in
          let covered : IsCovered b' =
            charge-IsCovered b (or_default cost 1) now (All-get IsCovered name budgets h s) in
          let l = All-set IsCovered name b' budgets covered h in
          rw (s, enforce_resource) (ground (arith, l))
    ]

enforce_kind-AreCovered :
    (e : SafetyEngine) (rule : SafetyRule) (kind : RuleKind) (x : PolicyContext) (c : Clocks)
    → AreCovered e.consumables
    → AreCovered (enforce_kind e rule kind x c).0.consumables
unfolding enforce_kind enforce_rate enforce_interlock enforce_sequence enforce_approval
    enforce_lease enforce_deadman
enforce_kind-AreCovered e rule (rate _ _) x c h = ground arith
enforce_kind-AreCovered e rule (interlock _ _ _) x c h = ground arith
enforce_kind-AreCovered e rule (sequence _ _) x c h = ground arith
enforce_kind-AreCovered e rule approval x c h = ground arith
enforce_kind-AreCovered e rule lease x c h = ground arith
enforce_kind-AreCovered e rule (deadman _) x c h = ground arith
enforce_kind-AreCovered e rule (resource name cost) x c h =
    enforce_resource-AreCovered e rule name cost c.now h
enforce_kind-AreCovered e rule kind x c h = ground arith

record IsSound (w : World) : Type 0 where
  covered : AreCovered w.engine.consumables
  saved : All (λ r. AreCovered r.saved) w.reservations

module _ (evaluate : ℕ → PolicyContext → Option Thrown) where
  enforce_rules-AreCovered :
      (e : SafetyEngine) (x : PolicyContext) (c : Clocks)
      → AreCovered e.consumables
      → AreCovered (enforce_rules evaluate e x c).0.consumables
  enforce_rules-AreCovered e x c h =
      enforce_rules-keeps (λ f. AreCovered f.consumables) x c
        (λ f rule kind k. enforce_kind-AreCovered f rule kind x c k) evaluate e h

  reserved-AreCovered :
      (saved : Consumables) (r : Checked)
      → AreCovered saved
      → AreCovered r.0.consumables
      → AreCovered (reserved saved r).0.consumables
        × All (λ t. AreCovered t.saved) (granted (reserved saved r).1)
  unfolding restore_consumables
  reserved-AreCovered saved (e, ok _) h k = (k, (h, tt))
  reserved-AreCovered saved (e, err t) h k = (h, tt)

  reserve-AreCovered :
      (e : SafetyEngine) (x : PolicyContext) (c : Clocks)
      → AreCovered e.consumables
      → AreCovered (reserve evaluate e x c).0.consumables
        × All (λ t. AreCovered t.saved) (granted (reserve evaluate e x c).1)
  unfolding reserve snapshot_consumables
  reserve-AreCovered e x c h =
      reserved-AreCovered e.consumables (enforce_rules evaluate e x c) h
        (enforce_rules-AreCovered e x c h)

  commit_at-saved :
      (rs : List SafetyReservation) (n : ℕ)
      → All (λ r. AreCovered r.saved) rs
      → All (λ r. AreCovered r.saved) (commit_at rs n)
  unfolding commit
  commit_at-saved [] n h = tt
  commit_at-saved (r ∷ rs) zero h = h
  commit_at-saved (r ∷ rs) (suc n) (h, k) = (h, commit_at-saved rs n k)

  rollback_at-IsSound :
      (e : SafetyEngine) (rs : List SafetyReservation) (n : ℕ)
      → AreCovered e.consumables
      → All (λ r. AreCovered r.saved) rs
      → IsSound (rollback_at e rs n)
  unfolding rollback restore_consumables
  rollback_at-IsSound e [] n h k = record { covered = h; saved = k }
  rollback_at-IsSound e (r ∷ rs) zero h (k, l) = ground arith
  rollback_at-IsSound e (r ∷ rs) (suc n) h (k, l) =
      let s = rollback_at-IsSound e rs n h l in record { covered = s.covered; saved = (k, s.saved) }

  step-IsSound : (w : World) (call : Call) → IsSound w → IsSound (step evaluate w call)
  unfolding step enforce check preview snapshot_consumables restore_consumables set_interlock
      set_sequence_step record_approval heartbeat_deadman clear_deadman configure_budget total_cost
  step-IsSound w (reserve_call x c) s =
      let (h, k) = reserve-AreCovered w.engine x c s.covered in
      record {
        covered = h;
        saved = All-append (λ r. AreCovered r.saved) w.reservations _ s.saved k;
      }
  step-IsSound w (enforce_call x c) s = record {
    covered = (reserve-AreCovered w.engine x c s.covered).0;
    saved = s.saved;
  }
  step-IsSound w (check_call x c) s = record {
    covered = (reserve-AreCovered w.engine x c s.covered).0;
    saved = s.saved;
  }
  step-IsSound w (preview_call x c) s = record { covered = s.covered; saved = s.saved }
  step-IsSound w (commit_call n) s = record {
    covered = s.covered;
    saved = commit_at-saved w.reservations n s.saved;
  }
  step-IsSound w (rollback_call n) s =
      rollback_at-IsSound w.engine w.reservations n s.covered s.saved
  step-IsSound w (budget_call name limit window_ms) s = record {
    covered = All-set IsCovered name _ w.engine.consumables.budgets (omega arith) s.covered;
    saved = s.saved;
  }
  step-IsSound w call s = record { covered = s.covered; saved = s.saved }

  run-IsSound : (w : World) (calls : List Call) → IsSound w → IsSound (run evaluate w calls)
  unfolding run
  run-IsSound w [] s = s
  run-IsSound w (call ∷ calls) s = run-IsSound (step evaluate w call) calls (step-IsSound w call s)

  -- After any calls on a new engine, reservations, commits and rollbacks among them, the costs on
  -- record for a budget add up to no more than its limit. A rollback also takes off the record
  -- what other calls were charged since its reservation, so that this bounds the record and not
  -- all that was ever let through.
  pub run-init-AreCovered :
      (rules : List SafetyRule) (manager : Option LeaseManager) (calls : List Call)
      → let w : World = record { engine = init rules manager; reservations = [] } in
        AreCovered (run evaluate w calls).engine.consumables
  unfolding init
  run-init-AreCovered rules manager calls =
      (run-IsSound (record { engine = init rules manager; reservations = [] }) calls
        (record { covered = tt; saved = tt })).covered
