-- ===== src/Halt/Trail.antt =====
-- haltCoordinator.ts: the changes that listeners hear tell the whole history of the state.
use pinout.Prelude.{
  ℕ, ◌≡◌, refl, subst, true, false, ◌&&◌, Option, List, [], ◌∷◌, ◌++◌, map, String, ◌==◌, string_eq,
  arith, Bool-cases, or_default, inl, inr,
}
use pinout.Halt.{
  HaltCoordinator, SafetyStateName, SafetyStateChange, on_state_change, subscribed, Announced, init,
  announce, transition, state_beq, normal, restricted, halted, estop_requested, faulted,
}
use pinout.Halt.Sequence.{
  Call, halts, estops, faults, restricts, clears_estop, clears_fault, resumes, subscribes,
  unsubscribes, step, run,
}

-- What `onStateChange` is called with, in order.
unfoldable pub heard : Announced → List SafetyStateChange
heard [] = []
heard ((on_state_change, c) ∷ said) = c ∷ heard said
heard ((subscribed _, c) ∷ said) = heard said

-- Each change starts where the one before ended, from the first state to the last.
abbrev pub Chained : SafetyStateName → List SafetyStateChange → SafetyStateName → Type 0
Chained s [] t = s ≡ t
Chained s (c ∷ cs) t = (c.from_state ≡ s) × Chained c.to_state cs t

heard-append : (xs ys : Announced) → heard (xs ++ ys) ≡ heard xs ++ heard ys
unfolding heard
heard-append [] ys = refl
heard-append ((on_state_change, c) ∷ xs) ys = rw (heard-append xs ys)
heard-append ((subscribed _, c) ∷ xs) ys = heard-append xs ys

heard-subscribed :
    (ns : List ℕ) (c : SafetyStateChange) (said : Announced)
    → heard (map (λ n. (subscribed n, c)) ns ++ said) ≡ heard said
unfolding heard
heard-subscribed [] c said = refl
heard-subscribed (n ∷ ns) c said = heard-subscribed ns c said

Chained-append :
    (s t u : SafetyStateName) (xs ys : List SafetyStateChange)
    → Chained s xs t
    → Chained t ys u
    → Chained s (xs ++ ys) u
Chained-append s t u [] ys h k = rw h k
Chained-append s t u (c ∷ xs) ys (e, h) k = (e, Chained-append c.to_state t u xs ys h k)

-- What a call of the coordinator may answer: the trail goes on, and `onStateChange` is still there.
record Follows (h : HaltCoordinator) (r : HaltCoordinator × Announced) : Type 0 where
  chained : Chained h.state (heard r.1) r.0.state
  external : r.0.has_external ≡ true

heard-announce :
    (h : HaltCoordinator) (c : SafetyStateChange)
    → h.has_external ≡ true
    → heard (announce h c) ≡ c ∷ []
unfolding announce heard
heard-announce h c e = rw e (heard-subscribed h.listeners c ((on_state_change, c) ∷ []))

transition-Follows :
    (h : HaltCoordinator) (to : SafetyStateName) (reason : String) (actor : Option String) (now : ℕ)
    → h.has_external ≡ true
    → Follows h (transition h to reason actor now)
unfolding transition heard
transition-Follows h to reason actor now e =
    elim (Bool-cases (state_beq h.state to && h.reason == reason)) [
      | inl same ↦ rw (same, transition) (record { chained = refl; external = e })
      | inr differ ↦
          rw (differ, transition)
            (record { chained = rw (heard-announce h _ e) (refl, refl); external = e })
    ]

moved :
    {h h' : HaltCoordinator} (r : HaltCoordinator × Announced)
    → h.state ≡ h'.state
    → Follows h r
    → Follows h' r
moved r e f = record {
  chained = subst (λ s. Chained s (heard r.1) r.0.state) e f.chained;
  external = f.external;
}

step-Follows : (h : HaltCoordinator) (c : Call) → h.has_external ≡ true → Follows h (step h c)
unfolding step heard
step-Follows h (halts reason actor now) e = transition-Follows h halted reason actor now e
step-Follows h (estops reason actor now) e =
    moved _ refl
      (transition-Follows (record h { estop_flag = true }) estop_requested reason actor now e)
step-Follows h (faults reason actor now) e =
    moved _ refl (transition-Follows (record h { fault_flag = true }) faulted reason actor now e)
step-Follows h (restricts reason actor now) e =
    ground (arith, transition-Follows h restricted reason actor now e)
step-Follows h (clears_estop actor now) e = ground (
  arith,
  transition-Follows (record h { estop_flag = false }) halted
      "Estop cleared; awaiting explicit resume." actor now e,
)
step-Follows h (clears_fault actor now) e = ground (
  arith,
  transition-Follows (record h { fault_flag = false }) normal "Fault cleared." actor now e,
)
step-Follows h (resumes reason actor now) e =
    ground (arith, transition-Follows h normal (or_default reason "Resume requested") actor now e)
step-Follows h (subscribes n) e = ground arith
step-Follows h (unsubscribes n) e = ground arith

run-Chained :
    (h : HaltCoordinator) (cs : List Call)
    → h.has_external ≡ true
    → Chained h.state (heard (run h cs).1) (run h cs).0.state
unfolding run heard
run-Chained h [] e = refl
run-Chained h (c ∷ cs) e =
    let f = step-Follows h c e in
    rw (heard-append (step h c).1 (run (step h c).0 cs).1) (
      Chained-append h.state (step h c).0.state _ (heard (step h c).1) _ f.chained
        (run-Chained (step h c).0 cs f.external))

-- The changes that `onStateChange` hears in any history lead from NORMAL, step by step, to the
-- state that the coordinator is in: no change of the safety state goes unannounced.
pub run-init-Chained :
    (cs : List Call) → Chained normal (heard (run (init true) cs).1) (run (init true) cs).0.state
unfolding init
run-init-Chained cs = run-Chained (init true) cs refl
