-- ===== src/Halt/Estop.antt =====
-- haltCoordinator.ts: when the gate is open, and what keeps an emergency stop in force.
use pinout.Prelude.{
  ℕ, ◌≡◌, Bool, true, false, not, ◌&&◌, ◌||◌, Option, List, [], ◌∷◌, String, string_eq, arith, All,
}
use pinout.Halt.{
  HaltCoordinator, SafetyStateName, normal, halted, faulted, state_beq, gate, request_estop, fault,
  clear_fault, transition,
}
use pinout.Halt.Sequence.{
  Call, halts, estops, faults, restricts, clears_estop, clears_fault, resumes, subscribes,
  unsubscribes, step, run,
}

abbrev pub is_open : HaltCoordinator → Bool
is_open h = (gate h).allowed

abbrev in_state : SafetyStateName → HaltCoordinator → Bool
in_state s h = state_beq h.state s

-- The two calls that may open a closed gate, in the states in which they do.
abbrev pub reopens : HaltCoordinator → Call → Bool
reopens h (resumes _ _ _) = state_beq h.state halted && (not h.estop_flag && not h.fault_flag)
reopens h (clears_fault _ _) = state_beq h.state faulted && h.fault_flag
reopens h _ = false

-- The calls that close an open gate.
abbrev pub closes : Call → Bool
closes (halts _ _ _) = true
closes (estops _ _ _) = true
closes (faults _ _ _) = true
closes _ = false

-- What each call does to the gate: halting, an emergency stop and a fault close it, a resume or the
-- clearing of a fault opens it in the states of `reopens`, and nothing else moves it.
pub step-is_open :
    (h : HaltCoordinator) (c : Call)
    → is_open (step h c).0 ≡ (not (closes c) && (is_open h || reopens h c))
unfolding step gate transition
step-is_open h (halts reason actor now) = ground arith
step-is_open h (estops reason actor now) = ground arith
step-is_open h (faults reason actor now) = ground arith
step-is_open h (restricts reason actor now) = ground arith
step-is_open h (clears_estop actor now) = ground arith
step-is_open h (clears_fault actor now) = ground arith
step-is_open h (resumes reason actor now) = ground arith
step-is_open h (subscribes n) = ground arith
step-is_open h (unsubscribes n) = ground arith

-- The flag is up and the gate is closed.
record Stopped (h : HaltCoordinator) : Type 0 where
  flag : h.estop_flag ≡ true
  closed : is_open h ≡ false

-- Neither clears the emergency stop nor a fault.
abbrev pub leaves_estop : Call → Bool
leaves_estop (clears_estop _ _) = false
leaves_estop (clears_fault _ _) = false
leaves_estop _ = true

step-Stopped :
    (h : HaltCoordinator) (c : Call) → leaves_estop c ≡ true → Stopped h → Stopped (step h c).0
unfolding step gate transition
step-Stopped h (halts reason actor now) k s = ground arith
step-Stopped h (estops reason actor now) k s = ground arith
step-Stopped h (faults reason actor now) k s = ground arith
step-Stopped h (restricts reason actor now) k s = ground arith
step-Stopped h (clears_estop actor now) k s = ground arith
step-Stopped h (clears_fault actor now) k s = ground arith
step-Stopped h (resumes reason actor now) k s = ground arith
step-Stopped h (subscribes n) k s = ground arith
step-Stopped h (unsubscribes n) k s = ground arith

run-Stopped :
    (h : HaltCoordinator) (cs : List Call)
    → All (λ c. leaves_estop c ≡ true) cs
    → Stopped h
    → Stopped (run h cs).0
unfolding run
run-Stopped h [] k s = s
run-Stopped h (c ∷ cs) (k, ks) s = run-Stopped (step h c).0 cs ks (step-Stopped h c k s)

request_estop-Stopped :
    (h : HaltCoordinator) (reason : String) (actor : Option String) (now : ℕ)
    → Stopped (request_estop h reason actor now).0
unfolding request_estop gate transition
request_estop-Stopped h reason actor now = ground arith

-- After an emergency stop the gate stays closed through any calls that clear neither the stop nor a
-- fault, resumes among them.
pub estop_holds :
    (h : HaltCoordinator) (reason : String) (actor : Option String) (now : ℕ) (cs : List Call)
    → All (λ c. leaves_estop c ≡ true) cs
    → is_open (run (request_estop h reason actor now).0 cs).0 ≡ false
estop_holds h reason actor now cs k =
    (run-Stopped _ cs k (request_estop-Stopped h reason actor now)).closed

-- The emergency stop is lost behind a fault: a stop, a fault and the clearing of the fault open the
-- gate and leave the stop's flag up, whatever the state before and the texts and times given.
pub estop_lost_behind_fault :
    (h : HaltCoordinator) (r₁ r₂ : String) (a₁ a₂ a₃ : Option String) (t₁ t₂ t₃ : ℕ)
    → let h' = (clear_fault (fault (request_estop h r₁ a₁ t₁).0 r₂ a₂ t₂).0 a₃ t₃).0 in
      (is_open h' ≡ true) × (h'.estop_flag ≡ true) × (h'.state ≡ normal)
unfolding clear_fault fault request_estop gate transition
estop_lost_behind_fault h r₁ r₂ a₁ a₂ a₃ t₁ t₂ t₃ = ground arith
