-- ===== src/Halt/Sequence.antt =====
-- haltCoordinator.ts: sequences of calls of the coordinator, with all that they announce.
use pinout.Prelude.{ℕ, Option, List, [], ◌∷◌, ◌++◌, String, Result, ok, err}
use pinout.Halt.{
  HaltCoordinator, Announced, HaltError, halt, request_estop, clear_estop, fault, clear_fault,
  resume, restrict, subscribe, unsubscribe,
}

pub data Call : Type 0 where
  halts estops faults restricts : String → Option String → ℕ → Call
  clears_estop clears_fault : Option String → ℕ → Call
  resumes : Option String → Option String → ℕ → Call
  subscribes unsubscribes : ℕ → Call

-- A call that throws changes nothing.
abbrev pub settled :
    HaltCoordinator → Result HaltError (HaltCoordinator × Announced) → HaltCoordinator × Announced
settled h (ok r) = r
settled h (err e) = (h, [])

unfoldable pub step : HaltCoordinator → Call → HaltCoordinator × Announced
unfolding halt request_estop clear_estop fault clear_fault resume restrict subscribe unsubscribe
step h (halts reason actor now) = halt h reason actor now
step h (estops reason actor now) = request_estop h reason actor now
step h (faults reason actor now) = fault h reason actor now
step h (restricts reason actor now) = restrict h reason actor now
step h (clears_estop actor now) = clear_estop h actor now
step h (clears_fault actor now) = clear_fault h actor now
step h (resumes reason actor now) = settled h (resume h reason actor now)
step h (subscribes n) = (subscribe h n, [])
step h (unsubscribes n) = (unsubscribe h n, [])

unfoldable pub run : HaltCoordinator → List Call → HaltCoordinator × Announced
run h [] = (h, [])
run h (c ∷ cs) = let (h', said) = step h c in let (h'', later) = run h' cs in (h'', said ++ later)
