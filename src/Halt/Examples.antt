-- ===== src/Halt/Examples.antt =====
-- haltCoordinator.ts: runs of the coordinator at concrete inputs.
use pinout.Prelude.{◌≡◌, refl, true, false, none, some, List, [], ◌∷◌}
use pinout.Halt.{normal, gate, transition, announce, init, request_estop, fault, clear_fault}
use pinout.Halt.Sequence.{Call, estops, faults, resumes, clears_estop, subscribes, step, run}
use pinout.Halt.Estop.{is_open, estop_holds, estop_lost_behind_fault}
use pinout.Halt.Trail.{heard}

coordinator : Unit {0}
unfolding init run step gate transition announce heard
coordinator = tt

abbrev stop_and_recover : List Call
stop_and_recover =
    subscribes 4
    ∷ estops "smoke" (some "ann") 5
    ∷ resumes none none 6
    ∷ clears_estop none 7
    ∷ resumes none none 8
    ∷ []

recovered : (run (init true) stop_and_recover).0.state ≡ normal
unfolding coordinator
recovered = refl

estop_holds_example :
    is_open
      (run
        (request_estop (init true) "smoke" none 5).0
        (resumes none none 6 ∷ faults "bus" none 7 ∷ [])).0
    ≡ false
estop_holds_example =
    estop_holds (init true) "smoke" none 5 (resumes none none 6 ∷ faults "bus" none 7 ∷ [])
      (refl, (refl, tt))

estop_lost_behind_fault_example :
    let h =
      (clear_fault (fault (request_estop (init true) "smoke" none 5).0 "bus" none 6).0 none 7).0 in
    (is_open h ≡ true) × (h.estop_flag ≡ true) × (h.state ≡ normal)
estop_lost_behind_fault_example =
    estop_lost_behind_fault (init true) "smoke" "bus" none none none 5 6 7
