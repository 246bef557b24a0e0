-- ===== src/Awareness/Staleness.antt =====
-- stateMachine.ts: what the sweep makes of devices that are not seen any more.
use pinout.Prelude.{ℕ, ◌≡◌, ◌||◌, none, arith, if◌then◌else◌, or_default}
use pinout.Awareness.{
  AwarenessState, seen, identified, pending_enroll, online, stale, offline, state_beq,
  awareness_transitions, can_transition, AwarenessStalenessConfig, unseen_for, evaluate_staleness,
}

-- The state of a device behind a sweep at `now`.
abbrev pub swept : AwarenessState → ℕ → ℕ → AwarenessStalenessConfig → AwarenessState
swept state last_seen now config = or_default (evaluate_staleness state last_seen now config) state

-- A sweep decides by the time that a device was last seen alone: it makes the device offline if it
-- was not seen for the longer time, and otherwise makes it stale if it was not seen for the shorter
-- one, unless it is offline already; else it leaves the state.
pub swept-eq :
    (state : AwarenessState) (last_seen now : ℕ) (config : AwarenessStalenessConfig)
    → swept state last_seen now config ≡ (
        if state_beq state offline || unseen_for last_seen now config.offline_after_ms
        then offline
        else if unseen_for last_seen now config.stale_after_ms
        then stale
        else state)
unfolding evaluate_staleness can_transition awareness_transitions
swept-eq seen last_seen now config = ground arith
swept-eq identified last_seen now config = ground arith
swept-eq pending_enroll last_seen now config = ground arith
swept-eq online last_seen now config = ground arith
swept-eq stale last_seen now config = ground arith
swept-eq offline last_seen now config = ground arith

-- A second sweep at the same time changes nothing.
pub evaluate_staleness-swept :
    (state : AwarenessState) (last_seen now : ℕ) (config : AwarenessStalenessConfig)
    → evaluate_staleness (swept state last_seen now config) last_seen now config ≡ none
unfolding evaluate_staleness can_transition awareness_transitions
evaluate_staleness-swept seen last_seen now config = ground arith
evaluate_staleness-swept identified last_seen now config = ground arith
evaluate_staleness-swept pending_enroll last_seen now config = ground arith
evaluate_staleness-swept online last_seen now config = ground arith
evaluate_staleness-swept stale last_seen now config = ground arith
evaluate_staleness-swept offline last_seen now config = ground arith
