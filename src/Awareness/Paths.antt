-- ===== src/Awareness/Paths.antt =====
-- store.ts: the paths between the states of a device.
use mathlib.Core.Option.{some-injective}
use pinout.Prelude.{
  subst, ◌≡◌, refl, Bool, true, false, ◌&&◌, not, Option, none, some, List, [], ◌∷◌, String, arith,
  is_some,
}
use pinout.Awareness.{
  AwarenessState, seen, identified, pending_enroll, online, stale, offline, state_beq,
  awareness_transitions, can_transition, detour, transition_path, is_known_module,
  presence_state_for_observation,
}

-- A walk along allowed transitions from one state to another.
abbrev pub walks : AwarenessState → List AwarenessState → AwarenessState → Bool
walks a [] c = state_beq a c
walks a (b ∷ bs) c = can_transition a b && walks b bs c

-- An online device that is observed as no more than seen or identified.
abbrev pub falls_from_online : AwarenessState → AwarenessState → Bool
falls_from_online online seen = true
falls_from_online online identified = true
falls_from_online _ _ = false

abbrev Leads : AwarenessState → AwarenessState → Option (List AwarenessState) → Type 0
Leads a b none = falls_from_online a b ≡ true
Leads a b (some path) = (walks a path b ≡ true) × (falls_from_online a b ≡ false)

transition_path-Leads : (a b : AwarenessState) → Leads a b (transition_path a b)
unfolding transition_path detour can_transition awareness_transitions
transition_path-Leads seen b = ground arith
transition_path-Leads identified b = ground arith
transition_path-Leads pending_enroll b = ground arith
transition_path-Leads online b = ground arith
transition_path-Leads stale b = ground arith
transition_path-Leads offline b = ground arith

walks_along :
    (a b : AwarenessState) (found : Option (List AwarenessState)) (path : List AwarenessState)
    → Leads a b found
    → found ≡ some path
    → walks a path b ≡ true
walks_along a b none path h e = absurd (ground arith)
walks_along a b (some p) path h e = subst (λ q. walks a q b ≡ true) (some-injective p path e) h.0

exists_unless_falling :
    (a b : AwarenessState) (found : Option (List AwarenessState))
    → Leads a b found
    → is_some found ≡ not (falls_from_online a b)
exists_unless_falling a b none h = rw h refl
exists_unless_falling a b (some p) h = rw h.1 refl

-- A path that `transitionPath` finds is a walk along allowed transitions between the two states, so
-- that no `transition` on it throws.
pub transition_path-walks :
    (a b : AwarenessState) (path : List AwarenessState)
    → transition_path a b ≡ some path
    → walks a path b ≡ true
transition_path-walks a b path e =
    walks_along a b (transition_path a b) path (transition_path-Leads a b) e

-- `transitionPath` throws for two pairs of states only: from online to seen and to identified.
pub transition_path-is_some :
    (a b : AwarenessState) → is_some (transition_path a b) ≡ not (falls_from_online a b)
transition_path-is_some a b =
    exists_unless_falling a b (transition_path a b) (transition_path-Leads a b)

-- An online device that is observed while it is not enrolled, and whose module is not known, makes
-- `transitionPath` throw, whatever else identifies it.
pub observed_online :
    (guessed_module_id : Option String) (has_identity_signal : Bool)
    → is_known_module guessed_module_id ≡ false
    → transition_path online
        (presence_state_for_observation false guessed_module_id has_identity_signal)
      ≡ none
unfolding transition_path detour can_transition awareness_transitions presence_state_for_observation
observed_online id signal k = ground arith
