-- ===== src/Awareness.antt =====
-- packages/awareness/src/stateMachine.ts, the table of types.ts and `transitionPath` of store.ts:
-- the presence of a device. Of a record these functions read the state and the time it was last
-- seen, which are their arguments here; an error that is thrown is `none`.
pub mod Paths
pub mod Staleness
mod Examples
use pinout.Prelude.{
  ℕ, ◌+◌, Bool, true, false, not, ◌&&◌, ◌||◌, Option, none, some, List, [], ◌∷◌, String, ◌==◌,
  string_eq, leb, if◌then◌else◌, any,
}
use text.Mathlib.Text.{starts_with}

pub data AwarenessState : Type 0 where
  seen identified pending_enroll online stale offline : AwarenessState

abbrev pub state_beq : AwarenessState → AwarenessState → Bool
state_beq seen seen = true
state_beq identified identified = true
state_beq pending_enroll pending_enroll = true
state_beq online online = true
state_beq stale stale = true
state_beq offline offline = true
state_beq _ _ = false

-- `AWARENESS_TRANSITIONS`
unfoldable pub awareness_transitions : AwarenessState → List AwarenessState
awareness_transitions seen = identified ∷ pending_enroll ∷ stale ∷ offline ∷ []
awareness_transitions identified = pending_enroll ∷ online ∷ stale ∷ offline ∷ seen ∷ []
awareness_transitions pending_enroll = online ∷ identified ∷ stale ∷ offline ∷ []
awareness_transitions online = stale ∷ offline ∷ pending_enroll ∷ []
awareness_transitions stale = online ∷ pending_enroll ∷ identified ∷ seen ∷ offline ∷ []
awareness_transitions offline = seen ∷ identified ∷ pending_enroll ∷ online ∷ stale ∷ []

unfoldable pub can_transition : AwarenessState → AwarenessState → Bool
can_transition a b = state_beq a b || any (λ s. state_beq s b) (awareness_transitions a)

-- The lines of `transitionPath` behind its two tests.
unfoldable pub detour : AwarenessState → AwarenessState → Option (List AwarenessState)
detour seen pending_enroll = some (identified ∷ pending_enroll ∷ [])
detour seen online = some (identified ∷ pending_enroll ∷ online ∷ [])
detour identified online = some (pending_enroll ∷ online ∷ [])
detour stale pending_enroll =
    if can_transition stale pending_enroll
    then some (pending_enroll ∷ [])
    else some (identified ∷ pending_enroll ∷ [])
detour offline pending_enroll =
    if can_transition offline pending_enroll
    then some (pending_enroll ∷ [])
    else some (identified ∷ pending_enroll ∷ [])
detour stale online = some (online ∷ [])
detour offline online = some (online ∷ [])
detour stale identified = some (identified ∷ [])
detour offline identified = some (identified ∷ [])
detour stale seen = some (seen ∷ [])
detour offline seen = some (seen ∷ [])
detour pending_enroll seen = some (identified ∷ seen ∷ [])
detour _ _ = none

unfoldable pub transition_path : AwarenessState → AwarenessState → Option (List AwarenessState)
transition_path a b =
    if state_beq a b then some [] else if can_transition a b then some (b ∷ []) else detour a b

unfoldable pub is_known_module : Option String → Bool
is_known_module none = false
is_known_module (some id) = not (id == "" || (starts_with id "unknown/" || id == "unknown"))

unfoldable pub presence_state_for_observation : Bool → Option String → Bool → AwarenessState
presence_state_for_observation enrolled guessed_module_id has_identity_signal =
    if enrolled
    then online
    else if is_known_module guessed_module_id
    then pending_enroll
    else if has_identity_signal
    then identified
    else seen

pub record AwarenessStalenessConfig : Type 0 where
  pub stale_after_ms : ℕ
  pub offline_after_ms : ℕ

-- `now - lastSeen >= ms`, also for a clock that went back.
abbrev pub unseen_for : ℕ → ℕ → ℕ → Bool
unseen_for last_seen now ms = leb (last_seen + ms) now

unfoldable pub evaluate_staleness :
    AwarenessState → ℕ → ℕ → AwarenessStalenessConfig → Option AwarenessState
evaluate_staleness state last_seen now config =
    if state_beq state offline
    then none
    else if unseen_for last_seen now config.offline_after_ms && can_transition state offline
    then some offline
    else if unseen_for last_seen now config.stale_after_ms
        && (not (state_beq state stale) && can_transition state stale)
    then some stale
    else none
