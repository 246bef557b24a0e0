-- ===== src/Halt.antt =====
-- packages/core/src/halt/haltCoordinator.ts: the safety state of the runtime.
-- A call returns the coordinator and the changes that it announces, one for each listener in the
-- order of subscription and then one for `onStateChange`. Listeners are known by a number, and what
-- they do with a change is outside the model. `now` is the clock; an absent actor is `none`.
pub mod Sequence
pub mod Estop
pub mod Trail
mod Examples
use pinout.Prelude.{
  ℕ, ◌≡◌, refl, Bool, true, false, not, ◌&&◌, ◌||◌, Option, none, some, List, [], ◌∷◌, ◌++◌, String,
  Eq, ◌==◌, string_eq, nat_eq, arith, if◌then◌else◌, map, keep, any, Result, ok, err, or_default,
  ◌↔◌,
}

pub data SafetyStateName : Type 0 where
  normal restricted halted estop_requested faulted : SafetyStateName

abbrev pub state_beq : SafetyStateName → SafetyStateName → Bool
state_beq normal normal = true
state_beq restricted restricted = true
state_beq halted halted = true
state_beq estop_requested estop_requested = true
state_beq faulted faulted = true
state_beq _ _ = false

pub record SafetyStateChange : Type 0 where
  pub from_state : SafetyStateName
  pub to_state : SafetyStateName
  pub reason : String
  pub actor : Option String
  pub at : ℕ

pub data Listener : Type 0 where
  subscribed : ℕ → Listener
  on_state_change : Listener

pub record HaltVerdict : Type 0 where
  pub allowed : Bool
  pub code : Option String
  pub message : Option String

pub data HaltError : Type 0 where
  safety_error : String → String → HaltError

pub record HaltCoordinator : Type 0 where
  pub state : SafetyStateName
  pub reason : String
  pub estop_flag : Bool
  pub fault_flag : Bool
  pub listeners : List ℕ
  pub has_external : Bool

unfoldable pub init : Bool → HaltCoordinator
init has_external = record {
  state = normal;
  reason = "";
  estop_flag = false;
  fault_flag = false;
  listeners = [];
  has_external = has_external;
}

-- `this.currentReason || fallback`
abbrev or_text : String → String → String
or_text s fallback = if s == "" then fallback else s

abbrev refusal : String → String → HaltVerdict
refusal code message = record { allowed = false; code = some code; message = some message }

gate_at : SafetyStateName → String → HaltVerdict
gate_at normal reason = record { allowed = true; code = none; message = none }
gate_at restricted reason = record { allowed = true; code = none; message = none }
gate_at halted reason = refusal "SAFETY_HALTED" (or_text reason "Runtime is halted.")
gate_at estop_requested reason =
    refusal "SAFETY_ESTOP_REQUESTED" (or_text reason "Emergency stop requested.")
gate_at faulted reason = refusal "SAFETY_FAULTED" (or_text reason "Runtime is faulted.")

unfoldable pub gate : HaltCoordinator → HaltVerdict
unfolding gate_at
gate h = gate_at h.state h.reason

unfoldable pub enforce_gate : HaltCoordinator → Result HaltError (Unit {0})
unfolding gate
enforce_gate h =
    if (gate h).allowed
    then ok tt
    else err (
        safety_error (or_default (gate h).code "SAFETY_HALTED")
          (or_default (gate h).message "Physical action rejected by safety state."))

abbrev pub Announced : Type 0
Announced = List (Listener × SafetyStateChange)

unfoldable pub announce : HaltCoordinator → SafetyStateChange → Announced
announce h change =
    map (λ n. (subscribed n, change)) h.listeners
    ++ (if h.has_external then (on_state_change, change) ∷ [] else [])

unfoldable pub transition :
    HaltCoordinator → SafetyStateName → String → Option String → ℕ → HaltCoordinator × Announced
transition h to reason actor now = if state_beq h.state to && h.reason == reason then (h, []) else (
  record h { state = to; reason = reason },
  announce h
      (record { from_state = h.state; to_state = to; reason = reason; actor = actor; at = now }),
)

unfoldable pub halt : HaltCoordinator → String → Option String → ℕ → HaltCoordinator × Announced
halt h reason actor now = transition h halted reason actor now

unfoldable pub request_estop :
    HaltCoordinator → String → Option String → ℕ → HaltCoordinator × Announced
request_estop h reason actor now =
    transition (record h { estop_flag = true }) estop_requested reason actor now

unfoldable pub clear_estop : HaltCoordinator → Option String → ℕ → HaltCoordinator × Announced
clear_estop h actor now =
    let h' = record h { estop_flag = false } in
    if not h.estop_flag
    then (h, [])
    else if state_beq h.state estop_requested
    then transition h' halted "Estop cleared; awaiting explicit resume." actor now
    else (h', [])

unfoldable pub fault : HaltCoordinator → String → Option String → ℕ → HaltCoordinator × Announced
fault h reason actor now = transition (record h { fault_flag = true }) faulted reason actor now

unfoldable pub clear_fault : HaltCoordinator → Option String → ℕ → HaltCoordinator × Announced
clear_fault h actor now =
    let h' = record h { fault_flag = false } in
    if not h.fault_flag
    then (h, [])
    else if state_beq h.state faulted
    then transition h' normal "Fault cleared." actor now
    else (h', [])

unfoldable pub resume :
    HaltCoordinator
    → Option String
    → Option String
    → ℕ
    → Result HaltError (HaltCoordinator × Announced)
resume h reason actor now =
    if h.estop_flag
    then err (
        safety_error "SAFETY_ESTOP_STILL_ACTIVE"
          "Emergency stop has not been cleared; call clearEstop() first.")
    else if h.fault_flag
    then err (
        safety_error "SAFETY_FAULT_STILL_ACTIVE"
          "Fault has not been cleared; call clearFault() first.")
    else if state_beq h.state halted || state_beq h.state restricted
    then ok (transition h normal (or_default reason "Resume requested") actor now)
    else ok (h, [])

unfoldable pub restrict : HaltCoordinator → String → Option String → ℕ → HaltCoordinator × Announced
restrict h reason actor now =
    if state_beq h.state normal then transition h restricted reason actor now else (h, [])

-- A `Set` keeps the first place of an element.
unfoldable pub subscribe : HaltCoordinator → ℕ → HaltCoordinator
subscribe h n =
    if any (λ k. k == n) h.listeners then h else record h { listeners = h.listeners ++ n ∷ [] }

unfoldable pub unsubscribe : HaltCoordinator → ℕ → HaltCoordinator
unsubscribe h n = record h { listeners = keep (λ k. not (k == n)) h.listeners }

unfoldable pub safety_state_event_name : SafetyStateName → String
safety_state_event_name normal = "safety.resumed"
safety_state_event_name restricted = "safety.restricted"
safety_state_event_name halted = "safety.halted"
safety_state_event_name estop_requested = "safety.estop_requested"
safety_state_event_name faulted = "safety.faulted"
