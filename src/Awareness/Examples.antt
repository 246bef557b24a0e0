-- ===== src/Awareness/Examples.antt =====
-- The presence of a device at concrete inputs.
use pinout.Prelude.{◌≡◌, refl, false, not, some, [], ◌∷◌, is_some}
use pinout.Awareness.{
  AwarenessStalenessConfig, seen, identified, online, stale, pending_enroll, transition_path,
  detour, can_transition, awareness_transitions, is_known_module,
}
use pinout.Awareness.Paths.{falls_from_online, transition_path-is_some}

-- `DEFAULT_STALENESS`
abbrev default_staleness : AwarenessStalenessConfig
default_staleness = record { stale_after_ms = 30_000; offline_after_ms = 120_000 }

down_the_ladder : transition_path pending_enroll seen ≡ some (identified ∷ seen ∷ [])
unfolding transition_path detour can_transition awareness_transitions
down_the_ladder = refl

unknown_lamp : is_known_module (some "unknown/lamp") ≡ false
unfolding is_known_module
unknown_lamp = refl

transition_path-is_some_example :
    is_some (transition_path stale online) ≡ not (falls_from_online stale online)
transition_path-is_some_example = transition_path-is_some stale online
