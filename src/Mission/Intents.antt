-- ===== src/Mission/Intents.antt =====
-- crates/fd-mission/src/intents.rs: what a mission intends, read off the commands of a tick.
use flightdeck_os.Base.{
  ℕ, ◌≡◌, refl, Bool, true, false, ◌&&◌, Option, none, some, if◌then◌else◌, arith,
}
use flightdeck_os.Base.Floats.{Float}
use flightdeck_os.Base.Texts.{String}
use flightdeck_os.Mission.Controller.{
  MissionPhase, MissionContext, MissionCommands, MissionParameters, descent_vs_fpm, intended_tick,
  intended_commands, intended_next_phase,
}

pub data HighLevelIntent (F : Type 0) : Type 0 where
  climb_to descend_to maintain_altitude : F → String → HighLevelIntent F
  follow_route_leg : Option ℕ → Option F → String → HighLevelIntent F
  prepare_descent configure_for_approach : String → HighLevelIntent F

abbrev pub variant_name : {F : Type 0} → HighLevelIntent F → String
variant_name (climb_to target reason) = "climb_to"
variant_name (descend_to target reason) = "descend_to"
variant_name (maintain_altitude target reason) = "maintain_altitude"
variant_name (follow_route_leg leg heading reason) = "follow_route_leg"
variant_name (prepare_descent reason) = "prepare_descent"
variant_name (configure_for_approach reason) = "configure_for_approach"

abbrev pub reason : {F : Type 0} → HighLevelIntent F → String
reason (climb_to target because) = because
reason (descend_to target because) = because
reason (maintain_altitude target because) = because
reason (follow_route_leg leg heading because) = because
reason (prepare_descent because) = because
reason (configure_for_approach because) = because

module _ {F : Type 0} (fl : Float F) where
  open fl use {le, eq}

  abbrev pub descent_trigger_reason : MissionContext F → MissionParameters F → String
  descent_trigger_reason ctx params =
      if le ctx.distance_to_destination_nm params.descent_distance_nm
      then "because distance_to_destination_nm<=descent_distance_nm"
      else "because descent_command_active"

  -- `x == Some(y)`, and `is_some`.
  abbrev pub is_value : Option F → F → Bool
  is_value none y = false
  is_value (some x) y = eq x y

  abbrev pub is_some : {A : Type 0} → Option A → Bool
  is_some none = false
  is_some (some a) = true

  -- The intent with an altitude to reach, or along the route without one.
  abbrev pub toward : (F → HighLevelIntent F) → Option F → Option F → HighLevelIntent F
  toward intent none heading = follow_route_leg none heading "because active_leg_guidance"
  toward intent (some target) heading = intent target

  -- The intents of the climb and the cruise.
  abbrev pub enroute_intent :
      (F → HighLevelIntent F)
      → MissionCommands F
      → MissionContext F
      → MissionParameters F
      → HighLevelIntent F
  enroute_intent intent cmds ctx params =
      if is_value cmds.set_target_vertical_speed_fpm (descent_vs_fpm fl)
        && is_some cmds.set_target_altitude_ft
      then prepare_descent (descent_trigger_reason ctx params)
      else toward intent cmds.set_target_altitude_ft cmds.set_target_heading_deg

  unfoldable pub intent_from_tick :
      MissionPhase
      → MissionCommands F
      → MissionContext F
      → MissionParameters F
      → Option (HighLevelIntent F)
  intent_from_tick MissionPhase.preflight cmds ctx params =
      some (follow_route_leg none cmds.set_target_heading_deg "because takeoff_roll_heading")
  intent_from_tick MissionPhase.takeoff cmds ctx params =
      some (follow_route_leg none cmds.set_target_heading_deg "because climbout_heading")
  intent_from_tick MissionPhase.climb cmds ctx params =
      some (enroute_intent (λ target. climb_to target "because altitude<target") cmds ctx params)
  intent_from_tick MissionPhase.cruise cmds ctx params = some (
      enroute_intent (λ target. maintain_altitude target "because altitude_at_target") cmds ctx
        params)
  intent_from_tick MissionPhase.descent cmds ctx params = some (
      toward (λ target. descend_to target "because descending_to_approach_floor")
        cmds.set_target_altitude_ft cmds.set_target_heading_deg)
  intent_from_tick MissionPhase.approach cmds ctx params =
      some (configure_for_approach "because distance_to_destination<approach_gate")
  intent_from_tick _ cmds ctx params = none

  unfoldable pub intent_for_tick :
      MissionPhase → MissionContext F → MissionParameters F → Option (HighLevelIntent F)
  intent_for_tick phase ctx params =
      intent_from_tick phase (intended_commands fl phase ctx params) ctx params

abbrev pub is_prepare_descent : {F : Type 0} → Option (HighLevelIntent F) → Bool
is_prepare_descent (some (prepare_descent because)) = true
is_prepare_descent _ = false

abbrev pub is_descent : Option MissionPhase → Bool
is_descent (some MissionPhase.descent) = true
is_descent _ = false

module _ {F : Type 0} (fl : Float F) where
  -- In every phase, the intent of a tick is to prepare the descent exactly when the decision of that
  -- tick is to begin it, where the commanded descent rate equals itself as a number.
  pub intent_for_tick-agrees :
      fl.eq (descent_vs_fpm fl) (descent_vs_fpm fl) ≡ true
      → (phase : MissionPhase) (ctx : MissionContext F) (params : MissionParameters F)
      → is_prepare_descent (intent_for_tick fl phase ctx params)
        ≡ is_descent (intended_next_phase fl phase ctx params)
  unfolding intent_for_tick intent_from_tick intended_commands intended_next_phase intended_tick
  intent_for_tick-agrees e MissionPhase.preflight ctx params = ground (arith, e)
  intent_for_tick-agrees e MissionPhase.takeoff ctx params = ground (arith, e)
  intent_for_tick-agrees e MissionPhase.climb ctx params = ground (arith, e)
  intent_for_tick-agrees e MissionPhase.cruise ctx params = ground (arith, e)
  intent_for_tick-agrees e MissionPhase.descent ctx params = ground (arith, e)
  intent_for_tick-agrees e MissionPhase.approach ctx params = ground (arith, e)
  intent_for_tick-agrees e MissionPhase.landing ctx params = ground (arith, e)
  intent_for_tick-agrees e MissionPhase.parked ctx params = refl
  intent_for_tick-agrees e MissionPhase.completed ctx params = refl
  intent_for_tick-agrees e MissionPhase.failed ctx params = refl
