-- ===== src/Mission/Controller.antt =====
-- crates/fd-mission/src/controller.rs: the phases of a mission and the targets it commands, and
-- `FlightControlTargets` of crates/fd-core/src/adapter.rs.
pub mod Order
use flightdeck_os.Base.{
  ℕ, Bool, true, false, not, ◌&&◌, ◌||◌, Option, none, some, if◌then◌else◌, unwrap_or,
}
use flightdeck_os.Base.Floats.{Float}
use flightdeck_os.Base.Texts.{String}
use flightdeck_os.Core.Telemetry.{TelemetrySnapshot}

-- What follows targets, over a state of its own.
pub record FlightControlTargets (F S : Type 0) : Type 0 where
  pub flight_guidance_supported : S → Bool
  pub set_target_altitude : S → F → S
  pub set_target_speed : S → F → S
  pub set_target_heading : S → F → S
  pub set_target_vertical_speed : S → F → S

pub data MissionPhase : Type 0 where
  preflight takeoff climb cruise descent approach landing parked completed failed : MissionPhase

abbrev pub name : MissionPhase → String
name MissionPhase.preflight = "preflight"
name MissionPhase.takeoff = "takeoff"
name MissionPhase.climb = "climb"
name MissionPhase.cruise = "cruise"
name MissionPhase.descent = "descent"
name MissionPhase.approach = "approach"
name MissionPhase.landing = "landing"
name MissionPhase.parked = "parked"
name MissionPhase.completed = "completed"
name MissionPhase.failed = "failed"

pub record MissionContext (F : Type 0) : Type 0 where
  pub snapshot : TelemetrySnapshot F
  pub distance_to_destination_nm : F
  pub bearing_to_waypoint_deg : F

pub record MissionCommands (F : Type 0) : Type 0 where
  pub set_target_altitude_ft : Option F
  pub set_target_speed_kt : Option F
  pub set_target_heading_deg : Option F
  pub set_target_vertical_speed_fpm : Option F

pub record MissionParameters (F : Type 0) : Type 0 where
  pub cruise_altitude_ft : F
  pub cruise_speed_kt : F
  pub climb_speed_kt : F
  pub takeoff_target_speed_kt : F
  pub approach_speed_kt : F
  pub descent_distance_nm : F
  pub approach_gate_nm : F
  pub landing_speed_kt : F

-- `MissionCommands::default`.
abbrev pub no_commands : {F : Type 0} → MissionCommands F
no_commands = record {
  set_target_altitude_ft = none;
  set_target_speed_kt = none;
  set_target_heading_deg = none;
  set_target_vertical_speed_fpm = none;
}

-- The commands of a tick and the next phase, `none` to remain.
abbrev pub Tick : Type 0 → Type 0
Tick F = MissionCommands F × Option MissionPhase

-- The test on a value that a snapshot may lack.
abbrev pub is_some_and : {A : Type 0} → Option A → (A → Bool) → Bool
is_some_and none test = false
is_some_and (some a) test = test a

pub record MissionController (F : Type 0) : Type 0 where
  pub params : MissionParameters F
  pub phase : MissionPhase

abbrev pub new : {F : Type 0} → MissionParameters F → MissionController F
new params = record { params = params; phase = MissionPhase.preflight }

abbrev pub fail : {F : Type 0} → MissionController F → MissionController F
fail c = record c { phase = MissionPhase.failed }

module _ {F : Type 0} (fl : Float F) where
  open fl use {lit, tenth, neg, lt, le, sub, mul, abs, max}

  abbrev pub default : MissionParameters F
  default = record {
    cruise_altitude_ft = lit 34000;
    cruise_speed_kt = lit 450;
    climb_speed_kt = lit 300;
    takeoff_target_speed_kt = lit 160;
    approach_speed_kt = lit 160;
    descent_distance_nm = lit 120;
    approach_gate_nm = lit 30;
    landing_speed_kt = lit 140;
  }

  abbrev pub descent_vs_fpm : F
  descent_vs_fpm = neg (lit 1800)

  abbrev climb_out_vs_fpm : F
  climb_out_vs_fpm = lit 2200

  abbrev approach_elevation_estimate_ft : F
  approach_elevation_estimate_ft = lit 2000

  abbrev pub grounded : MissionContext F → Bool
  grounded ctx = unwrap_or ctx.snapshot.on_ground true

  abbrev pub airspeed : MissionContext F → F
  airspeed ctx = unwrap_or ctx.snapshot.indicated_airspeed (lit 0)

  -- The start of the descent, from the climb or the cruise.
  abbrev begin_descent : MissionCommands F → Tick F
  begin_descent cmds = (
    record cmds {
      set_target_altitude_ft = some approach_elevation_estimate_ft;
      set_target_vertical_speed_fpm = some descent_vs_fpm;
    },
    some MissionPhase.descent,
  )

  module _ (ctx : MissionContext F) (params : MissionParameters F) where
    abbrev pub preflight_tick : Tick F
    preflight_tick = (
      record no_commands {
        set_target_heading_deg = some ctx.bearing_to_waypoint_deg;
        set_target_speed_kt = some params.takeoff_target_speed_kt;
      },
      if not (grounded ctx)
            || (le (mul params.takeoff_target_speed_kt (tenth 9)) (airspeed ctx)
                && lt (lit 50) (unwrap_or ctx.snapshot.altitude_agl (lit 0)))
          then some MissionPhase.takeoff
          else none,
    )

    abbrev pub takeoff_tick : Tick F
    takeoff_tick =
        let cmds = record no_commands {
          set_target_speed_kt = some params.climb_speed_kt;
          set_target_heading_deg = some ctx.bearing_to_waypoint_deg;
          set_target_vertical_speed_fpm = some climb_out_vs_fpm;
        } in
        if is_some_and ctx.snapshot.altitude_agl (λ alt. le (lit 1500) alt)
        then (
          record cmds {
            set_target_altitude_ft = some params.cruise_altitude_ft;
            set_target_vertical_speed_fpm = none;
          },
          some MissionPhase.climb,
        )
        else (cmds, none)

    abbrev pub climb_tick : Tick F
    climb_tick =
        let cmds = record no_commands {
          set_target_speed_kt = some params.climb_speed_kt;
          set_target_altitude_ft = some params.cruise_altitude_ft;
          set_target_heading_deg = some ctx.bearing_to_waypoint_deg;
        } in
        if le ctx.distance_to_destination_nm params.descent_distance_nm
        then begin_descent cmds
        else (if is_some_and ctx.snapshot.altitude_msl
              (λ alt. le (abs (sub alt params.cruise_altitude_ft)) (lit 200))
            then (
              record cmds { set_target_speed_kt = some params.cruise_speed_kt },
              some MissionPhase.cruise,
            )
            else (cmds, none))

    abbrev pub cruise_tick : Tick F
    cruise_tick =
        let cmds = record no_commands {
          set_target_speed_kt = some params.cruise_speed_kt;
          set_target_altitude_ft = some params.cruise_altitude_ft;
          set_target_heading_deg = some ctx.bearing_to_waypoint_deg;
        } in
        if le ctx.distance_to_destination_nm params.descent_distance_nm
        then begin_descent cmds
        else (cmds, none)

    abbrev low_altitude : Option F → Option F
    low_altitude none = none
    low_altitude (some alt) = some (if lt (lit 5000) alt then lit 3000 else lit 2000)

    abbrev pub descent_tick : Tick F
    descent_tick = (
      record no_commands {
        set_target_speed_kt = some (max params.approach_speed_kt (lit 200));
        set_target_vertical_speed_fpm = some descent_vs_fpm;
        set_target_heading_deg = some ctx.bearing_to_waypoint_deg;
        set_target_altitude_ft = low_altitude ctx.snapshot.altitude_msl;
      },
      if le ctx.distance_to_destination_nm params.approach_gate_nm
          then some MissionPhase.approach
          else none,
    )

    abbrev pub approach_tick : Tick F
    approach_tick = (
      record no_commands {
        set_target_speed_kt = some params.landing_speed_kt;
        set_target_vertical_speed_fpm = some (neg (lit 450));
        set_target_heading_deg = some ctx.bearing_to_waypoint_deg;
      },
      if grounded ctx then some MissionPhase.landing else none,
    )

    abbrev pub landing_tick : Tick F
    landing_tick = (
      record no_commands { set_target_speed_kt = some (lit 5) },
      if le (airspeed ctx) (lit 6) && grounded ctx then some MissionPhase.parked else none,
    )

    abbrev pub parked_tick : Tick F
    parked_tick =
        (record no_commands { set_target_speed_kt = some (lit 0) }, some MissionPhase.completed)

  unfoldable pub intended_tick : MissionPhase → MissionContext F → MissionParameters F → Tick F
  intended_tick MissionPhase.preflight ctx params = preflight_tick ctx params
  intended_tick MissionPhase.takeoff ctx params = takeoff_tick ctx params
  intended_tick MissionPhase.climb ctx params = climb_tick ctx params
  intended_tick MissionPhase.cruise ctx params = cruise_tick ctx params
  intended_tick MissionPhase.descent ctx params = descent_tick ctx params
  intended_tick MissionPhase.approach ctx params = approach_tick ctx params
  intended_tick MissionPhase.landing ctx params = landing_tick ctx params
  intended_tick MissionPhase.parked ctx params = parked_tick ctx params
  intended_tick MissionPhase.completed ctx params = (no_commands, none)
  intended_tick MissionPhase.failed ctx params = (no_commands, none)

  unfoldable pub intended_commands :
      MissionPhase → MissionContext F → MissionParameters F → MissionCommands F
  intended_commands phase ctx params = (intended_tick phase ctx params).0

  unfoldable pub intended_next_phase :
      MissionPhase → MissionContext F → MissionParameters F → Option MissionPhase
  intended_next_phase phase ctx params = (intended_tick phase ctx params).1

  module _ {S : Type 0} (controls : FlightControlTargets F S) where
    -- A target is set where the command has one.
    abbrev pub set_some : (S → F → S) → Option F → S → S
    set_some set none s = s
    set_some set (some v) s = set s v

    abbrev pub send : MissionCommands F → S → S
    send cmds s = set_some controls.set_target_vertical_speed cmds.set_target_vertical_speed_fpm (
        set_some controls.set_target_heading cmds.set_target_heading_deg (
          set_some controls.set_target_speed cmds.set_target_speed_kt
            (set_some controls.set_target_altitude cmds.set_target_altitude_ft s)))

    unfoldable pub step :
        MissionController F → MissionContext F → S → MissionCommands F × MissionController F × S
    step c ctx s =
        let (cmds, next_phase) = intended_tick c.phase ctx c.params in
        (cmds, record c { phase = unwrap_or next_phase c.phase }, send cmds s)
