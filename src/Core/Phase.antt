-- ===== src/Core/Phase.antt =====
-- crates/fd-core/src/phase.rs: the flight phase engine. An evidence text is its template with the
-- numbers that the code prints into it.
pub mod Hysteresis
pub mod Terminal
pub mod Airborne
use flightdeck_os.Base.{
  ℕ, ◌+◌, ◌-◌, ◌%◌, ◌^◌, Bool, true, false, Option, none, some, ◌&&◌, ◌||◌, not, leb, ◌==◌,
  if◌then◌else◌, unwrap_or,
}
use flightdeck_os.Base.Floats.{Float}
use flightdeck_os.Core.Telemetry.{SimTimestamp, TelemetrySnapshot}

pub data FlightPhase : Type 0 where
  preflight taxi_out takeoff initial_climb departure climb cruise descent : FlightPhase
  arrival approach final landing taxi_in parked unknown : FlightPhase

abbrev pub is_airborne : FlightPhase → Bool
is_airborne takeoff = true
is_airborne initial_climb = true
is_airborne departure = true
is_airborne climb = true
is_airborne cruise = true
is_airborne descent = true
is_airborne arrival = true
is_airborne approach = true
is_airborne final = true
is_airborne _ = false

abbrev pub is_terminal_arrival : FlightPhase → Bool
is_terminal_arrival arrival = true
is_terminal_arrival approach = true
is_terminal_arrival final = true
is_terminal_arrival landing = true
is_terminal_arrival _ = false

-- The derived `==`: a phase is its place in the declaration.
abbrev pub place : FlightPhase → ℕ
place preflight = 0
place taxi_out = 1
place takeoff = 2
place initial_climb = 3
place departure = 4
place climb = 5
place cruise = 6
place descent = 7
place arrival = 8
place approach = 9
place final = 10
place landing = 11
place taxi_in = 12
place parked = 13
place unknown = 14

abbrev pub phase_eq : FlightPhase → FlightPhase → Bool
phase_eq p q = place p == place q

pub data PhaseConfidence : Type 0 where
  high medium low unknown : PhaseConfidence

pub data Evidence (F : Type 0) : Type 0 where
  stationary parked_at_destination flying_sid : Evidence F
  taxiing_out takeoff_roll touchdown_rollout taxiing_to_gate : F → Evidence F
  on_approach terminal_arrival : F → Evidence F
  climbing_rapidly on_final enroute_descent enroute_climb enroute_cruise : F → F → Evidence F
  teleport : F → F → Evidence F

pub record PhaseAssessment (F : Type 0) : Type 0 where
  pub phase : FlightPhase
  pub confidence : PhaseConfidence
  pub evidence : Evidence F
  pub timestamp : SimTimestamp

pub record PhaseTelemetry (F : Type 0) : Type 0 where
  pub on_ground : Bool
  pub altitude_msl_ft : F
  pub altitude_agl_ft : Option F
  pub groundspeed_kt : F
  pub vertical_speed_fpm : F
  pub distance_to_dest_nm : Option F
  pub distance_to_runway_nm : Option F
  pub distance_from_dep_nm : Option F
  pub active_procedure_kind : Option ℕ  -- the code of a `char`
  pub timestamp : SimTimestamp

pub with_distances : {F : Type 0} → PhaseTelemetry F → Option F → Option F → PhaseTelemetry F
with_distances t dest_nm runway_nm = record t {
  distance_to_dest_nm = dest_nm;
  distance_to_runway_nm = runway_nm;
}

pub record FlightPhaseEngine (F : Type 0) : Type 0 where
  pub current_phase : FlightPhase
  pub consecutive_ticks : ℕ  -- u32
  pub last_telemetry : Option (PhaseTelemetry F)
  pub has_been_airborne : Bool

abbrev pub new : {F : Type 0} → FlightPhaseEngine F
new = record {
  current_phase = preflight;
  consecutive_ticks = 0;
  last_telemetry = none;
  has_been_airborne = false;
}

-- `Option::or`.
abbrev pub or : {A : Type 0} → Option A → Option A → Option A
or none b = b
or (some a) b = some a

abbrev pub u32 : ℕ → ℕ
u32 n = n % 2 ^ 32

module _ {F : Type 0} (fl : Float F) where
  open fl use {lit, neg, lt, sub, div, abs}

  -- `PhaseTelemetry::from`.
  unfoldable pub from_snapshot : TelemetrySnapshot F → PhaseTelemetry F
  from_snapshot s = record {
    on_ground = unwrap_or s.on_ground true;
    altitude_msl_ft = unwrap_or s.altitude_msl (lit 0);
    altitude_agl_ft = s.altitude_agl;
    groundspeed_kt = unwrap_or s.groundspeed (lit 0);
    vertical_speed_fpm = unwrap_or s.vertical_speed (lit 0);
    distance_to_dest_nm = none;
    distance_to_runway_nm = none;
    distance_from_dep_nm = none;
    active_procedure_kind = none;
    timestamp = s.timestamp;
  }

  abbrev pub no_distances_fallback_nm : F
  no_distances_fallback_nm = lit 999

  -- The branch of `infer_raw_phase` for an aircraft on the ground.
  unfoldable pub infer_on_ground : Bool → PhaseTelemetry F → FlightPhase × Evidence F
  infer_on_ground airborne_before telem =
      if not airborne_before
      then (if lt gs (lit 3)
          then (preflight, stationary)
          else if lt gs (lit 45)
          then (taxi_out, taxiing_out gs)
          else (takeoff, takeoff_roll gs))
      else if lt (lit 45) gs
      then (landing, touchdown_rollout gs)
      else if lt (lit 3) gs
      then (taxi_in, taxiing_to_gate gs)
      else (parked, parked_at_destination)
    where
      open telem use {groundspeed_kt as gs}

  abbrev pub dist_dest : PhaseTelemetry F → F
  dist_dest telem =
      unwrap_or (or telem.distance_to_dest_nm telem.distance_to_runway_nm) no_distances_fallback_nm

  abbrev pub agl_or_msl : PhaseTelemetry F → F
  agl_or_msl telem = unwrap_or telem.altitude_agl_ft telem.altitude_msl_ft

  abbrev pub procedure_kind : PhaseTelemetry F → ℕ
  procedure_kind telem = unwrap_or telem.active_procedure_kind b' '

  -- The enroute end of the airborne branch, below the approach and arrival tests.
  unfoldable pub infer_enroute : PhaseTelemetry F → FlightPhase × Evidence F
  infer_enroute telem =
      let dist = dist_dest telem in
      if lt vs (neg (lit 300)) && lt dist (lit 150)
      then (descent, enroute_descent vs dist)
      else if lt (lit 300) vs
      then (climb, enroute_climb vs telem.altitude_msl_ft)
      else (cruise, enroute_cruise telem.altitude_msl_ft telem.groundspeed_kt)
    where
      open telem use {vertical_speed_fpm as vs}

  -- The departure, approach and arrival tests.
  unfoldable pub infer_terminal : PhaseTelemetry F → FlightPhase × Evidence F
  unfolding infer_enroute
  infer_terminal telem =
      let dist = dist_dest telem in
      let agl = agl_or_msl telem in
      let from_dep = unwrap_or telem.distance_from_dep_nm no_distances_fallback_nm in
      let proc = procedure_kind telem in
      if proc == b'D' || (lt from_dep (lit 30) && lt (lit 200) vs)
      then (departure, flying_sid)
      else if proc == b'F' || (lt dist (lit 20) && lt agl (lit 4000) && lt vs (neg (lit 100)))
      then (if lt dist (lit 5) && lt agl (lit 1500)
          then (final, on_final dist agl)
          else (approach, on_approach dist))
      else if proc == b'E' || (lt dist (lit 60) && lt vs (neg (lit 200)))
      then (arrival, terminal_arrival dist)
      else infer_enroute telem
    where
      open telem use {vertical_speed_fpm as vs}

  -- The branch of `infer_raw_phase` for an aircraft in the air.
  unfoldable pub infer_airborne : FlightPhaseEngine F → PhaseTelemetry F → FlightPhase × Evidence F
  unfolding infer_terminal
  infer_airborne e telem =
      let agl = agl_or_msl telem in
      if lt agl (lit 1500)
        && lt (lit 300) vs
        && (phase_eq current_phase takeoff
            || phase_eq current_phase initial_climb
            || not has_been_airborne)
      then (initial_climb, climbing_rapidly vs agl)
      else infer_terminal telem
    where
      open telem use {vertical_speed_fpm as vs}
      open e use {current_phase, has_been_airborne}

  unfoldable pub infer_raw_phase : FlightPhaseEngine F → PhaseTelemetry F → FlightPhase × Evidence F
  infer_raw_phase e telem =
      if telem.on_ground then infer_on_ground e.has_been_airborne telem else infer_airborne e telem

  -- `dt_secs`: the subtraction of the timestamps saturates at 0.
  abbrev pub dt_secs : PhaseTelemetry F → PhaseTelemetry F → F
  dt_secs prev telem = div (lit (telem.timestamp.ms - prev.timestamp.ms)) (lit 1000)

  abbrev pub alt_jump : PhaseTelemetry F → PhaseTelemetry F → F
  alt_jump prev telem = abs (sub telem.altitude_msl_ft prev.altitude_msl_ft)

  -- The test for a slew or a teleport, against the previous telemetry.
  unfoldable pub is_teleport : Option (PhaseTelemetry F) → PhaseTelemetry F → Bool
  is_teleport none telem = false
  is_teleport (some prev) telem =
      lt (lit 0) (dt_secs prev telem)
      && lt (dt_secs prev telem) (lit 5)
      && lt (lit 10000) (alt_jump prev telem)

  abbrev pub teleport_evidence : Option (PhaseTelemetry F) → PhaseTelemetry F → Evidence F
  teleport_evidence none telem = stationary
  teleport_evidence (some prev) telem = teleport (alt_jump prev telem) (dt_secs prev telem)

  -- The early return of `evaluate`: the phase is reset.
  unfoldable pub evaluate_teleport :
      FlightPhaseEngine F → PhaseTelemetry F → FlightPhaseEngine F × PhaseAssessment F
  evaluate_teleport e telem =
      let phase = if telem.on_ground then preflight else cruise in
      (
        record e { current_phase = phase; consecutive_ticks = 0; last_telemetry = some telem },
        record {
          phase = phase;
          confidence = PhaseConfidence.medium;
          evidence = teleport_evidence e.last_telemetry telem;
          timestamp = telem.timestamp;
        },
      )

  abbrev pub immediate_transition : FlightPhase → PhaseTelemetry F → Bool
  immediate_transition current telem =
      telem.on_ground && phase_eq current final
      || not telem.on_ground && (phase_eq current takeoff || phase_eq current preflight)

  -- The hysteresis: the phase and the tick count that follow a candidate phase.
  unfoldable pub hysteresis : FlightPhase → ℕ → FlightPhase → PhaseTelemetry F → FlightPhase × ℕ
  hysteresis current ticks candidate telem =
      if phase_eq candidate current
      then (current, u32 (ticks + 1))
      else if immediate_transition current telem || leb 2 ticks
      then (candidate, 1)
      else (current, u32 (ticks + 1))

  unfoldable pub evaluate_steady :
      FlightPhaseEngine F → PhaseTelemetry F → FlightPhaseEngine F × PhaseAssessment F
  evaluate_steady e telem =
      let (candidate, evidence) = infer_raw_phase e telem in
      let (phase, ticks) = hysteresis e.current_phase e.consecutive_ticks candidate telem in
      (
        record {
          current_phase = phase;
          consecutive_ticks = ticks;
          last_telemetry = some telem;
          has_been_airborne =
              e.has_been_airborne || not telem.on_ground && lt (lit 50) telem.groundspeed_kt;
        },
        record {
          phase = phase;
          confidence = PhaseConfidence.high;
          evidence = evidence;
          timestamp = telem.timestamp;
        },
      )

  unfoldable pub evaluate :
      FlightPhaseEngine F → PhaseTelemetry F → FlightPhaseEngine F × PhaseAssessment F
  evaluate e telem =
      if is_teleport e.last_telemetry telem
      then evaluate_teleport e telem
      else evaluate_steady e telem
