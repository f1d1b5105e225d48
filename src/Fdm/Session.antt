-- ===== src/Fdm/Session.antt =====
-- crates/fd-fdm/src/session.rs: the lifecycle of a flight session, driven by the evidence of each
-- observation.
pub mod Order
use flightdeck_os.Base.{ℕ, ◌+◌, Bool, true, false, ◌&&◌, Option, none, some, leb, if◌then◌else◌}
use flightdeck_os.Base.Floats.{Float}

pub data FlightSessionState : Type 0 where
  awaiting_simulator connected aircraft_detected recording airborne landing parked session_closed :
      FlightSessionState

pub record SessionEvidence (F : Type 0) : Type 0 where
  pub connected : Bool
  pub identity_known : Bool
  pub sample_recorded : Bool
  pub altitude_agl_ft : Option F
  pub on_ground : Option Bool
  pub groundspeed_kt : Option F
  pub descending : Option Bool

pub data Pending : Type 0 where
  airborne landing parked : Pending

-- The derived `==`.
abbrev pub pending_eq : Pending → Pending → Bool
pending_eq Pending.airborne Pending.airborne = true
pending_eq Pending.landing Pending.landing = true
pending_eq Pending.parked Pending.parked = true
pending_eq _ _ = false

pub record SessionTracker : Type 0 where
  pub state : FlightSessionState
  pub sustain : ℕ  -- u32
  pub pending : Option Pending
  pub ever_airborne : Bool

abbrev pub new : SessionTracker
new = record {
  state = FlightSessionState.awaiting_simulator;
  sustain = 0;
  pending = none;
  ever_airborne = false;
}

abbrev pub transition_sustain_samples : ℕ
transition_sustain_samples = 2

abbrev pub is_closed : FlightSessionState → Bool
is_closed FlightSessionState.session_closed = true
is_closed _ = false

-- The single-evidence facts.
abbrev pub lifecycle : {F : Type 0} → FlightSessionState → SessionEvidence F → FlightSessionState
lifecycle FlightSessionState.awaiting_simulator ev =
    if ev.connected then FlightSessionState.connected else FlightSessionState.awaiting_simulator
lifecycle FlightSessionState.connected ev =
    if ev.identity_known then FlightSessionState.aircraft_detected else FlightSessionState.connected
lifecycle FlightSessionState.aircraft_detected ev =
    if ev.sample_recorded
    then FlightSessionState.recording
    else FlightSessionState.aircraft_detected
lifecycle state ev = state

-- Which flight state a pending transition leads to.
abbrev pub target_state : Pending → FlightSessionState
target_state Pending.airborne = FlightSessionState.airborne
target_state Pending.landing = FlightSessionState.landing
target_state Pending.parked = FlightSessionState.parked

abbrev pub is_airborne : Pending → Bool
is_airborne Pending.airborne = true
is_airborne _ = false

abbrev pub apply : SessionTracker → Pending → SessionTracker
apply t target = record {
  state = target_state target;
  sustain = 0;
  pending = none;
  ever_airborne = if is_airborne target then true else t.ever_airborne;
}

abbrev pub close : SessionTracker → SessionTracker
close t = record t { state = FlightSessionState.session_closed }

-- `pending == Some(target)`.
abbrev pub is_pending : Option Pending → Pending → Bool
is_pending none target = false
is_pending (some p) target = pending_eq p target

-- Whether an observation may move the flight state.
abbrev pub in_flight : FlightSessionState → Bool
in_flight FlightSessionState.recording = true
in_flight FlightSessionState.airborne = true
in_flight FlightSessionState.landing = true
in_flight _ = false

-- How many observations in a row have asked for `target`, this one included.
abbrev pub held_for : SessionTracker → Pending → ℕ
held_for t target = if is_pending t.pending target then t.sustain + 1 else 1

-- The transition happens once it has held long enough.
abbrev pub settle : SessionTracker → Pending → ℕ → SessionTracker
settle t target count =
    let held = record t { sustain = count; pending = some target } in
    if leb transition_sustain_samples count then apply held target else held

-- The debounce of the flight-state transitions.
unfoldable pub sustain_target : SessionTracker → Option Pending → SessionTracker
sustain_target t none = record t { sustain = 0; pending = none }
sustain_target t (some target) = settle t target (held_for t target)

module _ {F : Type 0} (fl : Float F) where
  open fl use {lit, lt, le}

  abbrev pub airborne_agl_ft : F
  airborne_agl_ft = lit 50

  abbrev pub parked_speed_kt : F
  parked_speed_kt = lit 1

  abbrev pub landing_agl_ft : F
  landing_agl_ft = lit 3000

  -- The three cases of `flight_desired`: off the ground, on the ground, unknown.
  abbrev pub desired_aloft : F → Option Bool → Option Pending
  desired_aloft agl descending =
      if lt agl airborne_agl_ft
      then none
      else (if is_true descending && le agl landing_agl_ft
          then some Pending.landing
          else some Pending.airborne)
    where
      is_true : Option Bool → Bool
      is_true none = false
      is_true (some b) = b

  abbrev pub desired_aground : Bool → Option F → Option Pending
  desired_aground false groundspeed = none
  desired_aground true none = none
  desired_aground true (some gs) = if le gs parked_speed_kt then some Pending.parked else none

  unfoldable pub flight_desired : SessionEvidence F → Bool → Option Pending
  flight_desired ev ever_airborne = go ev.altitude_agl_ft ev.on_ground
    where
      go : Option F → Option Bool → Option Pending
      go (some agl) (some false) = desired_aloft agl ev.descending
      go (some agl) (some true) = desired_aground ever_airborne ev.groundspeed_kt
      go _ _ = none

  abbrev pub desired : SessionTracker → SessionEvidence F → Option Pending
  desired t ev = if in_flight t.state then flight_desired ev t.ever_airborne else none

  -- One observation on a session that is not closed.
  unfoldable pub observe : SessionTracker → SessionEvidence F → SessionTracker
  observe t ev =
      let t' = record t { state = lifecycle t.state ev } in sustain_target t' (desired t' ev)

  unfoldable pub advance : SessionTracker → SessionEvidence F → SessionTracker
  advance t ev = if is_closed t.state then t else observe t ev
