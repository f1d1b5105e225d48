-- ===== src/Fdm/Fdr.antt =====
-- crates/fd-fdm/src/fdr.rs: the samples that the recorder makes of snapshots. The session metadata
-- and the streamed container are left out.
use flightdeck_os.Base.{ℕ, ◌+◌, ◌%◌, ◌^◌, Bool, false, ◌||◌, Option, none, some}
use flightdeck_os.Base.Texts.{String}
use flightdeck_os.Core.Telemetry.{
  SimTimestamp, Position, SimState, DataQuality, BTreeMap, TelemetrySnapshot,
}

pub record FdrSample (F : Type 0) : Type 0 where
  pub seq : ℕ  -- u64
  pub timestamp : SimTimestamp
  pub altitude_msl : Option F
  pub radio_altitude : Option F
  pub indicated_airspeed : Option F
  pub groundspeed : Option F
  pub vertical_speed : Option F
  pub heading_true : Option F
  pub pitch : Option F
  pub bank : Option F
  pub on_ground : Option Bool
  pub gear_down : Option Bool
  pub flaps_handle_index : Option ℕ  -- u8
  pub any_engine_running : Option Bool
  pub autopilot_master : Option Bool
  pub flight_phase : String
  pub sim_state : String
  pub position : Option (Position F)
  pub track_true_deg : Option F
  pub sim_rate : Option F
  pub slew : Option Bool
  pub channel_quality : BTreeMap DataQuality

pub record Recorder : Type 0 where
  pub next_seq : ℕ  -- u64

abbrev pub new : Recorder
new = record { next_seq = 0 }

-- `e == &Some(true)`.
abbrev pub is_running : Option Bool → Bool
is_running none = false
is_running (some b) = b

abbrev pub any_running :
    Option (Option Bool × Option Bool × Option Bool × Option Bool) → Option Bool
any_running none = none
any_running (some (e₁, e₂, e₃, e₄)) =
    some (is_running e₁ || (is_running e₂ || (is_running e₃ || is_running e₄)))

abbrev pub state_name : SimState → String
state_name SimState.running = "running"
state_name SimState.paused = "paused"
state_name SimState.unknown = "unknown"

unfoldable pub record_sample :
    {F : Type 0} → Recorder → TelemetrySnapshot F → String → FdrSample F × Recorder
record_sample r snap flight_phase = (
  record {
    seq = r.next_seq;
    timestamp = snap.timestamp;
    altitude_msl = snap.altitude_msl;
    radio_altitude = snap.altitude_agl;
    indicated_airspeed = snap.indicated_airspeed;
    groundspeed = snap.groundspeed;
    vertical_speed = snap.vertical_speed;
    heading_true = snap.heading_true;
    pitch = snap.pitch;
    bank = snap.bank;
    on_ground = snap.on_ground;
    gear_down = snap.gear_handle_down;
    flaps_handle_index = snap.flaps_handle_index;
    any_engine_running = any_running snap.engine_combustion;
    autopilot_master = snap.autopilot_master;
    flight_phase = flight_phase;
    sim_state = state_name snap.sim_timing.state;
    position = snap.position;
    track_true_deg = none;
    sim_rate = snap.sim_timing.sim_rate;
    slew = snap.sim_timing.slew_active;
    channel_quality = snap.channel_quality;
  },
  record { next_seq = (r.next_seq + 1) % 2 ^ 64 },
)
