-- ===== src/Xplane/Refs.antt =====
-- crates/fd-xplane/src/refs.rs: the allowlisted datarefs and commands.
use flightdeck_os.Base.{ℕ}
use flightdeck_os.Base.Texts.{String}

pub data DataRefId : Type 0 where
  latitude longitude elevation_m y_agl_m indicated_airspeed_kt groundspeed_ms : DataRefId
  vertical_speed_fpm heading_true_deg pitch_deg bank_deg on_ground_wheel0 gear_deploy0 : DataRefId
  mag_variation_deg ap_heading_status ap_vvi_status ap_altitude_target : DataRefId
  radio_altitude_ft beacon_on : DataRefId

-- `self as i32`.
abbrev pub wire_id : DataRefId → ℕ
wire_id latitude = 0
wire_id longitude = 1
wire_id elevation_m = 2
wire_id y_agl_m = 3
wire_id indicated_airspeed_kt = 4
wire_id groundspeed_ms = 5
wire_id vertical_speed_fpm = 6
wire_id heading_true_deg = 7
wire_id pitch_deg = 8
wire_id bank_deg = 9
wire_id on_ground_wheel0 = 10
wire_id gear_deploy0 = 11
wire_id mag_variation_deg = 12
wire_id ap_heading_status = 13
wire_id ap_vvi_status = 14
wire_id ap_altitude_target = 15
wire_id radio_altitude_ft = 16
wire_id beacon_on = 17

pub data WriteRef : Type 0 where
  ap_heading_mag ap_altitude ap_vertical_velocity ap_airspeed : WriteRef

abbrev pub write_path : WriteRef → String
write_path ap_heading_mag = "sim/cockpit/autopilot/heading_mag"
write_path ap_altitude = "sim/cockpit/autopilot/altitude"
write_path ap_vertical_velocity = "sim/cockpit/autopilot/vertical_velocity"
write_path ap_airspeed = "sim/cockpit/autopilot/airspeed"

pub data Command : Type 0 where
  ap_heading_hold ap_vertical_speed_pre_sel : Command

abbrev pub command_path : Command → String
command_path ap_heading_hold = "sim/autopilot/heading_hold"
command_path ap_vertical_speed_pre_sel = "sim/autopilot/vertical_speed_pre_sel"
