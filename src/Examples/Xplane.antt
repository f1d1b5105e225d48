-- ===== src/Examples/Xplane.antt =====
-- The theorems on the X-Plane adapter at concrete inputs.
use flightdeck_os.Base.{
  ℕ, ◌+◌, Bool, ◌≡◌, ◌↔◌, refl, sym, ◌∙◌, true, false, [], ◌∷◌, none, some, ok, err, All, leb,
  unwrap_or, arith,
}
use flightdeck_os.Core.Actions.{set_beacon, SwitchPosition}
use flightdeck_os.Core.Adapter.{write_failed}
use flightdeck_os.Core.Telemetry.{get}
use flightdeck_os.Examples.Data.{whole}
use flightdeck_os.Xplane.Refs.{DataRefId, wire_id}
use flightdeck_os.Xplane.Client
use flightdeck_os.Xplane.Client.{no_packets}
use flightdeck_os.Xplane.Guard.{ensure_armed}
use flightdeck_os.Xplane.Adapter.{
  invalidate_aircraft, Units, XPlaneAdapter, raw, value, beacon_state, build_snapshot,
  core_channels,
}
use flightdeck_os.Xplane.Adapter.Quality.{
  IsServed, build_snapshot-Unmarked, invalidate_aircraft-Marked,
}
use flightdeck_os.Xplane.Adapter.Control.{
  Links, gate, activate, execute_beacon, execute, altitude, action, perform_all,
}
use flightdeck_os.Xplane.Adapter.Control.Armed.{
  perform_all-Unarmed, execute_beacon-Activates, perform_all-Cooling,
}

abbrev units : Units ℕ
units = record {
  of_f32 = λ n. n;
  to_f32 = λ n. n;
  m_to_ft = 3;
  ms_to_kt = 2;
  rem_euclid = λ a b. a;
}

-- The world counts what is written; the Web API's activations fail.
abbrev failing : Links ℕ ℕ
failing = record {
  send_to = λ packet w. (ok tt, w + 1);
  activate_command = some (λ name w. (err "refused", w + 1));
  client_text = λ e. "client";
  adapter_text = λ e. "adapter";
  non_finite = λ name v. name;
}

-- The beacon is observed off at 100.
abbrev beacon_off : XPlaneAdapter ℕ
beacon_off = record {
  shared = record no_packets {
    board = (17, (100, 0)) ∷ (0, (100, 55)) ∷ [];
    last_packet = some 100;
  };
  icao = none;
  last_control_error = none;
  write_guard = record { armed = true };
  disconnects = 0;
  warmup = λ k. some 2;
  web_health = record { last_ok = none; cooldown_until = none; last_error = none };
  world = 0;
}

perform_all-Unarmed_example :
    ((perform_all whole units failing
        ((100, altitude 5000) ∷ (101, action (set_beacon SwitchPosition.on)) ∷ [])
        (record beacon_off { write_guard = record { armed = false } })).world
      ≡ 0)
    × ((perform_all whole units failing
          ((100, altitude 5000) ∷ (101, action (set_beacon SwitchPosition.on)) ∷ [])
          (record beacon_off { write_guard = record { armed = false } })).write_guard.armed
        ≡ false)
perform_all-Unarmed_example =
    perform_all-Unarmed whole units failing
      ((100, altitude 5000) ∷ (101, action (set_beacon SwitchPosition.on)) ∷ [])
      (record beacon_off { write_guard = record { armed = false } }) refl

tried_once : (execute whole units failing 120 (set_beacon SwitchPosition.on) beacon_off).1.world ≡ 1
unfolding execute execute_beacon ensure_armed activate gate beacon_state value raw Client.latest
    Client.get
tried_once = refl

absurd_one : ¬ ((◌≡◌) {A = ℕ} 1 0)
absurd_one e = omega arith

tried : ¬ (
    (execute whole units failing 120 (set_beacon SwitchPosition.on) beacon_off).1.world
    ≡ beacon_off.world)
tried e = absurd_one (sym tried_once ∙ e)

refused :
    (execute whole units failing 120 (set_beacon SwitchPosition.on) beacon_off).0
    ≡ err (write_failed "refused")
unfolding execute execute_beacon ensure_armed activate gate beacon_state value raw Client.latest
    Client.get
refused = refl

execute_beacon-Activates_example :
    (beacon_off.write_guard.armed ≡ true)
    × (beacon_state whole units beacon_off.shared 120 ≡ some false)
    × (leb (unwrap_or beacon_off.web_health.cooldown_until 0) 120 ≡ true)
    × ((execute whole units failing 120 (set_beacon SwitchPosition.on) beacon_off).1.world ≡ 1)
execute_beacon-Activates_example =
    execute_beacon-Activates whole units failing 120 SwitchPosition.on beacon_off tried

perform_all-Cooling_example :
    (perform_all whole units failing
      ((121, action (set_beacon SwitchPosition.on))
        ∷ (4000000000, action (set_beacon SwitchPosition.on))
        ∷ [])
      (execute whole units failing 120 (set_beacon SwitchPosition.on) beacon_off).1).world
    ≡ (execute whole units failing 120 (set_beacon SwitchPosition.on) beacon_off).1.world
perform_all-Cooling_example =
    perform_all-Cooling whole units failing 120 SwitchPosition.on beacon_off
      ((121, action (set_beacon SwitchPosition.on))
        ∷ (4000000000, action (set_beacon SwitchPosition.on))
        ∷ [])
      refused tried (refl, (refl, tt))

build_snapshot-Unmarked_example :
    All
      (λ (c : DataRefId × Bool).
        (get (wire_id c.0) (build_snapshot whole units 120 7 beacon_off).0.channel_quality ≡ none)
        ↔ IsServed whole units beacon_off 120 c)
      (core_channels (build_snapshot whole units 120 7 beacon_off).0)
build_snapshot-Unmarked_example =
    build_snapshot-Unmarked whole units beacon_off 120 7 (λ k. omega arith)

invalidate_aircraft-Marked_example :
    All
      (λ (c : DataRefId × Bool). ¬ (
        get
          (wire_id c.0)
          (build_snapshot whole units 120 7
            (invalidate_aircraft (λ w. w) beacon_off)).0.channel_quality
        ≡ none))
      (core_channels (build_snapshot whole units 120 7 (invalidate_aircraft (λ w. w) beacon_off)).0)
invalidate_aircraft-Marked_example =
    invalidate_aircraft-Marked whole units beacon_off (λ w. w) 120 7
