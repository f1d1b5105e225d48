-- ===== src/Examples/Adapters.antt =====
-- The theorems on the SimConnect adapter and on the virtual simulator at concrete inputs.
use flightdeck_os.Base.{
  ℕ, ◌+◌, ◌*◌, ◌≡◌, ◌↔◌, refl, true, false, [], ◌∷◌, none, some, ok, err, leb, ltb_iff, leb_iff,
  if◌then◌else◌, inl, not, ◌==◌, arith,
}
use flightdeck_os.Core.Actions.{set_beacon, SwitchPosition}
use flightdeck_os.Core.Adapter.{not_connected}
use flightdeck_os.Core.Telemetry.{TelemetrySnapshot}
use flightdeck_os.Examples.Data.{whole, flat}
use flightdeck_os.Simconnect.Parse.{simobject_data, quit, system_event_pause}
use flightdeck_os.Simconnect.Mapping.{Casts, map_telemetry}
use flightdeck_os.Simconnect.Mapping.Observed.{AreObserved, map_telemetry_observed}
use flightdeck_os.Simconnect.Client.{SimConnectApi, is_negative}
use flightdeck_os.Simconnect.Adapter
use flightdeck_os.Simconnect.Adapter.{SimConnectAdapter, take_records}
use flightdeck_os.Simconnect.Adapter.Records.{take_records_snapshot}
use flightdeck_os.Simconnect.Adapter.Writes.{cleared, defined, written, execute_write}
use flightdeck_os.Virtual.Kinematics
use flightdeck_os.Virtual.Kinematics.{KinematicState, default_limits}
use flightdeck_os.Virtual.Kinematics.Ground.{BoundsInOrder, IsGrounded, advance-IsGrounded}
use flightdeck_os.Virtual.Kinematics.Landing.{Lands}
use flightdeck_os.Virtual.Faults.{
  FaultConfig, no_faults, normalized, validate, validate_fields, canonical_field,
}
use flightdeck_os.Virtual.Systems.{cold_and_dark}
use flightdeck_os.Virtual.Adapter as Simulator
use flightdeck_os.Virtual.Adapter.{VirtualSimulator, is_on}
use flightdeck_os.Virtual.Adapter.Masks.{with_faults_snapshot}
use flightdeck_os.Virtual.Adapter.Windows.{execute-snapshot}

abbrev casts : Casts ℕ
casts = record { from_bits = λ n. n; nan = 0; fract = λ n. 0; to_u64 = λ n. n; to_u8 = λ n. n }

-- A session 7 whose calls succeed, over a world that counts them.
abbrev counting : SimConnectApi ℕ ℕ
counting = record {
  load = λ w. (ok tt, w);
  open_session = λ name w. ((0, 7), w + 1);
  close = λ handle w. w + 1;
  add_to_data_definition = λ handle define name units datum w. (0, w + 1);
  clear_data_definition = λ handle define w. (0, w + 1);
  request_data_on_sim_object = λ handle request define object period w. (0, w + 1);
  set_data_on_sim_object = λ handle define object value w. (0, w + 1);
  subscribe_to_system_event = λ handle event name w. (0, w + 1);
  map_client_event = λ handle event name w. (0, w + 1);
  transmit_client_event = λ handle object event param priority flags w. (0, w + 1);
  dispatch = λ handle w. ([], w);
  report = λ what hr. what;
  to_u32 = λ n. n;
}

abbrev session : SimConnectAdapter ℕ
session = record {
  client = some 7;
  event_paused = none;
  last_exception = none;
  connected = true;
  world = 0;
}

take_records_snapshot_example :
    (take_records whole flat casts counting
      (system_event_pause true ∷ simobject_data (55 ∷ []) ∷ quit ∷ [])
      session).0
    ≡ map_telemetry whole flat casts (55 ∷ []) (some true) ∷ []
unfolding take_records
take_records_snapshot_example =
    take_records_snapshot whole flat casts counting (system_event_pause true ∷ []) (quit ∷ [])
      (55 ∷ []) session

execute_write_example :
    let on = set_beacon SwitchPosition.on in
    (((Adapter.execute whole flat casts counting (record session { client = some 7 }) on).0 ≡ ok tt)
      ↔ ((is_negative (cleared whole flat casts counting 7 0).0 ≡ false)
          × (is_negative (defined whole flat casts counting 7 on 0).0 ≡ false)
          × (is_negative (written whole flat casts counting 7 on 0).0 ≡ false)))
    × ((Adapter.execute whole flat casts counting (record session { client = some 7 }) on).1.world
        ≡ (if is_negative (cleared whole flat casts counting 7 0).0
            then (cleared whole flat casts counting 7 0).1
            else if is_negative (defined whole flat casts counting 7 on 0).0
            then (defined whole flat casts counting 7 on 0).1
            else (written whole flat casts counting 7 on 0).1))
    × (Adapter.execute whole flat casts counting (record session { client = none }) on
        ≡ (err not_connected, record session { client = none }))
execute_write_example =
    execute_write whole flat casts counting session 7 (set_beacon SwitchPosition.on)

whole_bounds : BoundsInOrder whole flat
whole_bounds = record {
  literals = λ a b h. (leb_iff a b).1 h;
  neg_le = λ a b h k. k;
  mul_pos = λ a b h k. refl_leb (a * b);
  le_of_lt = λ a b h. ground (arith, h);
  irreflexive = refl;
  positive = λ a h. (ltb_iff 0 a).1 h;
}
  where
    refl_leb : (n : ℕ) → leb 0 n ≡ true
    refl_leb n = ground arith

-- On the ground at 600 ft, cleared to 145 kt.
abbrev on_field : KinematicState ℕ
on_field = record (Kinematics.new whole flat 55 37 600 (default_limits whole flat)) {
  target_speed_kt = 145;
}

on_field_IsGrounded : IsGrounded whole flat on_field
unfolding Kinematics.new
on_field_IsGrounded = record { either = refl; level = inl refl }

advance-IsGrounded_example :
    (k' : KinematicState ℕ) × (Kinematics.advance whole flat 100 on_field ≡ some k')
    × IsGrounded whole flat k'
    × Lands whole flat 100 on_field k'
unfolding Kinematics.new
advance-IsGrounded_example =
    advance-IsGrounded whole flat on_field 100 whole_bounds
      (record { climb = refl; descent = refl; turns = refl; accel = refl; decel = refl }) refl
      on_field_IsGrounded

-- 99 stands for a value that is no number.
map_telemetry_observed_example :
    AreObserved
      (record whole { is_finite = λ n. not (n == 99) })
      flat
      (record casts { nan = 99 })
      (55 ∷ 37 ∷ 99 ∷ [])
      (some true)
      (map_telemetry
        (record whole { is_finite = λ n. not (n == 99) })
        flat
        (record casts { nan = 99 })
        (55 ∷ 37 ∷ 99 ∷ [])
        (some true))
map_telemetry_observed_example =
    map_telemetry_observed (record whole { is_finite = λ n. not (n == 99) }) flat
      (record casts { nan = 99 }) (55 ∷ 37 ∷ 99 ∷ []) refl (some true)

abbrev simulator : VirtualSimulator ℕ
simulator = record {
  clock = record { sim_ms = 0; ticks = 0; dt_ms = 100 };
  kinematics = on_field;
  systems = cold_and_dark whole;
  faults = record no_faults { telemetry_freeze_until_tick = 5; ignore_actions_for_ticks = 2 };
  stale_latch = none;
  fault_ticks = 0;
}

abbrev masking : FaultConfig
masking = record no_faults {
  unknown_sensor_fields = "vs" ∷ "ias" ∷ [];
  on_ground_bounce = some (record { start_tick = 0; up_ticks = 3 });
}

with_faults_snapshot_example :
    (now : TelemetrySnapshot ℕ) × (Simulator.snapshot whole flat
        (record simulator { faults = normalized (λ names. names) masking })
      ≡ some now)
unfolding normalized
with_faults_snapshot_example =
    with_faults_snapshot whole flat (λ names. names) (λ P names h. h) simulator
      (record simulator { faults = normalized (λ names. names) masking }) masking taken refl
      (omega arith)
  where
    taken :
        Simulator.with_faults whole flat (λ names. names) simulator masking
        ≡ some (record simulator { faults = normalized (λ names. names) masking })
    taken = unfold Simulator.with_faults validate validate_fields canonical_field in refl

-- Past the window of ignored actions.
abbrev obeying : VirtualSimulator ℕ
obeying = record simulator { clock = record { sim_ms = 300; ticks = 3; dt_ms = 100 } }

abbrev beacon_on : VirtualSimulator ℕ
beacon_on = (Simulator.execute whole flat obeying (set_beacon SwitchPosition.on)).1

execute-snapshot_example :
    ((Simulator.execute whole flat obeying (set_beacon SwitchPosition.on)).0 ≡ ok tt)
    × ((Simulator.live whole flat false beacon_on).beacon_light ≡ some true)
execute-snapshot_example = execute-snapshot whole flat obeying SwitchPosition.on connected refl seen
  where
    connected : Simulator.is_connected whole flat obeying ≡ true
    connected = unfold Simulator.is_connected in refl

    seen :
        Simulator.snapshot whole flat beacon_on ≡ some (Simulator.live whole flat false beacon_on)
    seen = unfold Simulator.execute Simulator.snapshot Simulator.mask_fields in refl
