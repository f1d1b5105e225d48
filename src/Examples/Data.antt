-- ===== src/Examples/Data.antt =====
-- The inputs: whole numbers for the floating-point values, an adapter that accepts every write, and
-- a catalog with the beacon alone.
use flightdeck_os.Base.{
  ℕ, ◌+◌, ◌-◌, ◌*◌, ◌/◌, Bool, true, false, Option, none, some, List, [], ◌∷◌, ltb, leb, ◌==◌,
  Result, ok, if◌then◌else◌,
}
use flightdeck_os.Base.Floats.{Float, Trig}
use flightdeck_os.Core.Actions.{
  Actor, ActionKind, set_beacon, SwitchPosition, CockpitAction, VerifyFn, ActionCatalog,
  ActionRequest, dispatched,
}
use flightdeck_os.Core.Adapter.{SimulatorAdapter, Capability, AdapterError}
use flightdeck_os.Core.Telemetry.{TelemetrySnapshot, SimState, empty}
use flightdeck_os.Runtime.Executor.{ActionExecutor, ActionRecord}

-- Numbers of which those below 0 are cut to 0.
abbrev pub whole : Float ℕ
whole = record {
  lit = λ n. n;
  tenth = λ n. n / 10;
  neg = λ n. 0;
  lt = ltb;
  le = leb;
  eq = λ a b. a == b;
  is_finite = λ n. true;
  add = λ a b. a + b;
  sub = λ a b. a - b;
  mul = λ a b. a * b;
  div = λ a b. a / b;
  abs = λ n. n;
  max = λ a b. if ltb a b then b else a;
  min = λ a b. if ltb b a then b else a;
}

-- Small angles, in whole numbers.
abbrev pub flat : Trig ℕ
flat = record {
  thousandth = λ n. n / 1000;
  sin = λ n. n;
  cos = λ n. 1;
  asin = λ n. n;
  atan2 = λ a b. a;
  sqrt = λ n. n;
  powi = λ n k. n;
  to_radians = λ n. n;
  to_degrees = λ n. n;
  rem_euclid = λ a b. a;
}

-- The adapter's state is what it polls next.
abbrev pub Script : Type 0
Script = List (List (TelemetrySnapshot ℕ))

abbrev pub next_poll : Script → Result (List (TelemetrySnapshot ℕ)) AdapterError × Script
next_poll [] = (ok [], [])
next_poll (snapshots ∷ script) = (ok snapshots, script)

abbrev pub scripted : SimulatorAdapter ℕ Script
scripted = record {
  connect = λ s. (ok tt, s);
  disconnect = λ s. s;
  is_connected = λ s. true;
  poll = next_poll;
  capability = λ s action. Capability.supported;
  execute = λ s action. (ok tt, s);
}

abbrev pub lit_as : Bool → SwitchPosition → Bool
lit_as true SwitchPosition.on = true
lit_as false SwitchPosition.off = true
lit_as _ _ = false

abbrev pub lit_state : Option Bool → SwitchPosition → Option Bool
lit_state none position = none
lit_state (some b) position = some (lit_as b position)

abbrev pub verify_beacon : VerifyFn ℕ
verify_beacon (set_beacon position) snapshot = lit_state snapshot.beacon_light position
verify_beacon _ snapshot = none

abbrev pub beacon_catalog : ActionCatalog ℕ
beacon_catalog = record {
  entries =
      record {
        kind = ActionKind.beacon;
        preconditions = [];
        verify = verify_beacon;
        verification_channels = [];
      }
      ∷ [];
}

-- On the ground, with the beacon as given.
abbrev pub beacon_at : ℕ → Bool → SimState → TelemetrySnapshot ℕ
beacon_at ms lit state = record (empty (record { ms = ms })) {
  on_ground = some true;
  groundspeed = some 0;
  beacon_light = some lit;
  sim_timing = record { state = state; sim_rate = none; slew_active = none };
}

abbrev pub beacon_on : CockpitAction
beacon_on = set_beacon SwitchPosition.on

abbrev pub request_of : ℕ → ActionRequest
request_of id = record { id = id; action = beacon_on; actor = Actor.user; at = record { ms = 500 } }

-- Dispatched at 1000 ms.
abbrev pub waiting : ℕ → ActionRecord ℕ
waiting id = record {
  request = request_of id;
  status = dispatched;
  verify = some verify_beacon;
  ticks_since_dispatch = 4;
  dispatched_ts_ms = 1000;
}

abbrev pub executor_with : List (ActionRecord ℕ) → ActionExecutor ℕ
executor_with records = record {
  staged = [];
  pending = records;
  completed = [];
  next_id = 9;
  deadline = 150;
}
