-- ===== src/Simconnect/Adapter.antt =====
-- crates/fd-simconnect/src/adapter.rs: the adapter over SimConnect.
pub mod Records
pub mod Writes
use flightdeck_os.Base.{
  ℕ, Bool, true, false, List, [], ◌∷◌, ◌++◌, Option, none, some, ◌>>=◌, Result, ok, err, is_empty,
  if◌then◌else◌,
}
use flightdeck_os.Base.Floats.{Float, Trig}
use flightdeck_os.Base.Texts.{String}
use flightdeck_os.Core.Actions.{CockpitAction}
use flightdeck_os.Core.Adapter.{
  Capability, supported, unsupported, unavailable, AdapterError, not_connected, unsupported_action,
  SimulatorAdapter,
}
use flightdeck_os.Core.Telemetry.{TelemetrySnapshot}
use flightdeck_os.Simconnect.Parse.{
  RecvRecord, simobject_data, system_event_pause, exception, opened, quit, ignored, malformed,
  parse_record,
}
use flightdeck_os.Simconnect.Mapping.{Casts, map_telemetry}
use flightdeck_os.Simconnect.Bindings.{
  WritePrimitive, simvar_write, event, BindingEntry, lookup_write,
}
use flightdeck_os.Simconnect.Client.{SimConnectApi, write_simvar, fire_event, setup, open_client}

-- The adapter, with the world that its calls change.
pub record SimConnectAdapter (W : Type 0) : Type 0 where
  pub client : Option ℕ
  pub event_paused : Option Bool
  pub last_exception : Option ℕ
  pub connected : Bool
  pub world : W

module _ {F W : Type 0} (fl : Float F) (tr : Trig F) (cs : Casts F) (api : SimConnectApi F W) where
  abbrev pub new : W → SimConnectAdapter W
  new w = record {
    client = none;
    event_paused = none;
    last_exception = none;
    connected = false;
    world = w;
  }

  -- Dropping a client closes its session.
  abbrev pub drop_client : Option ℕ → W → W
  drop_client none w = w
  drop_client (some handle) w = api.close handle w

  unfoldable pub connect :
      SimConnectAdapter W → Result (Unit {0}) AdapterError × SimConnectAdapter W
  connect a =
      let (session, w) = open_client api "FlightdeckOS" a.world in
      elim session [
        | err e ↦ (err e, record a { world = w })
        | ok handle ↦
            let (ready, w') = setup api handle w in
            elim ready [
              | err e ↦ (err e, record a { world = api.close handle w' })
              | ok _ ↦ (
                ok tt,
                record a {
                  client = some handle;
                  connected = true;
                  event_paused = none;
                  world = drop_client a.client w';
                },
              )
            ]
      ]

  unfoldable pub disconnect : SimConnectAdapter W → SimConnectAdapter W
  disconnect a = record a { client = none; connected = false; world = drop_client a.client a.world }

  -- The callback on each delivered message: an empty one is skipped.
  unfoldable pub decode : List (List ℕ) → Option (List (RecvRecord F))
  unfolding parse_record
  decode [] = some []
  decode (bytes ∷ messages) =
      let rest = decode messages in
      if is_empty bytes
      then rest
      else (do r ← parse_record cs.from_bits bytes; rs ← rest; some (r ∷ rs))

  -- What `poll` does with one record, and with all: the snapshots, and the adapter after them.
  unfoldable pub take_record :
      SimConnectAdapter W → RecvRecord F → List (TelemetrySnapshot F) × SimConnectAdapter W
  unfolding map_telemetry
  take_record a (simobject_data values) = (map_telemetry fl tr cs values a.event_paused ∷ [], a)
  take_record a (system_event_pause paused) = ([], record a { event_paused = some paused })
  take_record a (exception code) = ([], record a { last_exception = some code })
  take_record a opened = ([], record a { connected = true })
  take_record a quit = ([], record a { connected = false })
  take_record a ignored = ([], a)
  take_record a (malformed detail) = ([], record a { last_exception = some 4294967294 })

  unfoldable pub take_records :
      List (RecvRecord F) → SimConnectAdapter W → List (TelemetrySnapshot F) × SimConnectAdapter W
  unfolding take_record
  take_records [] a = ([], a)
  take_records (r ∷ rs) a =
      let (now, a') = take_record a r in
      let (later, a'') = take_records rs a' in (now ++ later, a'')

  abbrev pub poll_client :
      SimConnectAdapter W
      → Option ℕ
      → Option (Result (List (TelemetrySnapshot F)) AdapterError × SimConnectAdapter W)
  poll_client a none = some (err not_connected, a)
  poll_client a (some handle) =
      let (messages, w) = api.dispatch handle a.world in
      decode messages >>= λ records.
      let (snapshots, a') = take_records records (record a { world = w }) in some (ok snapshots, a')

  -- `none` where a read would leave its message.
  unfoldable pub poll :
      SimConnectAdapter W
      → Option (Result (List (TelemetrySnapshot F)) AdapterError × SimConnectAdapter W)
  unfolding decode take_records
  poll a = poll_client a a.client

  unfoldable pub capability : SimConnectAdapter W → CockpitAction → Capability
  unfolding lookup_write
  capability a action = elim (lookup_write fl action) [
    | none ↦ unsupported
    | some _ ↦ if a.connected then supported else unavailable
  ]

  abbrev pub perform : ℕ → WritePrimitive F → W → Result (Unit {0}) AdapterError × W
  perform handle (simvar_write name unit value) w = write_simvar api handle name unit value w
  perform handle (event name param) w = fire_event api handle name param w

  abbrev pub execute_bound :
      SimConnectAdapter W
      → ℕ
      → Option (BindingEntry F)
      → Result (Unit {0}) AdapterError × SimConnectAdapter W
  execute_bound a handle none = (err unsupported_action, a)
  execute_bound a handle (some binding) =
      let (result, w) = perform handle binding.primitive a.world in (result, record a { world = w })

  unfoldable pub execute :
      SimConnectAdapter W → CockpitAction → Result (Unit {0}) AdapterError × SimConnectAdapter W
  unfolding lookup_write write_simvar fire_event
  execute a action = elim a.client [
    | none ↦ (err not_connected, a)
    | some handle ↦ execute_bound a handle (lookup_write fl action)
  ]
