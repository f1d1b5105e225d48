-- ===== src/Core/Adapter.antt =====
-- crates/fd-core/src/adapter.rs: the simulator boundary. The trait is a record of functions over
-- the adapter's own state `S`, with the laws of no adapter assumed.
use flightdeck_os.Base.{List, Bool, true, false, Result}
use flightdeck_os.Base.Texts.{String}
use flightdeck_os.Core.Actions.{CockpitAction}
use flightdeck_os.Core.Telemetry.{TelemetrySnapshot}

pub data Capability : Type 0 where
  supported unsupported unavailable unknown : Capability

abbrev pub blocks_dispatch : Capability → Bool
blocks_dispatch unsupported = true
blocks_dispatch unavailable = true
blocks_dispatch _ = false

pub data AdapterError : Type 0 where
  connection_failed write_failed : String → AdapterError
  not_connected unsupported_action writes_disabled poll_timeout : AdapterError
  binding_unavailable state_unknown : CockpitAction → AdapterError

pub record SimulatorAdapter (F S : Type 0) : Type 0 where
  pub connect : S → Result (Unit {0}) AdapterError × S
  pub disconnect : S → S
  pub is_connected : S → Bool
  pub poll : S → Result (List (TelemetrySnapshot F)) AdapterError × S
  pub capability : S → CockpitAction → Capability
  pub execute : S → CockpitAction → Result (Unit {0}) AdapterError × S
