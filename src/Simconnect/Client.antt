-- ===== src/Simconnect/Client.antt =====
-- crates/fd-simconnect/src/client.rs and write.rs: the calls of SimConnect.dll and their checks. The
-- library's entry points are parameters over a world `W` that they change; an `HRESULT` is its
-- 32-bit pattern, and arguments that are constants of the data's type and size are left out.
-- `CallDispatch` is taken with its loop: what it delivers until it returns 0.
use flightdeck_os.Base.{
  ℕ, ◌+◌, Bool, ◌||◌, List, [], ◌∷◌, Result, ok, err, any, leb, not, ◌==◌, if◌then◌else◌,
}
use flightdeck_os.Base.Texts.{String, codes}
use flightdeck_os.Core.Adapter.{AdapterError, connection_failed, write_failed}

pub record SimConnectApi (F W : Type 0) : Type 0 where
  -- `SimConnectApi::load`.
  pub load : W → Result (Unit {0}) String × W
  -- The result and the handle, which is 0 for a null pointer.
  pub open_session : String → W → (ℕ × ℕ) × W
  pub close : ℕ → W → W
  pub add_to_data_definition : ℕ → (define : ℕ) → (name units : String) → (datum : ℕ) → W → ℕ × W
  pub clear_data_definition : ℕ → (define : ℕ) → W → ℕ × W
  pub request_data_on_sim_object : ℕ → (request define object period : ℕ) → W → ℕ × W
  pub set_data_on_sim_object : ℕ → (define object : ℕ) → F → W → ℕ × W
  pub subscribe_to_system_event : ℕ → (event : ℕ) → String → W → ℕ × W
  pub map_client_event : ℕ → (event : ℕ) → String → W → ℕ × W
  pub transmit_client_event : ℕ → (object event param priority flags : ℕ) → W → ℕ × W
  pub dispatch : ℕ → W → List (List ℕ) × W
  -- `format!` of a failed call's name and result, and of a missing session.
  pub report : String → ℕ → String
  -- `param as u32`.
  pub to_u32 : F → ℕ

abbrev pub is_negative : ℕ → Bool
is_negative hr = leb 2147483648 hr

-- `CString::new` finds no NUL.
abbrev pub is_c_string : String → Bool
is_c_string text = not (any (λ c. c == 0) (codes text))

abbrev pub define_telemetry : ℕ
define_telemetry = 1

abbrev pub define_write : ℕ
define_write = 2

abbrev pub evt_action : ℕ
evt_action = 3

-- The datum table, crates/fd-simconnect/src/defs.rs.
abbrev pub datums : List (String × String)
datums =
    ("PLANE LATITUDE", "degrees")
    ∷ ("PLANE LONGITUDE", "degrees")
    ∷ ("PLANE ALTITUDE", "feet")
    ∷ ("PLANE ALT ABOVE GROUND", "feet")
    ∷ ("GROUND VELOCITY", "knots")
    ∷ ("AIRSPEED INDICATED", "knots")
    ∷ ("VERTICAL SPEED", "feet per minute")
    ∷ ("PLANE HEADING DEGREES TRUE", "degrees")
    ∷ ("PLANE PITCH DEGREES", "radians")
    ∷ ("PLANE BANK DEGREES", "radians")
    ∷ ("SIM ON GROUND", "bool")
    ∷ ("GEAR HANDLE POSITION", "bool")
    ∷ ("FLAPS HANDLE INDEX", "number")
    ∷ ("GENERAL ENG COMBUSTION:1", "bool")
    ∷ ("GENERAL ENG COMBUSTION:2", "bool")
    ∷ ("AUTOPILOT MASTER", "bool")
    ∷ ("AUTOPILOT THROTTLE ARM", "bool")
    ∷ ("LIGHT BEACON", "bool")
    ∷ ("PAUSED", "bool")
    ∷ ("SIMULATION RATE", "number")
    ∷ ("IS SLEW ACTIVE", "bool")
    ∷ ("L:A32NX_APU_N", "percent")
    ∷ ("L:A32NX_APU_BLEED_AIR_VALVE_OPEN", "bool")
    ∷ ("L:A32NX_FLAPS_HANDLE_INDEX", "number")
    ∷ ("L:A32NX_LIGHTS_NAV_LOGO", "number")
    ∷ ("L:A32NX_OVHD_COND_PACK_1_PB_IS_ON", "bool")
    ∷ ("ABSOLUTE TIME", "seconds")
    ∷ []

-- What a chain of calls does to the world, and how it ends.
abbrev pub Calls : (A W : Type 0) → Type 0
Calls A W = W → Result A AdapterError × W

infixl 5 ◌>>◌
abbrev pub ◌>>◌ : {W : Type 0} → Calls (Unit {0}) W → Calls (Unit {0}) W → Calls (Unit {0}) W
◌>>◌ m k w = let (r, w') = m w in elim r [ ok _ ↦ k w' | err e ↦ (err e, w') ]

module _ {F W : Type 0} (api : SimConnectApi F W) where
  -- One call, whose negative result ends the chain with the error that `fail` makes of its text.
  unfoldable pub call : (String → AdapterError) → String → (W → ℕ × W) → Calls (Unit {0}) W
  call fail what f w =
      let (hr, w') = f w in
      if is_negative hr then (err (fail (api.report what hr)), w') else (ok tt, w')

  unfoldable pub c_string : String → String → Calls (Unit {0}) W
  c_string what text w = if is_c_string text then (ok tt, w) else (err (write_failed what), w)

  unfoldable pub write_simvar : ℕ → String → String → F → Calls (Unit {0}) W
  unfolding call c_string
  write_simvar handle name unit value = do
    c_string "NUL in name" name
    c_string "NUL in unit" unit
    call write_failed "ClearDataDefinition" (api.clear_data_definition handle define_write)
    call write_failed "AddToDataDefinition"
        (api.add_to_data_definition handle define_write name unit 0)
    call write_failed "SetDataOnSimObject" (api.set_data_on_sim_object handle define_write 0 value)

  unfoldable pub fire_event : ℕ → String → F → Calls (Unit {0}) W
  unfolding call c_string
  fire_event handle name param = do
    c_string "NUL in name" name
    call write_failed "MapClientEventToSimEvent" (api.map_client_event handle evt_action name)
    call write_failed "TransmitClientEvent"
        (api.transmit_client_event handle 0 evt_action (api.to_u32 param) 1 16)

  unfoldable pub define_datums : ℕ → ℕ → List (String × String) → Calls (Unit {0}) W
  unfolding call
  define_datums handle i [] w = (ok tt, w)
  define_datums handle i ((name, units) ∷ ds) w =
      (call connection_failed "AddToDataDefinition"
            (api.add_to_data_definition handle define_telemetry name units i)
          >> define_datums handle (i + 1) ds)
        w

  unfoldable pub subscribe : ℕ → ℕ → List String → Calls (Unit {0}) W
  unfolding call
  subscribe handle event [] w = (ok tt, w)
  subscribe handle event (name ∷ names) w =
      (call connection_failed "SubscribeToSystemEvent"
            (api.subscribe_to_system_event handle event name)
          >> subscribe handle event names)
        w

  unfoldable pub setup : ℕ → Calls (Unit {0}) W
  unfolding call define_datums subscribe
  setup handle = do
    define_datums handle 0 datums
    call connection_failed "RequestDataOnSimObject"
        (api.request_data_on_sim_object handle 1 define_telemetry 0 3)
    subscribe handle 1 ("Pause" ∷ "Paused" ∷ [])
    subscribe handle 2 ("Unpause" ∷ "Unpaused" ∷ [])

  -- `SimClient::open`: the handle of the new session.
  unfoldable pub open_client : String → Calls ℕ W
  open_client app_name w =
      let (loaded, w') = api.load w in
      let ((hr, handle), w'') = api.open_session app_name w' in
      elim loaded [
        | err e ↦ (err (connection_failed e), w')
        | ok _ ↦
            if not (is_c_string app_name)
            then (err (connection_failed "invalid app name"), w')
            else if is_negative hr || (handle == 0)
            then (err (connection_failed (api.report "SimConnect_Open" hr)), w'')
            else (ok handle, w'')
      ]
