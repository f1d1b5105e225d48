-- ===== src/Xplane/Adapter.antt =====
-- crates/fd-xplane/src/adapter.rs: the telemetry of the X-Plane adapter. The clocks are readings of
-- `now` and `epoch_ms`; the casts between `f32` and `f64` and the decimal constants are parameters.
pub mod Quality
pub mod Control
pub mod Health
use flightdeck_os.Base.{
  ℕ, ◌+◌, ◌%◌, ◌^◌, Bool, true, false, not, ◌||◌, List, [], ◌∷◌, Option, none, some, Result, ok,
  err, unwrap_or, ltb, ◌==◌, if◌then◌else◌,
}
use mathlib.Core.Option
use flightdeck_os.Base.Floats.{Float}
use flightdeck_os.Base.Texts.{String}
use flightdeck_os.Core.Adapter.{AdapterError, not_connected}
use flightdeck_os.Core.Telemetry.{
  Position, SimState, DataQuality, warming_up, invalid, BTreeMap, TelemetrySnapshot, empty,
}
use flightdeck_os.Xplane.Client
use flightdeck_os.Xplane.Client.{Shared, latest, quality, connected, stale_after}
use flightdeck_os.Xplane.Guard.{LiveWriteGuard}
use flightdeck_os.Xplane.Refs.{
  DataRefId, latitude, longitude, elevation_m, y_agl_m, indicated_airspeed_kt, groundspeed_ms,
  vertical_speed_fpm, heading_true_deg, pitch_deg, bank_deg, on_ground_wheel0, gear_deploy0,
  ap_heading_status, ap_vvi_status, radio_altitude_ft, beacon_on, wire_id,
}

-- `f32 as f64`, `f64 as f32`, `M_TO_FT`, `MS_TO_KT`, and the `rem_euclid` of headings.
pub record Units (F : Type 0) : Type 0 where
  pub of_f32 : ℕ → F
  pub to_f32 : F → ℕ
  pub m_to_ft : F
  pub ms_to_kt : F
  pub rem_euclid : F → F → F

pub record WebHealth : Type 0 where
  pub last_ok : Option ℕ
  pub cooldown_until : Option ℕ
  pub last_error : Option String

-- What the adapter keeps, of its identity the ICAO code. `shared` is the client's, as it stands; `W` is
-- what its writes change.
pub record XPlaneAdapter (W : Type 0) : Type 0 where
  pub shared : Shared
  pub icao : Option String
  pub last_control_error : Option String
  pub write_guard : LiveWriteGuard
  pub disconnects : ℕ
  pub warmup : ℕ → Option ℕ
  pub web_health : WebHealth
  pub world : W

abbrev pub warmup_samples : ℕ
warmup_samples = 3

-- `HashMap::insert`.
abbrev pub set_warmup : ℕ → ℕ → (ℕ → Option ℕ) → ℕ → Option ℕ
set_warmup wire n warmup k = if k == wire then some n else warmup k

abbrev pub is_some {ℓ} : {A : Type ℓ} → Option A → Bool
is_some none = false
is_some (some _) = true

abbrev pub keep_if {ℓ} : {A : Type ℓ} → (A → Bool) → Option A → Option A
keep_if p none = none
keep_if p (some a) = if p a then some a else none

-- The channels of the quality sidecar, with whether the snapshot has their field.
abbrev pub core_channels : {F : Type 0} → TelemetrySnapshot F → List (DataRefId × Bool)
core_channels s =
    (latitude, is_some s.position)
    ∷ (longitude, is_some s.position)
    ∷ (elevation_m, is_some s.altitude_msl)
    ∷ (y_agl_m, is_some s.altitude_agl)
    ∷ (indicated_airspeed_kt, is_some s.indicated_airspeed)
    ∷ (groundspeed_ms, is_some s.groundspeed)
    ∷ (vertical_speed_fpm, is_some s.vertical_speed)
    ∷ (heading_true_deg, is_some s.heading_true)
    ∷ (pitch_deg, is_some s.pitch)
    ∷ (bank_deg, is_some s.bank)
    ∷ (on_ground_wheel0, is_some s.on_ground)
    ∷ (beacon_on, is_some s.beacon_light)
    ∷ []

abbrev pub add_mark : ℕ → Option DataQuality → BTreeMap DataQuality → BTreeMap DataQuality
add_mark wire none marks = marks
add_mark wire (some q) marks = (wire, q) ∷ marks

module _ {F : Type 0} (fl : Float F) (un : Units F) where
  -- `raw` and `value`.
  unfoldable pub raw : Shared → ℕ → DataRefId → Option F
  raw shared now id = Option.map un.of_f32 (latest shared.board (wire_id id) now stale_after)

  unfoldable pub value : Shared → ℕ → DataRefId → Option F
  unfolding raw
  value shared now id = keep_if fl.is_finite (raw shared now id)

  abbrev pub above_half : F → Bool
  above_half v = fl.lt (fl.tenth 5) v

  unfoldable pub beacon_state : Shared → ℕ → Option Bool
  unfolding value
  beacon_state shared now = Option.map above_half (value shared now beacon_on)

  abbrev pub position_of : Option F → Option F → Option (Position F)
  position_of (some la) (some lo) = some (record { lat = la; lon = lo })
  position_of _ _ = none

  abbrev pub agl_of : Option F → Option F → Option F
  agl_of (some r) y_agl_ft = if fl.lt (fl.lit 0) r then some r else y_agl_ft
  agl_of none y_agl_ft = y_agl_ft

  -- The snapshot before its channels are annotated.
  unfoldable pub observed : Shared → ℕ → ℕ → TelemetrySnapshot F
  unfolding value
  observed shared now epoch_ms =
      let v = value shared now in
      let in_feet = Option.map (λ (m : F). fl.mul m un.m_to_ft) in
      record (empty (record { ms = epoch_ms })) {
        position = position_of (v latitude) (v longitude);
        altitude_msl = in_feet (v elevation_m);
        altitude_agl = agl_of (v radio_altitude_ft) (in_feet (v y_agl_m));
        indicated_airspeed = v indicated_airspeed_kt;
        groundspeed = Option.map (λ (ms : F). fl.mul ms un.ms_to_kt) (v groundspeed_ms);
        vertical_speed = v vertical_speed_fpm;
        heading_true = v heading_true_deg;
        pitch = v pitch_deg;
        bank = v bank_deg;
        on_ground = Option.map above_half (v on_ground_wheel0);
        beacon_light = Option.map above_half (v beacon_on);
        gear_handle_down = Option.map above_half (v gear_deploy0);
        autopilot_master = some (
            fl.le (fl.lit 2) (unwrap_or (v ap_heading_status) (fl.lit 0))
            || fl.le (fl.lit 2) (unwrap_or (v ap_vvi_status) (fl.lit 0)));
        sim_timing = record {
          state = if connected shared now then SimState.running else SimState.unknown;
          sim_rate = none;
          slew_active = none;
        };
      }

  -- The annotation of one channel, if it gets one, and the count of its samples in a row.
  unfoldable pub mark : Shared → ℕ → DataRefId → Bool → Option F → Option ℕ → Option DataQuality × ℕ
  mark shared now id known none count =
      (some (quality shared.board (wire_id id) now stale_after), 0)
  mark shared now id known (some v) count =
      let n = unwrap_or (Option.map (λ (c : ℕ). (c + 1) % 2 ^ 32) count) 1 in
      if not (fl.is_finite v)
      then (some invalid, 0)
      else if ltb n warmup_samples
      then (some warming_up, n)
      else if not known
      then (some (quality shared.board (wire_id id) now stale_after), n)
      else (none, n)

  -- The loop over the channels, whose ids ascend.
  unfoldable pub annotate :
      Shared → ℕ → List (DataRefId × Bool) → (ℕ → Option ℕ) → BTreeMap DataQuality × (ℕ → Option ℕ)
  unfolding mark raw
  annotate shared now [] warmup = ([], warmup)
  annotate shared now ((id, known) ∷ channels) warmup =
      let (q, n) = mark shared now id known (raw shared now id) (warmup (wire_id id)) in
      let (marks, warmup') = annotate shared now channels (set_warmup (wire_id id) n warmup) in
      (add_mark (wire_id id) q marks, warmup')

  unfoldable pub build_snapshot :
      {W : Type 0} → ℕ → ℕ → XPlaneAdapter W → TelemetrySnapshot F × XPlaneAdapter W
  unfolding observed annotate
  build_snapshot now epoch_ms a =
      let s = observed a.shared now epoch_ms in
      let (marks, warmup) = annotate a.shared now (core_channels s) a.warmup in
      (record s { channel_quality = marks }, record a { warmup = warmup })

  unfoldable pub poll :
      {W : Type 0}
      → ℕ
      → ℕ
      → XPlaneAdapter W
      → Result (List (TelemetrySnapshot F)) AdapterError × XPlaneAdapter W
  unfolding build_snapshot
  poll now epoch_ms a =
      let (s, a') = build_snapshot now epoch_ms a in
      if connected a.shared now
      then (ok (s ∷ []), a')
      else (err not_connected, record a { disconnects = a.disconnects + 1 })

-- `invalidate_session` is the Web API client's, which forgets the ids that it cached.
unfoldable pub invalidate_aircraft : {W : Type 0} → (W → W) → XPlaneAdapter W → XPlaneAdapter W
invalidate_aircraft invalidate_session a = record a {
  icao = none;
  last_control_error = none;
  warmup = λ (k : ℕ). none;
  world = invalidate_session a.world;
}
