-- ===== src/Mission/OffRoute.antt =====
-- crates/fd-mission/src/monitor.rs, `OffRouteDetector`: sustained deviations from the route.
pub mod History
use flightdeck_os.Base.{
  ℕ, ◌+◌, ◌%◌, ◌^◌, Bool, true, false, not, ◌&&◌, Option, none, some, leb, ◌==◌, if◌then◌else◌,
  unwrap_or,
}
use flightdeck_os.Base.Floats.{Float}
use flightdeck_os.Mission.Monitor.{RouteObservation}

pub record OffRouteConfig (F : Type 0) : Type 0 where
  pub max_xtk_nm : F
  pub sustain_samples : ℕ  -- u32

pub record OffRouteEvent (F : Type 0) : Type 0 where
  pub since_seq : ℕ  -- u64
  pub peak_xtk_nm : F

pub record OffRouteDetector (F : Type 0) : Type 0 where
  pub config : OffRouteConfig F
  pub sustained_count : ℕ  -- u32
  pub since_seq : Option ℕ
  pub peak_xtk_nm : F
  pub active : Bool

module _ {F : Type 0} (fl : Float F) where
  open fl use {lit, lt, abs, max}

  abbrev pub default : OffRouteConfig F
  default = record { max_xtk_nm = lit 5; sustain_samples = 3 }

  abbrev pub new : OffRouteConfig F → OffRouteDetector F
  new config = record {
    config = config;
    sustained_count = 0;
    since_seq = none;
    peak_xtk_nm = lit 0;
    active = false;
  }

  abbrev pub deviating : OffRouteConfig F → F → Bool
  deviating config xtk = lt config.max_xtk_nm (abs xtk)

  -- The evidence with one more deviating sample.
  abbrev pub deviate : OffRouteDetector F → ℕ → F → OffRouteDetector F
  deviate d seq xtk =
      let first = d.sustained_count == 0 in
      record d {
        sustained_count = (d.sustained_count + 1) % 2 ^ 32;
        since_seq = if first then some seq else d.since_seq;
        peak_xtk_nm = if first then abs xtk else max d.peak_xtk_nm (abs xtk);
      }

  -- The event at the onset of a sustained deviation.
  abbrev pub raise : OffRouteDetector F → ℕ → Option (OffRouteEvent F) × OffRouteDetector F
  raise d seq =
      if leb d.config.sustain_samples d.sustained_count && not d.active
      then (
        some (record { since_seq = unwrap_or d.since_seq seq; peak_xtk_nm = d.peak_xtk_nm }),
        record d { active = true },
      )
      else (none, d)

  unfoldable pub update_xtk :
      OffRouteDetector F → ℕ → Option F → Option (OffRouteEvent F) × OffRouteDetector F
  update_xtk d seq none = (none, new d.config)
  update_xtk d seq (some xtk) =
      if deviating d.config xtk then raise (deviate d seq xtk) seq else (none, new d.config)

  unfoldable pub update :
      OffRouteDetector F → ℕ → RouteObservation F → Option (OffRouteEvent F) × OffRouteDetector F
  update d seq obs = update_xtk d seq obs.cross_track_error_nm
