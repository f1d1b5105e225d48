-- ===== src/Fdm/Analyzer.antt =====
-- crates/fd-fdm/src/fdm.rs: the detection of exceedances in a stream of samples.
pub mod History
use flightdeck_os.Base.{
  ℕ, ◌+◌, ◌%◌, ◌^◌, Bool, true, false, not, ◌&&◌, Option, none, some, List, [], ◌∷◌, ◌++◌,
  if◌then◌else◌,
}
use flightdeck_os.Base.Floats.{Float}
use flightdeck_os.Fdm.Fdr.{FdrSample}

pub record DevelopmentThresholds (F : Type 0) : Type 0 where
  pub excessive_sink_rate_fpm : F
  pub excessive_sink_max_agl_ft : F
  pub excessive_bank_deg : F
  pub excessive_bank_max_agl_ft : F
  pub hard_touchdown_vs_fpm : F

pub data FdmLifecycle : Type 0 where
  started ended : FdmLifecycle

pub data FdmEventKind : Type 0 where
  excessive_sink_rate excessive_bank_low_altitude hard_touchdown : FdmEventKind

pub record FdmEvent (F : Type 0) : Type 0 where
  pub sample_seq : ℕ  -- u64
  pub timestamp_ms : ℕ  -- u64
  pub kind : FdmEventKind
  pub measured : F
  pub threshold : F
  pub lifecycle : FdmLifecycle
  pub peak : Option F
  pub samples_active : ℕ  -- u64

pub record Exceedance (F : Type 0) : Type 0 where
  pub peak : F
  pub samples_active : ℕ  -- u64

pub record FdmAnalyzer (F : Type 0) : Type 0 where
  pub thresholds : DevelopmentThresholds F
  pub prev_on_ground : Option Bool
  pub events : List (FdmEvent F)
  pub sink_exceedance : Option (Exceedance F)
  pub bank_exceedance : Option (Exceedance F)

abbrev pub new : {F : Type 0} → DevelopmentThresholds F → FdmAnalyzer F
new thresholds = record {
  thresholds = thresholds;
  prev_on_ground = none;
  events = [];
  sink_exceedance = none;
  bank_exceedance = none;
}

-- `then_some`.
abbrev pub then_some : {A : Type 0} → Bool → A → Option A
then_some b a = if b then some a else none

module _ {F : Type 0} (fl : Float F) where
  open fl use {lit, neg, le, is_finite, abs, max}

  abbrev pub default : DevelopmentThresholds F
  default = record {
    excessive_sink_rate_fpm = lit 1200;
    excessive_sink_max_agl_ft = lit 2500;
    excessive_bank_deg = lit 30;
    excessive_bank_max_agl_ft = lit 1500;
    hard_touchdown_vs_fpm = lit 600;
  }

  -- The severity that the two sustained rules read off a sample known to be airborne.
  unfoldable pub sink_severity : DevelopmentThresholds F → FdrSample F → Option F
  sink_severity th s = go s.on_ground s.radio_altitude s.vertical_speed
    where
      go : Option Bool → Option F → Option F → Option F
      go (some false) (some agl) (some vs) =
          if le agl th.excessive_sink_max_agl_ft && is_finite vs
          then then_some (le th.excessive_sink_rate_fpm (neg vs)) (neg vs)
          else none
      go _ _ _ = none

  unfoldable pub bank_severity : DevelopmentThresholds F → FdrSample F → Option F
  bank_severity th s = go s.on_ground s.radio_altitude s.bank
    where
      go : Option Bool → Option F → Option F → Option F
      go (some false) (some agl) (some bank) =
          if le agl th.excessive_bank_max_agl_ft
            && (is_finite bank && le th.excessive_bank_deg (abs bank))
          then some (abs bank)
          else none
      go _ _ _ = none

  abbrev pub start_event : FdmEventKind → F → F → FdrSample F → FdmEvent F
  start_event kind threshold severity s = record {
    sample_seq = s.seq;
    timestamp_ms = s.timestamp.ms;
    kind = kind;
    measured = severity;
    threshold = threshold;
    lifecycle = FdmLifecycle.started;
    peak = none;
    samples_active = 1;
  }

  abbrev pub end_event : FdmEventKind → F → Exceedance F → FdrSample F → FdmEvent F
  end_event kind threshold e s = record {
    sample_seq = s.seq;
    timestamp_ms = s.timestamp.ms;
    kind = kind;
    measured = e.peak;
    threshold = threshold;
    lifecycle = FdmLifecycle.ended;
    peak = some e.peak;
    samples_active = e.samples_active;
  }

  -- One sustained rule: what stays open, and the events pushed.
  unfoldable pub advance :
      Option (Exceedance F)
      → Option F
      → FdmEventKind
      → F
      → FdrSample F
      → Option (Exceedance F) × List (FdmEvent F)
  advance none (some severity) kind threshold s = (
    some (record { peak = severity; samples_active = 1 }),
    start_event kind threshold severity s ∷ [],
  )
  advance (some e) (some severity) kind threshold s = (
    some (record { peak = max e.peak severity; samples_active = (e.samples_active + 1) % 2 ^ 64 }),
    [],
  )
  advance (some e) none kind threshold s = (none, end_event kind threshold e s ∷ [])
  advance none none kind threshold s = (none, [])

  -- The touchdown rule, with the ground status of the sample before.
  unfoldable pub touchdown : DevelopmentThresholds F → Option Bool → FdrSample F → List (FdmEvent F)
  touchdown th prev_on_ground s = go prev_on_ground s.on_ground s.vertical_speed
    where
      go : Option Bool → Option Bool → Option F → List (FdmEvent F)
      go (some prev_g) (some now_g) (some vs) =
          if not prev_g && (now_g && (is_finite vs && le th.hard_touchdown_vs_fpm (neg vs)))
          then start_event FdmEventKind.hard_touchdown th.hard_touchdown_vs_fpm (neg vs) s ∷ []
          else []
      go _ _ _ = []

  unfoldable pub process : FdmAnalyzer F → FdrSample F → List (FdmEvent F) × FdmAnalyzer F
  process a s =
      let th = a.thresholds in
      let (sink, sink_events) =
        advance a.sink_exceedance (sink_severity th s) FdmEventKind.excessive_sink_rate
          th.excessive_sink_rate_fpm s in
      let (bank, bank_events) =
        advance a.bank_exceedance (bank_severity th s) FdmEventKind.excessive_bank_low_altitude
          th.excessive_bank_deg s in
      let new_events = sink_events ++ (bank_events ++ touchdown th a.prev_on_ground s) in
      (
        new_events,
        record {
          thresholds = th;
          prev_on_ground = s.on_ground;
          events = a.events ++ new_events;
          sink_exceedance = sink;
          bank_exceedance = bank;
        },
      )
