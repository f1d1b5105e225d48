-- ===== src/Fdm/Analyzer/History.antt =====
-- crates/fd-fdm/src/fdm.rs, `FdmAnalyzer::process`: the events as a function of the samples so far.
use flightdeck_os.Base.{◌%◌, ◌^◌, Bool, Option, none, some, List, [], ◌∷◌, ◌++◌, length}
use flightdeck_os.Base.Floats.{Float}
use flightdeck_os.Fdm.Fdr.{FdrSample}
use flightdeck_os.Fdm.Analyzer.{
  DevelopmentThresholds, FdmEventKind, FdmEvent, Exceedance, FdmAnalyzer, new, sink_severity,
  bank_severity, start_event, end_event, touchdown, process,
}

module _ {F : Type 0} where
  abbrev pub extend : Option F → List F → List F
  extend none vs = []
  extend (some v) vs = v ∷ vs

  -- The severities of the samples up to the last one that is clear, latest first.
  abbrev pub episode : (FdrSample F → Option F) → List (FdrSample F) → List F
  episode severity [] = []
  episode severity (s ∷ history) = extend (severity s) (episode severity history)

  abbrev pub last_on_ground : List (FdrSample F) → Option Bool
  last_on_ground [] = none
  last_on_ground (s ∷ history) = s.on_ground

module _ {F : Type 0} (fl : Float F) where
  abbrev pub peak_of : F → List F → F
  peak_of v [] = v
  peak_of v (w ∷ vs) = fl.max (peak_of w vs) v

  -- The open episode that the severities so far amount to.
  abbrev pub open_of : List F → Option (Exceedance F)
  open_of [] = none
  open_of (v ∷ vs) =
      some (record { peak = peak_of v vs; samples_active = length (v ∷ vs) % 2 ^ 64 })

  -- The event of a sustained rule at the sample `s`: an episode starts where none was open and ends,
  -- with its peak and length, at the first sample that is clear.
  abbrev pub rule_events : FdmEventKind → F → List F → Option F → FdrSample F → List (FdmEvent F)
  rule_events kind threshold [] none s = []
  rule_events kind threshold [] (some v) s = start_event fl kind threshold v s ∷ []
  rule_events kind threshold (w ∷ vs) (some v) s = []
  rule_events kind threshold (w ∷ vs) none s =
      end_event fl kind threshold
        (record { peak = peak_of w vs; samples_active = length (w ∷ vs) % 2 ^ 64 }) s
      ∷ []

  module _ (th : DevelopmentThresholds F) where
    -- What the rules say of the sample `s` after the samples `history`, latest first.
    abbrev pub sample_events : List (FdrSample F) → FdrSample F → List (FdmEvent F)
    sample_events history s =
        rule_events FdmEventKind.excessive_sink_rate th.excessive_sink_rate_fpm
          (episode (sink_severity fl th) history) (sink_severity fl th s) s
        ++ (rule_events FdmEventKind.excessive_bank_low_altitude th.excessive_bank_deg
              (episode (bank_severity fl th) history) (bank_severity fl th s) s
            ++ touchdown fl th (last_on_ground history) s)

    abbrev pub all_events : List (FdrSample F) → List (FdmEvent F)
    all_events [] = []
    all_events (s ∷ history) = all_events history ++ sample_events history s

    -- The analyzer that the samples amount to.
    abbrev view : List (FdrSample F) → FdmAnalyzer F
    view history = record {
      thresholds = th;
      prev_on_ground = last_on_ground history;
      events = all_events history;
      sink_exceedance = open_of (episode (sink_severity fl th) history);
      bank_exceedance = open_of (episode (bank_severity fl th) history);
    }

    -- An analyzer that has been fed samples, latest first, since it was new.
    pub data Fed : List (FdrSample F) → FdmAnalyzer F → Type 0 where
      start : Fed [] (new th)
      fed :
          {history : List (FdrSample F)} {a : FdmAnalyzer F}
          → Fed history a
          → (s : FdrSample F) → Fed (s ∷ history) (process fl a s).1
