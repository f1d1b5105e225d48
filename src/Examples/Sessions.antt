-- ===== src/Examples/Sessions.antt =====
-- Flight sessions and the analysis of samples on concrete inputs.
use flightdeck_os.Base.{ℕ, true, false, some, ◌≡◌, refl, Bool, true_ne_false, ap}
use flightdeck_os.Core.Telemetry.{empty}
use flightdeck_os.Fdm.Session.{
  FlightSessionState, SessionEvidence, Pending, SessionTracker, new, advance, flight_desired,
  target_state, observe, sustain_target,
}
use flightdeck_os.Fdm.Session.Order.{
  Reachable, advanced, advance-debounced, advance-stage, Reachable-flown, stage,
}
use flightdeck_os.Fdm.Session.Order
use flightdeck_os.Fdm.Fdr.{FdrSample, record_sample}
use flightdeck_os.Fdm.Analyzer
use flightdeck_os.Fdm.Analyzer.{DevelopmentThresholds}
use flightdeck_os.Fdm.Analyzer.History.{start}
use flightdeck_os.Examples.Data.{whole}

abbrev evidence : ℕ → Bool → SessionEvidence ℕ
evidence agl on_ground = record {
  connected = true;
  identity_known = true;
  sample_recorded = true;
  altitude_agl_ft = some agl;
  on_ground = some on_ground;
  groundspeed_kt = some 80;
  descending = some false;
}

abbrev fed_with : SessionTracker → SessionEvidence ℕ → SessionTracker
fed_with t ev = advance whole t ev

-- On the ground, up to the recording.
abbrev recording : SessionTracker
recording = fed_with (fed_with (fed_with new (evidence 3 true)) (evidence 3 true)) (evidence 3 true)

recording_reached : Reachable whole recording
recording_reached =
    advanced (advanced (advanced Order.start (evidence 3 true)) (evidence 3 true)) (evidence 3 true)

abbrev aloft : SessionEvidence ℕ
aloft = evidence 2000 false

advance-debounced_example :
    (p : Pending) × (flight_desired whole aloft recording.ever_airborne ≡ some p)
    × (flight_desired whole aloft (advance whole recording aloft).ever_airborne ≡ some p)
    × ((advance whole (advance whole recording aloft) aloft).state ≡ target_state p)
unfolding advance observe sustain_target flight_desired
advance-debounced_example =
    advance-debounced whole recording_reached aloft aloft refl
      (λ e. true_ne_false (ap is_airborne e))
  where
    is_airborne : FlightSessionState → Bool
    is_airborne FlightSessionState.airborne = true
    is_airborne _ = false

abbrev thresholds : DevelopmentThresholds ℕ
thresholds = record (Analyzer.default whole) { excessive_bank_deg = 30 }

-- Airborne at 800 ft with this bank.
abbrev banked : ℕ → ℕ → FdrSample ℕ
banked seq bank =
    (record_sample (record { next_seq = seq })
      (record (empty (record { ms = 100 })) {
        on_ground = some false;
        altitude_agl = some 800;
        bank = some bank;
      })
      "APPROACH").0
