-- ===== src/Examples/Shadows.antt =====
-- The theorems on shadow mode at a flight of two samples.
use flightdeck_os.Base.{ℕ, ◌+◌, ◌≤◌, ◌≡◌, List, [], ◌∷◌, none, some, length}
use flightdeck_os.Core.Telemetry.{empty}
use flightdeck_os.Examples.Data.{whole, flat}
use flightdeck_os.Mission.Controller.{MissionPhase, MissionParameters}
use flightdeck_os.Mission.Shadow.{MissionShadow, new, sum_values, summary, from_shadow}
use flightdeck_os.Mission.Shadow.Totals.{Sample, sum_by, observe_all, observe_all-summary}
use flightdeck_os.Mission.Shadow.Boundaries.{with_intent, from_shadow-summary}

abbrev parameters : MissionParameters ℕ
parameters = record {
  cruise_altitude_ft = 34000;
  cruise_speed_kt = 300;
  climb_speed_kt = 280;
  takeoff_target_speed_kt = 160;
  approach_speed_kt = 140;
  descent_distance_nm = 100;
  approach_gate_nm = 15;
  landing_speed_kt = 130;
}

abbrev sample : ℕ → MissionPhase → Sample ℕ
sample n phase = record {
  sample_seq = n;
  phase = phase;
  ctx = record {
    snapshot = empty (record { ms = n });
    distance_to_destination_nm = 400;
    bearing_to_waypoint_deg = 90;
  };
  observed = record {
    heading_deg = some 90;
    altitude_ft = none;
    vertical_speed_fpm = none;
    speed_kt = some 250;
  };
}

abbrev flight : List (Sample ℕ)
flight = sample 1 MissionPhase.climb ∷ sample 2 MissionPhase.cruise ∷ []

abbrev shadow : MissionShadow ℕ
shadow = observe_all whole flat (λ channel want got. "") parameters flight new

observe_all-summary_example :
    let s = summary whole flat shadow in
    (s.matches ≡ sum_by (λ c. c.matched) shadow.channels)
    × (s.divergences ≡ sum_by (λ c. c.diverged) shadow.channels)
    × (s.matches + s.divergences ≡ sum_by (λ c. c.evaluated) shadow.channels)
    × (s.divergences ≡ shadow.divergences_count)
    × (s.matches + s.divergences + s.unknown + s.not_comparable ≡ 8)
    × (length shadow.entries ≡ 2)
observe_all-summary_example =
    observe_all-summary whole flat (λ channel want got. "") parameters flight

from_shadow-summary_example :
    let s = summary whole flat shadow in
    let counters = from_shadow whole flat shadow in
    (s.ambiguous_transitions ≤ counters.mission_transitions)
    × (counters.intents_emitted ≡ with_intent shadow.entries)
    × (sum_values s.states_traversed ≡ length shadow.entries)
from_shadow-summary_example = from_shadow-summary whole flat shadow
