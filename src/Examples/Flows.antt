-- ===== src/Examples/Flows.antt =====
-- The flow engine and the conditions on concrete inputs.
use flightdeck_os.Base.{◌≡◌, Any, ◌≢◌, none, ℕ, true, false, [], ◌∷◌, refl, All}
use flightdeck_os.Aircraft.Condition.{Condition, is_true, evaluate}
use flightdeck_os.Aircraft.TriBool.{TriBool}
use flightdeck_os.Aircraft.Condition.Raw.{
  RawCondition, from_raw, from_name, from_field, boolean_condition, from_raw-decided,
}
use flightdeck_os.Aircraft.StateField.{StateField}
use flightdeck_os.Core.Actions.{verified}
use flightdeck_os.Core.Telemetry.{TelemetrySnapshot, SimState}
use flightdeck_os.Sop.Engine.{
  Role, observe, action, FlowDefinition, FlowEngine, new, assign_action_id, report_outcomes,
}
use flightdeck_os.Sop.Engine.Process.{process}
use flightdeck_os.Sop.Engine.Completion.{
  Reach, fresh, assigns, reports, processes, IsSound, Reach-IsSound,
}
use flightdeck_os.Sop.Engine.Dependencies.{is_begun, AreVerified, Asks, process-requests}
use flightdeck_os.Examples.Data.{whole, beacon_at, beacon_on}

abbrev lit_seen : Condition ℕ
lit_seen = is_true StateField.beacon_light

-- Switch the beacon on, then see it on.
abbrev pub beacon_flow : FlowDefinition ℕ
beacon_flow = record {
  id = "beacon";
  title = "Beacon";
  scope_note = "";
  steps =
      record { id = "switch"; actor = Role.user; depends_on = []; kind = action beacon_on }
      ∷ record {
        id = "see";
        actor = Role.user;
        depends_on = "switch" ∷ [];
        kind = observe lit_seen;
      }
      ∷ [];
}

abbrev dark : TelemetrySnapshot ℕ
dark = beacon_at 1000 false SimState.running

abbrev lit : TelemetrySnapshot ℕ
lit = beacon_at 2000 true SimState.running

-- The action was requested, submitted as 0 and verified.
abbrev acted : FlowEngine ℕ
acted =
    (report_outcomes (assign_action_id (process whole (new beacon_flow) dark).0 "switch" 0)
      ((0, verified) ∷ [])).0

acted-Reach : Reach whole beacon_flow acted
acted-Reach = reports (assigns (processes fresh dark) "switch" 0) ((0, verified) ∷ [])

Reach-IsSound_example : IsSound (process whole acted lit).0
Reach-IsSound_example = Reach-IsSound (processes acted-Reach lit)

process-requests_example :
    All (λ s. is_begun s.1.status ≡ true → AreVerified acted.steps s.0) acted.steps
    × All (λ r. Any (λ s. Asks acted.steps s.0 r) acted.steps) (process whole acted lit).1.requests
process-requests_example = process-requests whole acted-Reach lit

abbrev asked : FlowEngine ℕ
asked = (process whole (new beacon_flow) dark).0

abbrev raw_lit : RawCondition ℕ
raw_lit = record { field = "beaconlight"; op = "is_true"; value = none }

from_raw-decided_example : evaluate whole lit_seen lit ≢ TriBool.unknown
unfolding from_raw from_name from_field boolean_condition
from_raw-decided_example =
    from_raw-decided whole (λ text. text) raw_lit lit_seen lit refl (true, refl)
