-- ===== src/Examples/Packages.antt =====
-- The resolution of flows on concrete inputs.
use flightdeck_os.Base.{ℕ, some, List, [], ◌∷◌, ◌≡◌, refl, Result}
use flightdeck_os.Base.Texts.{String}
use flightdeck_os.Sop.Package.{RawStep, RawStepBody, RawFlowDef, missing, resolve_flow}
use flightdeck_os.Sop.Package.Cycles.{Search, check_cycles}
use flightdeck_os.Sop.Package.Roots.{Decided, check_cycles-Decides}
use flightdeck_os.Sop.Package.Accepted.{Returns, missing-Known, resolve_flow-Returns}
use flightdeck_os.Examples.Data.{whole}
use flightdeck_os.Examples.Flows.{beacon_flow}

check_cycles-Decides_example :
    (x : Result Search (List String)) × (check_cycles beacon_flow.steps ≡ some x)
    × Decided beacon_flow.steps x
unfolding missing
check_cycles-Decides_example =
    check_cycles-Decides beacon_flow.steps
      (missing-Known beacon_flow.steps ("switch" ∷ "see" ∷ []) (λ d e. e) refl)

abbrev unchanged : String → String
unchanged text = text

abbrev raw_step : String → String → RawStep ℕ
raw_step id dep = record {
  id = id;
  actor = "user";
  depends_on = dep ∷ [];
  body = RawStepBody.action "beacon_on";
}

-- Two steps that wait for each other.
abbrev circular : RawFlowDef ℕ
circular = record {
  id = "circular";
  title = "Circular";
  scope_note = "";
  steps = raw_step "first" "second" ∷ raw_step "second" "first" ∷ [];
}

resolve_flow-Returns_example : Returns (resolve_flow unchanged unchanged whole circular)
resolve_flow-Returns_example = resolve_flow-Returns unchanged unchanged whole circular
