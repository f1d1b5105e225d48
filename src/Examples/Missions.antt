-- ===== src/Examples/Missions.antt =====
-- Routes and missions on concrete inputs.
use flightdeck_os.Base.{ℕ, true, false, some, List, [], ◌∷◌, ◌≡◌, Bool, arith}
use flightdeck_os.Core.Telemetry.{empty}
use flightdeck_os.Mission.Route.{Waypoint, RouteFollower}
use flightdeck_os.Mission.Monitor.{
  RouteState, RouteSource, RouteObservation, RouteMonitor, empty_observation, new, update,
}
use flightdeck_os.Mission.Monitor.Progress.{
  IsSound, new-IsSound, Progress, Observes, update-Progress,
}
use flightdeck_os.Mission.OffRoute.{default, OffRouteConfig, OffRouteDetector, OffRouteEvent}
use flightdeck_os.Mission.OffRoute.History.{start, fed, onset_event, streak_of, Fed-event}
use flightdeck_os.Mission.OffRoute
use flightdeck_os.Mission.Controller
use flightdeck_os.Mission.Controller.{
  intended_next_phase, FlightControlTargets, MissionPhase, MissionContext, MissionController, step,
}
use flightdeck_os.Mission.Controller.Order
use flightdeck_os.Mission.Controller.Order.{stepped, changes, changes-new, Passed, Reach-Passed}
use flightdeck_os.Examples.Data.{whole, flat}

abbrev waypoint : ℕ → ℕ → Waypoint ℕ
waypoint lat lon = record { id = "WPT"; lat_deg = lat; lon_deg = lon }

abbrev three : List (Waypoint ℕ)
three = waypoint 40 10 ∷ waypoint 41 20 ∷ waypoint 42 30 ∷ []

abbrev follower : RouteFollower ℕ
follower = record { waypoints = three; current_leg = 0; capture_radius_nm = 3 }

abbrev route : RouteState ℕ
route = record { source = RouteSource.operator; waypoints = three }

abbrev monitor : RouteMonitor ℕ
monitor = new whole flat route

update-Progress_example :
    (obs : RouteObservation ℕ) × (m' : RouteMonitor ℕ) × (update whole flat 41 20 monitor
      ≡ some (obs, m'))
    × IsSound m'
    × Progress whole flat 41 20 monitor m'
    × Observes whole flat 41 20 m' obs
unfolding new
update-Progress_example =
    update-Progress whole flat 41 20 monitor (omega arith) (new-IsSound whole flat route)

abbrev off_by : ℕ → RouteObservation ℕ
off_by xtk = record empty_observation { cross_track_error_nm = some xtk }

abbrev config : OffRouteConfig ℕ
config = default whole

-- The third deviation in a row is the event.
Fed-event_example :
    (OffRoute.update whole
      (OffRoute.update whole
        (OffRoute.update whole (OffRoute.new whole config) 7 (off_by 6)).1
        8
        (off_by 9)).1
      9
      (off_by 7)).0
    ≡ onset_event whole config
        (streak_of whole config ((9, off_by 7) ∷ (8, off_by 9) ∷ (7, off_by 6) ∷ []))
Fed-event_example =
    Fed-event whole config (fed (fed start 7 (off_by 6)) 8 (off_by 9)) (omega arith) 9 (off_by 7)

abbrev panel : FlightControlTargets ℕ (List ℕ)
panel = record {
  flight_guidance_supported = λ s. true;
  set_target_altitude = λ s v. v ∷ s;
  set_target_speed = λ s v. v ∷ s;
  set_target_heading = λ s v. v ∷ s;
  set_target_vertical_speed = λ s v. v ∷ s;
}

abbrev context : Bool → ℕ → ℕ → MissionContext ℕ
context on_ground agl distance = record {
  snapshot = record (empty (record { ms = 0 })) {
    on_ground = some on_ground;
    altitude_agl = some agl;
  };
  distance_to_destination_nm = distance;
  bearing_to_waypoint_deg = 90;
}

abbrev contexts : List (MissionContext ℕ)
contexts = context false 100 400 ∷ context false 2000 390 ∷ context false 9000 100 ∷ []

abbrev after : MissionController ℕ → MissionContext ℕ → MissionController ℕ
after c ctx = (step whole panel c ctx []).1

Reach-Passed_example :
    Passed whole
      (Controller.default whole)
      (context false 9000 100 ∷ context false 2000 390 ∷ context false 100 400 ∷ [])
      (after
        (after
          (after (Controller.new (Controller.default whole)) (context false 100 400))
          (context false 2000 390))
        (context false 9000 100)).phase
Reach-Passed_example = Reach-Passed whole (Controller.default whole) panel (
    stepped (stepped (stepped Order.start (context false 100 400) []) (context false 2000 390) [])
      (context false 9000 100) [])
