-- ===== src/Mission/Monitor.antt =====
-- crates/fd-mission/src/monitor.rs, `RouteMonitor`: the active leg of a route and the observation of
-- a position against it. `none` is an index out of bounds, or a loop cut short by its fuel.
pub mod Progress
use flightdeck_os.Base.{
  ℕ, zero, suc, ◌+◌, ◌-◌, ◌<◌, ◌≤◌, ◌≡◌, refl, Bool, true, false, not, ◌&&◌, ◌||◌, Option, none,
  some, List, [], ◌∷◌, length, is_empty, get_elem?, ltb, leb, ◌==◌, ◌>>=◌, if◌then◌else◌, arith,
  ◌⊎◌, inl, inr, Bool-cases,
}
use flightdeck_os.Base.Floats.{Float, Trig}
use flightdeck_os.Base.Texts.{String}
use flightdeck_os.Core.Geo.{earth_radius_nm, distance_nm, initial_bearing_deg}
use flightdeck_os.Mission.Route.{Waypoint, distance_to}

pub data RouteSource : Type 0 where
  open_airac xplane_fms : String → RouteSource
  operator scenario unknown : RouteSource

pub record RouteState (F : Type 0) : Type 0 where
  pub source : RouteSource
  pub waypoints : List (Waypoint F)

abbrev is_known : RouteSource → Bool
is_known unknown = false
is_known _ = true

abbrev pub is_usable : {F : Type 0} → RouteState F → Bool
is_usable state = is_known state.source && leb 2 (length state.waypoints)

pub record RouteObservation (F : Type 0) : Type 0 where
  pub active_leg : Option ℕ
  pub distance_to_waypoint_nm : Option F
  pub cross_track_error_nm : Option F
  pub distance_remaining_nm : Option F
  pub route_complete : Bool
  pub destination_distance_nm : Option F

abbrev pub empty_observation : {F : Type 0} → RouteObservation F
empty_observation = record {
  active_leg = none;
  distance_to_waypoint_nm = none;
  cross_track_error_nm = none;
  distance_remaining_nm = none;
  route_complete = false;
  destination_distance_nm = none;
}

pub record RouteMonitor (F : Type 0) : Type 0 where
  pub waypoints : List (Waypoint F)
  pub leg_bearings_deg : List F
  pub leg_lengths_nm : List F
  pub active_leg : ℕ
  pub capture_radius_nm : F
  pub route_complete : Bool

-- `slice::windows(2)`, with a function of the two.
abbrev pub windows : {A B : Type 0} → (A → A → B) → List A → List B
windows f [] = []
windows f (a ∷ []) = []
windows f (a ∷ b ∷ xs) = f a b ∷ windows f (b ∷ xs)

-- `slice[i..]`.
abbrev pub from_index : {A : Type 0} → ℕ → List A → Option (List A)
from_index zero xs = some xs
from_index (suc i) [] = none
from_index (suc i) (x ∷ xs) = from_index i xs

abbrev pub last : {A : Type 0} → List A → Option A
last [] = none
last (x ∷ []) = some x
last (x ∷ y ∷ xs) = last (y ∷ xs)

module _ {F : Type 0} (fl : Float F) (tr : Trig F) where
  open fl use {lit, tenth, neg, lt, le, add, sub, mul, div}

  abbrev pub sum : List F → F
  sum xs = go (neg (lit 0)) xs
    where
      go : F → List F → F
      go acc [] = acc
      go acc (x ∷ xs) = go (add acc x) xs

  unfoldable pub new : RouteState F → RouteMonitor F
  new state = record {
    waypoints = state.waypoints;
    leg_bearings_deg =
        windows (λ a b. initial_bearing_deg fl tr a.lat_deg a.lon_deg b.lat_deg b.lon_deg)
          state.waypoints;
    leg_lengths_nm =
        windows (λ a b. distance_nm fl tr a.lat_deg a.lon_deg b.lat_deg b.lon_deg) state.waypoints;
    active_leg = 0;
    capture_radius_nm = tenth 25;
    route_complete = false;
  }

  module _ (lat lon : F) where
    -- The test that ends the leg between two waypoints; only intermediate waypoints are passed abeam.
    abbrev pub is_passed : F → Bool → Waypoint F → Waypoint F → Bool
    is_passed radius is_final current next =
        let d_next = distance_to fl tr lat lon next in
        le d_next radius || (not is_final && lt d_next (distance_to fl tr lat lon current))

    -- The loop over the legs that the position has passed, from the leg `leg`.
    unfoldable pub advance_leg : List (Waypoint F) → F → ℕ → ℕ → Option ℕ
    advance_leg waypoints radius zero leg = none
    advance_leg waypoints radius (suc fuel) leg =
        let rest = advance_leg waypoints radius fuel (leg + 1) in
        if ltb (leg + 1) (length waypoints)
        then (do
          next ← get_elem? waypoints (leg + 1)
          current ← get_elem? waypoints leg
          if is_passed radius (leg + 2 == length waypoints) current next then rest else some leg)
        else some leg

    unfoldable pub advance_monitor : RouteMonitor F → Option (RouteMonitor F)
    advance_monitor m = if m.route_complete then some m else (do
      leg ← advance_leg m.waypoints m.capture_radius_nm (length m.waypoints + 1) m.active_leg
      some (record m { active_leg = leg; route_complete = leg + 1 == length m.waypoints }))

    abbrev pub cross_track : Waypoint F → F → F
    cross_track from leg_bearing =
        let angular = mul (tr.sin (div (distance_to fl tr lat lon from) (earth_radius_nm fl tr))) (
          tr.sin (
            tr.to_radians
              (sub (initial_bearing_deg fl tr from.lat_deg from.lon_deg lat lon) leg_bearing))) in
        mul (tr.asin angular) (earth_radius_nm fl tr)

    -- The observation on the active leg.
    unfoldable pub observe_leg : RouteMonitor F → F → Option (RouteObservation F)
    observe_leg m to_destination = do
      from ← get_elem? m.waypoints m.active_leg
      to ← get_elem? m.waypoints (m.active_leg + 1)
      leg_bearing ← get_elem? m.leg_bearings_deg m.active_leg
      remaining ← from_index (m.active_leg + 1) m.leg_lengths_nm
      some (record {
        active_leg = some m.active_leg;
        distance_to_waypoint_nm = some (distance_to fl tr lat lon to);
        cross_track_error_nm = some (cross_track from leg_bearing);
        distance_remaining_nm = some (add (distance_to fl tr lat lon to) (sum remaining));
        route_complete = false;
        destination_distance_nm = some to_destination;
      })

    -- The observation, with the distance to the destination at hand.
    unfoldable pub observe_to : RouteMonitor F → F → Option (RouteObservation F)
    observe_to m to_destination =
        if m.route_complete
        then some (record empty_observation {
          distance_remaining_nm = some (lit 0);
          route_complete = true;
          destination_distance_nm = some to_destination;
        })
        else observe_leg m to_destination

    unfoldable pub observe : RouteMonitor F → Option (RouteObservation F)
    observe m = do dest ← last m.waypoints; observe_to m (distance_to fl tr lat lon dest)

    unfoldable pub update : RouteMonitor F → Option (RouteObservation F × RouteMonitor F)
    update m =
        if is_empty m.leg_bearings_deg || ltb (length m.waypoints) 2
        then some (empty_observation, m)
        else (do m' ← advance_monitor m; obs ← observe m'; some (obs, m'))
