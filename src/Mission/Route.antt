-- ===== src/Mission/Route.antt =====
-- crates/fd-mission/src/route.rs: waypoints and the route follower. `none` is an index out of
-- bounds, or the `assert!` of `new`.
use flightdeck_os.Base.{
  ℕ, ◌+◌, ◌-◌, ◌<◌, ◌≡◌, refl, Bool, true, false, ◌&&◌, Option, none, some, List, length, get_elem?,
  get_elem?-lt, ltb, leb, ◌>>=◌, if◌then◌else◌, arith, Bool-cases, inl, inr,
}
use flightdeck_os.Base.Floats.{Float, Trig}
use flightdeck_os.Base.Texts.{String}
use flightdeck_os.Core.Geo.{distance_nm, initial_bearing_deg}

pub record Waypoint (F : Type 0) : Type 0 where
  pub id : String
  pub lat_deg : F
  pub lon_deg : F

pub record RouteFollower (F : Type 0) : Type 0 where
  pub waypoints : List (Waypoint F)
  pub current_leg : ℕ
  pub capture_radius_nm : F

abbrev min : ℕ → ℕ → ℕ
min a b = if leb a b then a else b

module _ {F : Type 0} where
  unfoldable pub new : List (Waypoint F) → F → Option (RouteFollower F)
  new waypoints radius =
      if leb 2 (length waypoints)
      then some (record { waypoints = waypoints; current_leg = 0; capture_radius_nm = radius })
      else none

  abbrev pub destination : RouteFollower F → Option (Waypoint F)
  destination r = get_elem? r.waypoints (length r.waypoints - 1)

  abbrev pub current_waypoint : RouteFollower F → Option (Waypoint F)
  current_waypoint r = get_elem? r.waypoints (min (r.current_leg + 1) (length r.waypoints - 1))

  abbrev pub remaining_legs : RouteFollower F → ℕ
  remaining_legs r = (length r.waypoints - 1) - r.current_leg

module _ {F : Type 0} (fl : Float F) (tr : Trig F) where
  abbrev pub distance_to : F → F → Waypoint F → F
  distance_to lat lon w = distance_nm fl tr lat lon w.lat_deg w.lon_deg

  unfoldable pub guidance : RouteFollower F → F → F → Option (F × F)
  guidance r lat lon = do
    target ← current_waypoint r
    some (
      initial_bearing_deg fl tr lat lon target.lat_deg target.lon_deg,
      distance_to lat lon target,
    )

  unfoldable pub maybe_advance : RouteFollower F → F → F → Option (Bool × RouteFollower F)
  maybe_advance r lat lon = do
    target ← current_waypoint r
    some (
        if fl.le (distance_to lat lon target) r.capture_radius_nm
          && ltb (r.current_leg + 2) (length r.waypoints)
        then (true, record r { current_leg = r.current_leg + 1 })
        else (false, r))

  unfoldable pub distance_to_destination : RouteFollower F → F → F → Option F
  distance_to_destination r lat lon = do w ← destination r; some (distance_to lat lon w)

-- The leg is one of the route: it leads from a waypoint to another.
abbrev pub OnRoute : {F : Type 0} → RouteFollower F → Type 0
OnRoute r = r.current_leg + 1 < length r.waypoints

module _ {F : Type 0} (fl : Float F) (tr : Trig F) where
  -- For a follower on a leg of its route, a position moves it one leg on or leaves it where it is:
  -- it is still on a leg of the same route, and no index is out of bounds.
  pub maybe_advance-OnRoute :
      (r : RouteFollower F) (lat lon : F)
      → OnRoute r
      → (moved : Bool) × (r' : RouteFollower F) × (maybe_advance fl tr r lat lon ≡ some (moved, r'))
        × OnRoute r'
        × (r'.waypoints ≡ r.waypoints)
        × (r'.current_leg ≡ (if moved then r.current_leg + 1 else r.current_leg))
  unfolding maybe_advance
  maybe_advance-OnRoute r lat lon h =
      let (w, e) =
        get_elem?-lt r.waypoints (min (r.current_leg + 1) (length r.waypoints - 1))
          (ground (arith, h)) in
      let near = fl.le (distance_to fl tr lat lon w) r.capture_radius_nm in
      rw e (elim (Bool-cases (near && ltb (r.current_leg + 2) (length r.waypoints))) [
        | inl t ↦ rw t (true, _, refl, ground (arith, t), refl, refl)
        | inr f ↦ rw f (false, _, refl, h, refl, refl)
      ])
