-- ===== src/Virtual/Kinematics.antt =====
-- crates/fd-virtual/src/kinematics.rs: the bounded kinematic model. `none` is the panic of an
-- assertion, `f64::clamp`'s own among them.
pub mod Ground
pub mod Landing
use flightdeck_os.Base.{
  ℕ, Bool, true, false, not, ◌&&◌, ◌||◌, Option, none, some, ◌>>=◌, if◌then◌else◌,
}
use flightdeck_os.Base.Floats.{Float, Trig}

pub record KinematicLimits (F : Type 0) : Type 0 where
  pub max_climb_fpm : F
  pub max_descent_fpm : F
  pub max_turn_rate_deg_s : F
  pub max_accel_kt_s : F
  pub max_decel_kt_s : F

pub record KinematicState (F : Type 0) : Type 0 where
  pub latitude_deg : F
  pub longitude_deg : F
  pub altitude_ft : F
  pub ground_elevation_ft : F
  pub heading_deg : F
  pub ias_kt : F
  pub groundspeed_kt : F
  pub vertical_speed_fpm : F
  pub pitch_deg : F
  pub bank_deg : F
  pub on_ground : Bool
  pub lifted_off : Bool
  pub target_altitude_ft : F
  pub target_speed_kt : F
  pub target_heading_deg : F
  pub target_vertical_speed_fpm : Option F
  pub limits : KinematicLimits F

-- `!=` on Booleans.
abbrev pub differ : Bool → Bool → Bool
differ true b = not b
differ false b = b

module _ {F : Type 0} (fl : Float F) (tr : Trig F) where
  open fl use {lit, tenth, neg, lt, le, eq, add, sub, mul, div, abs}
  open tr use {thousandth, sin, cos, asin, atan2, to_radians, to_degrees, rem_euclid}

  abbrev pub default_limits : KinematicLimits F
  default_limits = record {
    max_climb_fpm = lit 2500;
    max_descent_fpm = lit 2200;
    max_turn_rate_deg_s = lit 3;
    max_accel_kt_s = tenth 15;
    max_decel_kt_s = tenth 18;
  }

  -- `f64::clamp`, which asserts that its bounds are in order.
  unfoldable pub clamp : F → F → F → Option F
  clamp x lo hi =
      if le lo hi then some (if lt x lo then lo else if lt hi x then hi else x) else none

  unfoldable pub wrap180 : F → F
  wrap180 deg =
      let d = sub (rem_euclid (add deg (lit 180)) (lit 360)) (lit 180) in
      if eq d (neg (lit 180)) then lit 180 else d

  unfoldable pub new : F → F → F → KinematicLimits F → KinematicState F
  new lat lon ground_elevation_ft limits = record {
    latitude_deg = lat;
    longitude_deg = lon;
    altitude_ft = ground_elevation_ft;
    ground_elevation_ft = ground_elevation_ft;
    heading_deg = lit 0;
    ias_kt = lit 0;
    groundspeed_kt = lit 0;
    vertical_speed_fpm = lit 0;
    pitch_deg = lit 0;
    bank_deg = lit 0;
    on_ground = true;
    lifted_off = false;
    target_altitude_ft = ground_elevation_ft;
    target_speed_kt = lit 0;
    target_heading_deg = lit 0;
    target_vertical_speed_fpm = none;
    limits = limits;
  }

  unfoldable pub start_airborne_at : KinematicState F → F → KinematicState F
  start_airborne_at k altitude_ft =
      let grounded = le altitude_ft k.ground_elevation_ft in
      let k' = record k { altitude_ft = altitude_ft; on_ground = grounded } in
      if not grounded
      then record k' { lifted_off = true; ias_kt = lit 250; groundspeed_kt = lit 250 }
      else k'

  unfoldable pub set_target_altitude : KinematicState F → F → Option (KinematicState F)
  unfolding clamp
  set_target_altitude k ft =
      clamp ft k.ground_elevation_ft (lit 45000) >>= λ v. some (record k { target_altitude_ft = v })

  unfoldable pub set_target_speed : KinematicState F → F → Option (KinematicState F)
  unfolding clamp
  set_target_speed k kt =
      clamp kt (lit 0) (lit 500) >>= λ v. some (record k { target_speed_kt = v })

  unfoldable pub set_target_heading : KinematicState F → F → KinematicState F
  set_target_heading k deg = record k { target_heading_deg = rem_euclid deg (lit 360) }

  unfoldable pub clamp_vs : KinematicState F → F → Option F
  unfolding clamp
  clamp_vs k fpm = clamp fpm (neg k.limits.max_descent_fpm) k.limits.max_climb_fpm

  unfoldable pub set_target_vertical_speed : KinematicState F → F → Option (KinematicState F)
  unfolding clamp_vs
  set_target_vertical_speed k fpm =
      clamp_vs k fpm >>= λ v. some (record k { target_vertical_speed_fpm = some v })

  unfoldable pub agl_ft : KinematicState F → F
  agl_ft k = sub k.altitude_ft k.ground_elevation_ft

  -- The parts of `advance`, in its order.
  unfoldable pub advance_speed : F → KinematicState F → Option (KinematicState F)
  unfolding clamp
  advance_speed dt_s k = do
    let speed_err = sub k.target_speed_kt k.ias_kt
    let max_d_speed =
        (if le (lit 0) speed_err
          then mul k.limits.max_accel_kt_s dt_s
          else mul k.limits.max_decel_kt_s dt_s)
    d_speed ← clamp speed_err (neg max_d_speed) max_d_speed
    ias_kt ← clamp (add k.ias_kt d_speed) (lit 0) (lit 520)
    some (record k { ias_kt = ias_kt })

  unfoldable pub rotate : KinematicState F → KinematicState F
  rotate k =
      if not k.lifted_off
      then (if le (lit 140) k.ias_kt
          then record k { lifted_off = true; on_ground = false; pitch_deg = lit 5 }
          else record k {
            groundspeed_kt = k.ias_kt;
            vertical_speed_fpm = lit 0;
            pitch_deg = lit 0;
            altitude_ft = k.ground_elevation_ft;
          })
      else k

  unfoldable pub target_vs : F → KinematicState F → Option F → Option F
  unfolding clamp_vs
  target_vs dt_s k (some cmd) = clamp_vs k cmd
  target_vs dt_s k none =
      let err = sub k.target_altitude_ft k.altitude_ft in
      if le (abs err) (lit 1) then some (lit 0) else clamp_vs k (mul (div err dt_s) (lit 60))

  abbrev pub is_none : Option F → Bool
  is_none none = true
  is_none (some _) = false

  -- Crossing the target altitude lands on it; `prev_alt` is the altitude before the step.
  unfoldable pub level_off : F → KinematicState F → KinematicState F
  level_off prev_alt k =
      let crossed =
        differ (lt prev_alt k.target_altitude_ft) (lt k.altitude_ft k.target_altitude_ft) in
      if is_none k.target_vertical_speed_fpm && (crossed || eq k.altitude_ft k.target_altitude_ft)
      then record k { altitude_ft = k.target_altitude_ft; vertical_speed_fpm = lit 0 }
      else k

  unfoldable pub touch_down : KinematicState F → KinematicState F
  touch_down k =
      if le k.altitude_ft k.ground_elevation_ft && lt k.vertical_speed_fpm (lit 0)
      then record k {
        altitude_ft = k.ground_elevation_ft;
        on_ground = true;
        lifted_off = false;
        pitch_deg = lit 0;
      }
      else k

  unfoldable pub fly : F → KinematicState F → Option (KinematicState F)
  unfolding clamp target_vs level_off touch_down
  fly dt_s k = do
    vs_target ← target_vs dt_s k k.target_vertical_speed_fpm
    let vs_rate = mul (lit 1500) dt_s
    change ← clamp (sub vs_target k.vertical_speed_fpm) (neg vs_rate) vs_rate
    let vs = add k.vertical_speed_fpm change
    let climbed = record k {
      vertical_speed_fpm = vs;
      altitude_ft = add k.altitude_ft (mul (div vs (lit 60)) dt_s);
    }
    some (touch_down (level_off k.altitude_ft climbed))

  unfoldable pub roll : KinematicState F → KinematicState F
  roll k = record k {
    groundspeed_kt = k.ias_kt;
    vertical_speed_fpm = lit 0;
    altitude_ft = k.ground_elevation_ft;
  }

  unfoldable pub advance_vertical : F → KinematicState F → Option (KinematicState F)
  unfolding roll fly
  advance_vertical dt_s k = if k.on_ground then some (roll k) else fly dt_s k

  unfoldable pub turn : F → KinematicState F → Option (KinematicState F)
  unfolding clamp wrap180
  turn dt_s k = do
    let err = wrap180 (sub k.target_heading_deg k.heading_deg)
    let max_turn = mul k.limits.max_turn_rate_deg_s dt_s
    by ← clamp err (neg max_turn) max_turn
    some (record k { heading_deg = rem_euclid (add k.heading_deg by) (lit 360) })

  unfoldable pub dead_reckon : F → F → F → F → Option (F × F)
  unfolding clamp
  dead_reckon lat_deg lon_deg bearing_deg dist_nm = do
    let phi1 = to_radians lat_deg
    let lam1 = to_radians lon_deg
    let theta = to_radians bearing_deg
    let delta = div dist_nm (thousandth 3440065)
    let sin_phi2 = add (mul (sin phi1) (cos delta)) (mul (mul (cos phi1) (sin delta)) (cos theta))
    let phi2 = asin sin_phi2
    let lam2 = add lam1 (
        atan2 (mul (mul (sin theta) (sin delta)) (cos phi1))
          (sub (cos delta) (mul (sin phi1) sin_phi2)))
    lat ← clamp (to_degrees phi2) (neg (lit 90)) (lit 90)
    some (lat, rem_euclid (to_degrees lam2) (lit 360))

  unfoldable pub move : F → KinematicState F → Option (KinematicState F)
  unfolding dead_reckon
  move dt_s k = do
    let dist_nm = div (mul k.groundspeed_kt dt_s) (lit 3600)
    (dlat, dlon) ← dead_reckon k.latitude_deg k.longitude_deg k.heading_deg dist_nm
    some (record k { latitude_deg = dlat; longitude_deg = dlon })

  -- A step that is taken in the air only.
  abbrev pub airborne :
      (KinematicState F → Option (KinematicState F)) → KinematicState F → Option (KinematicState F)
  airborne step k = if not k.on_ground then step k else some k

  unfoldable pub advance : F → KinematicState F → Option (KinematicState F)
  unfolding advance_speed rotate advance_vertical turn move
  advance dt_s k =
      if lt (lit 0) dt_s
      then (do
        faster ← advance_speed dt_s k
        vertical ← advance_vertical dt_s (rotate faster)
        turned ← airborne (turn dt_s) (record vertical { groundspeed_kt = vertical.ias_kt })
        airborne (move dt_s) turned)
      else none
