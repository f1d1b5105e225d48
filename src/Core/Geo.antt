-- ===== src/Core/Geo.antt =====
-- crates/fd-core/src/geo.rs: great-circle geometry.
use flightdeck_os.Base.Floats.{Float, Trig}

module _ {F : Type 0} (fl : Float F) (tr : Trig F) where
  open fl use {lit, add, sub, mul, div}
  open tr use {thousandth, sin, cos, atan2, sqrt, powi, to_radians, to_degrees, rem_euclid}

  abbrev pub earth_radius_nm : F
  earth_radius_nm = thousandth 3440065

  unfoldable pub distance_nm : F → F → F → F → F
  distance_nm lat1_deg lon1_deg lat2_deg lon2_deg =
      let lat1 = to_radians lat1_deg in
      let lat2 = to_radians lat2_deg in
      let dlat = sub lat2 lat1 in
      let dlon = sub (to_radians lon2_deg) (to_radians lon1_deg) in
      let a =
        add (powi (sin (div dlat (lit 2))) 2)
          (mul (mul (cos lat1) (cos lat2)) (powi (sin (div dlon (lit 2))) 2)) in
      mul (mul earth_radius_nm (lit 2)) (atan2 (sqrt a) (sqrt (sub (lit 1) a)))

  unfoldable pub initial_bearing_deg : F → F → F → F → F
  initial_bearing_deg lat1_deg lon1_deg lat2_deg lon2_deg =
      let lat1 = to_radians lat1_deg in
      let lat2 = to_radians lat2_deg in
      let dlon = sub (to_radians lon2_deg) (to_radians lon1_deg) in
      let y = mul (sin dlon) (cos lat2) in
      let x = sub (mul (cos lat1) (sin lat2)) (mul (mul (sin lat1) (cos lat2)) (cos dlon)) in
      rem_euclid (to_degrees (atan2 y x)) (lit 360)
