-- ===== src/Aircraft/Condition.antt =====
-- crates/fd-aircraft/src/condition.rs: conditions and their evaluation in three values.
pub mod Raw
use mathlib.Core.Option
use flightdeck_os.Base.{
  ℕ, ◌≡◌, refl, Bool, true, false, not, Option, none, some, arith, if◌then◌else◌, ◌>>=◌,
}
use flightdeck_os.Base.Floats.{Float}
use flightdeck_os.Core.Telemetry.{TelemetrySnapshot, get}
use flightdeck_os.Aircraft.TriBool.{TriBool, unknown}
use flightdeck_os.Aircraft.StateField.{
  StateField, on_ground, beacon_light, apu_n_percent, apu_bleed_valve_open, flaps_handle_index,
  nav_logo_switch, pack_1_pb_on, ext_id,
}

abbrev pub satisfies : TriBool → Bool
satisfies TriBool.true = true
satisfies _ = false

pub data Condition (F : Type 0) : Type 0 where
  is_true is_false known : StateField → Condition F
  equals at_least at_most : StateField → F → Condition F

abbrev pub field : {F : Type 0} → Condition F → StateField
field (is_true f) = f
field (is_false f) = f
field (known f) = f
field (equals f _) = f
field (at_least f _) = f
field (at_most f _) = f

abbrev pub tri : Bool → TriBool
tri b = if b then TriBool.true else TriBool.false

pub data LeafValue (F : Type 0) : Type 0 where
  bool : Bool → LeafValue F
  num : F → LeafValue F

module _ {F : Type 0} (fl : Float F) where
  open fl use {lit, eq, le, is_finite}

  abbrev pub as_bool : F → Option Bool
  as_bool v = if is_finite v then some (not (eq v (lit 0))) else none

  -- The extension value of a field, through `?`.
  abbrev pub ext_value : StateField → TelemetrySnapshot F → Option F
  ext_value f snap = ext_id f >>= λ id. get id snap.aircraft_values

  abbrev pub bool_value : StateField → TelemetrySnapshot F → Option (LeafValue F)
  bool_value f snap = ext_value f snap >>= λ v. Option.map bool (as_bool v)

  abbrev pub num_value : StateField → TelemetrySnapshot F → Option (LeafValue F)
  num_value f snap = ext_value f snap >>= λ v. if is_finite v then some (num v) else none

  unfoldable pub typed_value : StateField → TelemetrySnapshot F → Option (LeafValue F)
  typed_value on_ground snap = Option.map bool snap.on_ground
  typed_value beacon_light snap = Option.map bool snap.beacon_light
  typed_value apu_bleed_valve_open snap = bool_value apu_bleed_valve_open snap
  typed_value pack_1_pb_on snap = bool_value pack_1_pb_on snap
  typed_value apu_n_percent snap = num_value apu_n_percent snap
  typed_value flaps_handle_index snap = num_value flaps_handle_index snap
  typed_value nav_logo_switch snap = num_value nav_logo_switch snap

  abbrev pub as_num : LeafValue F → Option F
  as_num (num v) = some v
  as_num (bool _) = none

  unfoldable pub numeric_of : StateField → TelemetrySnapshot F → Option F
  numeric_of f snap = typed_value f snap >>= as_num

  abbrev pub tri_of_bool : (Bool → Bool) → Option (LeafValue F) → TriBool
  tri_of_bool test (some (bool b)) = tri (test b)
  tri_of_bool test _ = unknown

  abbrev pub tri_of_num : (F → Bool) → Option F → TriBool
  tri_of_num test (some v) = tri (test v)
  tri_of_num test none = unknown

  abbrev pub tri_of_known : Option (LeafValue F) → TriBool
  tri_of_known (some _) = TriBool.true
  tri_of_known none = TriBool.false

  unfoldable pub evaluate : Condition F → TelemetrySnapshot F → TriBool
  unfolding numeric_of
  evaluate (is_true f) snap = tri_of_bool (λ b. b) (typed_value f snap)
  evaluate (is_false f) snap = tri_of_bool not (typed_value f snap)
  evaluate (equals f value) snap = tri_of_num (λ v. eq v value) (numeric_of f snap)
  evaluate (at_least f value) snap = tri_of_num (λ v. le value v) (numeric_of f snap)
  evaluate (at_most f value) snap = tri_of_num (λ v. le v value) (numeric_of f snap)
  evaluate (known f) snap = tri_of_known (typed_value f snap)

  abbrev ExtObserved : ℕ → TelemetrySnapshot F → Type 0
  ExtObserved id snap = (v : F) × (get id snap.aircraft_values ≡ some v) × (is_finite v ≡ true)

  -- The snapshot holds a value of the field, and a finite one where the value is a number.
  abbrev pub Observed : StateField → TelemetrySnapshot F → Type 0
  Observed on_ground snap = (b : Bool) × (snap.on_ground ≡ some b)
  Observed beacon_light snap = (b : Bool) × (snap.beacon_light ≡ some b)
  Observed apu_n_percent snap = ExtObserved 1 snap
  Observed apu_bleed_valve_open snap = ExtObserved 2 snap
  Observed flaps_handle_index snap = ExtObserved 3 snap
  Observed nav_logo_switch snap = ExtObserved 4 snap
  Observed pack_1_pb_on snap = ExtObserved 5 snap

  typed_value-Observed :
      (f : StateField) (snap : TelemetrySnapshot F) (v : LeafValue F)
      → typed_value f snap ≡ some v
      → Observed f snap
  unfolding typed_value
  typed_value-Observed on_ground snap v h = ground arith
  typed_value-Observed beacon_light snap v h = ground arith
  typed_value-Observed apu_n_percent snap v h = ground arith
  typed_value-Observed apu_bleed_valve_open snap v h = ground arith
  typed_value-Observed flaps_handle_index snap v h = ground arith
  typed_value-Observed nav_logo_switch snap v h = ground arith
  typed_value-Observed pack_1_pb_on snap v h = ground arith

  bool_observed :
      (test : Bool → Bool) (o : Option (LeafValue F))
      → tri_of_bool test o ≡ TriBool.true
      → (v : LeafValue F) × (o ≡ some v)
  bool_observed test none h = cc
  bool_observed test (some v) h = (v, refl)

  num_observed :
      (test : F → Bool) (o : Option (LeafValue F))
      → tri_of_num test (o >>= as_num) ≡ TriBool.true
      → (v : LeafValue F) × (o ≡ some v)
  num_observed test none h = cc
  num_observed test (some v) h = (v, refl)

  known_observed :
      (o : Option (LeafValue F)) → tri_of_known o ≡ TriBool.true → (v : LeafValue F) × (o ≡ some v)
  known_observed none h = cc
  known_observed (some v) h = (v, refl)

  evaluate-typed :
      (c : Condition F) (snap : TelemetrySnapshot F)
      → evaluate c snap ≡ TriBool.true
      → (v : LeafValue F) × (typed_value (field c) snap ≡ some v)
  unfolding evaluate
  evaluate-typed (is_true f) snap h = bool_observed _ (typed_value f snap) h
  evaluate-typed (is_false f) snap h = bool_observed _ (typed_value f snap) h
  evaluate-typed (known f) snap h = known_observed (typed_value f snap) h
  evaluate-typed (equals f _) snap h = num_observed _ (typed_value f snap) h
  evaluate-typed (at_least f _) snap h = num_observed _ (typed_value f snap) h
  evaluate-typed (at_most f _) snap h = num_observed _ (typed_value f snap) h

  -- A condition of any kind evaluates to true only against a snapshot that holds its field: a core
  -- field that is reported, or an extension value that is present and finite.
  pub evaluate-Observed :
      (c : Condition F) (snap : TelemetrySnapshot F)
      → evaluate c snap ≡ TriBool.true
      → Observed (field c) snap
  evaluate-Observed c snap h =
      let (v, e) = evaluate-typed c snap h in typed_value-Observed (field c) snap v e
