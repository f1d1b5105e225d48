-- ===== src/Aircraft/Condition/Raw.antt =====
-- crates/fd-aircraft/src/condition.rs, `from_raw`, and state_field.rs, `from_name`: the validation of
-- conditions as packages write them. `canon` is the standard library's lower-casing of a name with
-- its underscores removed.
use mathlib.Core.Path.{subst}
use flightdeck_os.Base.{
  ◌≡◌, ◌≢◌, Bool, true, false, not, List, Option, none, some, Result, ok, err, if◌then◌else◌, arith,
}
use flightdeck_os.Base.Floats.{Float}
use flightdeck_os.Base.Texts.{String, str_eq}
use flightdeck_os.Core.Telemetry.{TelemetrySnapshot}
use flightdeck_os.Aircraft.TriBool.{unknown}
use flightdeck_os.Aircraft.StateField.{
  StateField, on_ground, beacon_light, apu_n_percent, apu_bleed_valve_open, flaps_handle_index,
  nav_logo_switch, pack_1_pb_on, ValueType, boolean, numeric, value_type,
}
use flightdeck_os.Aircraft.Condition.{
  Condition, is_true, is_false, known, equals, at_least, at_most, field, evaluate, typed_value,
  numeric_of, Observed,
}

-- Why a condition does not fit its field; the code prints it.
pub data Mismatch : Type 0 where
  needs_boolean needs_numeric needs_value not_finite unknown_operator : Mismatch

pub data PackageError : Type 0 where
  unknown_state_field : String → PackageError
  condition_type_mismatch : String → String → Mismatch → PackageError
  empty_field unknown_role unknown_action : String → PackageError
  -- The flow, the step, and the dependency or the identifiers on the cycle.
  duplicate_step_id self_dependency : String → String → PackageError
  missing_dependency : String → String → String → PackageError
  dependency_cycle : String → List String → PackageError

pub record RawCondition (F : Type 0) : Type 0 where
  pub field : String
  pub op : String
  pub value : Option F

unfoldable pub from_name : (String → String) → String → Result StateField PackageError
from_name canon name =
    let text = canon name in
    if str_eq text "onground"
    then ok on_ground
    else if str_eq text "beaconlight"
    then ok beacon_light
    else if str_eq text "apunpercent"
    then ok apu_n_percent
    else if str_eq text "apubleedvalveopen"
    then ok apu_bleed_valve_open
    else if str_eq text "flapshandleindex"
    then ok flaps_handle_index
    else if str_eq text "navlogoswitch"
    then ok nav_logo_switch
    else if str_eq text "pack1pbon"
    then ok pack_1_pb_on
    else err (unknown_state_field text)

abbrev pub is_boolean : ValueType → Bool
is_boolean boolean = true
is_boolean numeric = false

module _ {F : Type 0} (fl : Float F) (raw : RawCondition F) where
  abbrev pub mismatch : {A : Type 0} → Mismatch → Result A PackageError
  mismatch m = err (condition_type_mismatch raw.field raw.op m)

  -- The tests of `is_true` and `is_false`.
  unfoldable pub boolean_condition : StateField → Condition F → Result (Condition F) PackageError
  boolean_condition f c = if is_boolean (value_type f) then ok c else mismatch needs_boolean

  abbrev pub threshold : StateField → F → Condition F
  threshold f value =
      if str_eq raw.op "equals"
      then equals f value
      else if str_eq raw.op "at_least"
      then at_least f value
      else at_most f value

  -- The tests of the three operators with a value.
  unfoldable pub numeric_condition : StateField → Option F → Result (Condition F) PackageError
  numeric_condition f none =
      if is_boolean (value_type f) then mismatch needs_numeric else mismatch needs_value
  numeric_condition f (some value) =
      if is_boolean (value_type f)
      then mismatch needs_numeric
      else if not (fl.is_finite value)
      then mismatch not_finite
      else ok (threshold f value)

  unfoldable pub from_field : StateField → Result (Condition F) PackageError
  unfolding boolean_condition numeric_condition
  from_field f =
      if str_eq raw.op "is_true"
      then boolean_condition f (is_true f)
      else if str_eq raw.op "is_false"
      then boolean_condition f (is_false f)
      else if str_eq raw.op "known"
      then ok (known f)
      else if str_eq raw.op "equals"
      then numeric_condition f raw.value
      else if str_eq raw.op "at_least"
      then numeric_condition f raw.value
      else if str_eq raw.op "at_most"
      then numeric_condition f raw.value
      else mismatch unknown_operator

  unfoldable pub from_raw : (String → String) → Result (Condition F) PackageError
  from_raw canon = elim (from_name canon raw.field) [ ok f ↦ from_field f | err e ↦ err e ]

-- The condition's operator fits the type of its field.
abbrev pub IsTyped : {F : Type 0} → Condition F → Type 0
IsTyped (is_true f) = is_boolean (value_type f) ≡ true
IsTyped (is_false f) = is_boolean (value_type f) ≡ true
IsTyped (known f) = Unit {0}
IsTyped (equals f _) = is_boolean (value_type f) ≡ false
IsTyped (at_least f _) = is_boolean (value_type f) ≡ false
IsTyped (at_most f _) = is_boolean (value_type f) ≡ false

-- The condition that a validation yields, if it accepts, is typed.
abbrev Accepted : {F : Type 0} → Result (Condition F) PackageError → Type 0
Accepted (ok c) = IsTyped c
Accepted (err e) = Unit

record Yields {F : Type 0} (r : Result (Condition F) PackageError) : Type 0 where
  typed : Accepted r

Yields-if :
    {F : Type 0} (b : Bool) (x y : Result (Condition F) PackageError)
    → Yields x
    → Yields y
    → Yields (if b then x else y)
Yields-if true x y h k = h
Yields-if false x y h k = k

Yields-elim :
    {F : Type 0} (r : Result StateField PackageError)
    (k : StateField → Result (Condition F) PackageError)
    → ((f : StateField) → Yields (k f))
    → Yields (elim r [ ok f ↦ k f | err e ↦ err e ])
Yields-elim (ok f) k h = h f
Yields-elim (err e) k h = record { typed = tt }

module _ {F : Type 0} (fl : Float F) where
  boolean_condition-Yields :
      (raw : RawCondition F) (f : StateField)
      → Yields (boolean_condition fl raw f (is_true f))
        × Yields (boolean_condition fl raw f (is_false f))
  unfolding boolean_condition
  boolean_condition-Yields raw f =
      (record { typed = ground arith }, record { typed = ground arith })

  numeric_condition-Yields :
      (raw : RawCondition F) (f : StateField) (v : Option F) → Yields (numeric_condition fl raw f v)
  unfolding numeric_condition
  numeric_condition-Yields raw f v = record { typed = ground arith }

  from_field-Yields : (raw : RawCondition F) (f : StateField) → Yields (from_field fl raw f)
  unfolding from_field
  from_field-Yields raw f =
      let (t, u) = boolean_condition-Yields raw f in
      let n = numeric_condition-Yields raw f raw.value in
      let op = str_eq raw.op in
      let stop = mismatch fl raw unknown_operator in
      Yields-if (op "is_true") _ _ t (
        Yields-if (op "is_false") _ _ u (
          Yields-if (op "known") (ok (known f)) _ (record { typed = tt })
            (Yields-if (op "equals") _ _ n (
              Yields-if (op "at_least") _ _ n
                (Yields-if (op "at_most") _ stop n (record { typed = tt }))))))

  from_raw-Yields :
      (canon : String → String) (raw : RawCondition F) → Yields (from_raw fl raw canon)
  unfolding from_raw
  from_raw-Yields canon raw =
      Yields-elim (from_name canon raw.field) (from_field fl raw) (from_field-Yields raw)

  -- Where the field is observed, a typed condition is decided.
  evaluate-decided :
      (c : Condition F) (snap : TelemetrySnapshot F)
      → IsTyped c
      → Observed fl (field c) snap
      → evaluate fl c snap ≢ unknown
  unfolding evaluate typed_value numeric_of
  evaluate-decided (is_true f) snap h o = ground arith
  evaluate-decided (is_false f) snap h o = ground arith
  evaluate-decided (known f) snap h o = ground arith
  evaluate-decided (equals f v) snap h o = ground arith
  evaluate-decided (at_least f v) snap h o = ground arith
  evaluate-decided (at_most f v) snap h o = ground arith

  -- A condition that the validation accepts is undecided only where its field is not observed:
  -- against a snapshot that holds the field, it evaluates to true or to false.
  pub from_raw-decided :
      (canon : String → String) (raw : RawCondition F) (c : Condition F)
      (snap : TelemetrySnapshot F)
      → from_raw fl raw canon ≡ ok c
      → Observed fl (field c) snap
      → evaluate fl c snap ≢ unknown
  from_raw-decided canon raw c snap h o =
      evaluate-decided c snap (subst Yields h (from_raw-Yields canon raw)).typed o
