-- ===== src/Virtual/Faults.antt =====
-- crates/fd-virtual/src/faults.rs: fault injection. The error of `validate` is the name that its text
-- is made of, and `sort` followed by `dedup` on texts is a parameter.
use flightdeck_os.Base.{
  ℕ, ◌+◌, ◌^◌, Bool, true, false, not, ◌&&◌, List, [], ◌∷◌, map, Option, none, some, Result, ok,
  err, unwrap_or, find, is_empty, ltb, leb, ◌==◌, if◌then◌else◌,
}
use flightdeck_os.Base.Texts.{String, str_eq}

abbrev pub maskable_fields : List String
maskable_fields =
    "position" ∷ "altitude_msl" ∷ "altitude_agl" ∷ "groundspeed" ∷ "ias" ∷ "vertical_speed"
    ∷ "heading_true" ∷ "pitch" ∷ "bank" ∷ "on_ground" ∷ []

pub record BounceFault : Type 0 where
  pub start_tick : ℕ
  pub up_ticks : ℕ

pub record FaultConfig : Type 0 where
  pub ignore_actions_for_ticks : ℕ
  pub telemetry_freeze_until_tick : ℕ
  pub unknown_sensor_fields : List String
  pub disconnect_until_tick : ℕ
  pub on_ground_bounce : Option BounceFault
  pub stale_values_until_tick : ℕ

-- The derived `Default`.
abbrev pub no_faults : FaultConfig
no_faults = record {
  ignore_actions_for_ticks = 0;
  telemetry_freeze_until_tick = 0;
  unknown_sensor_fields = [];
  disconnect_until_tick = 0;
  on_ground_bounce = none;
  stale_values_until_tick = 0;
}

unfoldable pub canonical_field : String → Option String
canonical_field name =
    if str_eq name "vs" then some "vertical_speed" else find (λ f. str_eq f name) maskable_fields

unfoldable pub validate_fields : List String → Result (Unit {0}) String
unfolding canonical_field
validate_fields [] = ok tt
validate_fields (name ∷ names) =
    let rest = validate_fields names in
    elim (canonical_field name) [ none ↦ err name | some _ ↦ rest ]

unfoldable pub validate : FaultConfig → Result (Unit {0}) String
unfolding validate_fields
validate c = validate_fields c.unknown_sensor_fields

unfoldable pub normalized : (List String → List String) → FaultConfig → FaultConfig
normalized sort_dedup c = record c {
  unknown_sensor_fields =
      sort_dedup (map (λ n. unwrap_or (canonical_field n) n) c.unknown_sensor_fields);
}

-- The end of the bounce is a `u64` sum, formed only from its start on; none where the sum overflows.
abbrev pub bounce_at : Option BounceFault → ℕ → Option Bool
bounce_at none tick = some false
bounce_at (some b) tick =
    if not (leb b.start_tick tick)
    then some false
    else if ltb (b.start_tick + b.up_ticks) (2 ^ 64)
    then some (ltb tick (b.start_tick + b.up_ticks))
    else none

unfoldable pub bounce_active : FaultConfig → ℕ → Option Bool
bounce_active c tick = bounce_at c.on_ground_bounce tick

abbrev pub has_bounce : Option BounceFault → Bool
has_bounce none = false
has_bounce (some _) = true

unfoldable pub is_noop : FaultConfig → Bool
is_noop c =
    (c.ignore_actions_for_ticks == 0)
    && ((c.telemetry_freeze_until_tick == 0)
        && ((c.disconnect_until_tick == 0)
            && (is_empty c.unknown_sensor_fields
                && (not (has_bounce c.on_ground_bounce) && (c.stale_values_until_tick == 0)))))
