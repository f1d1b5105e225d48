-- ===== src/Aircraft/StateField.antt =====
-- crates/fd-aircraft/src/state_field.rs: the closed registry of state fields.
use flightdeck_os.Base.{ℕ, Option, none, some}

pub data ValueType : Type 0 where
  boolean numeric : ValueType

pub data StateField : Type 0 where
  on_ground beacon_light apu_n_percent apu_bleed_valve_open : StateField
  flaps_handle_index nav_logo_switch pack_1_pb_on : StateField

abbrev pub ext_id : StateField → Option ℕ
ext_id on_ground = none
ext_id beacon_light = none
ext_id apu_n_percent = some 1
ext_id apu_bleed_valve_open = some 2
ext_id flaps_handle_index = some 3
ext_id nav_logo_switch = some 4
ext_id pack_1_pb_on = some 5

abbrev pub value_type : StateField → ValueType
value_type on_ground = boolean
value_type beacon_light = boolean
value_type apu_bleed_valve_open = boolean
value_type pack_1_pb_on = boolean
value_type apu_n_percent = numeric
value_type flaps_handle_index = numeric
value_type nav_logo_switch = numeric
