-- ===== src/Simconnect/Bindings.antt =====
-- crates/fd-simconnect/src/bindings.rs: which write stands for which action. The provenance texts
-- of an entry are not modelled.
use flightdeck_os.Base.{Option, some}
use flightdeck_os.Base.Floats.{Float}
use flightdeck_os.Base.Texts.{String}
use flightdeck_os.Core.Actions.{
  CockpitAction, set_beacon, set_nav_logo, SwitchPosition, NavLogoMode, sys1, sys2,
}

pub data WritePrimitive (F : Type 0) : Type 0 where
  simvar_write : (name unit : String) (value : F) → WritePrimitive F
  event : (name : String) (param : F) → WritePrimitive F

pub record BindingEntry (F : Type 0) : Type 0 where
  pub logical : String
  pub primitive : WritePrimitive F
  pub verifies : String

module _ {F : Type 0} (fl : Float F) where
  -- `NavLogoMode::raw`.
  abbrev pub raw : NavLogoMode → F
  raw NavLogoMode.off = fl.lit 0
  raw sys1 = fl.lit 1
  raw sys2 = fl.lit 2

  abbrev pub logical_name : NavLogoMode → String
  logical_name NavLogoMode.off = "set_nav_logo_off"
  logical_name sys1 = "set_nav_logo_sys1"
  logical_name sys2 = "set_nav_logo_sys2"

  unfoldable pub lookup_write : CockpitAction → Option (BindingEntry F)
  lookup_write (set_beacon SwitchPosition.on) = some (record {
    logical = "set_beacon_on";
    primitive = simvar_write "LIGHT BEACON" "bool" (fl.lit 1);
    verifies = "beacon_light";
  })
  lookup_write (set_beacon SwitchPosition.off) = some (record {
    logical = "set_beacon_off";
    primitive = simvar_write "LIGHT BEACON" "bool" (fl.lit 0);
    verifies = "beacon_light";
  })
  lookup_write (set_nav_logo mode) = some (record {
    logical = logical_name mode;
    primitive = simvar_write "L:A32NX_LIGHTS_NAV_LOGO" "number" (raw mode);
    verifies = "a32nx.nav_logo";
  })
