-- ===== src/Core/Actions.antt =====
-- crates/fd-core/src/actions.rs: the closed action catalogue.
use flightdeck_os.Base.{
  ℕ, Bool, true, false, Option, some, List, [], ◌∷◌, ◌≡◌, ◌↔◌, refl, arith, Result, find,
}
use mathlib.Core.Path.{subst}
use mathlib.Core.Option
use flightdeck_os.Base.Texts.{String, str_eq, str_eq_iff}
use flightdeck_os.Core.Telemetry.{SimTimestamp, TelemetrySnapshot}

-- An `ActionId` is its `u64`.
abbrev pub ActionId : Type 0
ActionId = ℕ

pub data Actor : Type 0 where
  user runtime : Actor

pub data NavLogoMode : Type 0 where
  off sys1 sys2 : NavLogoMode

pub data SwitchPosition : Type 0 where
  on off : SwitchPosition

pub data CockpitAction : Type 0 where
  set_beacon : SwitchPosition → CockpitAction
  set_nav_logo : NavLogoMode → CockpitAction

pub data ActionKind : Type 0 where
  beacon nav_logo : ActionKind

abbrev pub kind : CockpitAction → ActionKind
kind (set_beacon _) = beacon
kind (set_nav_logo _) = nav_logo

abbrev pub action_names : List (String × CockpitAction)
action_names =
    ("set_beacon_on", set_beacon SwitchPosition.on)
    ∷ ("set_beacon_off", set_beacon SwitchPosition.off)
    ∷ ("set_nav_logo_off", set_nav_logo NavLogoMode.off)
    ∷ ("set_nav_logo_sys1", set_nav_logo sys1)
    ∷ ("set_nav_logo_sys2", set_nav_logo sys2)
    ∷ []

unfoldable pub name : CockpitAction → String
name (set_beacon SwitchPosition.on) = "set_beacon_on"
name (set_beacon SwitchPosition.off) = "set_beacon_off"
name (set_nav_logo NavLogoMode.off) = "set_nav_logo_off"
name (set_nav_logo sys1) = "set_nav_logo_sys1"
name (set_nav_logo sys2) = "set_nav_logo_sys2"

unfoldable pub try_from_name : String → Option CockpitAction
try_from_name text = Option.map (λ e. e.1) (find (λ e. str_eq e.0 text) action_names)

pub data ActionRejectionReason : Type 0 where
  unknown_action unsupported_by_adapter adapter_unavailable : ActionRejectionReason
  -- The precondition's id and its reason; the code joins them by ": ".
  precondition_failed : String → String → ActionRejectionReason

pub data ActionFailure (E : Type 0) : Type 0 where
  write_failed : E → ActionFailure E
  verification_timeout : ActionFailure E

pub data ActionStatus (E : Type 0) : Type 0 where
  requested validated dispatched verified timed_out : ActionStatus E
  rejected : ActionRejectionReason → ActionStatus E
  failed : ActionFailure E → ActionStatus E

abbrev pub VerifyFn : Type 0 → Type 0
VerifyFn F = CockpitAction → TelemetrySnapshot F → Option Bool

pub record PreconditionDef (F : Type 0) : Type 0 where
  pub id : String
  pub check : TelemetrySnapshot F → Result (Unit {0}) String

pub record CatalogEntry (F : Type 0) : Type 0 where
  pub kind : ActionKind
  pub preconditions : List (PreconditionDef F)
  pub verify : VerifyFn F
  pub verification_channels : List ℕ  -- u16

pub record ActionCatalog (F : Type 0) : Type 0 where
  pub entries : List (CatalogEntry F)

abbrev pub kind_eq : ActionKind → ActionKind → Bool
kind_eq beacon beacon = true
kind_eq nav_logo nav_logo = true
kind_eq _ _ = false

unfoldable pub lookup : {F : Type 0} → ActionCatalog F → ActionKind → Option (CatalogEntry F)
lookup catalog k = find (λ e. kind_eq e.kind k) catalog.entries

pub record ActionRequest : Type 0 where
  pub id : ActionId
  pub action : CockpitAction
  pub actor : Actor
  pub at : SimTimestamp

name_found : (a : CockpitAction) → try_from_name (name a) ≡ some a
unfolding try_from_name name
name_found (set_beacon SwitchPosition.on) = refl
name_found (set_beacon SwitchPosition.off) = refl
name_found (set_nav_logo NavLogoMode.off) = refl
name_found (set_nav_logo sys1) = refl
name_found (set_nav_logo sys2) = refl

found_name : (text : String) (a : CockpitAction) → try_from_name text ≡ some a → name a ≡ text
unfolding try_from_name name
found_name text a h = ground (
  arith,
  str_eq_iff "set_beacon_on" text,
  str_eq_iff "set_beacon_off" text,
  str_eq_iff "set_nav_logo_off" text,
  str_eq_iff "set_nav_logo_sys1" text,
  str_eq_iff "set_nav_logo_sys2" text,
)

-- A text is read as an action exactly when it is the action's own name.
pub try_from_name-name :
    (text : String) (a : CockpitAction) → (try_from_name text ≡ some a) ↔ (name a ≡ text)
try_from_name-name text a =
    (found_name text a, λ e. subst (λ t. try_from_name t ≡ some a) e (name_found a))
