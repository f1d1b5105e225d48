-- ===== src/Sop/Package.antt =====
-- crates/fd-sop/src/package.rs, the resolution of flows, crates/fd-aircraft/src/raw_flow.rs and
-- `role_from_name` of roles.rs. `canon` lower-cases a name and removes its underscores, and `trim`
-- removes the white space around a text; both are of the standard library.
pub mod Cycles
pub mod Frames
pub mod Cost
pub mod Iteration
pub mod Grounded
pub mod Roots
pub mod Accepted
use flightdeck_os.Base.{
  ℕ, ◌≡◌, Bool, true, false, not, ◌||◌, Option, none, some, List, [], ◌∷◌, ◌++◌, Result, ok, err,
  is_empty, any, if◌then◌else◌, ◌>>=◌,
}
use flightdeck_os.Base.Floats.{Float}
use flightdeck_os.Base.Texts.{String, str_eq}
use flightdeck_os.Core.Actions.{CockpitAction, try_from_name}
use flightdeck_os.Aircraft.Condition.Raw.{PackageError, RawCondition, from_raw}
use flightdeck_os.Sop.Engine.{Role, StepKind, StepDef, FlowDefinition}
use flightdeck_os.Sop.Package.Cycles.{Search, check_cycles}

pub data RawStepBody (F : Type 0) : Type 0 where
  observe : RawCondition F → RawStepBody F
  action : String → RawStepBody F

pub record RawStep (F : Type 0) : Type 0 where
  pub id : String
  pub actor : String
  pub depends_on : List String
  pub body : RawStepBody F

pub record RawFlowDef (F : Type 0) : Type 0 where
  pub id : String
  pub title : String
  pub scope_note : String
  pub steps : List (RawStep F)

pub data SopError : Type 0 where
  of_package : PackageError → SopError
  io : String → SopError

-- `?`, in this part's results.
unfoldable pub and_then {ℓ} : {A B E : Type ℓ} → Result A E → (A → Result B E) → Result B E
and_then (ok a) f = f a
and_then (err e) f = err e

-- The conversion of an error by `?`.
abbrev pub lift : {A : Type 0} → Result A PackageError → Result A SopError
lift (ok a) = ok a
lift (err e) = err (SopError.of_package e)

abbrev pub refuse : {A : Type 0} → PackageError → Result A SopError
refuse e = err (SopError.of_package e)

unfoldable pub role_from_name : (String → String) → String → Result Role PackageError
role_from_name canon name =
    let text = canon name in
    if str_eq text "captain"
    then ok Role.captain
    else if str_eq text "firstofficer"
    then ok Role.first_officer
    else if str_eq text "user"
    then ok Role.user
    else err (PackageError.unknown_role text)

abbrev pub contains : String → List String → Bool
contains name names = any (λ other. str_eq other name) names

-- The first dependency that is no step's identifier, with the step that has it.
abbrev pub missing_in : List String → List String → Option String
missing_in seen [] = none
missing_in seen (dep ∷ deps) = if contains dep seen then missing_in seen deps else some dep

abbrev pub missing_or : String → Option String → Option (String × String) → Option (String × String)
missing_or id none rest = rest
missing_or id (some dep) rest = some (id, dep)

unfoldable pub missing : {F : Type 0} → List String → List (StepDef F) → Option (String × String)
missing seen [] = none
missing seen (st ∷ steps) = missing_or st.id (missing_in seen st.depends_on) (missing seen steps)

module _ (canon trim : String → String) where
  abbrev pub is_blank : String → Bool
  is_blank text = str_eq (trim text) ""

  module _ {F : Type 0} (fl : Float F) where
    abbrev pub resolve_kind : RawStepBody F → Result (StepKind F) SopError
    resolve_kind (observe condition) =
        and_then (lift (from_raw fl condition canon)) (λ c. ok (StepKind.observe c))
    resolve_kind (action name) = of_name (try_from_name name)
      where
        of_name : Option CockpitAction → Result (StepKind F) SopError
        of_name none = refuse (PackageError.unknown_action name)
        of_name (some a) = ok (StepKind.action a)

    unfoldable pub resolve_step : String → RawStep F → Result (StepDef F) SopError
    resolve_step flow_id raw = and_then (lift (role_from_name canon raw.actor)) (λ actor.
        if contains raw.id raw.depends_on
        then refuse (PackageError.self_dependency flow_id raw.id)
        else if is_blank raw.id
        then refuse (PackageError.empty_field "step id")
        else and_then (resolve_kind raw.body) (λ kind.
          ok (record { id = raw.id; actor = actor; depends_on = raw.depends_on; kind = kind })))

    -- The loop over the steps, with the identifiers seen so far.
    unfoldable pub resolve_steps :
        String → List String → List (RawStep F) → Result (List (StepDef F) × List String) SopError
    resolve_steps flow_id seen [] = ok ([], seen)
    resolve_steps flow_id seen (rs ∷ raws) =
        let rest = resolve_steps flow_id (rs.id ∷ seen) raws in
        if contains rs.id seen
        then refuse (PackageError.duplicate_step_id flow_id rs.id)
        else and_then (resolve_step flow_id rs)
            (λ step. and_then rest (λ (steps, seen'). ok (step ∷ steps, seen')))

  module _ {F : Type 0} (fl : Float F) (raw : RawFlowDef F) where
    -- The flow, unless a cycle was found.
    abbrev pub searched_flow :
        List (StepDef F) → Result Search (List String) → Result (FlowDefinition F) SopError
    searched_flow steps (err ids) = refuse (PackageError.dependency_cycle raw.id ids)
    searched_flow steps (ok s) =
        ok (record { id = raw.id; title = raw.title; scope_note = raw.scope_note; steps = steps })

    abbrev pub accept : List (StepDef F) → Option (Result (FlowDefinition F) SopError)
    accept steps = do searched ← check_cycles steps; some (searched_flow steps searched)

    abbrev pub unless_missing :
        List (StepDef F) → Option (String × String) → Option (Result (FlowDefinition F) SopError)
    unless_missing steps (some (id, dep)) =
        some (refuse (PackageError.missing_dependency raw.id id dep))
    unless_missing steps none = accept steps

    abbrev pub check_steps :
        Result (List (StepDef F) × List String) SopError
        → Option (Result (FlowDefinition F) SopError)
    check_steps (err e) = some (err e)
    check_steps (ok (steps, seen)) = unless_missing steps (missing seen steps)

    unfoldable pub resolve_flow : Option (Result (FlowDefinition F) SopError)
    resolve_flow =
        if is_blank raw.id || is_blank raw.title
        then some (refuse (PackageError.empty_field "flow id/title"))
        else if is_empty raw.steps
        then some (refuse (PackageError.empty_field "flow steps"))
        else check_steps (resolve_steps fl raw.id [] raw.steps)
