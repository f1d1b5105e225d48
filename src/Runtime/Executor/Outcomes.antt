-- ===== src/Runtime/Executor/Outcomes.antt =====
-- crates/fd-runtime/src/executor.rs, `advance`: no action is lost. Each one in the queue stays in it
-- or leaves it with exactly one terminal event.
use flightdeck_os.Base.{
  ℕ, ◌+◌, ◌≡◌, refl, some, List, [], ◌∷◌, ◌++◌, arith, count, count-append, >>=-eq-some,
}
use flightdeck_os.Core.Actions.{ActionId, ActionCatalog, requested, validated, dispatched}
use flightdeck_os.Core.Adapter.{SimulatorAdapter}
use flightdeck_os.Core.Telemetry.{TelemetrySnapshot}
use flightdeck_os.Runtime.Trace.{TraceEvent, action_verified, action_rejected, action_failed}
use flightdeck_os.Runtime.Executor.{Status, ActionRecord, ActionExecutor}
use flightdeck_os.Runtime.Executor.Induction.{rounds_induction}
use flightdeck_os.Runtime.Executor.Advance.{
  Pass, advance_requested, advance_validated, advance_dispatched, advance_record, rounds,
  advance_fuel, advance,
}

abbrev pub ids : {F : Type 0} → List (ActionRecord F) → List ActionId
ids [] = []
ids (rec ∷ recs) = rec.request.id ∷ ids recs

-- The action that an event ends: by verification, rejection or failure.
abbrev pub ended_by : {F : Type 0} → TraceEvent F → List ActionId
ended_by (action_verified _ _ id) = id ∷ []
ended_by (action_rejected _ _ id _) = id ∷ []
ended_by (action_failed _ _ id _) = id ∷ []
ended_by _ = []

abbrev pub ended : {F : Type 0} → List (TraceEvent F) → List ActionId
ended [] = []
ended (event ∷ events) = ended_by event ++ ended events

ids-append :
    {F : Type 0} (n : ℕ) (xs ys : List (ActionRecord F))
    → count n (ids (xs ++ ys)) ≡ count n (ids xs) + count n (ids ys)
ids-append n [] ys = omega arith
ids-append n (x ∷ xs) ys = omega (arith, ids-append n xs ys)

ended-append :
    {F : Type 0} (n : ℕ) (xs ys : List (TraceEvent F))
    → count n (ended (xs ++ ys)) ≡ count n (ended xs) + count n (ended ys)
ended-append n [] ys = omega arith
ended-append n (e ∷ xs) ys = omega (
  arith,
  count-append n (ended_by e) (ended xs ++ ended ys),
  count-append n (ended_by e) (ended (xs ++ ys)),
  count-append n (ended_by e) (ended xs),
  ended-append n xs ys,
)

-- The actions that a part of the loop began with are those kept and those ended.
abbrev Accounts : {F S : Type 0} → List (ActionRecord F) → Pass F S → Type 0
Accounts recs p = (n : ℕ) → count n (ids recs) ≡ count n (ids p.kept) + count n (ended p.events)

module _ {F S : Type 0} (ad : SimulatorAdapter F S) (catalog : ActionCatalog F) (deadline : ℕ)
    (snapshot : TelemetrySnapshot F) where
  status_Accounts :
      (st : Status) (rec : ActionRecord F) (s : S) (p : Pass F S)
      → rec.status ≡ st
      → advance_record ad catalog deadline snapshot rec s ≡ some p
      → Accounts (rec ∷ []) p
  unfolding advance_record advance_requested advance_validated advance_dispatched
  status_Accounts requested rec s p e q n = ground arith
  status_Accounts validated rec s p e q n = ground arith
  status_Accounts dispatched rec s p e q n = ground arith
  status_Accounts _ rec s p e q n = ground arith

  rounds-Accounts :
      (fuel : ℕ) (recs : List (ActionRecord F)) (s : S) (p : Pass F S)
      → rounds ad catalog deadline snapshot fuel recs s ≡ some p
      → Accounts recs p
  rounds-Accounts =
      rounds_induction ad catalog deadline snapshot Accounts (λ s n. refl)
        (λ rec recs s one rest e b n. omega (
          arith,
          status_Accounts rec.status rec s one refl e n,
          b n,
          ids-append n one.kept rest.kept,
          ended-append n one.events rest.events,
        ))
        (λ recs now later a b n. omega (arith, a n, b n, ended-append n now.events later.events))

-- Each action identifier is in the queue before as often as it is in the queue afterwards and in a
-- terminal event of this call together.
pub advance-accounts :
    {F S : Type 0} (ad : SimulatorAdapter F S) (catalog : ActionCatalog F)
    (snapshot : TelemetrySnapshot F) (ex ex' : ActionExecutor F) (s s' : S)
    (events : List (TraceEvent F))
    → advance ad catalog snapshot ex s ≡ some (events, ex', s')
    → (n : ActionId) → count n (ids ex.pending) ≡ count n (ids ex'.pending) + count n (ended events)
unfolding advance
advance-accounts ad catalog snapshot ex ex' s s' events e n =
    let (p, e₁, e₂) =
      >>=-eq-some (rounds ad catalog ex.deadline snapshot (advance_fuel ex.pending) ex.pending s) _
        e in
    ground (arith, rounds-Accounts ad catalog ex.deadline snapshot _ ex.pending s p e₁ n)
