-- ===== src/Runtime/Executor/Deadline.antt =====
-- crates/fd-runtime/src/executor.rs, `advance`: the verification deadline, and the pause that
-- freezes it.
use mathlib.Core.Path.{subst}
use flightdeck_os.Base.{
  ℕ, ◌<◌, ◌≡◌, refl, ◌⊎◌, inl, inr, Bool, true, false, some, List, [], ◌∷◌, arith, All, All-append,
  All-mono, Any, Any-mono, >>=-eq-some,
}
use flightdeck_os.Core.Actions.{
  ActionCatalog, requested, validated, dispatched, verification_timeout,
}
use flightdeck_os.Core.Adapter.{SimulatorAdapter}
use flightdeck_os.Core.Telemetry.{TelemetrySnapshot}
use flightdeck_os.Runtime.Trace.{TraceEvent, action_failed}
use flightdeck_os.Runtime.Executor.{Status, ActionRecord, ActionExecutor}
use flightdeck_os.Runtime.Executor.Induction.{rounds_induction}
use flightdeck_os.Runtime.Executor.Advance.{
  Pass, is_paused, advance_requested, advance_validated, advance_dispatched, advance_record, rounds,
  advance_fuel, advance,
}

-- The record has not used up its deadline.
abbrev pub InBudget : {F : Type 0} → ℕ → ActionRecord F → Type 0
InBudget deadline rec = rec.ticks_since_dispatch < deadline

-- A record descends from another: the same request, with its ticks kept, or set back to 0 by a
-- dispatch in this call.
pub record Frozen {F : Type 0} (rec rec₀ : ActionRecord F) : Type 0 where
  pub same : rec.request ≡ rec₀.request
  pub ticks :
      (rec.ticks_since_dispatch ≡ rec₀.ticks_since_dispatch) ⊎ (rec.ticks_since_dispatch ≡ 0)

abbrev pub is_timeout : {F : Type 0} → TraceEvent F → Bool
is_timeout (action_failed _ _ _ verification_timeout) = true
is_timeout _ = false

-- What a call while the simulator is paused leaves.
record IsFrozen {F S : Type 0} (recs : List (ActionRecord F)) (p : Pass F S) : Type 0 where
  no_timeout : All (λ event. is_timeout event ≡ false) p.events
  descends : All (λ rec. Any (Frozen rec) recs) p.kept

Frozen-trans :
    {F : Type 0} (rec rec₁ rec₂ : ActionRecord F)
    → Frozen rec rec₁
    → Frozen rec₁ rec₂
    → Frozen rec rec₂
Frozen-trans rec rec₁ rec₂ h k = ground arith

Frozen-through :
    {F : Type 0} (rec : ActionRecord F) (recs xs : List (ActionRecord F))
    → All (λ r. Any (Frozen r) recs) xs
    → Any (Frozen rec) xs
    → Any (Frozen rec) recs
Frozen-through rec recs [] h k = absurd k
Frozen-through rec recs (x ∷ xs) h (inl f) = Any-mono (λ r g. Frozen-trans rec x r f g) recs h.0
Frozen-through rec recs (x ∷ xs) h (inr k) = Frozen-through rec recs xs h.1 k

module _ {F S : Type 0} (ad : SimulatorAdapter F S) (catalog : ActionCatalog F) (deadline : ℕ)
    (snapshot : TelemetrySnapshot F) where
  status_InBudget :
      (st : Status) (rec : ActionRecord F) (s : S) (p : Pass F S)
      → 0 < deadline
      → rec.status ≡ st
      → InBudget deadline rec
      → advance_record ad catalog deadline snapshot rec s ≡ some p
      → All (InBudget deadline) p.kept
  unfolding advance_record advance_requested advance_validated advance_dispatched
  status_InBudget requested rec s p d e b q = ground arith
  status_InBudget validated rec s p d e b q = ground arith
  status_InBudget dispatched rec s p d e b q = ground arith
  status_InBudget _ rec s p d e b q = ground arith

  rounds-InBudget :
      (fuel : ℕ) (recs : List (ActionRecord F)) (s : S) (p : Pass F S)
      → rounds ad catalog deadline snapshot fuel recs s ≡ some p
      → 0 < deadline
      → All (InBudget deadline) recs
      → All (InBudget deadline) p.kept
  rounds-InBudget fuel recs s p e d =
      rounds_induction ad catalog deadline snapshot
        (λ recs p. All (InBudget deadline) recs → All (InBudget deadline) p.kept) (λ s h. tt)
        (λ rec recs s one rest e b h.
          All-append _ one.kept rest.kept (status_InBudget rec.status rec s one d refl h.0 e)
            (b h.1))
        (λ recs now later a b h. b (a h)) fuel recs s p e

  status_IsFrozen :
      (st : Status) (rec : ActionRecord F) (s : S) (p : Pass F S)
      → is_paused snapshot ≡ true
      → rec.status ≡ st
      → advance_record ad catalog deadline snapshot rec s ≡ some p
      → IsFrozen (rec ∷ []) p
  unfolding advance_record advance_requested advance_validated advance_dispatched
  status_IsFrozen requested rec s p f e q = ground arith
  status_IsFrozen validated rec s p f e q = ground arith
  status_IsFrozen dispatched rec s p f e q = ground arith
  status_IsFrozen _ rec s p f e q = ground arith

  rounds-IsFrozen :
      (fuel : ℕ) (recs : List (ActionRecord F)) (s : S) (p : Pass F S)
      → rounds ad catalog deadline snapshot fuel recs s ≡ some p
      → is_paused snapshot ≡ true
      → IsFrozen recs p
  rounds-IsFrozen fuel recs s p e f =
      rounds_induction ad catalog deadline snapshot IsFrozen
        (λ s. record { no_timeout = tt; descends = tt })
        (λ rec recs s one rest e b.
          let a = status_IsFrozen rec.status rec s one f refl e in
          record {
            no_timeout = All-append _ one.events rest.events a.no_timeout b.no_timeout;
            descends =
                All-append _ one.kept rest.kept
                  (All-mono (λ r h. elim h [ inl x ↦ inl x | inr x ↦ absurd x ]) one.kept
                    a.descends)
                  (All-mono (λ r h. inr h) rest.kept b.descends);
          })
        (λ recs now later a b. record {
          no_timeout = All-append _ now.events later.events a.no_timeout b.no_timeout;
          descends =
              All-mono (λ r h. Frozen-through r recs now.kept a.descends h) later.kept b.descends;
        })
        fuel recs s p e

module _ {F S : Type 0} (ad : SimulatorAdapter F S) (catalog : ActionCatalog F)
    (snapshot : TelemetrySnapshot F) (ex ex' : ActionExecutor F) (s s' : S)
    (events : List (TraceEvent F)) where
  -- If every action in the queue has used up less than its deadline, so has every action that a call
  -- of `advance` leaves in it: one that reaches the deadline unverified is taken out.
  pub advance-InBudget :
      advance ad catalog snapshot ex s ≡ some (events, ex', s')
      → 0 < ex.deadline
      → All (InBudget ex.deadline) ex.pending
      → All (InBudget ex.deadline) ex'.pending
  unfolding advance
  advance-InBudget e d h =
      let (p, e₁, e₂) =
        >>=-eq-some (rounds ad catalog ex.deadline snapshot (advance_fuel ex.pending) ex.pending s)
          _ e in
      let kept = rounds-InBudget ad catalog ex.deadline snapshot _ ex.pending s p e₁ d h in
      subst (All (InBudget ex.deadline)) (ground (arith, e₂)) kept

  -- While the simulator is paused no verification times out, and an action that stays in the queue
  -- has used up no more of its deadline than before.
  pub advance_paused :
      advance ad catalog snapshot ex s ≡ some (events, ex', s')
      → is_paused snapshot ≡ true
      → All (λ event. is_timeout event ≡ false) events
        × All (λ rec. Any (Frozen rec) ex.pending) ex'.pending
  unfolding advance
  advance_paused e f =
      let (p, e₁, e₂) =
        >>=-eq-some (rounds ad catalog ex.deadline snapshot (advance_fuel ex.pending) ex.pending s)
          _ e in
      let frozen = rounds-IsFrozen ad catalog ex.deadline snapshot _ ex.pending s p e₁ f in
      (
        subst (All (λ event. is_timeout event ≡ false)) (ground (arith, e₂)) frozen.no_timeout,
        subst (All (λ rec. Any (Frozen rec) ex.pending)) (ground (arith, e₂)) frozen.descends,
      )
