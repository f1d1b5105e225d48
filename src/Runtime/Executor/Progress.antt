-- ===== src/Runtime/Executor/Progress.antt =====
-- crates/fd-runtime/src/executor.rs, `advance`: the loops end, and neither the `expect` on the
-- verifier nor the `unreachable!` on a terminal status is reached.
use flightdeck_os.Base.{
  ℕ, zero, suc, ◌+◌, ◌*◌, ◌≤◌, ◌<◌, ◌≡◌, refl, ◌⊎◌, inl, inr, Bool, true, false, not, ◌&&◌, ◌||◌,
  Option, none, some, List, [], ◌∷◌, ◌++◌, length, is_empty, arith, All, All-append, Bool-cases,
  Option-cases,
}
use flightdeck_os.Core.Actions.{
  ActionCatalog, requested, validated, dispatched, verified, timed_out, rejected, failed, VerifyFn,
}
use flightdeck_os.Core.Adapter.{SimulatorAdapter}
use flightdeck_os.Core.Telemetry.{TelemetrySnapshot}
use flightdeck_os.Runtime.Trace.{TraceEvent}
use flightdeck_os.Runtime.Executor.{Status, ActionRecord, ActionExecutor}
use flightdeck_os.Runtime.Executor.Advance.{
  Pass, advance_requested, advance_validated, verify_result, advance_dispatched, advance_record,
  pass, rounds, advance_fuel, advance,
}

-- A record in the queue: not terminal, and with its verifier once it is validated.
abbrev pub Live : {F : Type 0} → Status → Option (VerifyFn F) → Type 0
Live requested v = Unit {0}
Live validated (some v) = Unit {0}
Live dispatched (some v) = Unit {0}
Live _ _ = ⊥

abbrev pub IsLive : {F : Type 0} → ActionRecord F → Type 0
IsLive rec = Live rec.status rec.verify

-- The stages that a record has before it.
abbrev pub stages_left : Status → ℕ
stages_left requested = 3
stages_left validated = 2
stages_left dispatched = 1
stages_left _ = 0

abbrev pub total_left : {F : Type 0} → List (ActionRecord F) → ℕ
total_left [] = 0
total_left (rec ∷ recs) = stages_left rec.status + total_left recs

total_left-append :
    {F : Type 0} (xs ys : List (ActionRecord F))
    → total_left (xs ++ ys) ≡ total_left xs + total_left ys
total_left-append [] ys = omega arith
total_left-append (x ∷ xs) ys = omega (arith, total_left-append xs ys)

stages_left-le : (st : Status) → stages_left st ≤ 3
stages_left-le requested = omega arith
stages_left-le _ = omega arith

pub total_left-le : {F : Type 0} (recs : List (ActionRecord F)) → total_left recs ≤ 3 * length recs
total_left-le [] = omega arith
total_left-le (rec ∷ recs) = omega (arith, stages_left-le rec.status, total_left-le recs)

total_left-pos :
    {F : Type 0} (recs : List (ActionRecord F))
    → All IsLive recs
    → is_empty recs ≡ false
    → 0 < total_left recs
total_left-pos [] h e = cc
total_left-pos (rec ∷ recs) h e = ground arith

Live-cases :
    {F : Type 0} (st : Status) (v : Option (VerifyFn F))
    → Live st v
    → (st ≡ requested)
      ⊎ ((f : VerifyFn F) × (st ≡ validated) × (v ≡ some f))
      ⊎ ((f : VerifyFn F) × (st ≡ dispatched) × (v ≡ some f))
Live-cases requested v h = inl refl
Live-cases validated (some v) h = inr (inl (v, refl, refl))
Live-cases dispatched (some v) h = inr (inr (v, refl, refl))
Live-cases validated none h = absurd h
Live-cases dispatched none h = absurd h
Live-cases verified v h = absurd h
Live-cases timed_out v h = absurd h
Live-cases (rejected r) v h = absurd h
Live-cases (failed r) v h = absurd h

or-eq-true : (a b : Bool) → (a || b) ≡ true → (a ≡ true) ⊎ (b ≡ true)
or-eq-true true b h = inl refl
or-eq-true false b h = inr h

and-eq-true : (a b : Bool) → (a && b) ≡ true → a ≡ true
and-eq-true true b h = refl
and-eq-true false b h = cc

-- What a pass leaves: live records, and fewer stages if it made progress.
pub record Advanced {F S : Type 0} (before : ℕ) (p : Pass F S) : Type 0 where
  pub live : All IsLive p.kept
  pub bounded : total_left p.kept ≤ before
  pub progress : p.progressed ≡ true → total_left p.kept < before

module _ {F S : Type 0} (ad : SimulatorAdapter F S) (catalog : ActionCatalog F) (deadline : ℕ)
    (snapshot : TelemetrySnapshot F) where
  abbrev RecordDone : ActionRecord F → S → Type 0
  RecordDone rec s =
      (p : Pass F S) × (advance_record ad catalog deadline snapshot rec s ≡ some p)
      × Advanced (stages_left rec.status) p

  requested_Advanced :
      (rec : ActionRecord F) (s : S)
      → Advanced 3 (advance_requested ad catalog deadline snapshot rec s)
  unfolding advance_requested
  requested_Advanced rec s = ground arith

  validated_Advanced :
      (rec : ActionRecord F) (s : S) (v : VerifyFn F)
      → rec.verify ≡ some v
      → Advanced 2 (advance_validated ad catalog deadline snapshot rec s)
  unfolding advance_validated
  validated_Advanced rec s v e = ground arith

  dispatched_done :
      (rec : ActionRecord F) (s : S) (v : VerifyFn F)
      → rec.status ≡ dispatched
      → rec.verify ≡ some v
      → (p : Pass F S) × (advance_dispatched ad catalog deadline snapshot rec (some v) s ≡ some p)
        × Advanced 1 p
  unfolding advance_dispatched
  dispatched_done rec s v h e =
      elim (Option-cases (verify_result ad catalog deadline snapshot rec v)) [
        | inl q ↦ rw (q, advance_dispatched) (_, refl, ground arith)
        | inr (true, q) ↦ rw (q, advance_dispatched) (_, refl, ground arith)
        | inr (false, q) ↦ rw (q, advance_dispatched) (_, refl, ground arith)
      ]

  advance_record-RecordDone : (rec : ActionRecord F) (s : S) → IsLive rec → RecordDone rec s
  unfolding advance_record
  advance_record-RecordDone rec s h = elim (Live-cases rec.status rec.verify h) [
    | inl e ↦ (
      advance_requested ad catalog deadline snapshot rec s,
      ground arith,
      ground (arith, requested_Advanced rec s),
    )
    | inr (inl (v, e, f)) ↦ (
      advance_validated ad catalog deadline snapshot rec s,
      ground arith,
      ground (arith, validated_Advanced rec s v f),
    )
    | inr (inr (v, e, f)) ↦
        let (p, q, a) = dispatched_done rec s v e f in (p, ground (arith, q), ground (arith, a))
  ]

  -- One pass over live records returns, and leaves live records.
  pass_done :
      (recs : List (ActionRecord F)) (s : S)
      → All IsLive recs
      → (p : Pass F S) × (pass ad catalog deadline snapshot recs s ≡ some p)
        × Advanced (total_left recs) p
  unfolding pass
  pass_done [] s h = (_, refl, ground arith)
  pass_done (rec ∷ recs) s h =
      let (one, e, a) = advance_record-RecordDone rec s h.0 in
      let (rest, f, b) = pass_done recs one.adapter h.1 in
      rw (e, pass)
        (rw (f, pass)
          (
            _,
            refl,
            record {
              live = All-append IsLive one.kept rest.kept a.live b.live;
              bounded = omega (arith, total_left-append one.kept rest.kept);
              progress = λ t. elim (or-eq-true one.progressed rest.progressed t) [
                | inl x ↦
                    omega (arith, total_left-append one.kept rest.kept, a.progress x, b.bounded)
                | inr x ↦
                    omega (arith, total_left-append one.kept rest.kept, a.bounded, b.progress x)
              ];
            },
          ))

  abbrev RoundsResult : ℕ → List (ActionRecord F) → S → Type 0
  RoundsResult fuel recs s =
      (p : Pass F S) × (rounds ad catalog deadline snapshot fuel recs s ≡ some p)
      × All IsLive p.kept

  -- With more fuel than stages left, the passes come to an end by themselves.
  pub rounds_done :
      (fuel : ℕ) (recs : List (ActionRecord F)) (s : S)
      → All IsLive recs
      → total_left recs < fuel
      → RoundsResult fuel recs s
  unfolding rounds
  rounds_done zero recs s h lt = absurd (omega arith)
  rounds_done (suc fuel) recs s h lt =
      let (now, e, a) = pass_done recs s h in
      elim (Bool-cases (now.progressed && not (is_empty now.kept))) [
        | inr stop ↦ rw (e, rounds) (rw stop (now, refl, a.live))
        | inl go ↦
            let (later, f, live) =
              rounds_done fuel now.kept now.adapter a.live
                (omega (arith, a.progress (and-eq-true _ _ go))) in
            rw (e, rounds) (rw (go, f) (_, refl, live))
      ]

-- With live records in the queue `advance` returns: no panic is reached and the loop ends within
-- its fuel. It leaves live records.
pub advance_total :
    {F S : Type 0} (ad : SimulatorAdapter F S) (catalog : ActionCatalog F)
    (snapshot : TelemetrySnapshot F) (ex : ActionExecutor F) (s : S)
    → All IsLive ex.pending
    → (events : List (TraceEvent F)) × (ex' : ActionExecutor F) × (s' : S) × (advance ad catalog
          snapshot ex s
        ≡ some (events, ex', s'))
      × All IsLive ex'.pending
unfolding advance
advance_total ad catalog snapshot ex s h =
    let (p, e, live) =
      rounds_done ad catalog ex.deadline snapshot (advance_fuel ex.pending) ex.pending s h
        (omega (arith, total_left-le ex.pending)) in
    rw (e, advance) (_, _, _, refl, live)
