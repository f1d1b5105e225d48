-- ===== src/Runtime/Executor/Passes.antt =====
-- crates/fd-runtime/src/executor.rs, `advance`: a waiting action is looked at once in every pass, and
-- each pass counts against its deadline.
use flightdeck_os.Base.{
  ℕ, suc, ◌+◌, ◌<◌, ◌≡◌, refl, true, false, some, List, [], ◌∷◌, ◌++◌, arith, ok, not, ◌&&◌,
  is_empty, map,
}
use flightdeck_os.Core.Actions.{ActionCatalog, requested, validated, dispatched, VerifyFn}
use flightdeck_os.Core.Adapter.{SimulatorAdapter}
use flightdeck_os.Core.Telemetry.{TelemetrySnapshot}
use flightdeck_os.Core.Events.{placeholder}
use flightdeck_os.Runtime.Trace.{TraceEvent, action_validated, action_dispatched}
use flightdeck_os.Runtime.Executor.{ActionRecord, ActionExecutor}
use flightdeck_os.Runtime.Executor.Advance.{
  Pass, joined, is_paused, step_validate, advance_requested, advance_validated, advance_dispatched,
  advance_record, pass, rounds, advance,
}

module _ {F S : Type 0} (ad : SimulatorAdapter F S) (catalog : ActionCatalog F) (deadline : ℕ)
    (snapshot : TelemetrySnapshot F) where
  abbrev ticked : ActionRecord F → ActionRecord F
  ticked rec = record rec { ticks_since_dispatch = rec.ticks_since_dispatch + 1 }

  abbrev unchanged : ActionRecord F → S → Pass F S
  unchanged rec s = record {
    adapter = s;
    kept = rec ∷ [];
    completed = [];
    events = [];
    progressed = false;
  }

  -- An action whose target the verifier does not see waits, and a tick is counted.
  waits_once :
      (rec : ActionRecord F) (s : S) (v : VerifyFn F)
      → rec.status ≡ dispatched
      → rec.verify ≡ some v
      → v rec.request.action snapshot ≡ some false
      → is_paused snapshot ≡ false
      → rec.ticks_since_dispatch + 1 < deadline
      → advance_record ad catalog deadline snapshot rec s ≡ some (unchanged (ticked rec) s)
  unfolding advance_record advance_dispatched
  waits_once rec s v d e o p b = ground arith

  abbrev validated_once : ActionRecord F → VerifyFn F → ActionRecord F
  validated_once rec v = record rec { status = validated; verify = some v }

  abbrev dispatched_once : ActionRecord F → ActionRecord F
  dispatched_once rec = record rec {
    status = dispatched;
    ticks_since_dispatch = 0;
    dispatched_ts_ms = snapshot.timestamp.ms;
  }

  validates_once :
      (rec : ActionRecord F) (s : S) (v : VerifyFn F)
      → rec.status ≡ requested
      → step_validate ad catalog deadline snapshot rec s ≡ ok v
      → advance_record ad catalog deadline snapshot rec s
        ≡ some (record {
          adapter = s;
          kept = validated_once rec v ∷ [];
          completed = [];
          events = action_validated placeholder snapshot.timestamp rec.request.id ∷ [];
          progressed = true;
        })
  unfolding advance_record advance_requested
  validates_once rec s v d e = ground arith

  dispatches_once :
      (rec : ActionRecord F) (s s' : S)
      → rec.status ≡ validated
      → ad.execute s rec.request.action ≡ (ok tt, s')
      → advance_record ad catalog deadline snapshot rec s
        ≡ some (record {
          adapter = s';
          kept = dispatched_once rec ∷ [];
          completed = [];
          events = action_dispatched placeholder snapshot.timestamp rec.request.id ∷ [];
          progressed = true;
        })
  unfolding advance_record advance_validated
  dispatches_once rec s s' d e = ground arith

  -- An action that this snapshot's pass dispatched is not verified by it.
  not_verified_at_once :
      (rec : ActionRecord F) (s : S) (v : VerifyFn F)
      → rec.status ≡ dispatched
      → rec.verify ≡ some v
      → rec.dispatched_ts_ms ≡ snapshot.timestamp.ms
      → is_paused snapshot ≡ false
      → rec.ticks_since_dispatch + 1 < deadline
      → advance_record ad catalog deadline snapshot rec s ≡ some (unchanged (ticked rec) s)
  unfolding advance_record advance_dispatched
  not_verified_at_once rec s v d e o p b = ground arith

  two_records :
      (a b : ActionRecord F) (s : S) (one two : Pass F S)
      → advance_record ad catalog deadline snapshot a s ≡ some one
      → advance_record ad catalog deadline snapshot b one.adapter ≡ some two
      → pass ad catalog deadline snapshot (a ∷ b ∷ []) s
        ≡ some (
            joined one (
              joined two (record {
                adapter = two.adapter;
                kept = [];
                completed = [];
                events = [];
                progressed = false;
              })))
  unfolding pass
  two_records a b s one two e f = rw (e, pass) (rw (f, pass) refl)

  goes_on :
      (fuel : ℕ) (recs : List (ActionRecord F)) (s : S) (now later : Pass F S)
      → pass ad catalog deadline snapshot recs s ≡ some now
      → (now.progressed && not (is_empty now.kept)) ≡ true
      → rounds ad catalog deadline snapshot fuel now.kept now.adapter ≡ some later
      → rounds ad catalog deadline snapshot (suc fuel) recs s
        ≡ some (record (joined now later) { kept = later.kept })
  unfolding rounds
  goes_on fuel recs s now later e f g = rw (e, rounds) (rw (f, g) refl)

  stops :
      (fuel : ℕ) (recs : List (ActionRecord F)) (s : S) (now : Pass F S)
      → pass ad catalog deadline snapshot recs s ≡ some now
      → (now.progressed && not (is_empty now.kept)) ≡ false
      → rounds ad catalog deadline snapshot (suc fuel) recs s ≡ some now
  unfolding rounds
  stops fuel recs s now e f = rw (e, rounds) (rw f refl)

  -- A waiting action with a new one behind it: three passes, so three ticks.
  three_passes :
      (fuel : ℕ) (a b : ActionRecord F) (s s' : S) (v w : VerifyFn F)
      → a.status ≡ dispatched
      → a.verify ≡ some v
      → v a.request.action snapshot ≡ some false
      → b.status ≡ requested
      → step_validate ad catalog deadline snapshot b s ≡ ok w
      → ad.execute s b.request.action ≡ (ok tt, s')
      → is_paused snapshot ≡ false
      → a.ticks_since_dispatch + 3 < deadline
      → (p : Pass F S) × (rounds ad catalog deadline snapshot (suc (suc (suc fuel))) (a ∷ b ∷ []) s
          ≡ some p)
        × (p.kept ≡ ticked (ticked (ticked a)) ∷ ticked (dispatched_once (validated_once b w)) ∷ [])
  three_passes fuel a b s s' v w da va oa rb vb eb run lt = (
    _,
    goes_on (suc (suc fuel)) _ s _ _
        (two_records a b s _ _ (waits_once a s v da va oa run (omega arith))
          (validates_once b s w rb vb))
        refl
        (goes_on (suc fuel) _ s _ _
          (two_records (ticked a) (validated_once b w) s _ _
            (waits_once (ticked a) s v da va oa run (omega arith))
            (dispatches_once (validated_once b w) s s' refl eb))
          refl
          (stops fuel _ s' _
            (two_records (ticked (ticked a)) (dispatched_once (validated_once b w)) s' _ _
              (waits_once (ticked (ticked a)) s' v da va oa run (omega arith))
              (not_verified_at_once (dispatched_once (validated_once b w)) s' w refl refl refl run
                (omega arith)))
            refl)),
    refl,
  )

-- While the simulator is not paused, an action that waits for its target, is not confirmed and is
-- more than three ticks below its deadline is charged three ticks of it by one call of `advance`, if
-- that call also validates and dispatches one new action, the only other one, behind it.
pub advance-three_ticks :
    {F S : Type 0} (ad : SimulatorAdapter F S) (catalog : ActionCatalog F)
    (snapshot : TelemetrySnapshot F) (ex : ActionExecutor F) (a b : ActionRecord F) (s s' : S)
    (v w : VerifyFn F)
    → ex.pending ≡ a ∷ b ∷ []
    → a.status ≡ dispatched
    → a.verify ≡ some v
    → v a.request.action snapshot ≡ some false
    → b.status ≡ requested
    → step_validate ad catalog ex.deadline snapshot b s ≡ ok w
    → ad.execute s b.request.action ≡ (ok tt, s')
    → is_paused snapshot ≡ false
    → a.ticks_since_dispatch + 3 < ex.deadline
    → (events : List (TraceEvent F)) × (ex' : ActionExecutor F) × (s'' : S) × (advance ad catalog
          snapshot ex s
        ≡ some (events, ex', s''))
      × (map (λ r. r.ticks_since_dispatch) ex'.pending ≡ (a.ticks_since_dispatch + 3) ∷ 1 ∷ [])
unfolding advance
advance-three_ticks ad catalog snapshot ex a b s s' v w q da va oa rb vb eb run lt =
    let (p, e, k) =
      three_passes ad catalog ex.deadline snapshot 4 a b s s' v w da va oa rb vb eb run lt in
    (
      p.events,
      record ex { pending = p.kept; completed = ex.completed ++ p.completed },
      p.adapter,
      rw (q, advance) (rw (e, advance) refl),
      ground (arith, k),
    )
