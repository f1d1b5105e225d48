-- ===== src/Runtime/Executor/Advance.antt =====
-- crates/fd-runtime/src/executor.rs, `advance`: validation, dispatch and verification of the pending
-- actions against one snapshot. `none` stands for a panic (`expect`, `unreachable!`), or for rounds
-- cut short by the fuel.
use flightdeck_os.Base.{
  ℕ, zero, suc, ◌+◌, ◌*◌, Bool, true, false, not, ◌&&◌, ◌||◌, Option, none, some, List, [], ◌∷◌,
  ◌++◌, ltb, leb, if◌then◌else◌, ◌>>=◌, Result, ok, err, length, is_empty,
}
use flightdeck_os.Core.Actions.{
  ActionId, kind, ActionRejectionReason, unknown_action, write_failed, verification_timeout,
  requested, validated, dispatched, verified, VerifyFn, ActionCatalog, lookup,
}
use flightdeck_os.Core.Adapter.{SimulatorAdapter}
use flightdeck_os.Core.Events.{placeholder}
use flightdeck_os.Core.Telemetry.{TelemetrySnapshot, SimState, state_eq}
use flightdeck_os.Runtime.Trace.{
  TraceEvent, action_validated, action_dispatched, action_verified, action_rejected, action_failed,
}
use flightdeck_os.Runtime.Executor.{
  Status, ActionRecord, ActionExecutor, validate_entry, channels_ok,
}

-- What one record, or one pass over the records, adds: the adapter after it, the records kept, the
-- outcomes, the events, and the flag `progressed`.
pub record Pass (F S : Type 0) : Type 0 where
  pub adapter : S
  pub kept : List (ActionRecord F)
  pub completed : List (ActionId × Status)
  pub events : List (TraceEvent F)
  pub progressed : Bool

abbrev pub is_paused : {F : Type 0} → TelemetrySnapshot F → Bool
is_paused snapshot = state_eq snapshot.sim_timing.state SimState.paused

-- Two parts of the loop, one after the other.
abbrev pub joined : {F S : Type 0} → Pass F S → Pass F S → Pass F S
joined first second = record {
  adapter = second.adapter;
  kept = first.kept ++ second.kept;
  completed = first.completed ++ second.completed;
  events = first.events ++ second.events;
  progressed = first.progressed || second.progressed;
}

module _ {F S : Type 0} (ad : SimulatorAdapter F S) (catalog : ActionCatalog F) (deadline : ℕ)
    (snapshot : TelemetrySnapshot F) where
  unfoldable pub step_validate : ActionRecord F → S → Result (VerifyFn F) ActionRejectionReason
  step_validate rec s = elim (lookup catalog (kind rec.request.action)) [
    | none ↦ err unknown_action
    | some entry ↦ validate_entry entry (ad.capability s rec.request.action) snapshot
  ]

  unfoldable pub advance_requested : ActionRecord F → S → Pass F S
  unfolding step_validate
  advance_requested rec s = elim (step_validate rec s) [
    | ok verify ↦ record {
      adapter = s;
      kept = record rec { status = validated; verify = some verify } ∷ [];
      completed = [];
      events = action_validated placeholder snapshot.timestamp rec.request.id ∷ [];
      progressed = true;
    }
    | err reason ↦ record {
      adapter = s;
      kept = [];
      completed = [];
      events = action_rejected placeholder snapshot.timestamp rec.request.id reason ∷ [];
      progressed = true;
    }
  ]

  unfoldable pub advance_validated : ActionRecord F → S → Pass F S
  advance_validated rec s =
      let (answer, s') = ad.execute s rec.request.action in
      elim answer [
        | ok _ ↦ record {
          adapter = s';
          kept =
              record rec {
                status = dispatched;
                ticks_since_dispatch = 0;
                dispatched_ts_ms = snapshot.timestamp.ms;
              }
              ∷ [];
          completed = [];
          events = action_dispatched placeholder snapshot.timestamp rec.request.id ∷ [];
          progressed = true;
        }
        | err e ↦ record {
          adapter = s';
          kept = [];
          completed = [];
          events =
              action_failed placeholder snapshot.timestamp rec.request.id (write_failed e) ∷ [];
          progressed = true;
        }
      ]

  abbrev pub after_tick : ActionRecord F → ActionRecord F
  after_tick rec = record rec {
    ticks_since_dispatch =
        if is_paused snapshot then rec.ticks_since_dispatch else rec.ticks_since_dispatch + 1;
  }

  -- The freshness gate and the channel gate together.
  unfoldable pub admissible : ActionRecord F → Bool
  unfolding channels_ok
  admissible rec =
      ltb rec.dispatched_ts_ms snapshot.timestamp.ms
      && channels_ok (lookup catalog (kind rec.request.action)) snapshot

  unfoldable pub verify_result : ActionRecord F → VerifyFn F → Option Bool
  unfolding admissible
  verify_result rec verify = if admissible rec then verify rec.request.action snapshot else none

  abbrev pub verified_pass : ActionRecord F → S → Pass F S
  verified_pass rec s = record {
    adapter = s;
    kept = [];
    completed = (rec.request.id, verified) ∷ [];
    events = action_verified placeholder snapshot.timestamp rec.request.id ∷ [];
    progressed = true;
  }

  -- No confirmation: the action times out, or waits for a later snapshot.
  unfoldable pub unconfirmed_pass : ActionRecord F → S → Pass F S
  unconfirmed_pass rec s =
      if not (is_paused snapshot) && leb deadline rec.ticks_since_dispatch
      then record {
        adapter = s;
        kept = [];
        completed = [];
        events =
            action_failed placeholder snapshot.timestamp rec.request.id verification_timeout ∷ [];
        progressed = true;
      }
      else record { adapter = s; kept = rec ∷ []; completed = []; events = []; progressed = false }

  -- The `expect` on the verifier, then the evidence.
  unfoldable pub advance_dispatched : ActionRecord F → Option (VerifyFn F) → S → Option (Pass F S)
  unfolding verify_result unconfirmed_pass
  advance_dispatched rec none s = none
  advance_dispatched rec (some verify) s = elim (verify_result rec verify) [
    | some true ↦ some (verified_pass (after_tick rec) s)
    | _ ↦ some (unconfirmed_pass (after_tick rec) s)
  ]

  abbrev pub advance_status : Status → ActionRecord F → S → Option (Pass F S)
  advance_status requested rec s = some (advance_requested rec s)
  advance_status validated rec s = some (advance_validated rec s)
  advance_status dispatched rec s = advance_dispatched rec rec.verify s
  advance_status _ rec s = none

  unfoldable pub advance_record : ActionRecord F → S → Option (Pass F S)
  advance_record rec s = advance_status rec.status rec s

  -- One pass of the inner loop over the pending records, in order.
  unfoldable pub pass : List (ActionRecord F) → S → Option (Pass F S)
  pass [] s =
      some (record { adapter = s; kept = []; completed = []; events = []; progressed = false })
  pass (rec ∷ recs) s = do
    one ← advance_record rec s
    rest ← pass recs one.adapter
    some (joined one rest)

  -- After a pass the outer loop stops, or goes on with the records kept.
  abbrev pub next_round : Bool → Pass F S → Option (Pass F S) → Option (Pass F S)
  next_round false now next = some now
  next_round true now next = do later ← next; some (record (joined now later) { kept = later.kept })

  -- The outer loop: passes until none makes progress or none is pending.
  unfoldable pub rounds : ℕ → List (ActionRecord F) → S → Option (Pass F S)
  rounds zero recs s = none
  rounds (suc fuel) recs s = do
    now ← pass recs s
    let next = rounds fuel now.kept now.adapter
    next_round (now.progressed && not (is_empty now.kept)) now next

-- Every pass that makes progress takes a record a stage further, and no record has more than three
-- stages before it leaves the queue.
abbrev pub advance_fuel : {F : Type 0} → List (ActionRecord F) → ℕ
advance_fuel recs = 3 * length recs + 1

unfoldable pub advance :
    {F S : Type 0}
    → SimulatorAdapter F S
    → ActionCatalog F
    → TelemetrySnapshot F
    → ActionExecutor F
    → S
    → Option (List (TraceEvent F) × ActionExecutor F × S)
advance ad catalog snapshot ex s = do
  result ← rounds ad catalog ex.deadline snapshot (advance_fuel ex.pending) ex.pending s
  some (
    result.events,
    record ex { pending = result.kept; completed = ex.completed ++ result.completed },
    result.adapter,
  )
