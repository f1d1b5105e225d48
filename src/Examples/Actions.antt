-- ===== src/Examples/Actions.antt =====
-- The action pipeline on concrete inputs.
use flightdeck_os.Base.{
  ℕ, ◌+◌, true, false, some, List, [], ◌∷◌, ◌++◌, ◌≡◌, refl, ok, All, Any, count, arith,
}
use flightdeck_os.Core.Actions.{ActionId, Actor, verified, lookup}
use flightdeck_os.Core.Telemetry.{TelemetrySnapshot, SimState}
use flightdeck_os.Runtime.Trace.{TraceEvent, action_verified, action_requested}
use flightdeck_os.Runtime.Executor.{
  Status, ActionExecutor, new_record, channels_ok, check_preconditions, validate_entry, new, submit,
  commit,
}
use flightdeck_os.Runtime.Executor.Advance.{
  step_validate, admissible, verify_result, unconfirmed_pass, advance_dispatched, advance_record,
  pass, rounds, advance,
}
use flightdeck_os.Runtime.Executor.Deadline.{
  InBudget, Frozen, is_timeout, advance-InBudget, advance_paused,
}
use flightdeck_os.Runtime.Executor.Evidence.{Confirms, advance-completed}
use flightdeck_os.Runtime.Executor.Outcomes.{ids, ended, advance-accounts}
use flightdeck_os.Runtime.Executor.Reachable.{
  Reach, fresh, submits, commits, IsSound, Reach-advance,
}
use flightdeck_os.Examples.Data.{
  scripted, Script, beacon_catalog, beacon_at, beacon_on, verify_beacon, waiting, executor_with,
  request_of,
}

abbrev lit_snapshot : TelemetrySnapshot ℕ
lit_snapshot = beacon_at 2000 true SimState.running

abbrev lit_events : List (TraceEvent ℕ)
lit_events = action_verified 18446744073709551615 (record { ms = 2000 }) 7 ∷ []

-- One action waits and the beacon is seen on.
abbrev lit_before : ActionExecutor ℕ
lit_before = executor_with (waiting 7 ∷ [])

abbrev lit_after : ActionExecutor ℕ
lit_after = record (executor_with []) { completed = (7, verified) ∷ [] }

run_lit :
    advance scripted beacon_catalog lit_snapshot lit_before [] ≡ some (lit_events, lit_after, [])
unfolding advance rounds pass advance_record advance_dispatched verify_result admissible channels_ok
    lookup
run_lit = refl

advance-completed_example :
    (new : List (ActionId × Status)) × (lit_after.completed ≡ lit_before.completed ++ new)
    × All
        (λ c. (c.1 ≡ verified) × Any (Confirms beacon_catalog lit_snapshot c.0) lit_before.pending)
        new
advance-completed_example =
    advance-completed scripted beacon_catalog lit_snapshot lit_before lit_after [] [] lit_events
      run_lit

advance-accounts_example :
    count 7 (ids lit_before.pending) ≡ count 7 (ids lit_after.pending) + count 7 (ended lit_events)
advance-accounts_example =
    advance-accounts scripted beacon_catalog lit_snapshot lit_before lit_after [] [] lit_events
      run_lit 7

-- The simulator is paused and the beacon is off.
abbrev paused_snapshot : TelemetrySnapshot ℕ
paused_snapshot = beacon_at 2000 false SimState.paused

run_paused :
    advance scripted beacon_catalog paused_snapshot lit_before [] ≡ some ([], lit_before, [])
unfolding advance rounds pass advance_record advance_dispatched verify_result admissible channels_ok
    lookup unconfirmed_pass
run_paused = refl

advance-InBudget_example : All (InBudget 150) lit_before.pending
advance-InBudget_example =
    advance-InBudget scripted beacon_catalog paused_snapshot lit_before lit_before [] [] []
      run_paused (omega arith) (omega arith, tt)

advance_paused_example :
    All {A = TraceEvent ℕ} (λ event. is_timeout event ≡ false) []
    × All (λ rec. Any (Frozen rec) lit_before.pending) lit_before.pending
advance_paused_example =
    advance_paused scripted beacon_catalog paused_snapshot lit_before lit_before [] [] [] run_paused
      refl

-- A new action behind one that waits, with the beacon still off.
abbrev dark_snapshot : TelemetrySnapshot ℕ
dark_snapshot = beacon_at 2000 false SimState.running

abbrev two_before : ActionExecutor ℕ
two_before = executor_with (waiting 7 ∷ new_record (request_of 8) ∷ [])

validates_beacon :
    step_validate scripted beacon_catalog 150 dark_snapshot (new_record (request_of 8)) []
    ≡ ok verify_beacon
unfolding step_validate lookup validate_entry check_preconditions
validates_beacon = refl

-- An executor with one submitted and committed action.
abbrev one_submitted : ActionExecutor ℕ
one_submitted = record (new 150) {
  staged = new_record (record (request_of 0) { id = 0 }) ∷ [];
  next_id = 1;
}

submitted :
    submit (new 150) beacon_on Actor.user (record { ms = 500 }) 3
    ≡ some (0, action_requested 3 (record { ms = 500 }) beacon_on Actor.user 0, one_submitted)
unfolding submit
submitted = refl

reached : Reach scripted beacon_catalog 150 (commit one_submitted)
reached = commits (submits fresh beacon_on Actor.user (record { ms = 500 }) 3 submitted)

Reach-advance_example :
    (events : List (TraceEvent ℕ)) × (ex' : ActionExecutor ℕ) × (s' : Script) × (advance scripted
        beacon_catalog dark_snapshot
        (commit one_submitted)
        []
      ≡ some (events, ex', s'))
    × IsSound ex'
Reach-advance_example = Reach-advance reached dark_snapshot []
