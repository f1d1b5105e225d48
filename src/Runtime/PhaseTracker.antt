-- ===== src/Runtime/PhaseTracker.antt =====
-- crates/fd-runtime/src/phase_tracker.rs: the phase engine behind the pause gate.
use flightdeck_os.Base.{◌≡◌, ◌≢◌, Bool, true, false, Option, none, some, arith, if◌then◌else◌, ap}
use flightdeck_os.Base.Floats.{Float}
use flightdeck_os.Core.Events.{placeholder}
use flightdeck_os.Core.Phase.{
  FlightPhase, phase_eq, preflight, PhaseAssessment, FlightPhaseEngine, from_snapshot, evaluate,
}
use flightdeck_os.Core.Phase.Hysteresis.{phase_eq_sound, phase_eq_refl, evaluate-phase}
use flightdeck_os.Core.Telemetry.{SimState, TelemetrySnapshot}
use flightdeck_os.Runtime.Trace.{TraceEvent, phase_change}

pub record PhaseTracker (F : Type 0) : Type 0 where
  pub engine : FlightPhaseEngine F
  pub last : FlightPhase
  pub paused : Bool

abbrev pub new : {F : Type 0} → PhaseTracker F
new = record { engine = flightdeck_os.Core.Phase.new; last = preflight; paused = false }

module _ {F : Type 0} (fl : Float F) where
  -- The change event of an assessment, and the phase that was reported last.
  unfoldable pub reported :
      FlightPhase → TelemetrySnapshot F → PhaseAssessment F → Option (TraceEvent F) × FlightPhase
  reported last snapshot a = if phase_eq a.phase last then (none, last) else (
    some (phase_change placeholder snapshot.timestamp last a.phase a.confidence a.evidence),
    a.phase,
  )

  unfoldable pub assess :
      PhaseTracker F → TelemetrySnapshot F → Option (TraceEvent F) × PhaseTracker F
  assess tracker snapshot =
      let (engine, a) = evaluate fl tracker.engine (from_snapshot fl snapshot) in
      let (event, last) = reported tracker.last snapshot a in
      (event, record { engine = engine; last = last; paused = false })

  abbrev pub process_state :
      SimState → PhaseTracker F → TelemetrySnapshot F → Option (TraceEvent F) × PhaseTracker F
  process_state SimState.paused tracker snapshot = (none, record tracker { paused = true })
  process_state SimState.unknown tracker snapshot =
      if tracker.paused then (none, tracker) else assess tracker snapshot
  process_state SimState.running tracker snapshot = assess tracker snapshot

  unfoldable pub process :
      PhaseTracker F → TelemetrySnapshot F → Option (TraceEvent F) × PhaseTracker F
  unfolding assess
  process tracker snapshot = process_state snapshot.sim_timing.state tracker snapshot

-- The event reports the change from phase `p` to phase `q`.
abbrev pub IsChange : {F : Type 0} → TraceEvent F → FlightPhase → FlightPhase → Type 0
IsChange (phase_change _ _ from to _ _) p q = (from ≡ p) × (to ≡ q)
IsChange _ p q = ⊥

-- A change of phase is reported, and nothing else.
abbrev pub Reports : {F : Type 0} → Option (TraceEvent F) → FlightPhase → FlightPhase → Type 0
Reports none p q = p ≡ q
Reports (some event) p q = (p ≢ q) × IsChange event p q

-- The phase reported last is the engine's.
abbrev pub IsSynced : {F : Type 0} → PhaseTracker F → Type 0
IsSynced tracker = tracker.last ≡ tracker.engine.current_phase

module _ {F : Type 0} (fl : Float F) (snapshot : TelemetrySnapshot F) where
  ne_of_phase_eq : (p q : FlightPhase) → phase_eq q p ≡ false → p ≢ q
  ne_of_phase_eq p q h e = cc (phase_eq_refl q, ap (phase_eq q) e)

  assess-Reports :
      (tracker : PhaseTracker F)
      → IsSynced tracker
      → let (event, tracker') = assess fl tracker snapshot in
        IsSynced tracker' × Reports event tracker.engine.current_phase tracker'.engine.current_phase
  unfolding assess reported
  assess-Reports tracker h =
      let t = from_snapshot fl snapshot in
      let a = (evaluate fl tracker.engine t).1.phase in
      ground (
        arith,
        h,
        evaluate-phase fl tracker.engine t,
        phase_eq_sound a tracker.last,
        ne_of_phase_eq tracker.last a,
      )

  -- A tracker whose last report is the engine's phase stays so, a snapshot yields an event exactly
  -- when the phase changes, and the event names the phases before and after.
  pub process-Reports :
      (tracker : PhaseTracker F)
      → IsSynced tracker
      → let (event, tracker') = process fl tracker snapshot in
        IsSynced tracker' × Reports event tracker.engine.current_phase tracker'.engine.current_phase
  unfolding process
  process-Reports tracker h = ground (arith, h, assess-Reports tracker h)
