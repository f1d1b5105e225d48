-- ===== src/Runtime/Loop/Sequence.antt =====
-- crates/fd-runtime/src/runtime.rs: the numbers under which events reach the trace.
use flightdeck_os.Base.{
  ℕ, ◌+◌, ◌<◌, ◌≤◌, ◌≡◌, refl, not, Option, none, some, List, [], ◌∷◌, arith, Result, ok, err, Ends,
  Ends-if, Ends-eq, Ends->>=, Ends->>=_all, Ends-elim, ◌∙◌, Option-cases, inl, inr,
}
use flightdeck_os.Base.Floats.{Float}
use flightdeck_os.Core.Actions.{ActionId, Actor, CockpitAction, ActionCatalog}
use flightdeck_os.Core.Adapter.{SimulatorAdapter}
use flightdeck_os.Core.Events.{EventSource}
use flightdeck_os.Core.Telemetry.{SimTimestamp, TelemetrySnapshot}
use flightdeck_os.Runtime.Executor.{ActionExecutor, submit}
use flightdeck_os.Runtime.Executor.Advance.{advance}
use flightdeck_os.Runtime.Session.{Session, take_seq}
use flightdeck_os.Runtime.Trace.{TraceEvent, TraceSink, TraceError, seq, set_seq, session_start}
use flightdeck_os.Sop.Engine.{FlowEngine, FlowDefinition, FlowActionRequest, assign_action_id}
use flightdeck_os.Runtime.Loop.{
  Runtime, RuntimeError, TickStats, new, stage_requests, flow_pass, phase_pass, snapshot_pass,
  snapshot_passes, poison, append, start_flow, start, submit_action, append_events, unless_poisoned,
  conclude, tick_polled, tick,
}

-- Numbers from the latest on, each below the one after it and all below `n`.
abbrev pub Falling : ℕ → List ℕ → Type 0
Falling n [] = Unit
Falling n (x ∷ xs) = (x < n) × Falling x xs

Falling-mono : (m n : ℕ) (xs : List ℕ) → m ≤ n → Falling m xs → Falling n xs
Falling-mono m n [] h k = tt
Falling-mono m n (x ∷ xs) h k = (omega (arith, h, k.0), k.1)

-- `log` reads the numbers of the events in a sink, the latest first: an append that succeeds adds
-- its event, one that fails adds none.
abbrev Recorded : Result (Unit {0}) TraceError → List ℕ → List ℕ → ℕ → Type 0
Recorded (ok _) before after n = after ≡ n ∷ before
Recorded (err _) before after n = after ≡ before

abbrev pub Records : {F W : Type 0} → TraceSink F W → (W → List ℕ) → Type 0
Records {F} {W} sink log =
    (w : W) (event : TraceEvent F)
    → let (result, w') = sink.append w event in Recorded result (log w) (log w') (seq event)

pub seq-set_seq : {F : Type 0} (event : TraceEvent F) (n : ℕ) → seq (set_seq event n) ≡ n
unfolding seq set_seq
seq-set_seq event n = ground arith

module _ {F S W : Type 0} (fl : Float F) (ad : SimulatorAdapter F S) (sink : TraceSink F W)
    (log : W → List ℕ) (records : Records sink log) where
  -- The trace is in order, and the session counts past it.
  abbrev pub IsOrdered : Runtime F S W → Type 0
  IsOrdered rt = Falling rt.session.next_seq (log rt.trace)

  -- The same trace, and a session that has not gone back.
  abbrev Ahead : Runtime F S W → Runtime F S W → Type 0
  Ahead rt rt' = (rt'.trace ≡ rt.trace) × (rt.session.next_seq ≤ rt'.session.next_seq)

  Ahead-IsOrdered : (rt rt' : Runtime F S W) → Ahead rt rt' → IsOrdered rt → IsOrdered rt'
  Ahead-IsOrdered rt rt' a h =
      rw a.0 (Falling-mono rt.session.next_seq rt'.session.next_seq (log rt.trace) a.1 h)

  -- What `take_seq` yields.
  abbrev Taken : Session → ℕ × Session → Type 0
  Taken session x = (x.0 ≡ session.next_seq) × (x.1.next_seq ≡ session.next_seq + 1)

  take_seq-Taken : (session : Session) → Ends (Taken session) (take_seq session)
  unfolding take_seq
  take_seq-Taken session = ground arith

  -- The session that a staging leaves.
  abbrev StagedFrom :
      Session → List (TraceEvent F) × Session × ActionExecutor F × FlowEngine F → Type 0
  StagedFrom session r = session.next_seq ≤ r.1.next_seq

  stage_requests-Ahead :
      (ts : SimTimestamp) (reqs : List FlowActionRequest) (session : Session)
      → (executor : ActionExecutor F) (flow : FlowEngine F)
      → Ends (StagedFrom session) (stage_requests ts reqs session executor flow)
  unfolding stage_requests
  stage_requests-Ahead ts [] session executor flow = omega arith
  stage_requests-Ahead ts (req ∷ reqs) session executor flow =
      Ends->>= (Taken session) (StagedFrom session) (take_seq session) _ (take_seq-Taken session)
        λ x taken.
          Ends->>=_all (StagedFrom session) (submit executor req.action Actor.runtime ts x.0) _
            λ x'.
              Ends->>= (StagedFrom x.1) (StagedFrom session) _ _
                (stage_requests-Ahead ts reqs x.1 x'.2 (assign_action_id flow req.step_id x'.0))
                (λ r le. omega (arith, le, taken.1))

  abbrev AheadOf : Runtime F S W → List (TraceEvent F) × Runtime F S W → Type 0
  AheadOf rt r = Ahead rt r.1

  flow_pass-Ahead :
      (flows : Option (FlowEngine F)) (rt : Runtime F S W) (snapshot : TelemetrySnapshot F)
      → Ends (AheadOf rt) (flow_pass fl ad flows rt snapshot)
  unfolding flow_pass
  flow_pass-Ahead none rt snapshot = (refl, omega arith)
  flow_pass-Ahead (some flow) rt snapshot =
      Ends->>= (StagedFrom rt.session) (AheadOf rt) _ _
        (stage_requests-Ahead snapshot.timestamp _ rt.session rt.executor _) (λ r le. (refl, le))

  snapshot_pass-Ahead :
      (source : EventSource) (rt : Runtime F S W) (snapshot : TelemetrySnapshot F)
      → Ends (AheadOf rt) (snapshot_pass fl ad source rt snapshot)
  unfolding snapshot_pass
  snapshot_pass-Ahead source rt snapshot =
      Ends->>=_all (AheadOf rt) (advance ad rt.catalog snapshot rt.executor rt.adapter) _ λ x.
        let phase = (phase_pass fl ad rt snapshot).1 in
        let acting = record rt { phase = phase; executor = x.1; adapter = x.2 } in
        Ends->>= (AheadOf rt) (AheadOf rt) _ _ (flow_pass-Ahead acting.flows acting snapshot)
          (λ r a. a)

  snapshot_passes-Ahead :
      (source : EventSource) (rt : Runtime F S W) (snapshots : List (TelemetrySnapshot F))
      → Ends (AheadOf rt) (snapshot_passes fl ad source rt snapshots)
  unfolding snapshot_passes
  snapshot_passes-Ahead source rt [] = (refl, omega arith)
  snapshot_passes-Ahead source rt (snapshot ∷ snapshots) =
      Ends->>= (AheadOf rt) (AheadOf rt) _ _ (snapshot_pass-Ahead source rt snapshot) λ x a.
        Ends->>= (AheadOf x.1) (AheadOf rt) _ _ (snapshot_passes-Ahead source x.1 snapshots)
          (λ r b. (b.0 ∙ a.0, omega (arith, a.1, b.1)))

  append-IsOrdered :
      (rt : Runtime F S W) (event : TraceEvent F) (session : Session)
      → IsOrdered rt
      → seq event ≡ rt.session.next_seq
      → session.next_seq ≡ rt.session.next_seq + 1
      → IsOrdered (append fl ad sink (record rt { session = session }) event).1
  unfolding append poison
  append-IsOrdered rt event session h e n = ground (
    arith,
    h,
    records rt.trace event,
    Falling-mono rt.session.next_seq session.next_seq (log rt.trace),
  )

  -- The trace is in order in whatever runtime an operation leaves.
  abbrev OrderedAfter : {A : Type 0} → Option (A × Runtime F S W) → Type 0
  OrderedAfter m = Ends (λ r. IsOrdered r.1) m

  append_events-IsOrdered :
      (rt : Runtime F S W) (events : List (TraceEvent F))
      → IsOrdered rt
      → OrderedAfter (append_events fl ad sink rt events)
  unfolding append_events
  append_events-IsOrdered rt [] h = h
  append_events-IsOrdered rt (event ∷ events) h =
      Ends->>= (Taken rt.session) (λ r. IsOrdered r.1) (take_seq rt.session) _
        (take_seq-Taken rt.session)
        λ x taken.
          let one = append fl ad sink (record rt { session = x.1 }) (set_seq event x.0) in
          let ordered =
            append-IsOrdered rt (set_seq event x.0) x.1 h (seq-set_seq event x.0 ∙ taken.0)
              taken.1 in
          Ends-elim (λ r. IsOrdered r.1) one.0 _ _
            (λ _.
              Ends->>= (λ r. IsOrdered r.1) (λ r. IsOrdered r.1)
                (append_events fl ad sink one.1 events) _
                (append_events-IsOrdered one.1 events ordered) (λ r k. k))
            (λ _. ordered)

  -- An operation behind the poison check.
  guarded-IsOrdered :
      {A : Type 0} (rt : Runtime F S W) (rest : Option (Result A RuntimeError × Runtime F S W))
      → IsOrdered rt
      → OrderedAfter rest
      → OrderedAfter (unless_poisoned rt rest)
  guarded-IsOrdered rt rest h k = elim (Option-cases rt.poisoned) [
    | inl e ↦ rw e k
    | inr (_, e) ↦ rw e h
  ]

  conclude-IsOrdered : (rt : Runtime F S W) → IsOrdered rt → IsOrdered (conclude rt)
  unfolding conclude
  conclude-IsOrdered rt h = ground (arith, h)

  tick_polled-IsOrdered :
      (source : EventSource) (rt : Runtime F S W) (snapshots : List (TelemetrySnapshot F))
      → IsOrdered rt
      → OrderedAfter (tick_polled fl ad sink source rt snapshots)
  unfolding tick_polled
  tick_polled-IsOrdered source rt snapshots h =
      Ends->>= (AheadOf rt) (λ r. IsOrdered r.1) _ _ (snapshot_passes-Ahead source rt snapshots)
        λ x a.
          Ends->>= (λ r. IsOrdered r.1) (λ r. IsOrdered r.1) _ _
            (append_events-IsOrdered x.1 x.0 (Ahead-IsOrdered rt x.1 a h))
            (λ r k. ground (arith, k, conclude-IsOrdered r.1 k))

  tick-IsOrdered :
      (rt : Runtime F S W) (source : EventSource)
      → IsOrdered rt
      → OrderedAfter (tick fl ad sink rt source)
  unfolding tick
  tick-IsOrdered rt source h = guarded-IsOrdered rt _ h (
      Ends-if (λ r. IsOrdered r.1) (not (ad.is_connected rt.adapter)) _ _ h
        (Ends-elim (λ r. IsOrdered r.1) (ad.poll rt.adapter).0 _ _
          (λ snapshots.
            tick_polled-IsOrdered source (record rt { adapter = (ad.poll rt.adapter).1 }) snapshots
              h)
          (λ _. h)))

  start-IsOrdered : (rt : Runtime F S W) → IsOrdered rt → OrderedAfter (start fl ad sink rt)
  unfolding start seq
  start-IsOrdered rt h = guarded-IsOrdered rt _ h (
      Ends-elim (λ r. IsOrdered r.1) (ad.connect rt.adapter).0 _ _
        (λ _.
          Ends->>= (Taken rt.session) (λ r. IsOrdered r.1) (take_seq rt.session) _
            (take_seq-Taken rt.session)
            (λ x taken.
              append-IsOrdered (record rt { adapter = (ad.connect rt.adapter).1 })
                (session_start x.0 x.1.id) x.1 h taken.0 taken.1))
        (λ _. h))

  submit-seq :
      (executor : ActionExecutor F) (action : CockpitAction) (actor : Actor) (at : SimTimestamp)
      → (n : ℕ) → Ends (λ y. seq y.1 ≡ n) (submit executor action actor at n)
  unfolding submit seq
  submit-seq executor action actor at n = ground arith

  submit_action-IsOrdered :
      (rt : Runtime F S W) (action : CockpitAction) (actor : Actor) (at : SimTimestamp)
      → IsOrdered rt
      → OrderedAfter (submit_action fl ad sink rt action actor at)
  unfolding submit_action
  submit_action-IsOrdered rt action actor at h = guarded-IsOrdered rt _ h (
      Ends->>= (Taken rt.session) (λ r. IsOrdered r.1) (take_seq rt.session) _
        (take_seq-Taken rt.session)
        λ x taken.
          Ends->>= (λ y. seq y.1 ≡ x.0) (λ r. IsOrdered r.1)
            (submit rt.executor action actor at x.0) _ (submit-seq rt.executor action actor at x.0)
            λ y numbered. ground (
              arith,
              append-IsOrdered (record rt { executor = y.2 }) y.1 x.1 h (numbered ∙ taken.0)
                  taken.1,
            ))

  start_flow-IsOrdered :
      (rt : Runtime F S W) (flow : FlowDefinition F)
      → IsOrdered rt
      → IsOrdered (start_flow rt flow).1
  unfolding start_flow
  start_flow-IsOrdered rt flow h = ground (arith, h)

  -- How a runtime comes about: its operations, whatever they return, in any order.
  pub data Reach (catalog : ActionCatalog F) : Runtime F S W → Type 0 where
    fresh :
        (s : S) (w : W)
        → log w ≡ []
        → (session_id deadline : ℕ) → Reach catalog (new s w session_id catalog deadline)
    starts :
        {rt rt' : Runtime F S W} {result : Result (Unit {0}) RuntimeError}
        → Reach catalog rt
        → start fl ad sink rt ≡ some (result, rt')
        → Reach catalog rt'
    starts_flow :
        {rt : Runtime F S W}
        → Reach catalog rt
        → (flow : FlowDefinition F) → Reach catalog (start_flow rt flow).1
    submits :
        {rt rt' : Runtime F S W} {result : Result ActionId RuntimeError}
        → Reach catalog rt
        → (action : CockpitAction) (actor : Actor) (at : SimTimestamp)
        → submit_action fl ad sink rt action actor at ≡ some (result, rt')
        → Reach catalog rt'
    ticks :
        {rt rt' : Runtime F S W} {result : Result TickStats RuntimeError}
        → Reach catalog rt
        → (source : EventSource) → tick fl ad sink rt source ≡ some (result, rt')
        → Reach catalog rt'

  -- With a sink that records what it appends: whatever sequence of starts, flow starts, submissions
  -- and ticks a runtime has been through, with whatever results, the numbers of the recorded events
  -- strictly increase and are below the session's next one.
  pub Reach-IsOrdered :
      {catalog : ActionCatalog F} {rt : Runtime F S W} → Reach catalog rt → IsOrdered rt
  Reach-IsOrdered (fresh s w e session_id deadline) = rw e tt
  Reach-IsOrdered (starts {rt} r e) =
      Ends-eq (λ r. IsOrdered r.1) (start-IsOrdered rt (Reach-IsOrdered r)) e
  Reach-IsOrdered (starts_flow {rt} r flow) = start_flow-IsOrdered rt flow (Reach-IsOrdered r)
  Reach-IsOrdered (submits {rt} r action actor at e) =
      Ends-eq (λ r. IsOrdered r.1) (submit_action-IsOrdered rt action actor at (Reach-IsOrdered r))
        e
  Reach-IsOrdered (ticks {rt} r source e) =
      Ends-eq (λ r. IsOrdered r.1) (tick-IsOrdered rt source (Reach-IsOrdered r)) e
