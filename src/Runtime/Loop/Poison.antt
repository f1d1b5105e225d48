-- ===== src/Runtime/Loop/Poison.antt =====
-- crates/fd-runtime/src/runtime.rs: the runtime stops at the first trace failure.
use flightdeck_os.Base.{
  ◌≡◌, refl, not, Option, some, List, [], ◌∷◌, ◌++◌, arith, Result, ok, err, Ends, Ends-if, Ends-eq,
  Ends->>=, Ends->>=_all, Ends-elim, Option-cases, inl, inr,
}
use flightdeck_os.Base.Floats.{Float}
use flightdeck_os.Base.Texts.{String}
use flightdeck_os.Core.Actions.{ActionId, Actor, CockpitAction}
use flightdeck_os.Core.Adapter.{SimulatorAdapter}
use flightdeck_os.Core.Events.{EventSource}
use flightdeck_os.Core.Telemetry.{SimTimestamp, TelemetrySnapshot}
use flightdeck_os.Runtime.Executor.{submit, commit, take_completed, new_record}
use flightdeck_os.Runtime.Session.{take_seq}
use flightdeck_os.Runtime.Trace.{TraceEvent, TraceSink, TraceError, corrupt, error_text, set_seq}
use flightdeck_os.Sop.Engine.{FlowDefinition}
use flightdeck_os.Runtime.Loop.{
  Runtime, RuntimeError, trace_error, snapshot_passes, poison, append, start_flow, start,
  submit_action, append_events, unless_poisoned, tick_polled, tick, finish, take_completed_actions,
}

-- A result that is a trace failure leaves the runtime poisoned by it.
abbrev Stopped : {A F S W : Type 0} → Result A RuntimeError → Runtime F S W → Type 0
Stopped (err (trace_error e)) rt = rt.poisoned ≡ some (corrupt (error_text e))
Stopped _ rt = Unit

module _ {F S W : Type 0} (fl : Float F) (ad : SimulatorAdapter F S) (sink : TraceSink F W) where
  -- Every operation that returns a result refuses with this text and changes nothing. Draining the
  -- completed actions, which cannot fail, still hands them out, and the runtime stays as stopped as
  -- it was.
  pub record Halted (text : String) (rt : Runtime F S W) : Type 0 where
    pub no_tick :
        (source : EventSource)
        → tick fl ad sink rt source ≡ some (err (RuntimeError.poisoned text), rt)
    pub no_action :
        (action : CockpitAction) (actor : Actor) (at : SimTimestamp)
        → submit_action fl ad sink rt action actor at ≡ some (err (RuntimeError.poisoned text), rt)
    pub no_start : start fl ad sink rt ≡ some (err (RuntimeError.poisoned text), rt)
    pub no_flow :
        (flow : FlowDefinition F) → start_flow rt flow ≡ (err (RuntimeError.poisoned text), rt)
    pub no_finish : finish fl ad sink rt ≡ some (err (RuntimeError.poisoned text), rt)
    pub drains :
        take_completed_actions rt
        ≡ (rt.executor.completed, record rt { executor = record rt.executor { completed = [] } })

  Halted-of_poisoned :
      (e : TraceError) (rt : Runtime F S W) → rt.poisoned ≡ some e → Halted (error_text e) rt
  unfolding tick submit_action start start_flow finish take_completed
  Halted-of_poisoned e rt h = record {
    no_tick = λ source. rw h refl;
    no_action = λ action actor at. rw h refl;
    no_start = rw h refl;
    no_flow = λ flow. rw h refl;
    no_finish = rw h refl;
    drains = refl;
  }

  abbrev StopsAt : {A : Type 0} → Result A RuntimeError × Runtime F S W → Type 0
  StopsAt r = Stopped r.0 r.1

  append-stops : (rt : Runtime F S W) (event : TraceEvent F) → StopsAt (append fl ad sink rt event)
  unfolding append poison
  append-stops rt event = ground arith

  append_events-stops :
      (rt : Runtime F S W) (events : List (TraceEvent F))
      → Ends StopsAt (append_events fl ad sink rt events)
  unfolding append_events
  append_events-stops rt [] = tt
  append_events-stops rt (event ∷ events) = Ends->>=_all StopsAt (take_seq rt.session) _ λ x.
      let one = append fl ad sink (record rt { session = x.1 }) (set_seq event x.0) in
      ground (
        arith,
        append-stops (record rt { session = x.1 }) (set_seq event x.0),
        append_events-stops one.1 events,
      )

  tick_polled-stops :
      (source : EventSource) (rt : Runtime F S W) (snapshots : List (TelemetrySnapshot F))
      → Ends StopsAt (tick_polled fl ad sink source rt snapshots)
  unfolding tick_polled
  tick_polled-stops source rt snapshots =
      Ends->>=_all StopsAt (snapshot_passes fl ad source rt snapshots) _
        λ x. Ends->>= StopsAt StopsAt _ _ (append_events-stops x.1 x.0) (λ r k. ground (arith, k))

  guarded-stops :
      {A : Type 0} (rt : Runtime F S W) (rest : Option (Result A RuntimeError × Runtime F S W))
      → Ends StopsAt rest
      → Ends StopsAt (unless_poisoned rt rest)
  guarded-stops rt rest k = elim (Option-cases rt.poisoned) [
    | inl e ↦ rw e k
    | inr (_, e) ↦ rw e tt
  ]

  tick-stops :
      (rt : Runtime F S W) (source : EventSource) → Ends StopsAt (tick fl ad sink rt source)
  unfolding tick
  tick-stops rt source = guarded-stops rt _ (
      Ends-if StopsAt (not (ad.is_connected rt.adapter)) _ _ tt (
        Ends-elim StopsAt (ad.poll rt.adapter).0 _ _
          (λ snapshots.
            tick_polled-stops source (record rt { adapter = (ad.poll rt.adapter).1 }) snapshots)
          (λ _. tt)))

  submit_action-stops :
      (rt : Runtime F S W) (action : CockpitAction) (actor : Actor) (at : SimTimestamp)
      → Ends StopsAt (submit_action fl ad sink rt action actor at)
  unfolding submit_action
  submit_action-stops rt action actor at = guarded-stops rt _ (
      Ends->>=_all StopsAt (take_seq rt.session) _ λ x.
        Ends->>=_all StopsAt (submit rt.executor action actor at x.0) _
          λ y. ground (arith, append-stops (record rt { session = x.1; executor = y.2 }) y.1))

  -- A tick that returns a trace failure leaves a runtime in which every further operation that returns
  -- a result (a tick, a submission, the start of a session or of a flow, the end) is refused, with the
  -- text of a corrupted trace around the failure's own, and changes nothing. Draining the completed
  -- actions is the exception: it has no check, and hands out and forgets what the executor holds.
  pub tick-Halted :
      (rt rt' : Runtime F S W) (source : EventSource) (e : TraceError)
      → tick fl ad sink rt source ≡ some (err (trace_error e), rt')
      → Halted (error_text (corrupt (error_text e))) rt'
  tick-Halted rt rt' source e h =
      Halted-of_poisoned (corrupt (error_text e)) rt' (Ends-eq StopsAt (tick-stops rt source) h)

  -- What a submission does to the queue of the executor.
  abbrev pub Queued :
      Runtime F S W
      → CockpitAction
      → Actor
      → SimTimestamp
      → Result ActionId RuntimeError × Runtime F S W
      → Type 0
  Queued rt action actor at (ok id, rt') =
      (id ≡ rt.executor.next_id)
      × (rt'.executor.pending
          ≡ rt.executor.pending
            ++ (rt.executor.staged
                ++ new_record (record { id = id; action = action; actor = actor; at = at }) ∷ []))
  Queued rt action actor at (err e, rt') =
      (rt'.executor.pending ≡ rt.executor.pending) × Stopped {A = ActionId} (err e) rt'

  -- A submission that is not refused is queued behind everything submitted before it and has the
  -- executor's next id; one that fails enters no queue, and a trace failure poisons the runtime.
  pub submit_action-Queued :
      (rt : Runtime F S W) (action : CockpitAction) (actor : Actor) (at : SimTimestamp)
      → Ends (Queued rt action actor at) (submit_action fl ad sink rt action actor at)
  unfolding submit_action submit append poison commit take_seq
  submit_action-Queued rt action actor at = ground arith
