-- ===== src/Runtime/Loop/Flow.antt =====
-- crates/fd-runtime/src/runtime.rs: the way of action outcomes to the flow.
use flightdeck_os.Base.{◌≡◌, refl, true, none, some, [], ok}
use flightdeck_os.Base.Floats.{Float}
use flightdeck_os.Core.Adapter.{SimulatorAdapter}
use flightdeck_os.Core.Events.{EventSource}
use flightdeck_os.Runtime.Executor.{commit, take_completed}
use flightdeck_os.Runtime.Trace.{TraceSink}
use flightdeck_os.Sop.Engine.{FlowEngine}
use flightdeck_os.Runtime.Loop.{
  Runtime, snapshot_passes, append_events, conclude, tick_polled, tick,
}

module _ {F S W : Type 0} (fl : Float F) (ad : SimulatorAdapter F S) (sink : TraceSink F W) where
  -- In a connected runtime that is not poisoned and has a flow, a tick whose poll yields no snapshot
  -- succeeds, leaves the flow as it was and replaces the outcomes that wait for it by what
  -- the executor has completed since.
  pub tick-no_snapshot :
      (rt : Runtime F S W) (source : EventSource) (flow : FlowEngine F)
      → rt.poisoned ≡ none
      → rt.flows ≡ some flow
      → ad.is_connected rt.adapter ≡ true
      → (ad.poll rt.adapter).0 ≡ ok []
      → (rt' : Runtime F S W) × (tick fl ad sink rt source
          ≡ some (ok (record { snapshots = 0; events = 0 }), rt'))
        × (rt'.flows ≡ some flow)
        × (rt'.flow_outcomes ≡ rt.executor.completed)
        × (rt'.executor.completed ≡ [])
  unfolding tick tick_polled snapshot_passes append_events conclude commit take_completed
  tick-no_snapshot rt source flow h f c p = (
    conclude (record rt { adapter = (ad.poll rt.adapter).1 }),
    rw h (rw c (rw p refl)),
    rw f refl,
    rw f refl,
    rw f refl,
  )
