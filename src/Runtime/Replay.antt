-- ===== src/Runtime/Replay.antt =====
-- crates/fd-runtime/src/replay.rs: the scripted adapter. Fixture files are not modelled.
use flightdeck_os.Base.{
  ℕ, zero, suc, ◌+◌, ◌≡◌, refl, Bool, true, false, List, [], ◌∷◌, ◌++◌, Result, ok, err, length,
  ◌≤◌, arith, if◌then◌else◌, ap,
}
use flightdeck_os.Core.Actions.{CockpitAction}
use flightdeck_os.Core.Adapter.{
  Capability, supported, AdapterError, not_connected, SimulatorAdapter,
}
use flightdeck_os.Core.Telemetry.{SimTimestamp, TelemetrySnapshot}

pub data ReplayStep (F : Type 0) : Type 0 where
  snapshot : TelemetrySnapshot F → ReplayStep F
  action : SimTimestamp → CockpitAction → ReplayStep F

pub record ReplayAdapter (F : Type 0) : Type 0 where
  pub queue : List (TelemetrySnapshot F)
  pub connected : Bool
  pub dispatched : ℕ  -- u64

module _ {F : Type 0} where
  -- The snapshots of a script; its actions are left to the application.
  unfoldable pub snapshots_of : List (ReplayStep F) → List (TelemetrySnapshot F)
  snapshots_of [] = []
  snapshots_of (snapshot s ∷ steps) = s ∷ snapshots_of steps
  snapshots_of (action _ _ ∷ steps) = snapshots_of steps

  unfoldable pub load : ReplayAdapter F → List (ReplayStep F) → ReplayAdapter F
  load a steps = record a { queue = a.queue ++ snapshots_of steps }

  unfoldable pub new : List (ReplayStep F) → ReplayAdapter F
  unfolding load
  new steps = load (record { queue = []; connected = false; dispatched = 0 }) steps

  -- `pop_front().into_iter().collect()`, and the queue that is left.
  abbrev pub pop :
      List (TelemetrySnapshot F) → List (TelemetrySnapshot F) × List (TelemetrySnapshot F)
  pop [] = ([], [])
  pop (s ∷ queue) = (s ∷ [], queue)

  unfoldable pub poll :
      ReplayAdapter F → Result (List (TelemetrySnapshot F)) AdapterError × ReplayAdapter F
  poll a =
      if a.connected
      then (let (front, rest) = pop a.queue in (ok front, record a { queue = rest }))
      else (err not_connected, a)

  abbrev pub capability : ReplayAdapter F → CockpitAction → Capability
  capability a act = supported

  unfoldable pub execute :
      ReplayAdapter F → CockpitAction → Result (Unit {0}) AdapterError × ReplayAdapter F
  execute a act = (ok tt, record a { dispatched = a.dispatched + 1 })

  abbrev pub replay : SimulatorAdapter F (ReplayAdapter F)
  replay = record {
    connect = λ a. (ok tt, record a { connected = true });
    disconnect = λ a. record a { connected = false };
    is_connected = λ a. a.connected;
    poll = poll;
    capability = capability;
    execute = execute;
  }

  abbrev pub delivered :
      Result (List (TelemetrySnapshot F)) AdapterError → List (TelemetrySnapshot F)
  delivered (ok snapshots) = snapshots
  delivered (err _) = []

  -- What `n` polls in a row deliver, and the adapter after them.
  abbrev pub polls : ℕ → ReplayAdapter F → List (TelemetrySnapshot F) × ReplayAdapter F
  polls zero a = ([], a)
  polls (suc n) a =
      let (result, a') = replay.poll a in
      let (rest, a'') = polls n a' in (delivered result ++ rest, a'')

  polls_queue :
      (n : ℕ) (queue : List (TelemetrySnapshot F)) (d : ℕ)
      → length queue ≤ n
      → let (all, a) = polls n (record { queue = queue; connected = true; dispatched = d }) in
        (all ≡ queue) × (a.queue ≡ [])
  unfolding poll
  polls_queue zero [] d h = (refl, refl)
  polls_queue zero (s ∷ queue) d h = absurd (omega (arith, h))
  polls_queue (suc n) [] d h = polls_queue n [] d (omega arith)
  polls_queue (suc n) (s ∷ queue) d h =
      let (same, empty) = polls_queue n queue d (omega (arith, h)) in (ap (λ q. s ∷ q) same, empty)

  -- A new adapter, connected and polled at least as often as its script has snapshots, delivers the
  -- snapshots of the script in their order, each once, and is left with an empty queue.
  pub polls-new :
      (steps : List (ReplayStep F)) (n : ℕ)
      → length (snapshots_of steps) ≤ n
      → let (all, a) = polls n (replay.connect (new steps)).1 in
        (all ≡ snapshots_of steps) × (a.queue ≡ [])
  unfolding new load
  polls-new steps n h = polls_queue n (snapshots_of steps) 0 h
