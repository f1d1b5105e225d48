-- ===== src/Core/Phase/Airborne.antt =====
-- crates/fd-core/src/phase.rs: the phases after a flight, and the flag `has_been_airborne`.
use flightdeck_os.Base.{
  if◌then◌else◌, ◌≡◌, ◌≢◌, Bool, true, false, not, ◌&&◌, List, [], ◌∷◌, arith, any,
}
use flightdeck_os.Base.Floats.{Float}
use flightdeck_os.Core.Phase.{
  Evidence, initial_climb, FlightPhase, landing, taxi_in, parked, unknown, PhaseTelemetry,
  FlightPhaseEngine, new, infer_on_ground, infer_enroute, infer_terminal, infer_airborne,
  infer_raw_phase, hysteresis, evaluate_teleport, evaluate_steady, evaluate,
}

-- The phases that follow a touchdown.
abbrev pub is_arrived : FlightPhase → Bool
is_arrived landing = true
is_arrived taxi_in = true
is_arrived parked = true
is_arrived unknown = true
is_arrived _ = false

-- The sample shows flight: off the ground above 50 kt.
abbrev pub is_flying : {F : Type 0} (fl : Float F) → PhaseTelemetry F → Bool
is_flying fl t = not t.on_ground && fl.lt (fl.lit 50) t.groundspeed_kt

-- The engine after a run of telemetry, the latest sample first.
pub data Run {F : Type 0} (fl : Float F)
    : List (PhaseTelemetry F) → FlightPhaseEngine F → Type 0 where
  begin : Run fl [] new
  sample :
      {ts : List (PhaseTelemetry F)} {e : FlightPhaseEngine F}
      → Run fl ts e
      → (t : PhaseTelemetry F) → Run fl (t ∷ ts) (evaluate fl e t).0

-- The engine's memory of the run.
pub record Recalls {F : Type 0} (fl : Float F) (ts : List (PhaseTelemetry F))
    (e : FlightPhaseEngine F) : Type 0 where
  pub arrived : is_arrived e.current_phase ≡ true → e.has_been_airborne ≡ true
  pub flown : e.has_been_airborne ≡ true → any (is_flying fl) ts ≡ true
  pub known : e.current_phase ≢ unknown

module _ {F : Type 0} (fl : Float F) where
  enroute_arrived : (t : PhaseTelemetry F) → is_arrived (infer_enroute fl t).0 ≡ false
  unfolding infer_enroute
  enroute_arrived t = ground arith

  terminal_arrived : (t : PhaseTelemetry F) → is_arrived (infer_terminal fl t).0 ≡ false
  unfolding infer_terminal
  terminal_arrived t = ground (arith, enroute_arrived t)

  raw_arrived :
      (e : FlightPhaseEngine F) (t : PhaseTelemetry F)
      → is_arrived (infer_raw_phase fl e t).0 ≡ true
      → e.has_been_airborne ≡ true
  unfolding infer_raw_phase infer_on_ground infer_airborne
  raw_arrived e t h = ground (arith, terminal_arrived t)

  pick_known :
      (b : Bool) (x y : FlightPhase × Evidence F)
      → x.0 ≢ unknown
      → y.0 ≢ unknown
      → (if b then x else y).0 ≢ unknown
  pick_known true x y h k = h
  pick_known false x y h k = k

  enroute_known : (t : PhaseTelemetry F) → (infer_enroute fl t).0 ≢ unknown
  unfolding infer_enroute
  enroute_known t = ground arith

  terminal_known : (t : PhaseTelemetry F) → (infer_terminal fl t).0 ≢ unknown
  unfolding infer_terminal
  terminal_known t = ground (arith, enroute_known t)

  on_ground_known : (b : Bool) (t : PhaseTelemetry F) → (infer_on_ground fl b t).0 ≢ unknown
  unfolding infer_on_ground
  on_ground_known b t = ground arith

  airborne_known :
      (e : FlightPhaseEngine F) (t : PhaseTelemetry F) → (infer_airborne fl e t).0 ≢ unknown
  unfolding infer_airborne
  airborne_known e t =
      pick_known _ (initial_climb, _) (infer_terminal fl t) (λ q. cc) (terminal_known t)

  raw_known :
      (e : FlightPhaseEngine F) (t : PhaseTelemetry F) → (infer_raw_phase fl e t).0 ≢ unknown
  unfolding infer_raw_phase
  raw_known e t =
      pick_known t.on_ground (infer_on_ground fl e.has_been_airborne t) (infer_airborne fl e t)
        (on_ground_known e.has_been_airborne t) (airborne_known e t)

  evaluate-Recalls :
      (ts : List (PhaseTelemetry F)) (e : FlightPhaseEngine F) (t : PhaseTelemetry F)
      → Recalls fl ts e
      → Recalls fl (t ∷ ts) (evaluate fl e t).0
  unfolding evaluate evaluate_teleport evaluate_steady hysteresis
  evaluate-Recalls ts e t h = record {
    arrived = λ k. ground (arith, h.arrived, raw_arrived e t);
    flown = λ k. ground (arith, h.flown);
    known = ground (arith, h.known, raw_known e t);
  }

  -- From a new engine, over any telemetry: the phase is never Unknown, and Landing, TaxiIn or Parked
  -- is reached only after some sample that was off the ground above 50 kt.
  pub Run-Recalls :
      {ts : List (PhaseTelemetry F)} {e : FlightPhaseEngine F} → Run fl ts e → Recalls fl ts e
  Run-Recalls begin = record { arrived = λ k. cc; flown = λ k. cc; known = λ k. cc }
  Run-Recalls (sample {ts} {e} r t) = evaluate-Recalls ts e t (Run-Recalls r)
