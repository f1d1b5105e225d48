-- ===== src/Core/Phase/Terminal.antt =====
-- crates/fd-core/src/phase.rs: the arrival phases of an engine that is given no distances.
use flightdeck_os.Base.{ℕ, ◌≡◌, refl, Bool, true, false, none, List, [], ◌∷◌, arith, map, All}
use flightdeck_os.Base.Floats.{Float, ExactLiterals}
use flightdeck_os.Core.Telemetry.{TelemetrySnapshot}
use flightdeck_os.Core.Phase.{
  FlightPhase, departure, arrival, approach, final, PhaseTelemetry, FlightPhaseEngine,
  PhaseAssessment, new, from_snapshot, infer_on_ground, infer_enroute, infer_terminal,
  infer_airborne, infer_raw_phase, hysteresis, evaluate_teleport, evaluate_steady, evaluate,
}

-- The phases that only the distances or the procedure open.
abbrev pub needs_route : FlightPhase → Bool
needs_route departure = true
needs_route arrival = true
needs_route approach = true
needs_route final = true
needs_route _ = false

-- The assessments of a run of telemetry from the engine `e`.
abbrev pub assess_all :
    {F : Type 0} (fl : Float F)
    → FlightPhaseEngine F
    → List (PhaseTelemetry F)
    → List (PhaseAssessment F)
assess_all fl e [] = []
assess_all fl e (t ∷ ts) = let (e', a) = evaluate fl e t in a ∷ assess_all fl e' ts

-- Nothing is known of the route.
pub record NoRoute {F : Type 0} (t : PhaseTelemetry F) : Type 0 where
  pub dest : t.distance_to_dest_nm ≡ none
  pub runway : t.distance_to_runway_nm ≡ none
  pub dep : t.distance_from_dep_nm ≡ none
  pub procedure : t.active_procedure_kind ≡ none

module _ {F : Type 0} (fl : Float F) (exact : ExactLiterals fl) where
  enroute_open : (t : PhaseTelemetry F) → needs_route (infer_enroute fl t).0 ≡ false
  unfolding infer_enroute
  enroute_open t = ground arith

  terminal_open : (t : PhaseTelemetry F) → NoRoute t → needs_route (infer_terminal fl t).0 ≡ false
  unfolding infer_terminal
  terminal_open t h = rw (h.dest) (
      rw (h.runway) (
        rw (h.dep) (
          rw (h.procedure)
            (ground (arith, enroute_open t, exact 999 30, exact 999 20, exact 999 60)))))

  raw_open :
      (e : FlightPhaseEngine F) (t : PhaseTelemetry F)
      → NoRoute t
      → needs_route (infer_raw_phase fl e t).0 ≡ false
  unfolding infer_raw_phase infer_on_ground infer_airborne
  raw_open e t h = ground (arith, terminal_open t h)

  hysteresis_open :
      (current candidate : FlightPhase) (ticks : ℕ) (t : PhaseTelemetry F)
      → needs_route current ≡ false
      → needs_route candidate ≡ false
      → needs_route (hysteresis fl current ticks candidate t).0 ≡ false
  unfolding hysteresis
  hysteresis_open current candidate ticks t h k = ground arith

  evaluate_open :
      (e : FlightPhaseEngine F) (t : PhaseTelemetry F)
      → NoRoute t
      → needs_route e.current_phase ≡ false
      → (needs_route (evaluate fl e t).0.current_phase ≡ false)
        × (needs_route (evaluate fl e t).1.phase ≡ false)
  unfolding evaluate evaluate_teleport evaluate_steady
  evaluate_open e t h k = ground (
    arith,
    raw_open e t h,
    hysteresis_open e.current_phase (infer_raw_phase fl e t).0 e.consecutive_ticks t k,
  )

  assess_all_open :
      (e : FlightPhaseEngine F) (ts : List (PhaseTelemetry F))
      → All NoRoute ts
      → needs_route e.current_phase ≡ false
      → All (λ a. needs_route a.phase ≡ false) (assess_all fl e ts)
  assess_all_open e [] h k = tt
  assess_all_open e (t ∷ ts) h k =
      let (k', a) = evaluate_open e t h.0 k in (a, assess_all_open (evaluate fl e t).0 ts h.1 k')

  NoRoute-from_snapshot : (s : TelemetrySnapshot F) → NoRoute (from_snapshot fl s)
  unfolding from_snapshot
  NoRoute-from_snapshot s = record { dest = refl; runway = refl; dep = refl; procedure = refl }

  NoRoute-snapshots : (ss : List (TelemetrySnapshot F)) → All NoRoute (map (from_snapshot fl) ss)
  NoRoute-snapshots [] = tt
  NoRoute-snapshots (s ∷ ss) = (NoRoute-from_snapshot s, NoRoute-snapshots ss)

  -- A new engine that is fed with snapshots alone, without distances or a procedure, never reports
  -- Departure, Arrival, Approach or Final.
  pub assess_all-snapshots :
      (ss : List (TelemetrySnapshot F))
      → All (λ a. needs_route a.phase ≡ false) (assess_all fl new (map (from_snapshot fl) ss))
  assess_all-snapshots ss =
      assess_all_open new (map (from_snapshot fl) ss) (NoRoute-snapshots ss) refl
