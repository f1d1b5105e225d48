-- ===== src/Core/Phase/Hysteresis.antt =====
-- crates/fd-core/src/phase.rs, `evaluate`: when the phase changes and when it holds.
use flightdeck_os.Base.{
  ℕ, ◌+◌, ◌<◌, ◌^◌, ◌≡◌, ◌≢◌, refl, true, false, some, arith, ◌==◌, ap, if◌then◌else◌, sym, ◌∙◌,
  ==_iff, Bool-cases, inl, inr,
}
use flightdeck_os.Base.Floats.{Float}
use flightdeck_os.Core.Phase.{
  FlightPhase, place, phase_eq, preflight, taxi_out, takeoff, initial_climb, departure, climb,
  cruise, descent, arrival, approach, final, landing, taxi_in, parked, unknown, PhaseTelemetry,
  FlightPhaseEngine, PhaseConfidence, immediate_transition, hysteresis, is_teleport,
  infer_raw_phase, evaluate, evaluate_teleport, evaluate_steady,
}

-- The phase at a place.
abbrev at_place : ℕ → FlightPhase
at_place n =
    if n == 0
    then preflight
    else if n == 1
    then taxi_out
    else if n == 2
    then takeoff
    else if n == 3
    then initial_climb
    else if n == 4
    then departure
    else if n == 5
    then climb
    else if n == 6
    then cruise
    else if n == 7
    then descent
    else if n == 8
    then arrival
    else if n == 9
    then approach
    else if n == 10
    then final
    else if n == 11
    then landing
    else if n == 12
    then taxi_in
    else if n == 13
    then parked
    else unknown

at_place-place : (p : FlightPhase) → at_place (place p) ≡ p
at_place-place = elim [
  | preflight ↦ refl
  | taxi_out ↦ refl
  | takeoff ↦ refl
  | initial_climb ↦ refl
  | departure ↦ refl
  | climb ↦ refl
  | cruise ↦ refl
  | descent ↦ refl
  | arrival ↦ refl
  | approach ↦ refl
  | final ↦ refl
  | landing ↦ refl
  | taxi_in ↦ refl
  | parked ↦ refl
  | unknown ↦ refl
]

pub phase_eq_sound : (p q : FlightPhase) → phase_eq p q ≡ true → p ≡ q
phase_eq_sound p q h =
    sym (at_place-place p) ∙ (ap at_place ((==_iff (place p) (place q)).0 h) ∙ at_place-place q)

module _ {F : Type 0} (fl : Float F) (telem : PhaseTelemetry F) where
  -- Fed with one candidate on one telemetry, from any phase and count, the hysteresis takes the
  -- candidate over within three samples.
  pub hysteresis-settles :
      (current candidate : FlightPhase) (ticks : ℕ)
      → let (p1, t1) = hysteresis fl current ticks candidate telem in
        let (p2, t2) = hysteresis fl p1 t1 candidate telem in
        (hysteresis fl p2 t2 candidate telem).0 ≡ candidate
  unfolding hysteresis
  hysteresis-settles current candidate ticks = ground (arith, phase_eq_sound candidate current)

  -- On one telemetry, with the counter not about to wrap: after two samples that agree with the
  -- phase, a single sample with any other candidate changes the phase to it at once.
  pub hysteresis-single_sample :
      (current candidate : FlightPhase) (ticks : ℕ)
      → ticks + 2 < 2 ^ 32
      → let (p1, t1) = hysteresis fl current ticks current telem in
        let (p2, t2) = hysteresis fl p1 t1 current telem in
        (hysteresis fl p2 t2 candidate telem).0 ≡ candidate
  unfolding hysteresis
  hysteresis-single_sample current candidate ticks h =
      ground (arith, phase_eq_sound candidate current)

module _ {F : Type 0} (fl : Float F) where
  -- The assessment reports the phase that the engine holds after it.
  pub evaluate-phase :
      (e : FlightPhaseEngine F) (t : PhaseTelemetry F)
      → (evaluate fl e t).1.phase ≡ (evaluate fl e t).0.current_phase
  unfolding evaluate evaluate_teleport evaluate_steady
  evaluate-phase e t = ground arith

  hysteresis-changed :
      (current candidate : FlightPhase) (ticks : ℕ) (t : PhaseTelemetry F)
      → (hysteresis fl current ticks candidate t).0 ≢ current
      → (hysteresis fl current ticks candidate t).1 ≡ 1
  unfolding hysteresis
  hysteresis-changed current candidate ticks t h = ground arith

  hysteresis-held :
      (current candidate : FlightPhase) (ticks : ℕ) (t : PhaseTelemetry F)
      → ticks < 2
      → immediate_transition fl current t ≡ false
      → ((hysteresis fl current ticks candidate t).0 ≡ current)
        × ((hysteresis fl current ticks candidate t).1 ≡ ticks + 1)
  unfolding hysteresis
  hysteresis-held current candidate ticks t h slow = ground arith

  -- A change of phase leaves a count below two.
  evaluate-changed :
      (e : FlightPhaseEngine F) (t : PhaseTelemetry F)
      → (evaluate fl e t).0.current_phase ≢ e.current_phase
      → (evaluate fl e t).0.consecutive_ticks < 2
  unfolding evaluate evaluate_teleport evaluate_steady
  evaluate-changed e t = elim (Bool-cases (is_teleport fl e.last_telemetry t)) [
    | inl s ↦ rw s λ change. omega arith
    | inr s ↦ rw s λ change. omega (
      arith,
      hysteresis-changed e.current_phase (infer_raw_phase fl e t).0 e.consecutive_ticks t change,
    )
  ]

  evaluate-reset :
      (e : FlightPhaseEngine F) (t : PhaseTelemetry F)
      → is_teleport fl e.last_telemetry t ≡ true
      → t.on_ground ≡ false
      → ((evaluate fl e t).0.current_phase ≡ cruise)
        × ((evaluate fl e t).0.consecutive_ticks ≡ 0)
        × ((evaluate fl e t).0.last_telemetry ≡ some t)
        × ((evaluate fl e t).1.confidence ≡ PhaseConfidence.medium)
  unfolding evaluate evaluate_teleport
  evaluate-reset e t slew air = rw slew (rw air (refl, refl, refl, refl))

  -- Below a count of two, a sample that is no slew and no immediate transition changes no phase.
  evaluate-held :
      (e : FlightPhaseEngine F) (t : PhaseTelemetry F)
      → e.consecutive_ticks < 2
      → is_teleport fl e.last_telemetry t ≡ false
      → immediate_transition fl e.current_phase t ≡ false
      → ((evaluate fl e t).0.current_phase ≡ e.current_phase)
        × ((evaluate fl e t).0.consecutive_ticks ≡ e.consecutive_ticks + 1)
        × ((evaluate fl e t).0.last_telemetry ≡ some t)
  unfolding evaluate evaluate_steady
  evaluate-held e t low steady slow =
      let (p, n) =
        hysteresis-held e.current_phase (infer_raw_phase fl e t).0 e.consecutive_ticks t low slow in
      rw steady (p, n, refl)

  cruise_slow : (t : PhaseTelemetry F) → immediate_transition fl cruise t ≡ false
  cruise_slow t = ground arith

  -- In cruise below a count of two, a sample that is no slew keeps the cruise.
  cruise_held :
      (e : FlightPhaseEngine F) (t₀ t : PhaseTelemetry F) (n : ℕ)
      → e.current_phase ≡ cruise
      → e.consecutive_ticks ≡ n
      → n < 2
      → e.last_telemetry ≡ some t₀
      → is_teleport fl (some t₀) t ≡ false
      → ((evaluate fl e t).0.current_phase ≡ cruise)
        × ((evaluate fl e t).0.consecutive_ticks ≡ n + 1)
        × ((evaluate fl e t).0.last_telemetry ≡ some t)
        × ((evaluate fl e t).1.phase ≡ cruise)
  cruise_held e t₀ t n p k low l steady =
      let (same, count, last) =
        evaluate-held e t (omega (arith, k, low)) (rw l steady) (rw p (cruise_slow t)) in
      (same ∙ p, omega (arith, count, k), last, evaluate-phase e t ∙ (same ∙ p))

module _ {F : Type 0} (fl : Float F) (e : FlightPhaseEngine F) (t1 t2 : PhaseTelemetry F) where
  -- The phase does not change on two successive samples, unless the second one is a slew, a
  -- touchdown out of `Final` or a liftoff out of `Takeoff` or `Preflight`.
  pub evaluate-no_double_change :
      let e1 = (evaluate fl e t1).0 in
      e1.current_phase ≢ e.current_phase
      → is_teleport fl e1.last_telemetry t2 ≡ false
      → immediate_transition fl e1.current_phase t2 ≡ false
      → ((evaluate fl e1 t2).0.current_phase ≡ e1.current_phase)
        × ((evaluate fl e1 t2).1.phase ≡ e1.current_phase)
  evaluate-no_double_change change steady slow =
      let e1 = (evaluate fl e t1).0 in
      let (same, _, _) = evaluate-held fl e1 t2 (evaluate-changed fl e t1 change) steady slow in
      (same, evaluate-phase fl e1 t2 ∙ same)

module _ {F : Type 0} (fl : Float F) (e : FlightPhaseEngine F) (t1 t2 t3 : PhaseTelemetry F) where
  -- A slew in the air resets the phase to `Cruise` at medium confidence, and the two samples that
  -- follow it, when they are no slews, report `Cruise` whatever they show.
  pub evaluate-slew_holds :
      let (e1, a1) = evaluate fl e t1 in
      let (e2, a2) = evaluate fl e1 t2 in
      is_teleport fl e.last_telemetry t1 ≡ true
      → t1.on_ground ≡ false
      → is_teleport fl (some t1) t2 ≡ false
      → is_teleport fl (some t2) t3 ≡ false
      → (a1.phase ≡ cruise)
        × (a1.confidence ≡ PhaseConfidence.medium)
        × (a2.phase ≡ cruise)
        × ((evaluate fl e2 t3).1.phase ≡ cruise)
  evaluate-slew_holds slew air s2 s3 =
      let (p1, n1, l1, c1) = evaluate-reset fl e t1 slew air in
      let e1 = (evaluate fl e t1).0 in
      let (p2, n2, l2, a2) = cruise_held fl e1 t1 t2 0 p1 n1 (omega arith) l1 s2 in
      let (_, _, _, a3) = cruise_held fl (evaluate fl e1 t2).0 t2 t3 1 p2 n2 (omega arith) l2 s3 in
      (evaluate-phase fl e t1 ∙ p1, c1, a2, a3)

pub phase_eq_refl : (p : FlightPhase) → phase_eq p p ≡ true
phase_eq_refl p = (==_iff (place p) (place p)).1 refl
