-- ===== src/Mission/Controller/Order.antt =====
-- crates/fd-mission/src/controller.rs, `MissionController::step`: the phases as a step relation, their
-- order, and what the flight must have shown before each.
use mathlib.Core.Path.{subst}
use flightdeck_os.Base.{
  ℕ, ◌+◌, ◌≤◌, ◌≡◌, refl, Bool, true, false, ◌&&◌, none, some, List, [], ◌∷◌, inl, inr, All, Any,
  All-mono, if◌then◌else◌, unwrap_or, arith, ◌==◌,
}
use flightdeck_os.Base.Floats.{Float}
use flightdeck_os.Mission.Controller.{
  is_some_and, FlightControlTargets, MissionPhase, MissionContext, MissionCommands,
  MissionParameters, MissionController, Tick, new, fail, grounded, airspeed, intended_tick, step,
}

module _ {F : Type 0} (fl : Float F) (params : MissionParameters F) where
  open fl use {lit, le, abs, sub}

  -- What a tick shows of the flight.
  abbrev pub near_descent : MissionContext F → Bool
  near_descent ctx = le ctx.distance_to_destination_nm params.descent_distance_nm

  abbrev pub near_approach : MissionContext F → Bool
  near_approach ctx = le ctx.distance_to_destination_nm params.approach_gate_nm

  abbrev pub slow_aground : MissionContext F → Bool
  slow_aground ctx = le (airspeed fl ctx) (lit 6) && grounded fl ctx

  -- The phase after a tick with the context `ctx`.
  pub data Moves (ctx : MissionContext F) : MissionPhase → MissionPhase → Type 0 where
    stays : (p : MissionPhase) → Moves ctx p p
    takes_off : Moves ctx MissionPhase.preflight MissionPhase.takeoff
    climbs : Moves ctx MissionPhase.takeoff MissionPhase.climb
    levels : Moves ctx MissionPhase.climb MissionPhase.cruise
    descends_early : near_descent ctx ≡ true → Moves ctx MissionPhase.climb MissionPhase.descent
    descends : near_descent ctx ≡ true → Moves ctx MissionPhase.cruise MissionPhase.descent
    approaches : near_approach ctx ≡ true → Moves ctx MissionPhase.descent MissionPhase.approach
    lands : grounded fl ctx ≡ true → Moves ctx MissionPhase.approach MissionPhase.landing
    parks : slow_aground ctx ≡ true → Moves ctx MissionPhase.landing MissionPhase.parked
    completes : Moves ctx MissionPhase.parked MissionPhase.completed

  module _ (ctx : MissionContext F) where
    -- A test decides between a next phase and the present one.
    next_if :
        (p q : MissionPhase) (b : Bool)
        → (b ≡ true → Moves ctx p q)
        → Moves ctx p (unwrap_or (if b then some q else none) p)
    next_if p q true f = f refl
    next_if p q false f = stays p

    tick_if :
        (p q : MissionPhase) (b : Bool) (cmds : MissionCommands F) (other : Tick F)
        → (b ≡ true → Moves ctx p q)
        → Moves ctx p (unwrap_or other.1 p)
        → Moves ctx p (unwrap_or (if b then (cmds, some q) else other).1 p)
    tick_if p q true cmds other f g = f refl
    tick_if p q false cmds other f g = g

    tick-Moves : (p : MissionPhase) → Moves ctx p (unwrap_or (intended_tick fl p ctx params).1 p)
    unfolding intended_tick
    tick-Moves MissionPhase.preflight =
        next_if MissionPhase.preflight MissionPhase.takeoff _ (λ e. takes_off)
    tick-Moves MissionPhase.takeoff =
        tick_if MissionPhase.takeoff MissionPhase.climb
          (is_some_and ctx.snapshot.altitude_agl (λ alt. le (lit 1500) alt)) _ _ (λ e. climbs)
          (stays MissionPhase.takeoff)
    tick-Moves MissionPhase.climb =
        tick_if MissionPhase.climb MissionPhase.descent (near_descent ctx) _ _
          (λ e. descends_early e)
          (tick_if MissionPhase.climb MissionPhase.cruise
            (is_some_and ctx.snapshot.altitude_msl
              (λ alt. le (abs (sub alt params.cruise_altitude_ft)) (lit 200)))
            _ _ (λ e. levels) (stays MissionPhase.climb))
    tick-Moves MissionPhase.cruise =
        tick_if MissionPhase.cruise MissionPhase.descent (near_descent ctx) _ _ (λ e. descends e)
          (stays MissionPhase.cruise)
    tick-Moves MissionPhase.descent =
        next_if MissionPhase.descent MissionPhase.approach _ (λ e. approaches e)
    tick-Moves MissionPhase.approach =
        next_if MissionPhase.approach MissionPhase.landing _ (λ e. lands e)
    tick-Moves MissionPhase.landing =
        next_if MissionPhase.landing MissionPhase.parked _ (λ e. parks e)
    tick-Moves MissionPhase.parked = completes
    tick-Moves MissionPhase.completed = stays MissionPhase.completed
    tick-Moves MissionPhase.failed = stays MissionPhase.failed

-- The place of a phase in a mission.
abbrev pub rank : MissionPhase → ℕ
rank MissionPhase.preflight = 0
rank MissionPhase.takeoff = 1
rank MissionPhase.climb = 2
rank MissionPhase.cruise = 3
rank MissionPhase.descent = 4
rank MissionPhase.approach = 5
rank MissionPhase.landing = 6
rank MissionPhase.parked = 7
rank MissionPhase.completed = 8
rank MissionPhase.failed = 9

module _ {F : Type 0} (fl : Float F) where
  Moves-rank :
      (params : MissionParameters F) (ctx : MissionContext F) (p q : MissionPhase)
      → Moves fl params ctx p q
      → rank p ≤ 8
      → (if rank p == rank q then 0 else 1) + rank p ≤ rank q × rank q ≤ 8
  Moves-rank params ctx p q (stays _) h = (ground arith, h)
  Moves-rank params ctx p q takes_off h = (ground arith, omega arith)
  Moves-rank params ctx p q climbs h = (ground arith, omega arith)
  Moves-rank params ctx p q levels h = (ground arith, omega arith)
  Moves-rank params ctx p q (descends_early _) h = (ground arith, omega arith)
  Moves-rank params ctx p q (descends _) h = (ground arith, omega arith)
  Moves-rank params ctx p q (approaches _) h = (ground arith, omega arith)
  Moves-rank params ctx p q (lands _) h = (ground arith, omega arith)
  Moves-rank params ctx p q (parks _) h = (ground arith, omega arith)
  Moves-rank params ctx p q completes h = (ground arith, omega arith)

  module _ {S : Type 0} (controls : FlightControlTargets F S) where
    step-Moves :
        (c : MissionController F) (ctx : MissionContext F) (s : S)
        → Moves fl c.params ctx c.phase (step fl controls c ctx s).1.phase
    unfolding step
    step-Moves c ctx s = tick-Moves fl c.params ctx c.phase

    -- How often the phase changes while these contexts come in.
    abbrev pub changes : MissionController F → S → List (MissionContext F) → ℕ
    changes c s [] = 0
    changes c s (ctx ∷ ctxs) =
        let (_, c', s') = step fl controls c ctx s in
        (if rank c.phase == rank c'.phase then 0 else 1) + changes c' s' ctxs

    changes-rank :
        (c : MissionController F) (s : S) (ctxs : List (MissionContext F))
        → rank c.phase ≤ 8
        → changes c s ctxs + rank c.phase ≤ 8
    changes-rank c s [] h = omega (arith, h)
    changes-rank c s (ctx ∷ ctxs) h =
        let (_, c', s') = step fl controls c ctx s in
        let (less, most) = Moves-rank c.params ctx c.phase c'.phase (step-Moves c ctx s) h in
        omega (arith, less, changes-rank c' s' ctxs most)

    -- Whatever a mission reads, from its start on it changes its phase at most 8 times.
    pub changes-new :
        (params : MissionParameters F) (s : S) (ctxs : List (MissionContext F))
        → changes (new params) s ctxs ≤ 8
    changes-new params s ctxs =
        let h = changes-rank (new params) s ctxs (omega arith) in omega (arith, h)

    -- The missions that steps and failures lead to, with the contexts read, latest first.
    pub data Reach (params : MissionParameters F)
        : List (MissionContext F) → MissionController F → Type 0 where
      start : Reach params [] (new params)
      stepped :
          {ctxs : List (MissionContext F)} {c : MissionController F}
          → Reach params ctxs c
          → (ctx : MissionContext F) (s : S)
          → Reach params (ctx ∷ ctxs) (step fl controls c ctx s).1
      failed :
          {ctxs : List (MissionContext F)} {c : MissionController F}
          → Reach params ctxs c
          → Reach params ctxs (fail c)

  module _ (params : MissionParameters F) where
    abbrev pub to_approach : List (MissionContext F → Bool)
    to_approach = near_approach fl params ∷ near_descent fl params ∷ []

    -- What must have been read before a phase, each in some context.
    abbrev pub required : MissionPhase → List (MissionContext F → Bool)
    required MissionPhase.descent = near_descent fl params ∷ []
    required MissionPhase.approach = to_approach
    required MissionPhase.landing = grounded fl ∷ to_approach
    required MissionPhase.parked = slow_aground fl params ∷ grounded fl ∷ to_approach
    required MissionPhase.completed = slow_aground fl params ∷ grounded fl ∷ to_approach
    required _ = []

    abbrev pub Passed : List (MissionContext F) → MissionPhase → Type 0
    Passed ctxs p = All (λ test. Any (λ ctx. test ctx ≡ true) ctxs) (required p)

    later :
        (ctx : MissionContext F) (ctxs : List (MissionContext F))
        (tests : List (MissionContext F → Bool))
        → All (λ test. Any (λ c. test c ≡ true) ctxs) tests
        → All (λ test. Any (λ c. test c ≡ true) (ctx ∷ ctxs)) tests
    later ctx ctxs tests = All-mono (λ test a. inr a) tests

    Moves-Passed :
        (ctx : MissionContext F) (ctxs : List (MissionContext F)) (p q : MissionPhase)
        → Moves fl params ctx p q
        → Passed ctxs p
        → Passed (ctx ∷ ctxs) q
    Moves-Passed ctx ctxs p q (stays _) h = later ctx ctxs (required p) h
    Moves-Passed ctx ctxs p q takes_off h = tt
    Moves-Passed ctx ctxs p q climbs h = tt
    Moves-Passed ctx ctxs p q levels h = tt
    Moves-Passed ctx ctxs p q (descends_early e) h = (inl e, tt)
    Moves-Passed ctx ctxs p q (descends e) h = (inl e, tt)
    Moves-Passed ctx ctxs p q (approaches e) h =
        (inl e, later ctx ctxs (required MissionPhase.descent) h)
    Moves-Passed ctx ctxs p q (lands e) h =
        (inl e, later ctx ctxs (required MissionPhase.approach) h)
    Moves-Passed ctx ctxs p q (parks e) h =
        (inl e, later ctx ctxs (required MissionPhase.landing) h)
    Moves-Passed ctx ctxs p q completes h = later ctx ctxs (required MissionPhase.parked) h

    module _ {S : Type 0} (controls : FlightControlTargets F S) where
      Reach-params :
          {ctxs : List (MissionContext F)} {c : MissionController F}
          → Reach controls params ctxs c
          → c.params ≡ params
      unfolding step
      Reach-params start = refl
      Reach-params (stepped r ctx s) = Reach-params r
      Reach-params (failed r) = Reach-params r

      -- In a mission that steps and failures lead to from its start: it descends only after a context
      -- within the descent distance, approaches only after one within the approach gate, lands only
      -- after one that is not known to be off the ground, and is parked or completed only after one
      -- that is so and not known to be faster than 6 knots; each of the later phases needs all of the
      -- earlier ones' contexts.
      pub Reach-Passed :
          {ctxs : List (MissionContext F)} {c : MissionController F}
          → Reach controls params ctxs c
          → Passed ctxs c.phase
      Reach-Passed start = tt
      Reach-Passed (stepped {ctxs} {c} r ctx s) =
          Moves-Passed ctx ctxs c.phase (step fl controls c ctx s).1.phase
            (subst (λ ps. Moves fl ps ctx c.phase (step fl controls c ctx s).1.phase)
              (Reach-params r) (step-Moves controls c ctx s))
            (Reach-Passed r)
      Reach-Passed (failed r) = tt
