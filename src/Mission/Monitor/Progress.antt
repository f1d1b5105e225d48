-- ===== src/Mission/Monitor/Progress.antt =====
-- crates/fd-mission/src/monitor.rs, `RouteMonitor::update`: it returns, and how the route progresses.
use mathlib.Core.Path.{subst}
use flightdeck_os.Base.{
  ℕ, zero, suc, ◌+◌, ◌-◌, ◌<◌, ◌≤◌, ◌≡◌, refl, sym, ◌∙◌, Bool, true, false, ◌||◌, none, some, List,
  [], ◌∷◌, length, is_empty, get_elem?, get_elem?-lt, ltb, ◌==◌, ◌>>=◌, if◌then◌else◌, arith, ◌⊎◌,
  inl, inr, Bool-cases, ==_iff, ltb_iff, if_true, if_false, ap, true_ne_false,
}
use flightdeck_os.Base.Floats.{Float, Trig}
use flightdeck_os.Mission.Route.{Waypoint, distance_to}
use flightdeck_os.Mission.Monitor.{
  RouteState, RouteObservation, RouteMonitor, windows, from_index, last, new, is_passed,
  advance_leg, advance_monitor, observe_leg, observe_to, observe, update,
}

length-windows :
    {A B : Type 0} (f : A → A → B) (xs : List A) → length (windows f xs) ≡ length xs - 1
length-windows f [] = omega arith
length-windows f (a ∷ []) = omega arith
length-windows f (a ∷ b ∷ xs) = omega (arith, length-windows f (b ∷ xs))

from_index-le :
    {A : Type 0} (i : ℕ) (xs : List A) → i ≤ length xs → (ys : List A) × (from_index i xs ≡ some ys)
from_index-le zero xs h = (xs, refl)
from_index-le (suc i) [] h = absurd (omega (arith, h))
from_index-le (suc i) (x ∷ xs) h = from_index-le i xs (omega (arith, h))

last-get :
    {A : Type 0} (xs : List A) (i : ℕ)
    → i + 1 ≡ length xs
    → (x : A) × (last xs ≡ some x) × (get_elem? xs i ≡ some x)
last-get [] i h = absurd (omega (arith, h))
last-get (x ∷ []) zero h = (x, refl, refl)
last-get (x ∷ []) (suc i) h = absurd (omega (arith, h))
last-get (x ∷ y ∷ xs) zero h = absurd (omega (arith, h))
last-get (x ∷ y ∷ xs) (suc i) h = last-get (y ∷ xs) i (omega (arith, h))

-- The legs precomputed for the route, and the active leg within it. A route with two waypoints or
-- more is complete exactly when its last waypoint is the active one.
pub record IsSound {F : Type 0} (m : RouteMonitor F) : Type 0 where
  pub bearings : length m.leg_bearings_deg ≡ length m.waypoints - 1
  pub lengths : length m.leg_lengths_nm ≡ length m.waypoints - 1
  pub in_range : 2 ≤ length m.waypoints → m.active_leg + 1 ≤ length m.waypoints
  pub complete :
      2 ≤ length m.waypoints → m.route_complete ≡ (m.active_leg + 1 == length m.waypoints)

module _ {F : Type 0} (fl : Float F) (tr : Trig F) where
  pub new-IsSound : (state : RouteState F) → IsSound (new fl tr state)
  unfolding new
  new-IsSound state = record {
    bearings = length-windows _ state.waypoints;
    lengths = length-windows _ state.waypoints;
    in_range = λ h. omega (arith, h);
    complete = λ h. ground (arith, h);
  }

  -- The position is within the capture radius of the last waypoint.
  abbrev pub HasArrived : RouteMonitor F → F → F → Type 0
  HasArrived m lat lon =
      (w : Waypoint F) × (last m.waypoints ≡ some w)
      × (fl.le (distance_to fl tr lat lon w) m.capture_radius_nm ≡ true)

  module _ (lat lon : F) where
    -- Where the loop over the legs stops: ahead on the route, and at its end only on arrival.
    record Stops (wps : List (Waypoint F)) (radius : F) (leg stop : ℕ) : Type 0 where
      ahead : leg ≤ stop
      within : stop + 1 ≤ length wps
      arrived :
          stop + 1 ≡ length wps
          → (leg + 1 ≡ length wps)
            ⊎ ((w : Waypoint F) × (get_elem? wps stop ≡ some w)
                × (fl.le (distance_to fl tr lat lon w) radius ≡ true))

    -- The final waypoint is passed by arrival alone.
    passed_final :
        (radius : F) (is_final : Bool) (current next : Waypoint F)
        → is_passed fl tr lat lon radius is_final current next ≡ true
        → is_final ≡ true
        → fl.le (distance_to fl tr lat lon next) radius ≡ true
    passed_final radius is_final current next p f = ground (arith, p, f)

    advance_leg-Stops :
        (wps : List (Waypoint F)) (radius : F) (fuel leg : ℕ)
        → leg + 1 ≤ length wps
        → length wps < leg + 1 + fuel
        → (stop : ℕ) × (advance_leg fl tr lat lon wps radius fuel leg ≡ some stop)
          × Stops wps radius leg stop
    unfolding advance_leg
    advance_leg-Stops wps radius zero leg h f = absurd (omega (arith, h, f))
    advance_leg-Stops wps radius (suc fuel) leg h f =
        elim (Bool-cases (ltb (leg + 1) (length wps))) [
          | inr e ↦
              rw e (leg, refl, record { ahead = omega arith; within = h; arrived = λ q. inl q })
          | inl e ↦
              let lt = (ltb_iff (leg + 1) (length wps)).0 e in
              let (next, en) = get_elem?-lt wps (leg + 1) lt in
              let (current, ec) = get_elem?-lt wps leg (omega (arith, h)) in
              let (stop, es, st) =
                advance_leg-Stops wps radius fuel (leg + 1) (omega (arith, lt))
                  (omega (arith, f)) in
              let is_final = leg + 2 == length wps in
              rw e (
                rw en (
                  rw ec (elim (Bool-cases (is_passed fl tr lat lon radius is_final current next)) [
                    | inr p ↦ rw p (
                      leg,
                      refl,
                      record { ahead = omega arith; within = h; arrived = λ q. inl q },
                    )
                    | inl p ↦ rw p (
                      stop,
                      es,
                      record {
                        ahead = omega (arith, st.ahead);
                        within = st.within;
                        arrived = λ q. elim (st.arrived q) [
                          | inr there ↦ inr there
                          | inl r ↦ inr (
                            next,
                            subst (λ i. get_elem? wps i ≡ some next) (omega (arith, r, q)) en,
                            passed_final radius is_final current next p
                                ((==_iff (leg + 2) (length wps)).1 (omega (arith, r))),
                          )
                        ];
                      },
                    )
                  ])))
        ]

    -- What an update makes of a monitor.
    pub record Progress (m m' : RouteMonitor F) : Type 0 where
      pub same_route : m'.waypoints ≡ m.waypoints
      pub forward : m.active_leg ≤ m'.active_leg
      pub stays_complete : m.route_complete ≡ true → m'.route_complete ≡ true
      pub arrives : m.route_complete ≡ false → m'.route_complete ≡ true → HasArrived m lat lon

    arrives :
        (m : RouteMonitor F)
        → 2 ≤ length m.waypoints
        → IsSound m
        → (stop : ℕ) → Stops m.waypoints m.capture_radius_nm m.active_leg stop
        → m.route_complete ≡ false
        → stop + 1 ≡ length m.waypoints
        → HasArrived m lat lon
    arrives m two h stop st c q =
        let (w, final, at_stop) = last-get m.waypoints stop q in
        elim (st.arrived q) [
          | inl there ↦ absurd (
              true_ne_false (
                sym ((==_iff (m.active_leg + 1) (length m.waypoints)).1 there)
                ∙ (sym (h.complete two) ∙ c)))
          | inr (w', e, near) ↦ (w', final ∙ (sym at_stop ∙ e), near)
        ]

    advance_monitor-Progress :
        (m : RouteMonitor F)
        → 2 ≤ length m.waypoints
        → IsSound m
        → (m' : RouteMonitor F) × (advance_monitor fl tr lat lon m ≡ some m')
          × IsSound m'
          × Progress m m'
    unfolding advance_monitor
    advance_monitor-Progress m two h = elim (Bool-cases m.route_complete) [
      | inl c ↦ (
        m,
        if_true _ _ c,
        h,
        record {
          same_route = refl;
          forward = omega arith;
          stays_complete = λ e. e;
          arrives = λ f t. absurd (true_ne_false (sym c ∙ f));
        },
      )
      | inr c ↦
          let (stop, e, st) =
            advance_leg-Stops m.waypoints m.capture_radius_nm (length m.waypoints + 1) m.active_leg
              (h.in_range two) (omega arith) in
          let m' = record m {
            active_leg = stop;
            route_complete = stop + 1 == length m.waypoints;
          } in
          (
            m',
            if_false _ _ c
                ∙ ap
                    (λ o. o >>= λ leg. some (record m {
                      active_leg = leg;
                      route_complete = leg + 1 == length m.waypoints;
                    }))
                    e,
            record {
              bearings = h.bearings;
              lengths = h.lengths;
              in_range = λ _. st.within;
              complete = λ _. refl;
            },
            record {
              same_route = refl;
              forward = st.ahead;
              stays_complete = λ t. absurd (true_ne_false (sym t ∙ c));
              arrives =
                  λ _ t. arrives m two h stop st c ((==_iff (stop + 1) (length m.waypoints)).0 t);
            },
          )
    ]

    -- What an observation says of the monitor it leaves.
    pub record Observes (m : RouteMonitor F) (obs : RouteObservation F) : Type 0 where
      pub completion : obs.route_complete ≡ m.route_complete
      pub leg : obs.active_leg ≡ (if m.route_complete then none else some m.active_leg)

    observe_leg-some :
        (m : RouteMonitor F) (d : F)
        → IsSound m
        → m.active_leg + 1 < length m.waypoints
        → (obs : RouteObservation F) × (observe_leg fl tr lat lon m d ≡ some obs)
          × (obs.route_complete ≡ false)
          × (obs.active_leg ≡ some m.active_leg)
    unfolding observe_leg
    observe_leg-some m d h lt =
        let (from, e₁) = get_elem?-lt m.waypoints m.active_leg (omega (arith, lt)) in
        let (to, e₂) = get_elem?-lt m.waypoints (m.active_leg + 1) lt in
        let (b, e₃) =
          get_elem?-lt m.leg_bearings_deg m.active_leg (omega (arith, lt, h.bearings)) in
        let (r, e₄) =
          from_index-le (m.active_leg + 1) m.leg_lengths_nm (omega (arith, lt, h.lengths)) in
        rw e₁ (rw e₂ (rw e₃ (rw e₄ (_, refl, refl, refl))))

    observe_to-Observes :
        (m : RouteMonitor F) (d : F)
        → 2 ≤ length m.waypoints
        → IsSound m
        → (obs : RouteObservation F) × (observe_to fl tr lat lon m d ≡ some obs) × Observes m obs
    unfolding observe_to
    observe_to-Observes m d two h = elim (Bool-cases m.route_complete) [
      | inl c ↦ (_, if_true _ _ c, record { completion = sym c; leg = sym (if_true _ _ c) })
      | inr c ↦
          let (obs, eo, f, l) =
            observe_leg-some m d h (ground (arith, h.in_range two, h.complete two, c)) in
          (
            obs,
            if_false _ _ c ∙ eo,
            record { completion = f ∙ sym c; leg = l ∙ sym (if_false _ _ c) },
          )
    ]

    observe-Observes :
        (m : RouteMonitor F)
        → 2 ≤ length m.waypoints
        → IsSound m
        → (obs : RouteObservation F) × (observe fl tr lat lon m ≡ some obs) × Observes m obs
    unfolding observe
    observe-Observes m two h =
        let (w, e, _) = last-get m.waypoints (length m.waypoints - 1) (omega (arith, two)) in
        let (obs, eo, o) = observe_to-Observes m (distance_to fl tr lat lon w) two h in
        (
          obs,
          ap (λ l. l >>= λ dest. observe_to fl tr lat lon m (distance_to fl tr lat lon dest)) e
              ∙ eo,
          o,
        )

    has_legs :
        (m : RouteMonitor F)
        → 2 ≤ length m.waypoints
        → IsSound m
        → (is_empty m.leg_bearings_deg || ltb (length m.waypoints) 2) ≡ false
    has_legs m two h = go m.leg_bearings_deg (omega (arith, two, h.bearings))
      where
        go : (bs : List F) → 0 < length bs → (is_empty bs || ltb (length m.waypoints) 2) ≡ false
        go [] l = absurd (omega (arith, l))
        go (b ∷ bs) l = ground (arith, two)

    -- For every monitor of a route with two waypoints or more whose legs fit the route, an update
    -- returns: no index is out of bounds and the loop over the legs ends. The route stays, the
    -- active leg never goes back, a complete route stays complete, it becomes complete only within
    -- the capture radius of its last waypoint, and the observation names the monitor's leg. That holds
    -- whatever the route's source is: one whose source is `Unknown` is observed like any other.
    pub update-Progress :
        (m : RouteMonitor F)
        → 2 ≤ length m.waypoints
        → IsSound m
        → (obs : RouteObservation F) × (m' : RouteMonitor F) × (update fl tr lat lon m
            ≡ some (obs, m'))
          × IsSound m'
          × Progress m m'
          × Observes m' obs
    unfolding update
    update-Progress m two h =
        let (m', e, sound, p) = advance_monitor-Progress m two h in
        let (obs, eo, o) =
          observe-Observes m' (subst (λ ws. 2 ≤ length ws) (sym p.same_route) two) sound in
        (
          obs,
          m',
          if_false _ _ (has_legs m two h)
              ∙ (ap (λ x. x >>= λ n. observe fl tr lat lon n >>= λ o. some (o, n)) e
                  ∙ ap (λ x. x >>= λ o. some (o, m')) eo),
          sound,
          p,
          o,
        )
