-- ===== src/Fdm/Session/Order.antt =====
-- crates/fd-fdm/src/session.rs, `SessionTracker::advance`: what moves a session, and in which order.
use mathlib.Core.Path.{subst}
use mathlib.Core.Option.{none-ne-some}
use flightdeck_os.Base.{
  ℕ, ◌+◌, ◌≤◌, ◌≡◌, ◌≢◌, refl, sym, ap, ◌∙◌, Bool, true, false, Option, none, some, if◌then◌else◌,
  ◌⊎◌, inl, inr, Bool-cases, if_true, if_false, true_ne_false, arith,
}
use flightdeck_os.Base.Floats.{Float}
use flightdeck_os.Fdm.Session.{
  FlightSessionState, SessionEvidence, Pending, pending_eq, SessionTracker, new, lifecycle,
  target_state, is_airborne, apply, is_pending, in_flight, settle, sustain_target, flight_desired,
  desired, observe, is_closed, advance, close,
}

-- A pending transition has held for one observation.
abbrev Held : SessionTracker → Type 0
Held t =
    ((t.pending ≡ none) × (t.sustain ≡ 0))
    ⊎ ((p : Pending) × (t.pending ≡ some p) × (t.sustain ≡ 1))

-- What the debounce makes of a desired transition.
data Outcome (t : SessionTracker) (d : Option Pending) (t' : SessionTracker) : Type 0 where
  clears : d ≡ none → t' ≡ record t { sustain = 0; pending = none } → Outcome t d t'
  waits :
      (p : Pending) → d ≡ some p → t' ≡ record t { sustain = 1; pending = some p } → Outcome t d t'
  moves : (p : Pending) → d ≡ some p → t.pending ≡ some p → t' ≡ apply t p → Outcome t d t'

pending_eq_sound : (p q : Pending) → pending_eq p q ≡ true → p ≡ q
pending_eq_sound Pending.airborne Pending.airborne e = refl
pending_eq_sound Pending.landing Pending.landing e = refl
pending_eq_sound Pending.parked Pending.parked e = refl
pending_eq_sound Pending.airborne Pending.landing e = absurd (true_ne_false (sym e))
pending_eq_sound Pending.airborne Pending.parked e = absurd (true_ne_false (sym e))
pending_eq_sound Pending.landing Pending.airborne e = absurd (true_ne_false (sym e))
pending_eq_sound Pending.landing Pending.parked e = absurd (true_ne_false (sym e))
pending_eq_sound Pending.parked Pending.airborne e = absurd (true_ne_false (sym e))
pending_eq_sound Pending.parked Pending.landing e = absurd (true_ne_false (sym e))

pending_eq_refl : (p : Pending) → pending_eq p p ≡ true
pending_eq_refl Pending.airborne = refl
pending_eq_refl Pending.landing = refl
pending_eq_refl Pending.parked = refl

is_pending_of :
    (t : SessionTracker) (p q : Pending)
    → t.pending ≡ some p
    → is_pending t.pending q ≡ pending_eq p q
is_pending_of t p q e = ap (λ o. is_pending o q) e

sustain_target-Outcome :
    (t : SessionTracker) (d : Option Pending) → Held t → Outcome t d (sustain_target t d)
unfolding sustain_target
sustain_target-Outcome t none h = clears refl refl
sustain_target-Outcome t (some q) (inl (e, n)) =
    waits q refl (ap (settle t q) (if_false _ _ (ap (λ o. is_pending o q) e)))
sustain_target-Outcome t (some q) (inr (p, e, n)) = elim (Bool-cases (pending_eq p q)) [
  | inl c ↦
      moves q refl (e ∙ ap some (pending_eq_sound p q c))
        (ap (settle t q) (if_true _ _ (is_pending_of t p q e ∙ c) ∙ ap (λ k. k + 1) n))
  | inr c ↦ waits q refl (ap (settle t q) (if_false _ _ (is_pending_of t p q e ∙ c)))
]

-- The sessions that observations and closes lead to.
module _ {F : Type 0} (fl : Float F) where
  pub data Reachable : SessionTracker → Type 0 where
    start : Reachable new
    advanced :
        {t : SessionTracker} → Reachable t → (ev : SessionEvidence F) → Reachable (advance fl t ev)
    closed : {t : SessionTracker} → Reachable t → Reachable (close t)

-- The states that only a flight leads to.
abbrev pub needs_flight : FlightSessionState → Bool
needs_flight FlightSessionState.airborne = true
needs_flight FlightSessionState.parked = true
needs_flight _ = false

record IsSound (t : SessionTracker) : Type 0 where
  held : Held t
  flown : needs_flight t.state ≡ true → t.ever_airborne ≡ true
  parks : t.pending ≡ some Pending.parked → t.ever_airborne ≡ true

module _ {F : Type 0} (fl : Float F) where
  lifecycle_flown :
      (s : FlightSessionState) (ev : SessionEvidence F)
      → needs_flight (lifecycle s ev) ≡ true
      → needs_flight s ≡ true
  lifecycle_flown FlightSessionState.awaiting_simulator ev e = ground (arith, e)
  lifecycle_flown FlightSessionState.connected ev e = ground (arith, e)
  lifecycle_flown FlightSessionState.aircraft_detected ev e = ground (arith, e)
  lifecycle_flown FlightSessionState.recording ev e = e
  lifecycle_flown FlightSessionState.airborne ev e = e
  lifecycle_flown FlightSessionState.landing ev e = e
  lifecycle_flown FlightSessionState.parked ev e = e
  lifecycle_flown FlightSessionState.session_closed ev e = e

  -- Parking is asked for only after a flight.
  flight_desired_parked :
      (ev : SessionEvidence F) (ever : Bool)
      → flight_desired fl ev ever ≡ some Pending.parked
      → ever ≡ true
  unfolding flight_desired
  flight_desired_parked ev ever e = ground (arith, e)

  desired-flight :
      (t : SessionTracker) (ev : SessionEvidence F) (p : Pending)
      → desired fl t ev ≡ some p
      → (in_flight t.state ≡ true) × (flight_desired fl ev t.ever_airborne ≡ some p)
  desired-flight t ev p e = elim (Bool-cases (in_flight t.state)) [
    | inl f ↦ (f, sym (if_true _ _ f) ∙ e)
    | inr f ↦ absurd (none-ne-some _ (sym (if_false _ _ f) ∙ e))
  ]

  Outcome-IsSound :
      (t : SessionTracker) (ev : SessionEvidence F) (t' : SessionTracker)
      → IsSound t
      → Outcome t (desired fl t ev) t'
      → IsSound t'
  Outcome-IsSound t ev t' h (clears e q) =
      subst IsSound (sym q) (record {
        held = inl (refl, refl);
        flown = h.flown;
        parks = λ a. absurd (none-ne-some _ a);
      })
  Outcome-IsSound t ev t' h (waits p e q) = subst IsSound (sym q) (record {
    held = inr (p, refl, refl);
    flown = h.flown;
    parks = λ a. flight_desired_parked ev t.ever_airborne ((desired-flight t ev p e).1 ∙ a);
  })
  Outcome-IsSound t ev t' h (moves p e w q) = subst IsSound (sym q) (record {
    held = inl (refl, refl);
    flown = flown p w;
    parks = λ a. absurd (none-ne-some _ a);
  })
    where
      flown :
          (p : Pending)
          → t.pending ≡ some p
          → needs_flight (target_state p) ≡ true
          → (if is_airborne p then true else t.ever_airborne) ≡ true
      flown Pending.airborne w n = refl
      flown Pending.landing w n = absurd (true_ne_false (sym n))
      flown Pending.parked w n = h.parks w

  -- The session with the state that the single-evidence facts give it.
  abbrev noted : SessionTracker → SessionEvidence F → SessionTracker
  noted t ev = record t { state = lifecycle t.state ev }

  advance-cases :
      (t : SessionTracker) (ev : SessionEvidence F)
      → IsSound t
      → ((t.state ≡ FlightSessionState.session_closed) × (advance fl t ev ≡ t))
        ⊎ Outcome (noted t ev) (desired fl (noted t ev) ev) (advance fl t ev)
  unfolding advance observe
  advance-cases t ev h = elim (Bool-cases (is_closed t.state)) [
    | inl c ↦ inl (closed t.state c, if_true _ _ c)
    | inr c ↦ inr (
        subst (Outcome (noted t ev) (desired fl (noted t ev) ev)) (sym (if_false _ _ c))
          (sustain_target-Outcome (noted t ev) (desired fl (noted t ev) ev) h.held))
  ]
    where
      closed : (s : FlightSessionState) → is_closed s ≡ true → s ≡ FlightSessionState.session_closed
      closed s e = ground (arith, e)

  Reachable-IsSound : {t : SessionTracker} → Reachable fl t → IsSound t
  Reachable-IsSound start = record {
    held = inl (refl, refl);
    flown = λ e. e;
    parks = λ a. absurd (none-ne-some _ a);
  }
  Reachable-IsSound (advanced {t} r ev) =
      let h = Reachable-IsSound r in
      let h' : IsSound (noted t ev) = record {
        held = h.held;
        flown = λ e. h.flown (lifecycle_flown t.state ev e);
        parks = h.parks;
      } in
      elim (advance-cases t ev h) [
        | inl (_, e) ↦ subst IsSound (sym e) h
        | inr o ↦ Outcome-IsSound (noted t ev) ev (advance fl t ev) h' o
      ]
  Reachable-IsSound (closed r) =
      let h = Reachable-IsSound r in
      record { held = h.held; flown = λ e. absurd (true_ne_false (sym e)); parks = h.parks }

  -- In every session that observations and closes lead to from a new one, in any order, the states
  -- airborne and parked are entered only once the session has been recorded as airborne.
  pub Reachable-flown :
      {t : SessionTracker} → Reachable fl t → needs_flight t.state ≡ true → t.ever_airborne ≡ true
  Reachable-flown r = (Reachable-IsSound r).flown

  -- What a change of the flight state takes.
  moved :
      (t : SessionTracker) (ev : SessionEvidence F) (t' : SessionTracker)
      → t'.state ≢ t.state
      → Outcome t (desired fl t ev) t'
      → (p : Pending) × (desired fl t ev ≡ some p)
        × (t.pending ≡ some p)
        × (t'.state ≡ target_state p)
  moved t ev t' n (clears e q) = absurd (n (ap (λ u. u.state) q))
  moved t ev t' n (waits p e q) = absurd (n (ap (λ u. u.state) q))
  moved t ev t' n (moves p e w q) = (p, e, w, ap (λ u. u.state) q)

  -- Where a pending transition comes from.
  pended :
      (t : SessionTracker) (ev : SessionEvidence F) (t' : SessionTracker) (p : Pending)
      → t'.pending ≡ some p
      → Outcome t (desired fl t ev) t'
      → (desired fl t ev ≡ some p)
  pended t ev t' p w (clears e q) = absurd (none-ne-some _ (sym (ap (λ u. u.pending) q) ∙ w))
  pended t ev t' p w (waits p' e q) = e ∙ (sym (ap (λ u. u.pending) q) ∙ w)
  pended t ev t' p w (moves p' e w' q) = absurd (none-ne-some _ (sym (ap (λ u. u.pending) q) ∙ w))

  in_flight-lifecycle :
      (s : FlightSessionState) (ev : SessionEvidence F) → in_flight s ≡ true → lifecycle s ev ≡ s
  in_flight-lifecycle s ev f = ground (arith, f)

  not_closed : (s : FlightSessionState) → in_flight s ≡ true → s ≢ FlightSessionState.session_closed
  not_closed s f e = true_ne_false (sym f ∙ ap in_flight e)

  -- After any history of a session, two observations `ev₁` and `ev₂` in a row: when the second one
  -- changes the state of a session in flight, then both asked for the same transition, and the state
  -- becomes what that transition leads to.
  pub advance-debounced :
      {t : SessionTracker}
      → Reachable fl t
      → (ev₁ ev₂ : SessionEvidence F) → in_flight (advance fl t ev₁).state ≡ true
      → (advance fl (advance fl t ev₁) ev₂).state ≢ (advance fl t ev₁).state
      → (p : Pending) × (flight_desired fl ev₁ t.ever_airborne ≡ some p)
        × (flight_desired fl ev₂ (advance fl t ev₁).ever_airborne ≡ some p)
        × ((advance fl (advance fl t ev₁) ev₂).state ≡ target_state p)
  advance-debounced {t} r ev₁ ev₂ f n =
      let t₁ = advance fl t ev₁ in
      elim (advance-cases t₁ ev₂ (Reachable-IsSound (advanced r ev₁))) [
        | inl (c, _) ↦ absurd (not_closed t₁.state f c)
        | inr o₂ ↦
            let same = in_flight-lifecycle t₁.state ev₂ f in
            let (p, e₂, w, s) =
              moved (noted t₁ ev₂) ev₂ (advance fl t₁ ev₂) (λ q. n (q ∙ same)) o₂ in
            elim (advance-cases t ev₁ (Reachable-IsSound r)) [
              | inl (c, e) ↦ absurd (not_closed t₁.state f (ap (λ u. u.state) e ∙ c))
              | inr o₁ ↦
                  let e₁ = pended (noted t ev₁) ev₁ t₁ p w o₁ in
                  (
                    p,
                    (desired-flight (noted t ev₁) ev₁ p e₁).1,
                    (desired-flight (noted t₁ ev₂) ev₂ p e₂).1,
                    s,
                  )
            ]
      ]

-- How far a session has come; recording and the flight are one stage.
abbrev pub stage : FlightSessionState → ℕ
stage FlightSessionState.awaiting_simulator = 0
stage FlightSessionState.connected = 1
stage FlightSessionState.aircraft_detected = 2
stage FlightSessionState.recording = 3
stage FlightSessionState.airborne = 3
stage FlightSessionState.landing = 3
stage FlightSessionState.parked = 4
stage FlightSessionState.session_closed = 5

module _ {F : Type 0} (fl : Float F) where
  stage-lifecycle :
      (s : FlightSessionState) (ev : SessionEvidence F) → stage s ≤ stage (lifecycle s ev)
  stage-lifecycle s ev = ground arith

  stage-target :
      (s : FlightSessionState) (p : Pending) → in_flight s ≡ true → stage s ≤ stage (target_state p)
  stage-target s p f = ground (arith, f)

  Outcome-stage :
      (t : SessionTracker) (ev : SessionEvidence F) (t' : SessionTracker)
      → Outcome t (desired fl t ev) t'
      → stage t.state ≤ stage t'.state
  Outcome-stage t ev t' (clears e q) =
      subst (λ s. stage t.state ≤ stage s) (ap (λ u. u.state) (sym q)) (omega arith)
  Outcome-stage t ev t' (waits p e q) =
      subst (λ s. stage t.state ≤ stage s) (ap (λ u. u.state) (sym q)) (omega arith)
  Outcome-stage t ev t' (moves p e w q) =
      subst (λ s. stage t.state ≤ stage s) (ap (λ u. u.state) (sym q))
        (stage-target t.state p (desired-flight fl t ev p e).0)

  -- After any history of a session, an observation never takes it to an earlier stage: not from
  -- recording or the flight back to the detection of the aircraft, and not out of the states parked
  -- and closed.
  pub advance-stage :
      {t : SessionTracker}
      → Reachable fl t
      → (ev : SessionEvidence F) → stage t.state ≤ stage (advance fl t ev).state
  advance-stage {t} r ev = elim (advance-cases fl t ev (Reachable-IsSound fl r)) [
    | inl (_, e) ↦ subst (λ u. stage t.state ≤ stage u.state) (sym e) (omega arith)
    | inr o ↦
        let a = stage-lifecycle t.state ev in
        let b = Outcome-stage (noted fl t ev) ev (advance fl t ev) o in omega (arith, a, b)
  ]
