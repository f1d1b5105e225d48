-- ===== src/Simconnect/Mapping/Observed.antt =====
-- Mapping: no field of a snapshot is known unless the payload holds a finite datum for it.
use mathlib.Core.Option
use mathlib.Core.Path.{subst}
use mathlib.Core.Option.{none-ne-some}
use flightdeck_os.Base.{
  ℕ, ◌+◌, ◌≤◌, ◌==◌, ==_iff, [], ◌∷◌, Bool, true, false, ◌≡◌, ◌≢◌, ◌⊎◌, refl, ap, List, Option,
  none, some, get_elem?, Option-cases, Bool-cases, inl, inr, arith,
}
use flightdeck_os.Base.Floats.{Float, Trig}
use flightdeck_os.Core.Telemetry.{SimState, TelemetrySnapshot, BTreeMap, get}
use flightdeck_os.Simconnect.Mapping.{
  Casts, or, filter, as_bool, as_number, datum, position_of, flaps_of, combustion_of, state_of,
  collect, map_telemetry,
}

module _ {F : Type 0} (fl : Float F) (tr : Trig F) (cs : Casts F) (values : List F) where
  -- The payload holds a finite datum at this index.
  abbrev pub Has : ℕ → Type 0
  Has i = (x : F) × (get_elem? values i ≡ some x) × (fl.is_finite x ≡ true)

  -- An unknown field, or one whose datum was received.
  abbrev pub Observed : {A : Type 0} → ℕ → Option A → Type 0
  Observed i o = (o ≡ none) ⊎ Has i

  -- The aircraft's own values: one of the ids 1 to 5, or not there.
  abbrev pub Owned : ℕ → BTreeMap F → Type 0
  Owned k own_values = (get k own_values ≡ none) ⊎ ((1 ≤ k) × (k ≤ 5) × Has (20 + k))

  -- The fields of a snapshot by their indices in the payload.
  abbrev pub AreObserved : Option Bool → TelemetrySnapshot F → Type 0
  AreObserved event_paused s =
      ((s.position ≡ none) ⊎ (Has 0 × Has 1))
      × Observed 2 s.altitude_msl
      × Observed 3 s.altitude_agl
      × Observed 4 s.groundspeed
      × Observed 5 s.indicated_airspeed
      × Observed 6 s.vertical_speed
      × Observed 7 s.heading_true
      × Observed 8 s.pitch
      × Observed 9 s.bank
      × Observed 10 s.on_ground
      × Observed 11 s.gear_handle_down
      × Observed 12 s.flaps_handle_index
      × ((s.engine_combustion ≡ none) ⊎ (Has 13 ⊎ Has 14))
      × Observed 15 s.autopilot_master
      × Observed 16 s.autothrottle_arm
      × Observed 17 s.beacon_light
      × ((s.sim_timing.state ≡ SimState.unknown) ⊎ (Has 18 ⊎ (event_paused ≢ none)))
      × Observed 19 s.sim_timing.sim_rate
      × Observed 20 s.sim_timing.slew_active
      × ((k : ℕ) → Owned k s.aircraft_values)

  module _ (nan_lem : fl.is_finite cs.nan ≡ false) where
    datum_cases : (i : ℕ) → (fl.is_finite (datum fl tr cs values i) ≡ false) ⊎ Has i
    unfolding datum
    datum_cases i = elim (Option-cases (get_elem? values i)) [
      | inl e ↦ inl (rw e nan_lem)
      | inr (x, e) ↦ elim (Bool-cases (fl.is_finite x)) [
        | inl y ↦ inr (x, e, y)
        | inr n ↦ inl (rw e n)
      ]
    ]

    number : (i : ℕ) → Observed i (as_number fl tr cs (datum fl tr cs values i))
    unfolding as_number
    number i = elim (datum_cases i) [ inl e ↦ inl (rw e refl) | inr h ↦ inr h ]

    flag : (i : ℕ) → Observed i (as_bool fl tr cs (datum fl tr cs values i))
    unfolding as_bool
    flag i = elim (datum_cases i) [ inl e ↦ inl (rw e refl) | inr h ↦ inr h ]

    mapped :
        {A B : Type 0} (i : ℕ) (f : A → B) (o : Option A)
        → Observed i o
        → Observed i (Option.map f o)
    mapped i f o (inl e) = inl (ap (Option.map f) e)
    mapped i f o (inr h) = inr h

    both :
        (i j : ℕ) {A B C : Type 0} (f : Option A → Option B → Option C) (o : Option A)
        (p : Option B)
        → (f none p ≡ none)
        → ((x : A) → f (some x) none ≡ none)
        → Observed i o
        → Observed j p
        → (f o p ≡ none) ⊎ (Has i × Has j)
    both i j f none p e g (inl _) k = inl e
    both i j f none p e g (inr _) k = inl e
    both i j f (some x) none e g h k = inl (g x)
    both i j f (some x) (some y) e g (inl n) k = cc
    both i j f (some x) (some y) e g (inr h) (inl n) = cc
    both i j f (some x) (some y) e g (inr h) (inr k) = inr (h, k)

    flaps : (i : ℕ) → Observed i (flaps_of fl tr cs (datum fl tr cs values i))
    flaps i = elim (datum_cases i) [ inl e ↦ inl (ground (arith, e)) | inr h ↦ inr h ]

    positive :
        {A : Type 0} (i : ℕ) (p : A → Bool) (o : Option A) → Observed i o → Observed i (filter p o)
    positive i p none h = inl refl
    positive i p (some x) (inl n) = cc
    positive i p (some x) (inr h) = inr h

    engines :
        (i j : ℕ) (o p : Option Bool)
        → Observed i o
        → Observed j p
        → (combustion_of fl tr cs o p ≡ none) ⊎ (Has i ⊎ Has j)
    engines i j none none h k = inl refl
    engines i j (some b) p (inl n) k = cc
    engines i j (some b) p (inr h) k = inr (inl h)
    engines i j none (some c) h (inl n) = cc
    engines i j none (some c) h (inr k) = inr (inr k)

    timing :
        (i : ℕ) (o paused : Option Bool)
        → Observed i o
        → (state_of fl tr cs (or o paused) ≡ SimState.unknown) ⊎ (Has i ⊎ (paused ≢ none))
    timing i none none h = inl refl
    timing i none (some b) h = inr (inr (λ e. cc))
    timing i (some b) p (inl n) = cc
    timing i (some b) p (inr h) = inr (inl h)

    -- A value of the aircraft's own is the datum of the index 20 above its id.
    own :
        (id k : ℕ) (rest : List (ℕ × F))
        → 1 ≤ id
        → id ≤ 5
        → Owned k (collect fl tr cs rest)
        → Owned k (collect fl tr cs ((id, datum fl tr cs values (20 + id)) ∷ rest))
    unfolding collect
    own id k rest low high h = elim (number (20 + id)) [
      | inl e ↦ rw (e, collect) h
      | inr received ↦ elim (Bool-cases (id == k)) [
        | inl y ↦ inr (
          ground (arith, y, low),
          ground (arith, y, high),
          subst (λ j. Has (20 + j)) ((==_iff id k).0 y) received,
        )
        | inr n ↦ ground (arith, n, h)
      ]
    ]

    -- Whatever the payload, a known field of the snapshot has been received: the payload holds a finite
    -- value at the field's index. A position needs both its parts, the engines need one of the two, and
    -- the simulation's state may come from a pause event instead.
    -- The aircraft's own values have the ids 1 to 5 and stand 20 above them.
    pub map_telemetry_observed :
        (event_paused : Option Bool)
        → AreObserved event_paused (map_telemetry fl tr cs values event_paused)
    unfolding map_telemetry
    map_telemetry_observed event_paused = (
      both 0 1 (position_of fl tr cs) _ _ refl (λ _. refl) (number 0) (number 1),
      number 2,
      number 3,
      number 4,
      number 5,
      number 6,
      mapped 7 _ _ (number 7),
      mapped 8 _ _ (number 8),
      mapped 9 _ _ (number 9),
      flag 10,
      flag 11,
      flaps 12,
      engines 13 14 _ _ (flag 13) (flag 14),
      flag 15,
      flag 16,
      flag 17,
      timing 18 _ event_paused (flag 18),
      positive 19 _ _ (number 19),
      flag 20,
      λ k. own 1 k (at 2 ∷ at 3 ∷ at 4 ∷ at 5 ∷ []) (omega arith) (omega arith) (
          own 2 k (at 3 ∷ at 4 ∷ at 5 ∷ []) (omega arith) (omega arith) (
            own 3 k (at 4 ∷ at 5 ∷ []) (omega arith) (omega arith) (
              own 4 k (at 5 ∷ []) (omega arith) (omega arith)
                (own 5 k [] (omega arith) (omega arith) (inl refl))))),
    )
      where
        at : ℕ → ℕ × F
        at id = (id, datum fl tr cs values (20 + id))
