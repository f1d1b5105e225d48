-- ===== src/Virtual/Adapter/Masks.antt =====
-- Adapter: a configuration that validates never meets the snapshot's unreachable arm.
use flightdeck_os.Base.{
  ℕ, ◌+◌, ◌^◌, ◌<◌, false, not, ltb, ltb_iff, Bool, ◌≡◌, refl, sym, ap, ◌∙◌, List, [], ◌∷◌, map,
  Option, none, some, >>=-some, eq_of_some, unwrap_or, Result, ok, err, All, find, leb, Bool-cases,
  Option-cases, inl, inr, if_true, if_false,
}
use mathlib.Core.Path.{subst}
use mathlib.Core.Option.{none-ne-some}
use flightdeck_os.Base.Floats.{Float, Trig}
use flightdeck_os.Base.Texts.{String, str_eq}
use flightdeck_os.Core.Telemetry.{TelemetrySnapshot}
use flightdeck_os.Virtual.Faults.{
  BounceFault, bounce_at, bounce_active, FaultConfig, maskable_fields, canonical_field,
  validate_fields, validate, normalized,
}
use flightdeck_os.Virtual.Adapter.{
  VirtualSimulator, with_faults, mask_field, mask_fields, live, reported, snapshot,
}

-- Sorting a list and dropping what is repeated brings in no new member.
abbrev pub KeepsMembers : (List String → List String) → Type 1
KeepsMembers sort_dedup =
    (P : String → Type 0) (names : List String) → All P names → All P (sort_dedup names)

-- The end of a configured bounce fits a `u64`.
abbrev pub Fits : Option BounceFault → Type 0
Fits none = Unit
Fits (some b) = b.start_tick + b.up_ticks < 2 ^ 64

bounce_at-Fits :
    (tick : ℕ) (o : Option BounceFault)
    → Fits o
    → (bounce : Bool) × (bounce_at o tick ≡ some bounce)
bounce_at-Fits tick none h = (false, refl)
bounce_at-Fits tick (some b) h = elim (Bool-cases (leb b.start_tick tick)) [
  | inl y ↦ (
    ltb tick (b.start_tick + b.up_ticks),
    if_false _ _ (ap not y) ∙ if_true _ _ ((ltb_iff (b.start_tick + b.up_ticks) (2 ^ 64)).1 h),
  )
  | inr n ↦ (false, if_true _ _ (ap not n))
]

module _ {F : Type 0} (fl : Float F) (tr : Trig F) where
  abbrev Masks : String → Type 0
  Masks name =
      (s : TelemetrySnapshot F) → (s' : TelemetrySnapshot F) × (mask_field fl tr name s ≡ some s')

  all_mask : All Masks maskable_fields
  unfolding mask_field
  all_mask = (
    (λ s. (record s { position = none }, refl)),
    (
      (λ s. (record s { altitude_msl = none }, refl)),
      (
        (λ s. (record s { altitude_agl = none }, refl)),
        (
          (λ s. (record s { groundspeed = none }, refl)),
          (
            (λ s. (record s { indicated_airspeed = none }, refl)),
            (
              (λ s. (record s { vertical_speed = none }, refl)),
              (
                (λ s. (record s { heading_true = none }, refl)),
                (
                  (λ s. (record s { pitch = none }, refl)),
                  (
                    (λ s. (record s { bank = none }, refl)),
                    ((λ s. (record s { on_ground = none }, refl)), tt),
                  ),
                ),
              ),
            ),
          ),
        ),
      ),
    ),
  )

  found :
      (p : String → Bool) (fields : List String) {m : String}
      → All Masks fields
      → find p fields ≡ some m
      → Masks m
  found p [] h e = absurd (none-ne-some _ e)
  found p (f ∷ fields) h e = elim (Bool-cases (p f)) [
    | inl y ↦ subst Masks (eq_of_some (sym (if_true _ _ y) ∙ e)) h.0
    | inr n ↦ found p fields h.1 (sym (if_false _ _ n) ∙ e)
  ]

  canonical_masks : (name : String) {m : String} → canonical_field name ≡ some m → Masks m
  unfolding canonical_field
  canonical_masks name e = elim (Bool-cases (str_eq name "vs")) [
    | inl y ↦ subst Masks (eq_of_some (sym (if_true _ _ y) ∙ e)) vertical
    | inr n ↦ found (λ f. str_eq f name) maskable_fields all_mask (sym (if_false _ _ n) ∙ e)
  ]
    where
      vertical : Masks "vertical_speed"
      vertical s = unfold mask_field in (record s { vertical_speed = none }, refl)

  err_ne_ok : (r : Result (Unit {0}) String) {e : String} → r ≡ err e → r ≡ ok tt → ⊥
  err_ne_ok r h k = cc

  canonical-All :
      (names : List String)
      → validate_fields names ≡ ok tt
      → All Masks (map (λ n. unwrap_or (canonical_field n) n) names)
  unfolding validate_fields
  canonical-All [] h = tt
  canonical-All (n ∷ names) h = elim (Option-cases (canonical_field n)) [
    | inl e ↦ absurd (
        err_ne_ok (validate_fields (n ∷ names))
          (ap (λ o. elim o [ none ↦ err n | some _ ↦ validate_fields names ]) e) h)
    | inr (m, e) ↦ (
      subst Masks (sym (ap (λ o. unwrap_or o n) e)) (canonical_masks n e),
      canonical-All names (rest m e),
    )
  ]
    where
      rest : (m : String) → canonical_field n ≡ some m → validate_fields names ≡ ok tt
      rest m e = sym (ap (λ o. elim o [ none ↦ err n | some _ ↦ validate_fields names ]) e) ∙ h

  mask_fields_returns :
      (names : List String) (s : TelemetrySnapshot F)
      → All Masks names
      → (s' : TelemetrySnapshot F) × (mask_fields fl tr names s ≡ some s')
  unfolding mask_fields
  mask_fields_returns [] s h = (s, refl)
  mask_fields_returns (n ∷ names) s h =
      let (s', e) = h.0 s in
      let (s'', e') = mask_fields_returns names s' h.1 in (s'', >>=-some _ e ∙ e')

  -- A simulator that takes a configuration, and every later one with the same configuration, whatever
  -- its clock, its world and its latched snapshot are, gives a snapshot if the end of its bounce fits a
  -- `u64`: a masked field is always one that the snapshot knows. A configuration that names any other field is refused.
  pub with_faults_snapshot :
      (sort_dedup : List String → List String)
      → KeepsMembers sort_dedup
      → (s t : VirtualSimulator F) (faults : FaultConfig) {s' : VirtualSimulator F}
      → with_faults fl tr sort_dedup s faults ≡ some s'
      → t.faults ≡ s'.faults
      → Fits t.faults.on_ground_bounce
      → (now : TelemetrySnapshot F) × (snapshot fl tr t ≡ some now)
  unfolding with_faults snapshot bounce_active
  with_faults_snapshot sort_dedup keep s t faults e same fits =
      let (bounce, eb) = bounce_at-Fits t.fault_ticks t.faults.on_ground_bounce fits in
      let (now, en) = reports bounce t.stale_latch in (now, >>=-some _ eb ∙ en)
    where
      accepted :
          (r : Result (Unit {0}) String) {s' : VirtualSimulator F}
          → validate faults ≡ r
          → elim r [
            | ok _ ↦ some (record s { faults = normalized sort_dedup faults })
            | err _ ↦ none
          ]
            ≡ some s'
          → All Masks s'.faults.unknown_sensor_fields
      accepted (err _) v h = absurd (none-ne-some _ h)
      accepted (ok tt) v h =
          subst (λ (x : VirtualSimulator F). All Masks x.faults.unknown_sensor_fields)
            (eq_of_some h)
            (keep Masks (map (λ n. unwrap_or (canonical_field n) n) faults.unknown_sensor_fields)
              (canonical-All faults.unknown_sensor_fields v))

      masks : All Masks t.faults.unknown_sensor_fields
      masks =
          subst (λ (c : FaultConfig). All Masks c.unknown_sensor_fields) (sym same)
            (accepted (validate faults) refl e)

      masked :
          (bounce : Bool)
          → (now : TelemetrySnapshot F) × (mask_fields fl tr t.faults.unknown_sensor_fields
                (live fl tr bounce t)
              ≡ some now)
      masked bounce = mask_fields_returns t.faults.unknown_sensor_fields (live fl tr bounce t) masks

      reports :
          (bounce : Bool) (latched : Option (TelemetrySnapshot F))
          → (now : TelemetrySnapshot F) × (reported fl tr t (live fl tr bounce t) latched
              ≡ some now)
      reports bounce none = masked bounce
      reports bounce (some l) =
          elim (Bool-cases (leb t.fault_ticks t.faults.stale_values_until_tick)) [
            | inl y ↦ (
              record l {
                timestamp = (live fl tr bounce t).timestamp;
                sim_timing = (live fl tr bounce t).sim_timing;
              },
              if_true _ _ y,
            )
            | inr n ↦ let (now, e') = masked bounce in (now, if_false _ _ n ∙ e')
          ]
