-- ===== src/Virtual/Adapter/Windows.antt =====
-- Adapter: the windows of the freeze and of the ignored actions.
use flightdeck_os.Base.{
  ℕ, ◌+◌, ◌≤◌, Bool, true, false, ◌≡◌, refl, sym, ap, ◌∙◌, List, [], ◌∷◌, Option, none, some, ◌>>=◌,
  >>=-eq-some, Result, ok, ltb, leb_iff, Bool-cases, Ends, Ends-if, Ends-eq, not, inl, inr,
  if◌then◌else◌, if_true, if_false, arith,
}
use flightdeck_os.Base.Floats.{Float, Trig}
use flightdeck_os.Base.Texts.{String, str_eq}
use flightdeck_os.Core.Actions.{set_beacon, SwitchPosition}
use flightdeck_os.Core.Adapter.{AdapterError}
use flightdeck_os.Core.Telemetry.{TelemetrySnapshot}
use flightdeck_os.Virtual.Faults.{bounce_active, bounce_at}
use flightdeck_os.Virtual.Systems
use flightdeck_os.Virtual.Adapter.{
  VirtualSimulator, is_connected, mask_field, mask_fields, live, reported, snapshot, advance_tick,
  is_on, perform, execute,
}

module _ {F : Type 0} (fl : Float F) (tr : Trig F) where
  abbrev SameBeacon : TelemetrySnapshot F → TelemetrySnapshot F → Type 0
  SameBeacon s s' = s'.beacon_light ≡ s.beacon_light

  mask_field_beacon :
      (name : String) (s : TelemetrySnapshot F) → Ends (SameBeacon s) (mask_field fl tr name s)
  unfolding mask_field
  mask_field_beacon name s =
      pick (str_eq name "position") (record s { position = none }) _ refl
        (pick (str_eq name "altitude_msl") (record s { altitude_msl = none }) _ refl
          (pick (str_eq name "altitude_agl") (record s { altitude_agl = none }) _ refl
            (pick (str_eq name "groundspeed") (record s { groundspeed = none }) _ refl
              (pick (str_eq name "ias") (record s { indicated_airspeed = none }) _ refl
                (pick (str_eq name "vertical_speed") (record s { vertical_speed = none }) _ refl
                  (pick (str_eq name "vs") (record s { vertical_speed = none }) _ refl
                    (pick (str_eq name "heading_true") (record s { heading_true = none }) _ refl
                      (pick (str_eq name "pitch") (record s { pitch = none }) _ refl
                        (pick (str_eq name "bank") (record s { bank = none }) _ refl
                          (pick (str_eq name "on_ground") (record s { on_ground = none }) _ refl
                            (tt)))))))))))
    where
      pick :
          (b : Bool) (s' : TelemetrySnapshot F) (o : Option (TelemetrySnapshot F))
          → SameBeacon s s'
          → Ends (SameBeacon s) o
          → Ends (SameBeacon s) (if b then some s' else o)
      pick b s' o h k = Ends-if (SameBeacon s) b (some s') o h k

  mask_fields_beacon :
      (names : List String) (s : TelemetrySnapshot F) {s' : TelemetrySnapshot F}
      → mask_fields fl tr names s ≡ some s'
      → s'.beacon_light ≡ s.beacon_light
  unfolding mask_fields
  mask_fields_beacon [] s e = ground (arith, e)
  mask_fields_beacon (n ∷ names) s e =
      let (s', first, rest) = >>=-eq-some (mask_field fl tr n s) (mask_fields fl tr names) e in
      mask_fields_beacon names s' rest ∙ Ends-eq (SameBeacon s) (mask_field_beacon n s) first

  snapshot_beacon :
      (s : VirtualSimulator F) {now : TelemetrySnapshot F}
      → s.stale_latch ≡ none
      → snapshot fl tr s ≡ some now
      → now.beacon_light ≡ some s.systems.beacon_on
  unfolding snapshot
  snapshot_beacon s l e =
      let (bounce, _, rest) =
        >>=-eq-some (bounce_active s.faults s.fault_ticks)
          (λ bounce. reported fl tr s (live fl tr bounce s) s.stale_latch) e in
      mask_fields_beacon s.faults.unknown_sensor_fields (live fl tr bounce s)
        (sym (ap (reported fl tr s (live fl tr bounce s)) l) ∙ rest)

  -- The beacon that a position asks for.
  abbrev wanted : SwitchPosition → Bool
  wanted SwitchPosition.on = true
  wanted SwitchPosition.off = false

  -- While connected and with no latched telemetry, setting the beacon is always accepted. A snapshot
  -- taken then shows the position asked for, except inside the window of ignored actions, where it
  -- shows the beacon as it was.
  pub execute-snapshot :
      (s : VirtualSimulator F) (pos : SwitchPosition) {now : TelemetrySnapshot F}
      → is_connected fl tr s ≡ true
      → s.stale_latch ≡ none
      → snapshot fl tr (execute fl tr s (set_beacon pos)).1 ≡ some now
      → ((execute fl tr s (set_beacon pos)).0 ≡ ok tt)
        × (now.beacon_light
            ≡ some (
                if ltb s.clock.ticks s.faults.ignore_actions_for_ticks
                then s.systems.beacon_on
                else wanted pos))
  unfolding execute
  execute-snapshot s pos {now} c l e =
      elim (Bool-cases (ltb s.clock.ticks s.faults.ignore_actions_for_ticks)) [
        | inl y ↦
            let after = connected ∙ if_true _ _ y in
            (
              ap (λ (r : Result (Unit {0}) AdapterError × VirtualSimulator F). r.0) after,
              shows s after l ∙ ap some (sym (if_true _ _ y)),
            )
        | inr n ↦
            let after = connected ∙ if_false _ _ n in
            (
              ap (λ (r : Result (Unit {0}) AdapterError × VirtualSimulator F). r.0) after,
              shows (record s { systems = Systems.set_beacon s.systems (is_on fl tr pos) }) after l
                  ∙ ap some (is_on_wanted pos ∙ sym (if_false _ _ n)),
            )
      ]
    where
      connected : execute fl tr s (set_beacon pos) ≡ (
          if ltb s.clock.ticks s.faults.ignore_actions_for_ticks
          then (ok tt, s)
          else perform fl tr s (set_beacon pos))
      connected = if_false _ _ (ap not c)

      is_on_wanted : (p : SwitchPosition) → is_on fl tr p ≡ wanted p
      is_on_wanted SwitchPosition.on = refl
      is_on_wanted SwitchPosition.off = refl

      shows :
          (t : VirtualSimulator F)
          → execute fl tr s (set_beacon pos) ≡ (ok tt, t)
          → t.stale_latch ≡ none
          → now.beacon_light ≡ some t.systems.beacon_on
      shows t x k = snapshot_beacon t k (
          ap (λ (r : Result (Unit {0}) AdapterError × VirtualSimulator F). snapshot fl tr r.1)
            (sym x)
          ∙ e)

  -- Inside the freeze window, with no bounce configured and no latched telemetry, an attempt to advance
  -- gives the snapshot of before, and only the count of attempts moves.
  pub advance_tick_frozen :
      (s : VirtualSimulator F)
      → s.fault_ticks + 1 ≤ s.faults.telemetry_freeze_until_tick
      → s.stale_latch ≡ none
      → s.faults.on_ground_bounce ≡ none
      → advance_tick fl tr s
        ≡ (snapshot fl tr s >>= λ now. some (now, record s { fault_ticks = s.fault_ticks + 1 }))
  unfolding advance_tick snapshot live bounce_active
  advance_tick_frozen s h l b =
      ap (λ (o : Option (VirtualSimulator F)). o >>= after) (if_true _ _ ((leb_iff _ _).1 h))
      ∙ ap (λ (o : Option (TelemetrySnapshot F)). o >>= λ now. some (now, counted)) same
    where
      counted : VirtualSimulator F
      counted = record s { fault_ticks = s.fault_ticks + 1 }

      after : VirtualSimulator F → Option (TelemetrySnapshot F × VirtualSimulator F)
      after s' = snapshot fl tr s' >>= λ now. some (now, s')

      no_bounce : (tick : ℕ) → bounce_active s.faults tick ≡ some false
      no_bounce tick = ap (λ o. bounce_at o tick) b

      same : snapshot fl tr counted ≡ snapshot fl tr s
      same =
          ap (λ o. o >>= λ bounce. reported fl tr counted (live fl tr bounce counted) s.stale_latch)
            (no_bounce (s.fault_ticks + 1))
          ∙ ap (reported fl tr counted (live fl tr false counted)) l
          ∙ sym (ap (reported fl tr s (live fl tr false s)) l)
          ∙ sym (
              ap (λ o. o >>= λ bounce. reported fl tr s (live fl tr bounce s) s.stale_latch)
                (no_bounce s.fault_ticks))
