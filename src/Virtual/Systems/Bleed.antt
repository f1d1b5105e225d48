-- ===== src/Virtual/Systems/Bleed.antt =====
-- crates/fd-virtual/src/systems.rs: the APU and its bleed, over any requests and passing time.
use flightdeck_os.Base.{
  ℕ, ◌≡◌, refl, sym, ap, ◌∙◌, Bool, true, false, not, ◌&&◌, arith, true_ne_false,
}
use flightdeck_os.Base.Floats.{Float}
use flightdeck_os.Virtual.Systems.{
  ApuState, SystemsState, is_available, start_from, request_apu_start, request_apu_bleed,
  set_beacon, set_engines_running, cold_and_dark, advance_from, advance,
}

module _ {F : Type 0} (fl : Float F) where
  -- The systems that requests and passing time lead to from cold and dark.
  pub data Reach : SystemsState F → Type 0 where
    start : Reach (cold_and_dark fl)
    starts : {s : SystemsState F} → Reach s → Reach (request_apu_start s).1
    bleeds :
        {s : SystemsState F}
        → Reach s
        → (open_bleed : Bool) → Reach (request_apu_bleed s open_bleed).1
    lights : {s : SystemsState F} → Reach s → (on : Bool) → Reach (set_beacon s on)
    runs : {s : SystemsState F} → Reach s → (running : Bool) → Reach (set_engines_running s running)
    passes : {s : SystemsState F} → Reach s → (dt_ms : ℕ) → Reach (advance fl s dt_ms)

  -- The bleed is open only with the APU available.
  abbrev IsGuarded : SystemsState F → Type 0
  IsGuarded s = s.apu_bleed_open ≡ true → is_available s.apu_state ≡ true

  start_from-IsGuarded :
      (s : SystemsState F) (a : ApuState)
      → s.apu_state ≡ a
      → IsGuarded s
      → IsGuarded (start_from s a).1
  start_from-IsGuarded s ApuState.off e h =
      λ b. absurd (true_ne_false (sym (h b) ∙ ap is_available e))
  start_from-IsGuarded s ApuState.shutdown e h =
      λ b. absurd (true_ne_false (sym (h b) ∙ ap is_available e))
  start_from-IsGuarded s ApuState.starting e h = h
  start_from-IsGuarded s ApuState.available e h = h

  bleed-IsGuarded :
      (s : SystemsState F) (open_bleed : Bool)
      → IsGuarded s
      → IsGuarded (request_apu_bleed s open_bleed).1
  unfolding request_apu_bleed
  bleed-IsGuarded s open_bleed h = ground (arith, h)

  advance_from-IsGuarded :
      (s : SystemsState F) (dt_ms : ℕ) (a : ApuState)
      → s.apu_state ≡ a
      → IsGuarded s
      → IsGuarded (advance_from fl s dt_ms a)
  advance_from-IsGuarded s dt_ms ApuState.starting e h = ground (arith, h)
  advance_from-IsGuarded s dt_ms ApuState.available e h = ground (arith, h)
  advance_from-IsGuarded s dt_ms ApuState.shutdown e h = λ b. absurd (true_ne_false (sym b))
  advance_from-IsGuarded s dt_ms ApuState.off e h = λ b. absurd (true_ne_false (sym b))

  Reach-IsGuarded : {s : SystemsState F} → Reach s → IsGuarded s
  unfolding request_apu_start advance
  Reach-IsGuarded start = λ b. absurd (true_ne_false (sym b))
  Reach-IsGuarded (starts {s} r) = start_from-IsGuarded s s.apu_state refl (Reach-IsGuarded r)
  Reach-IsGuarded (bleeds {s} r open_bleed) = bleed-IsGuarded s open_bleed (Reach-IsGuarded r)
  Reach-IsGuarded (lights r on) = Reach-IsGuarded r
  Reach-IsGuarded (runs r running) = Reach-IsGuarded r
  Reach-IsGuarded (passes {s} r dt_ms) =
      advance_from-IsGuarded s dt_ms s.apu_state refl (Reach-IsGuarded r)

  -- The bleed is not open while the APU is not available.
  abbrev pub IsSafe : SystemsState F → Type 0
  IsSafe s = (s.apu_bleed_open && not (is_available s.apu_state)) ≡ false

  -- Whatever is requested and however much time passes, in any order from cold and dark, the bleed of
  -- the APU is open only while the APU is available.
  pub Reach-IsSafe : {s : SystemsState F} → Reach s → IsSafe s
  Reach-IsSafe {s} r = safe s (Reach-IsGuarded r)
    where
      safe : (s : SystemsState F) → IsGuarded s → IsSafe s
      safe s h = ground (arith, h)
