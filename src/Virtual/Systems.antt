-- ===== src/Virtual/Systems.antt =====
-- crates/fd-virtual/src/systems.rs: the cockpit systems of the virtual simulator.
pub mod Bleed
use flightdeck_os.Base.{ℕ, Bool, true, false, not, ◌&&◌, Result, ok, err, if◌then◌else◌}
use flightdeck_os.Base.Floats.{Float}
use flightdeck_os.Base.Texts.{String}

pub data ApuState : Type 0 where
  off starting available shutdown : ApuState

pub record SystemsState (F : Type 0) : Type 0 where
  pub apu_state : ApuState
  pub apu_n_percent : F
  pub apu_bleed_open : Bool
  pub beacon_on : Bool
  pub engines_running : Bool
  pub pack_1_pb_on : Bool

abbrev pub is_available : ApuState → Bool
is_available ApuState.available = true
is_available _ = false

-- A request's answer, with the systems after it.
abbrev pub Answer : Type 0 → Type 0
Answer F = Result Unit String × SystemsState F

module _ {F : Type 0} where
  abbrev pub start_from : SystemsState F → ApuState → Answer F
  start_from s ApuState.off = (ok tt, record s { apu_state = ApuState.starting })
  start_from s ApuState.shutdown = (ok tt, record s { apu_state = ApuState.starting })
  start_from s ApuState.starting = (err "APU is already starting", s)
  start_from s ApuState.available = (err "APU is already available", s)

  unfoldable pub request_apu_start : SystemsState F → Answer F
  request_apu_start s = start_from s s.apu_state

  unfoldable pub request_apu_bleed : SystemsState F → Bool → Answer F
  request_apu_bleed s open_bleed =
      if open_bleed && not (is_available s.apu_state)
      then (err "APU bleed requires the APU to be available", s)
      else (ok tt, record s { apu_bleed_open = open_bleed })

  abbrev pub set_beacon : SystemsState F → Bool → SystemsState F
  set_beacon s on = record s { beacon_on = on }

  abbrev pub set_engines_running : SystemsState F → Bool → SystemsState F
  set_engines_running s running = record s { engines_running = running }

module _ {F : Type 0} (fl : Float F) where
  open fl use {lit, lt, le, add, sub, mul, div, max, min}

  abbrev pub cold_and_dark : SystemsState F
  cold_and_dark = record {
    apu_state = ApuState.off;
    apu_n_percent = lit 0;
    apu_bleed_open = false;
    beacon_on = false;
    engines_running = false;
    pack_1_pb_on = false;
  }

  abbrev pub apu_spool_ms : ℕ
  apu_spool_ms = 90000

  abbrev pub apu_n_max : F
  apu_n_max = lit 95

  abbrev pub apu_nominal_percent : F
  apu_nominal_percent = lit 90

  abbrev pub spool_up : SystemsState F → ℕ → SystemsState F
  spool_up s dt_ms =
      let rate_per_ms = div apu_n_max (lit apu_spool_ms) in
      let n = min (add s.apu_n_percent (mul rate_per_ms (lit dt_ms))) apu_n_max in
      record s {
        apu_n_percent = n;
        apu_state = if le apu_nominal_percent n then ApuState.available else s.apu_state;
      }

  abbrev pub spool_down : SystemsState F → ℕ → SystemsState F
  spool_down s dt_ms = record s {
    apu_n_percent =
        if lt (lit 0) s.apu_n_percent
        then max (lit 0) (sub s.apu_n_percent (div (mul (lit 10) (lit dt_ms)) (lit 1000)))
        else s.apu_n_percent;
    apu_bleed_open = false;
  }

  abbrev pub advance_from : SystemsState F → ℕ → ApuState → SystemsState F
  advance_from s dt_ms ApuState.starting = spool_up s dt_ms
  advance_from s dt_ms ApuState.available = spool_up s dt_ms
  advance_from s dt_ms ApuState.shutdown = spool_down s dt_ms
  advance_from s dt_ms ApuState.off = spool_down s dt_ms

  unfoldable pub advance : SystemsState F → ℕ → SystemsState F
  advance s dt_ms = advance_from s dt_ms s.apu_state
