-- ===== src/Xplane/Adapter/Health.antt =====
-- crates/fd-xplane/src/adapter.rs: the health of the two transports. The packet rate, which is only
-- shown, is left out.
use flightdeck_os.Base.{
  ℕ, Bool, true, false, ◌≡◌, ◌↔◌, Option, none, some, err, ltb, if◌then◌else◌, arith,
}
use mathlib.Core.Option
use flightdeck_os.Base.Texts.{String}
use flightdeck_os.Core.Adapter.{AdapterError}
use flightdeck_os.Xplane.Client.{Shared, duration_since, connected, is_stale}
use flightdeck_os.Xplane.Adapter.{WebHealth}
use flightdeck_os.Xplane.Adapter.Control.{gate}

pub data HealthState : Type 0 where
  available degraded unavailable : HealthState

abbrev udp_degraded_after : ℕ
udp_degraded_after = 3000000000

abbrev udp_unavailable_after : ℕ
udp_unavailable_after = 10000000000

-- The age of the last packet; none stands for `Duration::MAX`.
unfoldable newest_packet_age : ℕ → Shared → Option ℕ
newest_packet_age now shared = Option.map (duration_since now) shared.last_packet

unfoldable udp_health : ℕ → Shared → HealthState
unfolding newest_packet_age
udp_health now shared = of_age (newest_packet_age now shared)
  where
    of_age : Option ℕ → HealthState
    of_age none = unavailable
    of_age (some age) =
        if ltb udp_unavailable_after age
        then unavailable
        else if ltb udp_degraded_after age
        then degraded
        else available

unfoldable web_state : ℕ → WebHealth → HealthState
web_state now h = if cooling h.cooldown_until then unavailable else seen h.last_ok h.last_error
  where
    cooling : Option ℕ → Bool
    cooling none = false
    cooling (some until) = ltb now until

    seen : Option ℕ → Option String → HealthState
    seen (some t) e = if ltb (duration_since now t) 30000000000 then available else degraded
    seen none (some _) = unavailable
    seen none none = degraded

-- UDP is reported available exactly while the client is connected; and while the gate refuses an
-- operation the Web API is reported unavailable.
health-connected :
    (now : ℕ) (shared : Shared) (h : WebHealth)
    → ((udp_health now shared ≡ available) ↔ (connected shared now ≡ true))
      × ((e : AdapterError) → (gate now h).0 ≡ err e → web_state now h ≡ unavailable)
unfolding udp_health web_state connected is_stale gate newest_packet_age
health-connected now shared h = (ground arith, λ x e. ground arith)
