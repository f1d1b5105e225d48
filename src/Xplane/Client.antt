-- ===== src/Xplane/Client.antt =====
-- crates/fd-xplane/src/client.rs: the value board and the receiver. `Instant`s are numbers of
-- nanoseconds, and `duration_since` stops at 0 as Rust's does; a map is an association list. The
-- socket is what `send` says of each datagram, and what arrives is a sequence of events.
pub mod Provenance
pub mod Bound
use flightdeck_os.Base.{
  ℕ, ◌+◌, ◌-◌, ◌%◌, ◌^◌, ◌≡◌, Bool, true, false, not, ◌&&◌, List, [], ◌∷◌, ◌++◌, map, Option, none,
  some, Result, ok, err, any, is_empty, length, ltb, leb, ◌==◌, if◌then◌else◌,
}
use flightdeck_os.Base.Texts.{String}
use flightdeck_os.Core.Telemetry.{DataQuality, fresh, stale, missing}
use flightdeck_os.Xplane.Protocol.{rref_subscribe, dref_set, cmnd, parse_rref_records}

-- Three seconds.
abbrev pub stale_after : ℕ
stale_after = 3000000000

abbrev pub duration_since : ℕ → ℕ → ℕ
duration_since now t = now - t

unfoldable pub is_stale : Option ℕ → ℕ → ℕ → Bool
is_stale none now after = true
is_stale (some t) now after = ltb after (duration_since now t)

-- The latest value of a wire id, and when it came.
abbrev pub ValueBoard : Type 0
ValueBoard = List (ℕ × (ℕ × ℕ))

-- `HashMap::get` and `HashMap::insert`.
unfoldable pub get : ℕ → ValueBoard → Option (ℕ × ℕ)
get id [] = none
get id ((k, e) ∷ entries) = let rest = get id entries in if k == id then some e else rest

unfoldable pub put : ℕ → ℕ × ℕ → ValueBoard → ValueBoard
put id e [] = (id, e) ∷ []
put id e ((k, d) ∷ entries) =
    let rest = put id e entries in if k == id then (k, e) ∷ entries else (k, d) ∷ rest

unfoldable pub insert : ValueBoard → ℕ → ℕ → ℕ → ValueBoard
unfolding put
insert board id value now = put id (now, value) board

unfoldable pub latest : ValueBoard → ℕ → ℕ → ℕ → Option ℕ
unfolding get
latest board id now after = elim (get id board) [
  | none ↦ none
  | some (t, v) ↦ if ltb after (duration_since now t) then none else some v
]

unfoldable pub quality : ValueBoard → ℕ → ℕ → ℕ → DataQuality
unfolding get
quality board id now after = elim (get id board) [
  | none ↦ missing
  | some (t, v) ↦ if ltb after (duration_since now t) then stale else fresh
]

pub record Shared : Type 0 where
  pub board : ValueBoard
  pub last_packet : Option ℕ
  pub packets_rx : ℕ
  pub rejected_foreign : ℕ
  pub unknown_ids_dropped : ℕ
  pub recv_errors : ℕ

abbrev pub no_packets : Shared
no_packets = record {
  board = [];
  last_packet = none;
  packets_rx = 0;
  rejected_foreign = 0;
  unknown_ids_dropped = 0;
  recv_errors = 0;
}

-- What one round of the receive loop meets. A host is an IP address, as a number.
pub data Received : Type 0 where
  datagram : List ℕ → (from now : ℕ) → Received
  timed_out : (since_keepalive : ℕ) → Received
  failed : Received

abbrev pub contains : ℕ → List ℕ → Bool
contains id ids = any (λ k. k == id) ids

-- `v as f64 as f32` on the bits of an `f32`: the same value, where a signalling NaN comes out quiet.
unfoldable pub via_f64 : ℕ → ℕ
via_f64 v = if ltb 2139095040 (v % 2 ^ 31) && ltb (v % 2 ^ 31) 2143289344 then v + 2 ^ 22 else v

-- What the loop over a datagram's records does with one, and the loop.
unfoldable pub store_one : List ℕ → ℕ → Shared → ℕ × ℕ → Shared
unfolding insert
store_one subscribed now shared (id, v) =
    if contains id subscribed
    then record shared { board = insert shared.board id (via_f64 v) now }
    else record shared { unknown_ids_dropped = shared.unknown_ids_dropped + 1 }

unfoldable pub store : List ℕ → ℕ → List (ℕ × ℕ) → Shared → Shared
unfolding store_one
store subscribed now [] shared = shared
store subscribed now (r ∷ rs) shared = store subscribed now rs (store_one subscribed now shared r)

-- One round of the loop: the state after it, and the datagrams sent.
unfoldable pub receive :
    (remote : ℕ) (subscribed payload : List ℕ) → Shared → Received → Shared × List (List ℕ)
unfolding store parse_rref_records
receive remote subscribed payload shared (datagram bytes from now) =
    let stored = store subscribed now (parse_rref_records bytes) shared in
    (
      if from == remote
          then record stored { last_packet = some now; packets_rx = stored.packets_rx + 1 }
          else record shared { rejected_foreign = shared.rejected_foreign + 1 },
      [],
    )
receive remote subscribed payload shared (timed_out since_keepalive) =
    (shared, if leb 10000000000 since_keepalive && not (is_empty payload) then payload ∷ [] else [])
receive remote subscribed payload shared failed =
    (record shared { recv_errors = shared.recv_errors + 1 }, [])

-- The loop's rounds until the stop flag is seen.
unfoldable pub receive_all :
    (remote : ℕ) (subscribed payload : List ℕ) → List Received → Shared → Shared
unfolding receive
receive_all remote subscribed payload [] shared = shared
receive_all remote subscribed payload (r ∷ rs) shared =
    receive_all remote subscribed payload rs (receive remote subscribed payload shared r).0

unfoldable pub connected : Shared → ℕ → Bool
unfolding is_stale
connected shared now = not (is_stale shared.last_packet now stale_after)

pub data ClientError : Type 0 where
  network : String → ClientError
  not_subscribed : ClientError

-- The datagrams of `start`, one for each dataref, and the payload that it keeps for later.
unfoldable pub subscribe_packets : ℕ → List (ℕ × List ℕ) → List (List ℕ)
subscribe_packets freq_hz refs = map (λ (r : ℕ × List ℕ). rref_subscribe freq_hz r.0 r.1) refs

abbrev pub concat : List (List ℕ) → List ℕ
concat [] = []
concat (p ∷ packets) = p ++ concat packets

unfoldable pub subscribe_payload : ℕ → List (ℕ × List ℕ) → List ℕ
unfolding subscribe_packets
subscribe_payload freq_hz refs = concat (subscribe_packets freq_hz refs)

unfoldable pub subscribed_ids : List (ℕ × List ℕ) → List ℕ
subscribed_ids refs = map (λ (r : ℕ × List ℕ). r.0) refs

-- The sends of `start`, which stop at the first that fails.
module _ (send_to : List ℕ → Result (Unit {0}) String) where
  unfoldable pub send_each : List (List ℕ) → Result (Unit {0}) ClientError
  send_each [] = ok tt
  send_each (p ∷ packets) =
      let rest = send_each packets in elim (send_to p) [ ok _ ↦ rest | err e ↦ err (network e) ]

  unfoldable pub send : List ℕ → Result (Unit {0}) ClientError
  send p = elim (send_to p) [ ok _ ↦ ok tt | err e ↦ err (network e) ]

  unfoldable pub resubscribe : List ℕ → Result (Unit {0}) ClientError
  unfolding send
  resubscribe payload = if is_empty payload then err not_subscribed else send payload

  unfoldable pub write_dref : List ℕ → ℕ → Result (Unit {0}) ClientError
  unfolding send
  write_dref path value = send (dref_set path value)

  unfoldable pub send_command : List ℕ → Result (Unit {0}) ClientError
  unfolding send
  send_command path = send (cmnd path)
