-- ===== src/Examples/Simulators.antt =====
-- The theorems on the simulators' adapters at concrete inputs.
use flightdeck_os.Base.{ℕ, ◌-◌, ◌≤◌, ◌≡◌, ◌↔◌, refl, List, [], ◌∷◌, some, length, Returns, arith}
use flightdeck_os.Xplane.Protocol
use flightdeck_os.Xplane.Protocol.RoundTrip
use flightdeck_os.Xplane.Protocol.RoundTrip.{response, read_subscription}
use flightdeck_os.Xplane.Client.{
  Received, datagram, timed_out, failed, no_packets, receive_all, latest,
}
use flightdeck_os.Xplane.Client.Bound.{receive_all-length_le}
use flightdeck_os.Xplane.Client.Provenance.{last_heard, latest-receive_all}
use flightdeck_os.Simconnect.Parse.{parse_record, simobject_data}
use flightdeck_os.Simconnect.Parse.Bounds.{IsSound, parse_record_inside}
use flightdeck_os.Simconnect.Parse.RoundTrip.{
  Unread, telemetry_record, parse_record-telemetry_record,
}

-- Two records, and the first two bytes of a third.
abbrev two_values : List (ℕ × ℕ)
two_values = (401, 1095237632) ∷ (4294967294, 3280347136) ∷ []

parse_rref_records-response_example :
    Protocol.parse_rref_records (response two_values (0xaa ∷ 0xbb ∷ [])) ≡ two_values
parse_rref_records-response_example =
    RoundTrip.parse_rref_records-response two_values (0xaa ∷ 0xbb ∷ []) (omega arith) (omega arith)

-- "sim/a".
abbrev path : List ℕ
path = 115 ∷ 105 ∷ 109 ∷ 47 ∷ 97 ∷ []

read_subscription-rref_subscribe_example :
    read_subscription (Protocol.rref_subscribe 4 7 path) ≡ some (4, 7, path)
read_subscription-rref_subscribe_example =
    RoundTrip.read_subscription-rref_subscribe 4 7 path (omega arith) (omega arith)
      (
        (λ e. absurd (omega (arith, e))),
        (
          (λ e. absurd (omega (arith, e))),
          (
            (λ e. absurd (omega (arith, e))),
            ((λ e. absurd (omega (arith, e))), ((λ e. absurd (omega (arith, e))), tt)),
          ),
        ),
      )
      (omega arith)

-- A value of the simulator's, one of another host, a silence and an error.
abbrev traffic : List Received
traffic =
    datagram (response ((7, 42) ∷ (9, 1) ∷ []) []) 1 1000
    ∷ datagram (response ((7, 66) ∷ []) []) 2 2000
    ∷ timed_out 500
    ∷ failed
    ∷ []

latest-receive_all_example :
    (latest (receive_all 1 (7 ∷ []) [] traffic no_packets).board 7 3000 5000 ≡ some 42)
    ↔ ((t : ℕ) × (last_heard 1 7 traffic ≡ some (t, 42)) × (3000 - t ≤ 5000))
latest-receive_all_example = latest-receive_all (7 ∷ []) 7 1 [] traffic 3000 5000 42 refl

receive_all-length_le_example : length (receive_all 1 (7 ∷ []) [] traffic no_packets).board ≤ 1
receive_all-length_le_example = receive_all-length_le 1 (7 ∷ []) [] traffic

-- A record that claims more bytes than it has.
abbrev cut_off : List ℕ
cut_off = 200 ∷ 0 ∷ 0 ∷ 0 ∷ 1 ∷ 0 ∷ 0 ∷ 0 ∷ 8 ∷ 0 ∷ 0 ∷ 0 ∷ 5 ∷ []

parse_record_inside_example : Returns IsSound (parse_record (λ bits. bits) cut_off)
parse_record_inside_example = parse_record_inside (λ bits. bits) cut_off

abbrev unread : Unread
unread = record {
  version = 4;
  request_id = 1;
  object_id = 0;
  define_id = 1;
  flags = 0;
  entry_number = 1;
  out_of = 1;
  placeholder = 0;
}

parse_record-telemetry_record_example :
    parse_record (λ bits. bits) (telemetry_record unread (5 ∷ 9 ∷ []) (1 ∷ []))
    ≡ some (simobject_data (5 ∷ 9 ∷ []))
parse_record-telemetry_record_example =
    parse_record-telemetry_record (λ bits. bits) unread (5 ∷ 9 ∷ []) (1 ∷ []) (omega arith)
      (omega arith)
