-- ===== src/Simconnect/Adapter/Records.antt =====
-- Adapter: what a poll makes of the records, and the adapter as the runtime's interface has it.
use mathlib.Core.List.{append_assoc}
use flightdeck_os.Base.{
  ℕ, Bool, ◌≡◌, refl, sym, ap, ◌∙◌, List, [], ◌∷◌, ◌++◌, Option, none, some, >>=-some, Result, ok,
  err, is_empty, Returns, Bool-cases, inl, inr, if_true, if_false,
}
use flightdeck_os.Base.Floats.{Float, Trig}
use flightdeck_os.Core.Adapter.{AdapterError, not_connected, SimulatorAdapter}
use flightdeck_os.Core.Telemetry.{TelemetrySnapshot}
use flightdeck_os.Simconnect.Parse.{
  RecvRecord, simobject_data, system_event_pause, exception, opened, quit, ignored, malformed,
  parse_record,
}
use flightdeck_os.Simconnect.Parse.Bounds.{IsSound, parse_record_inside}
use flightdeck_os.Simconnect.Mapping.{Casts, map_telemetry}
use flightdeck_os.Simconnect.Client.{SimConnectApi}
use flightdeck_os.Simconnect.Adapter.{
  SimConnectAdapter, connect, disconnect, decode, take_record, take_records, poll_client, poll,
  capability, execute,
}

-- The pause state after some records: that of the last pause event, if there is one.
pub last_pause : {F : Type 0} → List (RecvRecord F) → Option Bool → Option Bool
last_pause [] paused = paused
last_pause (system_event_pause p ∷ rs) paused = last_pause rs (some p)
last_pause (simobject_data _ ∷ rs) paused = last_pause rs paused
last_pause (exception _ ∷ rs) paused = last_pause rs paused
last_pause (opened ∷ rs) paused = last_pause rs paused
last_pause (quit ∷ rs) paused = last_pause rs paused
last_pause (ignored ∷ rs) paused = last_pause rs paused
last_pause (malformed _ ∷ rs) paused = last_pause rs paused

module _ {F W : Type 0} (fl : Float F) (tr : Trig F) (cs : Casts F) (api : SimConnectApi F W) where
  take_records-append :
      (xs ys : List (RecvRecord F)) (a : SimConnectAdapter W)
      → let (first, a') = take_records fl tr cs api xs a in
        let (second, a'') = take_records fl tr cs api ys a' in
        take_records fl tr cs api (xs ++ ys) a ≡ (first ++ second, a'')
  unfolding take_records
  take_records-append [] ys a = refl
  take_records-append (x ∷ xs) ys a =
      let (now, a') = take_record fl tr cs api a x in
      ap (λ (p : List (TelemetrySnapshot F) × SimConnectAdapter W). (now ++ p.0, p.1))
        (take_records-append xs ys a')
      ∙ ap
          (λ (l : List (TelemetrySnapshot F)).
            (l, (take_records fl tr cs api ys (take_records fl tr cs api xs a').1).1))
          (sym (append_assoc now _ _))

  paused_after :
      (rs : List (RecvRecord F)) (a : SimConnectAdapter W)
      → (take_records fl tr cs api rs a).1.event_paused ≡ last_pause rs a.event_paused
  unfolding take_records take_record last_pause
  paused_after [] a = refl
  paused_after (simobject_data _ ∷ rs) a = paused_after rs a
  paused_after (system_event_pause p ∷ rs) a = paused_after rs _
  paused_after (exception _ ∷ rs) a = paused_after rs _
  paused_after (opened ∷ rs) a = paused_after rs _
  paused_after (quit ∷ rs) a = paused_after rs _
  paused_after (ignored ∷ rs) a = paused_after rs a
  paused_after (malformed _ ∷ rs) a = paused_after rs _

  -- Each telemetry record among those of a poll gives one snapshot, in its place, mapped under the
  -- pause state of the last pause event before it, in this poll or an earlier one.
  pub take_records_snapshot :
      (before after : List (RecvRecord F)) (values : List F) (a : SimConnectAdapter W)
      → (take_records fl tr cs api (before ++ (simobject_data values ∷ after)) a).0
        ≡ (take_records fl tr cs api before a).0
          ++ (map_telemetry fl tr cs values (last_pause before a.event_paused)
              ∷ (take_records fl tr cs api after (take_records fl tr cs api before a).1).0)
  take_records_snapshot before after values a =
      ap (λ (p : List (TelemetrySnapshot F) × SimConnectAdapter W). p.0)
        (take_records-append before (simobject_data values ∷ after) a)
      ∙ ap (λ (l : List (TelemetrySnapshot F)). (take_records fl tr cs api before a).0 ++ l)
          (one (take_records fl tr cs api before a).1
            ∙ ap (λ p. map_telemetry fl tr cs values p ∷ rest) (paused_after before a))
    where
      rest : List (TelemetrySnapshot F)
      rest = (take_records fl tr cs api after (take_records fl tr cs api before a).1).0

      one :
          (b : SimConnectAdapter W)
          → (take_records fl tr cs api (simobject_data values ∷ after) b).0
            ≡ map_telemetry fl tr cs values b.event_paused ∷ (take_records fl tr cs api after b).0
      one b = unfold take_records take_record in refl

  decode_inside :
      (messages : List (List ℕ))
      → (rs : List (RecvRecord F)) × (decode fl tr cs api messages ≡ some rs)
  unfolding decode
  decode_inside [] = ([], refl)
  decode_inside (bytes ∷ messages) =
      let (rs, e) = decode_inside messages in
      elim (Bool-cases (is_empty bytes)) [
        | inl y ↦ (rs, if_true _ _ y ∙ e)
        | inr n ↦
            let (r, d) =
              returned (parse_record cs.from_bits bytes) (parse_record_inside cs.from_bits bytes) in
            (r ∷ rs, if_false _ _ n ∙ >>=-some _ d ∙ >>=-some _ e)
      ]
    where
      returned : (o : Option (RecvRecord F)) → Returns IsSound o → (r : RecvRecord F) × (o ≡ some r)
      returned none h = absurd h
      returned (some r) h = (r, refl)

  -- A poll never reads outside the messages that SimConnect delivers, whatever bytes they hold: it
  -- always returns.
  pub poll_inside :
      (a : SimConnectAdapter W)
      → (r : Result (List (TelemetrySnapshot F)) AdapterError × SimConnectAdapter W) × (poll fl tr
            cs api a
          ≡ some r)
  unfolding poll
  poll_inside a = inside a.client
    where
      inside :
          (client : Option ℕ)
          → (r : Result (List (TelemetrySnapshot F)) AdapterError × SimConnectAdapter W)
            × (poll_client fl tr cs api a client ≡ some r)
      inside none = ((err not_connected, a), refl)
      inside (some handle) =
          let (messages, w) = api.dispatch handle a.world in
          let (rs, e) = decode_inside messages in
          let (snapshots, a') = take_records fl tr cs api rs (record a { world = w }) in
          ((ok snapshots, a'), >>=-some _ e)

  -- The adapter as the runtime sees it.
  abbrev pub simconnect : SimulatorAdapter F (SimConnectAdapter W)
  simconnect = record {
    connect = connect fl tr cs api;
    disconnect = disconnect fl tr cs api;
    is_connected = λ a. a.connected;
    poll = λ a. (poll_inside a).0;
    capability = capability fl tr cs api;
    execute = execute fl tr cs api;
  }
