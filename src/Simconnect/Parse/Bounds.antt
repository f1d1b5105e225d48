-- ===== src/Simconnect/Parse/Bounds.antt =====
-- Parse: every read stays inside the slice.
use flightdeck_os.Base.{
  ℕ, zero, suc, ◌+◌, ◌*◌, ◌≤◌, ◌<◌, ◌≡◌, refl, ap, true, false, ◌||◌, List, [], ◌∷◌, Option, some,
  ◌>>=◌, Returns, Returns-if, Returns->>=, length, ltb, ltb_iff, ◌==◌, if◌then◌else◌, Bool-cases,
  inl, inr, if_true, arith,
}
use flightdeck_os.Base.Texts.{String}
use flightdeck_os.Simconnect.Parse.{
  read_u32, read_f64, RecvRecord, simobject_data, malformed, min, checked, read_values,
  required_end, payload, parse_simobject_data, parse_event, parse_exception, parse_id, parse_record,
  datum_count, evt_pause, evt_unpause, system_event_pause, opened, quit, ignored,
}

-- What a decoded record satisfies: at most as many values as the definition has data.
abbrev pub IsSound : {F : Type 0} → RecvRecord F → Type 0
IsSound (simobject_data values) = length values ≤ datum_count
IsSound _ = Unit

abbrev Any : ℕ → Type 0
Any n = Unit {0}

read_u32_inside :
    (buf : List ℕ) (offset : ℕ) → offset + 4 ≤ length buf → Returns Any (read_u32 buf offset)
unfolding read_u32
read_u32_inside (a ∷ b ∷ c ∷ d ∷ buf) zero h = tt
read_u32_inside (a ∷ b ∷ c ∷ []) zero h = absurd (omega (arith, h))
read_u32_inside (a ∷ b ∷ []) zero h = absurd (omega (arith, h))
read_u32_inside (a ∷ []) zero h = absurd (omega (arith, h))
read_u32_inside [] offset h = absurd (omega (arith, h))
read_u32_inside (a ∷ buf) (suc offset) h = read_u32_inside buf offset (omega (arith, h))

module _ {F : Type 0} (of_bits : ℕ → F) (buf : List ℕ) where
  read_f64_inside : (offset : ℕ) → offset + 8 ≤ length buf → Returns Any (read_f64 buf offset)
  unfolding read_f64
  read_f64_inside offset h =
      Returns->>= Any Any (read_u32 buf offset) _ (read_u32_inside buf offset (omega (arith, h)))
        (λ low _.
          Returns->>= Any Any (read_u32 buf (offset + 4)) _
            (read_u32_inside buf (offset + 4) (omega (arith, h))) (λ high _. tt))

  read_values_inside :
      (offset n : ℕ)
      → offset + n * 8 ≤ length buf
      → Returns (λ (vs : List F). length vs ≡ n) (read_values of_bits buf offset n)
  unfolding read_values
  read_values_inside offset zero h = refl
  read_values_inside offset (suc n) h =
      Returns->>= Any (λ (vs : List F). length vs ≡ suc n) (read_f64 buf offset) _
        (read_f64_inside offset (omega (arith, h)))
        (λ v _.
          Returns->>= (λ (vs : List F). length vs ≡ n) (λ (vs : List F). length vs ≡ suc n)
            (read_values of_bits buf (offset + 8) n) _
            (read_values_inside (offset + 8) n (omega (arith, h))) (λ vs e. ap suc e))

  guarded :
      (n dw_size : ℕ) (detail : String) (rest : Option (RecvRecord F))
      → (n ≤ length buf → Returns IsSound rest)
      → Returns IsSound
          (if ltb (length buf) n || ltb dw_size n then some (malformed detail) else rest)
  guarded n dw_size detail rest h =
      Returns-if IsSound (ltb (length buf) n || ltb dw_size n) (some (malformed detail)) rest
        (λ _. tt) (λ long. h (ground (arith, long)))

  payload_inside :
      (dw_size n : ℕ)
      → n ≤ datum_count
      → Returns IsSound (payload of_bits buf dw_size n (required_end of_bits n))
  payload_inside dw_size n few =
      rw (small (n * 8) (omega (arith, few)), small (44 + n * 8) (omega (arith, few)))
        (guarded (44 + n * 8) dw_size "SIMOBJECT_DATA payload truncated"
          (read_values of_bits buf 44 n >>= λ values. some (simobject_data values))
          (λ long.
            Returns->>= (λ (vs : List F). length vs ≡ n) IsSound (read_values of_bits buf 44 n)
              (λ values. some (simobject_data values)) (read_values_inside 44 n long)
              (λ vs e. omega (arith, e, few))))
    where
      small : (k : ℕ) → k < 18446744073709551616 → checked k ≡ some k
      small k h = if_true _ _ ((ltb_iff k _).1 h)

  parse_simobject_data_inside :
      (dw_size : ℕ) → Returns IsSound (parse_simobject_data of_bits buf dw_size)
  unfolding parse_simobject_data
  parse_simobject_data_inside dw_size =
      guarded 44 dw_size "SIMOBJECT_DATA shorter than fixed header" _ (λ long.
        Returns->>= Any IsSound (read_u32 buf 36) _ (read_u32_inside buf 36 (omega (arith, long)))
          (λ define_count _. payload_inside dw_size (min define_count 27) (ground arith)))

  parse_event_inside : (dw_size : ℕ) → Returns IsSound (parse_event of_bits buf dw_size)
  unfolding parse_event
  parse_event_inside dw_size = guarded 24 dw_size "EVENT shorter than fixed layout" _ (λ long.
      Returns->>= Any IsSound (read_u32 buf 16) _ (read_u32_inside buf 16 (omega (arith, long)))
        (λ event _. event_sound event))
    where
      event_sound :
          (event : ℕ)
          → IsSound {F = F} (
              if event == evt_pause
              then system_event_pause true
              else if event == evt_unpause
              then system_event_pause false
              else ignored)
      event_sound event = elim (Bool-cases (event == evt_pause)) [
        | inl y ↦ rw y tt
        | inr n ↦
            rw n (elim (Bool-cases (event == evt_unpause)) [ inl y ↦ rw y tt | inr m ↦ rw m tt ])
      ]

  parse_exception_inside : (dw_size : ℕ) → Returns IsSound (parse_exception of_bits buf dw_size)
  unfolding parse_exception
  parse_exception_inside dw_size =
      guarded 24 dw_size "EXCEPTION shorter than fixed layout" _ (λ long.
        Returns->>= Any IsSound (read_u32 buf 12) _ (read_u32_inside buf 12 (omega (arith, long)))
          (λ code _. tt))

  parse_id_inside : (dw_size id : ℕ) → Returns IsSound (parse_id of_bits buf dw_size id)
  unfolding parse_id
  parse_id_inside dw_size id =
      Returns-if IsSound (id == 8) (parse_simobject_data of_bits buf dw_size) _
        (λ _. parse_simobject_data_inside dw_size)
        (λ _.
          Returns-if IsSound (id == 4) (parse_event of_bits buf dw_size) _
            (λ _. parse_event_inside dw_size)
            (λ _.
              Returns-if IsSound (id == 1) (parse_exception of_bits buf dw_size) _
                (λ _. parse_exception_inside dw_size)
                (λ _.
                  Returns-if IsSound (id == 2) (some opened) _ (λ _. tt)
                    (λ _.
                      Returns-if IsSound (id == 3) (some quit) (some ignored) (λ _. tt)
                        (λ _. tt)))))

  -- Decoding any bytes whatsoever never reads outside them, and a telemetry record that it gives has
  -- at most as many values as the telemetry definition has data.
  pub parse_record_inside : Returns IsSound (parse_record of_bits buf)
  unfolding parse_record
  parse_record_inside =
      Returns-if IsSound (ltb (length buf) 12) (some (malformed "record shorter than base header"))
        _ (λ _. tt)
        (λ long.
          Returns->>= Any IsSound (read_u32 buf 0) _ (read_u32_inside buf 0 (ground (arith, long)))
            (λ dw_size _.
              Returns->>= Any IsSound (read_u32 buf 8) _
                (read_u32_inside buf 8 (ground (arith, long)))
                (λ id _.
                  Returns-if IsSound (ltb (length buf) dw_size)
                    (some (malformed "dwSize exceeds callback buffer")) _ (λ _. tt)
                    (λ _. parse_id_inside dw_size id))))
