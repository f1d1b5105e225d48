-- ===== src/Simconnect/Parse/RoundTrip.antt =====
-- Parse: what it decodes from a telemetry record laid out as the packed struct is.
use flightdeck_os.Base.{
  ℕ, zero, suc, ◌+◌, ◌*◌, ◌/◌, ◌%◌, ◌≤◌, ◌<◌, ◌≡◌, refl, sym, ap, ◌∙◌, false, ◌||◌, List, [], ◌∷◌,
  ◌++◌, map, some, ◌>>=◌, >>=-some, length, length-append, All, ltb, ltb_iff, if_true, if_false,
  arith,
}
use flightdeck_os.Base.Bytes.{drop, take, to_le_bytes, IsWord, from_le_bytes-to_le_bytes}
use flightdeck_os.Simconnect.Parse.{
  read_u32, read_f64, simobject_data, min, checked, read_values, required_end, payload,
  parse_simobject_data, parse_id, parse_record, datum_count,
}

-- `f64::to_le_bytes`, on the 64-bit pattern.
abbrev pub to_le_bytes64 : ℕ → List ℕ
to_le_bytes64 n = to_le_bytes (n % 4294967296) ++ to_le_bytes (n / 4294967296)

pub encode_values : List ℕ → List ℕ
encode_values [] = []
encode_values (v ∷ vs) = to_le_bytes64 v ++ encode_values vs

-- The fields of the struct that the decoder does not look at.
pub record Unread : Type 0 where
  pub version : ℕ
  pub request_id : ℕ
  pub object_id : ℕ
  pub define_id : ℕ
  pub flags : ℕ
  pub entry_number : ℕ
  pub out_of : ℕ
  pub placeholder : ℕ

-- A telemetry record with all its values, and whatever stands behind it in the buffer.
pub telemetry_record : Unread → List ℕ → List ℕ → List ℕ
unfolding encode_values
telemetry_record u vs rest =
    to_le_bytes (44 + length vs * 8)
    ++ (to_le_bytes u.version
        ++ (to_le_bytes 8
            ++ (to_le_bytes u.request_id
                ++ (to_le_bytes u.object_id
                    ++ (to_le_bytes u.define_id
                        ++ (to_le_bytes u.flags
                            ++ (to_le_bytes u.entry_number
                                ++ (to_le_bytes u.out_of
                                    ++ (to_le_bytes (length vs)
                                        ++ (to_le_bytes u.placeholder
                                            ++ (encode_values vs ++ rest)))))))))))

abbrev pub IsWord64 : ℕ → Type 0
IsWord64 n = n < 18446744073709551616

drop-nil : {A : Type 0} (n : ℕ) → drop {A = A} n [] ≡ []
drop-nil zero = refl
drop-nil (suc n) = refl

drop_add : {A : Type 0} (m n : ℕ) (xs : List A) → drop (m + n) xs ≡ drop n (drop m xs)
drop_add m n [] = drop-nil (m + n) ∙ sym (ap (drop n) (drop-nil m) ∙ drop-nil n)
drop_add zero n xs = ap (λ k. drop k xs) (omega arith)
drop_add (suc m) n (x ∷ xs) =
    let e : suc m + n ≡ suc (m + n) = omega arith in ap (λ k. drop k (x ∷ xs)) e ∙ drop_add m n xs

read_u32_here :
    (buf rest : List ℕ) (offset n : ℕ)
    → drop offset buf ≡ to_le_bytes n ++ rest
    → IsWord n
    → read_u32 buf offset ≡ some n
unfolding read_u32
read_u32_here buf rest offset n e h = rw (e, from_le_bytes-to_le_bytes n h)

read_f64_here :
    (buf rest : List ℕ) (offset n : ℕ)
    → drop offset buf ≡ to_le_bytes64 n ++ rest
    → IsWord64 n
    → read_f64 buf offset ≡ some n
unfolding read_f64
read_f64_here buf rest offset n e h =
    >>=-some _ (read_u32_here buf _ offset (n % 4294967296) e (omega arith))
    ∙ >>=-some _ (
        read_u32_here buf rest (offset + 4) (n / 4294967296) (drop_add offset 4 buf ∙ ap (drop 4) e)
          (omega (arith, h)))
    ∙ ap some (omega arith)

module _ {F : Type 0} (of_bits : ℕ → F) where
  read_values_here :
      (n : ℕ) (vs buf rest : List ℕ) (offset : ℕ)
      → drop offset buf ≡ encode_values vs ++ rest
      → n ≤ length vs
      → All IsWord64 vs
      → read_values of_bits buf offset n ≡ some (map of_bits (take n vs))
  unfolding read_values encode_values
  read_values_here zero vs buf rest offset e h w = refl
  read_values_here (suc n) [] buf rest offset e h w = absurd (omega (arith, h))
  read_values_here (suc n) (v ∷ vs) buf rest offset e h w =
      >>=-some _ (read_f64_here buf (encode_values vs ++ rest) offset v e w.0)
      ∙ >>=-some _ (
          read_values_here n vs buf rest (offset + 8) (drop_add offset 8 buf ∙ ap (drop 8) e)
            (omega (arith, h)) w.1)

  length-encode_values : (vs : List ℕ) → length (encode_values vs) ≡ length vs * 8
  unfolding encode_values
  length-encode_values [] = refl
  length-encode_values (v ∷ vs) = omega (arith, length-encode_values vs)

  module _ (buf rest vs : List ℕ) (here : drop 44 buf ≡ encode_values vs ++ rest)
      (w : All IsWord64 vs) where
    payload_here :
        (dw_size n : ℕ)
        → n ≤ length vs
        → n ≤ datum_count
        → 44 + length vs * 8 ≤ length buf
        → 44 + length vs * 8 ≤ dw_size
        → payload of_bits buf dw_size n (required_end of_bits n)
          ≡ some (simobject_data (map of_bits (take n vs)))
    payload_here dw_size n few clamped long sized =
        rw (small (n * 8) (omega (arith, clamped)), small (44 + n * 8) (omega (arith, clamped)))
          (if_false _ _ (covers (44 + n * 8) (omega (arith, few, long)) (omega (arith, few, sized)))
            ∙ ap (λ o. o >>= λ values. some (simobject_data values))
                (read_values_here n vs buf rest 44 here few w))
      where
        small : (k : ℕ) → k < 18446744073709551616 → checked k ≡ some k
        small k h = if_true _ _ ((ltb_iff k _).1 h)

        covers :
            (end : ℕ)
            → end ≤ length buf
            → end ≤ dw_size
            → (ltb (length buf) end || ltb dw_size end) ≡ false
        covers end a b = ground (arith, a, b)

    decode_here :
        44 + length vs * 8 ≤ length buf
        → read_u32 buf 0 ≡ some (44 + length vs * 8)
        → read_u32 buf 8 ≡ some 8
        → read_u32 buf 36 ≡ some (length vs)
        → parse_record of_bits buf
          ≡ some (simobject_data (map of_bits (take (min (length vs) datum_count) vs)))
    unfolding parse_record parse_id parse_simobject_data
    decode_here long size id count =
        if_false _ _ (is_long 12 (omega (arith, long)))
        ∙ >>=-some _ size
        ∙ >>=-some _ id
        ∙ if_false _ _ (is_long (44 + length vs * 8) long)
        ∙ if_false _ _ fits
        ∙ >>=-some _ count
        ∙ payload_here (44 + length vs * 8) (min (length vs) datum_count) (ground arith)
            (ground arith) long (omega arith)
      where
        is_long : (n : ℕ) → n ≤ length buf → ltb (length buf) n ≡ false
        is_long n h = ground (arith, h)

        fits : (ltb (length buf) 44 || ltb (44 + length vs * 8) 44) ≡ false
        fits = ground (arith, long)

  -- A telemetry record decodes to its values, to the first 27 of them where it has more than the
  -- telemetry definition asks for; neither the fields it does not look at nor what follows the
  -- record in the buffer matters.
  pub parse_record-telemetry_record :
      (u : Unread) (vs rest : List ℕ)
      → All IsWord64 vs
      → 44 + length vs * 8 < 4294967296
      → parse_record of_bits (telemetry_record u vs rest)
        ≡ some (simobject_data (map of_bits (take (min (length vs) datum_count) vs)))
  unfolding telemetry_record
  parse_record-telemetry_record u vs rest w h =
      decode_here (telemetry_record u vs rest) rest vs refl w long
        (read_u32_here (telemetry_record u vs rest) _ 0 _ refl h)
        (read_u32_here (telemetry_record u vs rest) _ 8 8 refl (omega arith))
        (read_u32_here (telemetry_record u vs rest) _ 36 _ refl (omega (arith, h)))
    where
      long : 44 + length vs * 8 ≤ length (telemetry_record u vs rest)
      long = omega (arith, length-append {0} (encode_values vs) rest, length-encode_values vs)
