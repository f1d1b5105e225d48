-- ===== src/Simconnect/Parse.antt =====
-- crates/fd-simconnect/src/parse.rs: decoding the records of SimConnect. The slice is a list of
-- bytes, and a read through its pointer is `none` where it leaves the slice, which in the code is
-- undefined behaviour. The layouts are those of crates/fd-simconnect/src/ffi.rs.
pub mod Bounds
pub mod RoundTrip
use flightdeck_os.Base.{
  ℕ, zero, suc, ◌+◌, ◌*◌, Bool, true, false, ◌||◌, List, [], ◌∷◌, Option, none, some, ◌>>=◌, length,
  ltb, leb, ◌==◌, if◌then◌else◌,
}
use flightdeck_os.Base.Bytes.{drop, from_le_bytes}
use flightdeck_os.Base.Texts.{String}

-- The sizes of the packed structs, three, nine, six and six `DWORD`s.
abbrev pub base_header_len : ℕ
base_header_len = 12

abbrev pub simobject_data_header_len : ℕ
simobject_data_header_len = 44

abbrev pub event_len : ℕ
event_len = 24

abbrev pub exception_len : ℕ
exception_len = 24

-- Where the values start: the offset of `dwData`, and four.
abbrev pub payload_offset : ℕ
payload_offset = 44

-- The offset of `dwDefineCount`.
abbrev pub define_count_offset : ℕ
define_count_offset = 36

-- The length of the datum table.
abbrev pub datum_count : ℕ
datum_count = 27

abbrev pub id_exception : ℕ
id_exception = 1

abbrev pub id_open : ℕ
id_open = 2

abbrev pub id_quit : ℕ
id_quit = 3

abbrev pub id_event : ℕ
id_event = 4

abbrev pub id_simobject_data : ℕ
id_simobject_data = 8

abbrev pub evt_pause : ℕ
evt_pause = 1

abbrev pub evt_unpause : ℕ
evt_unpause = 2

unfoldable pub read_u32 : List ℕ → ℕ → Option ℕ
read_u32 buf offset = word (drop offset buf)
  where
    word : List ℕ → Option ℕ
    word (a ∷ b ∷ c ∷ d ∷ _) = some (from_le_bytes a b c d)
    word _ = none

-- The 64-bit pattern of an `f64`.
unfoldable pub read_f64 : List ℕ → ℕ → Option ℕ
unfolding read_u32
read_f64 buf offset = do
  low ← read_u32 buf offset
  high ← read_u32 buf (offset + 4)
  some (low + high * 4294967296)

pub data RecvRecord (F : Type 0) : Type 0 where
  simobject_data : List F → RecvRecord F
  system_event_pause : Bool → RecvRecord F
  exception : ℕ → RecvRecord F
  opened quit ignored : RecvRecord F
  malformed : String → RecvRecord F

abbrev pub min : ℕ → ℕ → ℕ
min a b = if leb a b then a else b

-- `usize::checked_mul` and `checked_add`, on 64 bits.
abbrev pub checked : ℕ → Option ℕ
checked n = if ltb n 18446744073709551616 then some n else none

module _ {F : Type 0} (of_bits : ℕ → F) where
  unfoldable pub read_values : List ℕ → ℕ → ℕ → Option (List F)
  unfolding read_f64
  read_values buf offset zero = some []
  read_values buf offset (suc n) = do
    v ← read_f64 buf offset
    vs ← read_values buf (offset + 8) n
    some (of_bits v ∷ vs)

  abbrev pub required_end : ℕ → Option ℕ
  required_end n = do payload ← checked (n * 8); checked (payload_offset + payload)

  abbrev pub payload : List ℕ → ℕ → ℕ → Option ℕ → Option (RecvRecord F)
  payload buf dw_size n none = some (malformed "payload size overflow")
  payload buf dw_size n (some end) =
      if ltb (length buf) end || ltb dw_size end
      then some (malformed "SIMOBJECT_DATA payload truncated")
      else (read_values buf payload_offset n >>= λ values. some (simobject_data values))

  unfoldable pub parse_simobject_data : List ℕ → ℕ → Option (RecvRecord F)
  unfolding read_values read_u32
  parse_simobject_data buf dw_size =
      if ltb (length buf) simobject_data_header_len || ltb dw_size simobject_data_header_len
      then some (malformed "SIMOBJECT_DATA shorter than fixed header")
      else (do
        define_count ← read_u32 buf define_count_offset
        let n = min define_count datum_count
        payload buf dw_size n (required_end n))

  unfoldable pub parse_event : List ℕ → ℕ → Option (RecvRecord F)
  unfolding read_u32
  parse_event buf dw_size =
      if ltb (length buf) event_len || ltb dw_size event_len
      then some (malformed "EVENT shorter than fixed layout")
      else (do
        event ← read_u32 buf 16
        some (
            if event == evt_pause
            then system_event_pause true
            else if event == evt_unpause
            then system_event_pause false
            else ignored))

  unfoldable pub parse_exception : List ℕ → ℕ → Option (RecvRecord F)
  unfolding read_u32
  parse_exception buf dw_size =
      if ltb (length buf) exception_len || ltb dw_size exception_len
      then some (malformed "EXCEPTION shorter than fixed layout")
      else (do code ← read_u32 buf 12; some (exception code))

  -- The dispatch on the record's id.
  unfoldable pub parse_id : List ℕ → ℕ → ℕ → Option (RecvRecord F)
  unfolding parse_simobject_data parse_event parse_exception
  parse_id buf dw_size id =
      if id == id_simobject_data
      then parse_simobject_data buf dw_size
      else if id == id_event
      then parse_event buf dw_size
      else if id == id_exception
      then parse_exception buf dw_size
      else if id == id_open
      then some opened
      else if id == id_quit
      then some quit
      else some ignored

  unfoldable pub parse_record : List ℕ → Option (RecvRecord F)
  unfolding read_u32 parse_id
  parse_record buf =
      if ltb (length buf) base_header_len
      then some (malformed "record shorter than base header")
      else (do
        dw_size ← read_u32 buf 0
        id ← read_u32 buf 8
        (if ltb (length buf) dw_size
            then some (malformed "dwSize exceeds callback buffer")
            else parse_id buf dw_size id))
