-- ===== src/Xplane/Protocol.antt =====
-- crates/fd-xplane/src/protocol.rs: the packets sent to X-Plane and the datagrams read from it. A
-- byte is a number, an `i32` or `f32` its 32-bit pattern, and a path the bytes of its text.
pub mod RoundTrip
use flightdeck_os.Base.{
  ℕ, ◌-◌, Bool, List, [], ◌∷◌, ◌++◌, length, ltb, leb, not, ◌||◌, if◌then◌else◌,
}
use flightdeck_os.Base.Bytes.{take, drop, replicate, bytes_eq, to_le_bytes, from_le_bytes}

-- "RREF\0", "DREF\0", "CMND\0" and "RREF,".
abbrev pub rref_tag : List ℕ
rref_tag = b'R' ∷ b'R' ∷ b'E' ∷ b'F' ∷ 0 ∷ []

abbrev pub dref_tag : List ℕ
dref_tag = b'D' ∷ b'R' ∷ b'E' ∷ b'F' ∷ 0 ∷ []

abbrev pub cmnd_tag : List ℕ
cmnd_tag = b'C' ∷ b'M' ∷ b'N' ∷ b'D' ∷ 0 ∷ []

abbrev pub response_tag : List ℕ
response_tag = b'R' ∷ b'R' ∷ b'E' ∷ b'F' ∷ b',' ∷ []

abbrev pub min : ℕ → ℕ → ℕ
min a b = if leb a b then a else b

-- A zeroed array of `size` bytes with the path's first `size - 1` bytes copied over its start.
unfoldable pub path_field : ℕ → List ℕ → List ℕ
path_field size path = let n = min (length path) (size - 1) in take n path ++ replicate (size - n) 0

unfoldable pub rref_subscribe : ℕ → ℕ → List ℕ → List ℕ
rref_subscribe freq_hz client_id path =
    rref_tag ++ (to_le_bytes freq_hz ++ (to_le_bytes client_id ++ path_field 400 path))

unfoldable pub dref_set : List ℕ → ℕ → List ℕ
dref_set path value = dref_tag ++ (to_le_bytes value ++ path_field 500 path)

unfoldable pub cmnd : List ℕ → List ℕ
cmnd command = cmnd_tag ++ (command ++ (0 ∷ []))

-- The loop over the 8-byte records; what is left when fewer than 8 bytes remain is ignored.
unfoldable pub records : List ℕ → List (ℕ × ℕ)
records (a ∷ b ∷ c ∷ d ∷ e ∷ f ∷ g ∷ h ∷ rest) =
    (from_le_bytes a b c d, from_le_bytes e f g h) ∷ records rest
records _ = []

unfoldable pub parse_rref_records : List ℕ → List (ℕ × ℕ)
unfolding records
parse_rref_records buf =
    if ltb (length buf) 5 || not (bytes_eq (take 5 buf) response_tag)
    then []
    else records (drop 5 buf)
