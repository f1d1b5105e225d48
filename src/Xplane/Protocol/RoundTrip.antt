-- ===== src/Xplane/Protocol/RoundTrip.antt =====
-- Protocol: what a receiver reads from the packets, and what the parser reads from a response.
use flightdeck_os.Base.{
  ℕ, suc, ◌+◌, ◌-◌, ◌<◌, ◌≡◌, ◌≢◌, refl, ap, ◌∙◌, ◌&&◌, List, [], ◌∷◌, ◌++◌, Option, none, some,
  length, length-append, All, ◌==◌, if◌then◌else◌, arith, if_true, leb_iff, ==_iff,
}
use flightdeck_os.Base.Bytes.{
  take, replicate, bytes_eq, to_le_bytes, from_le_bytes, IsWord, from_le_bytes-to_le_bytes,
  length-replicate, length-take, take_all,
}
use flightdeck_os.Xplane.Protocol.{
  rref_tag, dref_tag, cmnd_tag, response_tag, path_field, rref_subscribe, dref_set, cmnd, records,
  parse_rref_records,
}

-- The bytes before the first NUL, as a C receiver reads a text.
pub c_string : List ℕ → List ℕ
c_string [] = []
c_string (b ∷ bs) = let rest = c_string bs in if b == 0 then [] else b ∷ rest

-- A text without a NUL in it.
abbrev pub IsText : List ℕ → Type 0
IsText = All (λ b. b ≢ 0)

c_string-append : (t rest : List ℕ) → IsText t → c_string (t ++ (0 ∷ rest)) ≡ t
unfolding c_string
c_string-append [] rest h = refl
c_string-append (b ∷ t) rest h = ground (arith, c_string-append t rest h.1, h.0)

length-path_field : (size : ℕ) (path : List ℕ) → 0 < size → length (path_field size path) ≡ size
unfolding path_field
length-path_field size path h = ground (
  arith,
  length-append {0} (take (length path) path) (replicate (size - length path) 0),
  length-append {0} (take (size - 1) path) (replicate (size - (size - 1)) 0),
  length-take {0} (length path) path,
  length-take {0} (size - 1) path,
  length-replicate {0} {A = ℕ} (size - length path) 0,
  length-replicate {0} {A = ℕ} (size - (size - 1)) 0,
)

path_field_short :
    (size : ℕ) (path : List ℕ)
    → length path < size
    → path_field size path ≡ path ++ (0 ∷ replicate (size - length path - 1) 0)
unfolding path_field
path_field_short size path h =
    let more : size - length path ≡ suc (size - length path - 1) = omega (arith, h) in
    let all = take_all (length path) path (omega arith) in
    let short = (leb_iff (length path) (size - 1)).1 (omega (arith, h)) in
    rw (short, all, ap (λ n. replicate {A = ℕ} n 0) more) refl

c_string-path_field :
    (size : ℕ) (path : List ℕ)
    → IsText path
    → length path < size
    → c_string (path_field size path) ≡ path
c_string-path_field size path t h =
    ap c_string (path_field_short size path h) ∙ c_string-append path _ t

-- What a receiver of the 413-byte packet takes from it: the rate, the id and the path.
pub read_subscription : List ℕ → Option (ℕ × ℕ × List ℕ)
unfolding c_string
read_subscription (a ∷ b ∷ c ∷ d ∷ e ∷ f ∷ g ∷ h ∷ i ∷ j ∷ k ∷ l ∷ m ∷ field) =
    if bytes_eq (a ∷ b ∷ c ∷ d ∷ e ∷ []) rref_tag && (length field == 400)
    then some (from_le_bytes f g h i, from_le_bytes j k l m, c_string field)
    else none
read_subscription _ = none

-- And of the 509-byte write: the path and the value.
pub read_write : List ℕ → Option (List ℕ × ℕ)
unfolding c_string
read_write (a ∷ b ∷ c ∷ d ∷ e ∷ f ∷ g ∷ h ∷ i ∷ field) =
    if bytes_eq (a ∷ b ∷ c ∷ d ∷ e ∷ []) dref_tag && (length field == 500)
    then some (c_string field, from_le_bytes f g h i)
    else none
read_write _ = none

pub read_command : List ℕ → Option (List ℕ)
unfolding c_string
read_command (a ∷ b ∷ c ∷ d ∷ e ∷ command) =
    if bytes_eq (a ∷ b ∷ c ∷ d ∷ e ∷ []) cmnd_tag then some (c_string command) else none
read_command _ = none

-- Every 32-bit rate and id, and every path without a NUL that leaves room for one in the 400-byte
-- field, is read back from the subscription packet.
pub read_subscription-rref_subscribe :
    (freq_hz client_id : ℕ) (path : List ℕ)
    → IsWord freq_hz
    → IsWord client_id
    → IsText path
    → length path < 400
    → read_subscription (rref_subscribe freq_hz client_id path) ≡ some (freq_hz, client_id, path)
unfolding read_subscription rref_subscribe
read_subscription-rref_subscribe freq_hz client_id path wf wi t h =
    let sized = length-path_field 400 path (omega arith) in
    rw
      (
        from_le_bytes-to_le_bytes freq_hz wf,
        from_le_bytes-to_le_bytes client_id wi,
        c_string-path_field 400 path t h,
      )
      (if_true _ _ ((==_iff _ _).1 sized))

-- A write packet is read back as its path and its value.
pub read_write-dref_set :
    (path : List ℕ) (value : ℕ)
    → IsText path
    → IsWord value
    → length path < 500
    → read_write (dref_set path value) ≡ some (path, value)
unfolding read_write dref_set
read_write-dref_set path value t w h =
    let sized = length-path_field 500 path (omega arith) in
    rw (from_le_bytes-to_le_bytes value w, c_string-path_field 500 path t h)
      (if_true _ _ ((==_iff _ _).1 sized))

-- A command packet is read back as its command.
pub read_command-cmnd :
    (command : List ℕ) → IsText command → read_command (cmnd command) ≡ some command
unfolding read_command cmnd
read_command-cmnd command t = ap some (c_string-append command [] t)

-- The packets' lengths, for every path: a path that is too long is cut.
pub length-packets :
    (freq_hz client_id value : ℕ) (path : List ℕ)
    → (length (rref_subscribe freq_hz client_id path) ≡ 413)
      × (length (dref_set path value) ≡ 509)
      × (length (cmnd path) ≡ length path + 6)
unfolding rref_subscribe dref_set cmnd
length-packets freq_hz client_id value path = (
  omega (arith, length-path_field 400 path (omega arith)),
  omega (arith, length-path_field 500 path (omega arith)),
  omega (arith, length-append {0} path (0 ∷ [])),
)

-- A response as X-Plane documents it: the tag, and eight bytes for each value.
pub encode_records : List (ℕ × ℕ) → List ℕ
encode_records [] = []
encode_records ((id, value) ∷ rs) = to_le_bytes id ++ (to_le_bytes value ++ encode_records rs)

pub response : List (ℕ × ℕ) → List ℕ → List ℕ
unfolding encode_records
response rs tail = response_tag ++ (encode_records rs ++ tail)

abbrev pub AreWords : List (ℕ × ℕ) → Type 0
AreWords = All (λ (r : ℕ × ℕ). IsWord r.0 × IsWord r.1)

records_short : (tail : List ℕ) → length tail < 8 → records tail ≡ []
unfolding records
records_short [] h = refl
records_short (a ∷ []) h = refl
records_short (a ∷ b ∷ []) h = refl
records_short (a ∷ b ∷ c ∷ []) h = refl
records_short (a ∷ b ∷ c ∷ d ∷ []) h = refl
records_short (a ∷ b ∷ c ∷ d ∷ e ∷ []) h = refl
records_short (a ∷ b ∷ c ∷ d ∷ e ∷ f ∷ []) h = refl
records_short (a ∷ b ∷ c ∷ d ∷ e ∷ f ∷ g ∷ []) h = refl
records_short (a ∷ b ∷ c ∷ d ∷ e ∷ f ∷ g ∷ h ∷ t) k = absurd (omega (arith, k))

records-encode_records :
    (rs : List (ℕ × ℕ)) (tail : List ℕ)
    → AreWords rs
    → length tail < 8
    → records (encode_records rs ++ tail) ≡ rs
unfolding records encode_records
records-encode_records [] tail w h = records_short tail h
records-encode_records ((id, value) ∷ rs) tail w h = rw (
  from_le_bytes-to_le_bytes id w.0.0,
  from_le_bytes-to_le_bytes value w.0.1,
  records-encode_records rs tail w.1 h,
)

-- Parsing a response gives its records back, in order and bit for bit, whatever fewer than eight
-- bytes of a truncated record follow them.
pub parse_rref_records-response :
    (rs : List (ℕ × ℕ)) (tail : List ℕ)
    → AreWords rs
    → length tail < 8
    → parse_rref_records (response rs tail) ≡ rs
unfolding parse_rref_records response
parse_rref_records-response rs tail w h = ground (arith, records-encode_records rs tail w h)
