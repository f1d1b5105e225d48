-- ===== src/Xplane/Client/Provenance.antt =====
-- Client: what the board serves is what the simulator's host sent last, and no older than asked.
use flightdeck_os.Base.{
  ℕ, ◌+◌, ◌-◌, ◌≤◌, ◌≡◌, ◌↔◌, refl, sym, ap, ◌∙◌, true, List, [], ◌∷◌, Option, none, some, ltb,
  ◌==◌, ==_iff, Bool-cases, inl, inr, if_true, if_false, if◌then◌else◌, arith,
}
use flightdeck_os.Core.Telemetry.{DataQuality, fresh, stale, missing}
use flightdeck_os.Xplane.Protocol.{parse_rref_records}
use flightdeck_os.Xplane.Client.{
  ValueBoard, get, put, insert, latest, quality, duration_since, Shared, no_packets, Received,
  datagram, timed_out, failed, contains, via_f64, store_one, store, receive, receive_all,
}

-- The later of two sightings, if there is one.
pub later : Option (ℕ × ℕ) → Option (ℕ × ℕ) → Option (ℕ × ℕ)
later old none = old
later old (some e) = some e

-- The last value of an id in a list of records, as the casts leave it, with the time `now`.
pub last_in : ℕ → ℕ → List (ℕ × ℕ) → Option (ℕ × ℕ)
last_in id now [] = none
last_in id now ((k, v) ∷ rs) =
    later (if k == id then some (now, via_f64 v) else none) (last_in id now rs)

-- The last value of an id in the datagrams that a host sent, with the time of its arrival.
pub last_heard : ℕ → ℕ → List Received → Option (ℕ × ℕ)
unfolding last_in
last_heard remote id [] = none
last_heard remote id (datagram bytes from now ∷ rs) =
    later (if from == remote then last_in id now (parse_rref_records bytes) else none)
      (last_heard remote id rs)
last_heard remote id (timed_out _ ∷ rs) = last_heard remote id rs
last_heard remote id (failed ∷ rs) = last_heard remote id rs

later_assoc : (a b c : Option (ℕ × ℕ)) → later (later a b) c ≡ later a (later b c)
unfolding later
later_assoc a b none = refl
later_assoc a b (some e) = refl

later-none : (a : Option (ℕ × ℕ)) → later none a ≡ a
unfolding later
later-none none = refl
later-none (some e) = refl

later-none_right : (a : Option (ℕ × ℕ)) → later a none ≡ a
unfolding later
later-none_right a = refl

get-put :
    (j id : ℕ) (e : ℕ × ℕ) (b : ValueBoard)
    → get j (put id e b) ≡ (if id == j then some e else get j b)
unfolding get put
get-put j id e [] = refl
get-put j id e ((k, d) ∷ b) = elim (Bool-cases (k == id)) [
  | inl y ↦ ground (arith, y)
  | inr n ↦ ground (arith, n, get-put j id e b)
]

served :
    (now after v : ℕ) (o : Option (ℕ × ℕ))
    → (elim o [
      | none ↦ none
      | some (t, w) ↦ if ltb after (duration_since now t) then none else some w
    ]
        ≡ some v)
      ↔ ((t : ℕ) × (o ≡ some (t, v)) × (now - t ≤ after))
served now after v none = ((λ e. cc), (λ r. cc (r.1)))
served now after v (some (t, w)) =
    ((λ e. (t, ground (arith, e), ground (arith, e))), (λ r. ground (arith, r.1, r.2)))

graded :
    (now after : ℕ) (o : Option (ℕ × ℕ))
    → let q : DataQuality = elim o [
      | none ↦ missing
      | some (t, w) ↦ if ltb after (duration_since now t) then stale else fresh
    ] in
      let l : Option ℕ = elim o [
        | none ↦ none
        | some (t, w) ↦ if ltb after (duration_since now t) then none else some w
      ] in
      ((q ≡ fresh) ↔ ((v : ℕ) × (l ≡ some v))) × ((q ≡ missing) ↔ (o ≡ none))
graded now after none = (((λ q. cc), (λ r. cc (r.1))), ((λ _. refl), (λ _. refl)))
graded now after (some (t, w)) = elim (Bool-cases (ltb after (duration_since now t))) [
  | inl y ↦ rw y (((λ q. cc), (λ r. cc (r.1))), ((λ q. cc), (λ q. cc)))
  | inr n ↦ rw n (((λ q. (w, refl)), (λ r. refl)), ((λ q. cc), (λ q. cc)))
]

module _ (subscribed : List ℕ) (id : ℕ) (on : contains id subscribed ≡ true) where
  get-store_one :
      (now : ℕ) (shared : Shared) (k v : ℕ)
      → get id (store_one subscribed now shared (k, v)).board
        ≡ later (get id shared.board) (if k == id then some (now, via_f64 v) else none)
  unfolding store_one insert later
  get-store_one now shared k v = elim (Bool-cases (k == id)) [
    | inl y ↦
        let sub : contains k subscribed ≡ true = rw ((==_iff k id).0 y) on in
        rw (sub, get-put id k (now, via_f64 v) shared.board, y)
    | inr n ↦ elim (Bool-cases (contains k subscribed)) [
      | inl sub ↦ rw (sub, get-put id k (now, via_f64 v) shared.board, n)
      | inr no_sub ↦ rw (no_sub, n)
    ]
  ]

  get-store :
      (now : ℕ) (rs : List (ℕ × ℕ)) (shared : Shared)
      → get id (store subscribed now rs shared).board
        ≡ later (get id shared.board) (last_in id now rs)
  unfolding store last_in
  get-store now [] shared = sym (later-none_right _)
  get-store now ((k, v) ∷ rs) shared =
      get-store now rs (store_one subscribed now shared (k, v))
      ∙ ap (λ o. later o (last_in id now rs)) (get-store_one now shared k v)
      ∙ later_assoc _ _ _

  module _ (remote : ℕ) (payload : List ℕ) where
    get-receive :
        (bytes : List ℕ) (from now : ℕ) (shared : Shared)
        → get id (receive remote subscribed payload shared (datagram bytes from now)).0.board
          ≡ later
              (get id shared.board)
              (if from == remote then last_in id now (parse_rref_records bytes) else none)
    unfolding receive later
    get-receive bytes from now shared = elim (Bool-cases (from == remote)) [
      | inl y ↦
          ap (λ (s : Shared). get id s.board) (if_true _ _ y)
          ∙ get-store now (parse_rref_records bytes) shared
          ∙ ap (later (get id shared.board)) (sym (if_true _ _ y))
      | inr n ↦
          ap (λ (s : Shared). get id s.board) (if_false _ _ n)
          ∙ ap (later (get id shared.board)) (sym (if_false _ _ n))
    ]

    get-receive_all :
        (rs : List Received) (shared : Shared)
        → get id (receive_all remote subscribed payload rs shared).board
          ≡ later (get id shared.board) (last_heard remote id rs)
    unfolding receive_all last_heard
    get-receive_all [] shared = sym (later-none_right _)
    get-receive_all (datagram bytes from now ∷ rs) shared =
        get-receive_all rs _
        ∙ ap (λ o. later o (last_heard remote id rs)) (get-receive bytes from now shared)
        ∙ later_assoc _ _ _
    get-receive_all (timed_out _ ∷ rs) shared = get-receive_all rs shared
    get-receive_all (failed ∷ rs) shared =
        get-receive_all rs (record shared { recv_errors = shared.recv_errors + 1 })

-- Whatever arrives before it, a subscribed id reads as `v` exactly when the last value that the
-- simulator's own host sent for that id is `v` (a signalling NaN made quiet), and it came no longer
-- than `after` ago.
pub latest-receive_all :
    (subscribed : List ℕ) (id remote : ℕ) (payload : List ℕ) (rs : List Received) (now after v : ℕ)
    → contains id subscribed ≡ true
    → (latest (receive_all remote subscribed payload rs no_packets).board id now after ≡ some v)
      ↔ ((t : ℕ) × (last_heard remote id rs ≡ some (t, v)) × (now - t ≤ after))
unfolding latest
latest-receive_all subscribed id remote payload rs now after v on =
    let heard = get-receive_all subscribed id on remote payload rs no_packets in
    rw (← (heard ∙ later-none (last_heard remote id rs))) (served now after v _)

-- The quality of a channel is `fresh` exactly when a value is served for it, and `missing` exactly
-- when no datagram has brought one.
pub quality-latest :
    (board : ValueBoard) (id now after : ℕ)
    → ((quality board id now after ≡ fresh) ↔ ((v : ℕ) × (latest board id now after ≡ some v)))
      × ((quality board id now after ≡ missing) ↔ (get id board ≡ none))
unfolding quality latest
quality-latest board id now after = graded now after (get id board)
