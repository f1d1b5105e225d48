-- ===== src/Xplane/Client/Bound.antt =====
-- Client: the board holds subscribed ids only, each once, so it cannot outgrow the subscription.
use flightdeck_os.Base.{
  ℕ, suc, ◌≤◌, ◌≡◌, ◌≢◌, true, List, [], ◌∷◌, length, All, ◌==◌, Bool-cases, inl, inr, if_true,
  if_false, if◌then◌else◌, arith,
}
use flightdeck_os.Xplane.Protocol.{parse_rref_records}
use flightdeck_os.Xplane.Client.{
  ValueBoard, put, insert, Shared, no_packets, Received, datagram, timed_out, failed, contains,
  via_f64, store_one, store, receive, receive_all,
}

-- Every id on the board is subscribed, and none stands there twice.
abbrev IsOn : List ℕ → ValueBoard → Type 0
IsOn ids = All (λ (e : ℕ × (ℕ × ℕ)). contains e.0 ids ≡ true)

abbrev IsFree : ℕ → ValueBoard → Type 0
IsFree id = All (λ (e : ℕ × (ℕ × ℕ)). e.0 ≢ id)

abbrev IsMap : ValueBoard → Type 0
IsMap [] = Unit
IsMap ((k, _) ∷ b) = IsFree k b × IsMap b

put-IsOn :
    (ids : List ℕ) (id : ℕ) (e : ℕ × ℕ) (b : ValueBoard)
    → contains id ids ≡ true
    → IsOn ids b
    → IsOn ids (put id e b)
unfolding put
put-IsOn ids id e [] h o = (h, tt)
put-IsOn ids id e ((k, d) ∷ b) h o = elim (Bool-cases (k == id)) [
  | inl y ↦ rw (if_true ((k, e) ∷ b) ((k, d) ∷ put id e b) y) o
  | inr n ↦ rw (if_false ((k, e) ∷ b) ((k, d) ∷ put id e b) n) ((o.0, put-IsOn ids id e b h o.1))
]

put-IsFree : (j id : ℕ) (e : ℕ × ℕ) (b : ValueBoard) → id ≢ j → IsFree j b → IsFree j (put id e b)
unfolding put
put-IsFree j id e [] h o = (h, tt)
put-IsFree j id e ((k, d) ∷ b) h o = elim (Bool-cases (k == id)) [
  | inl y ↦ rw (if_true ((k, e) ∷ b) ((k, d) ∷ put id e b) y) o
  | inr n ↦ rw (if_false ((k, e) ∷ b) ((k, d) ∷ put id e b) n) ((o.0, put-IsFree j id e b h o.1))
]

put-IsMap : (id : ℕ) (e : ℕ × ℕ) (b : ValueBoard) → IsMap b → IsMap (put id e b)
unfolding put
put-IsMap id e [] o = (tt, tt)
put-IsMap id e ((k, d) ∷ b) o = elim (Bool-cases (k == id)) [
  | inl y ↦ rw (if_true ((k, e) ∷ b) ((k, d) ∷ put id e b) y) o
  | inr n ↦
      rw (if_false ((k, e) ∷ b) ((k, d) ∷ put id e b) n)
        ((put-IsFree k id e b (λ q. ground (arith, n, q)) o.0, put-IsMap id e b o.1))
]

record Fits (ids : List ℕ) (b : ValueBoard) : Type 0 where
  on : IsOn ids b
  once : IsMap b

store_one-Fits :
    (ids : List ℕ) (now : ℕ) (shared : Shared) (r : ℕ × ℕ)
    → Fits ids shared.board
    → Fits ids (store_one ids now shared r).board
unfolding store_one insert
store_one-Fits ids now shared (id, v) f = elim (Bool-cases (contains id ids)) [
  | inl y ↦ rw y (record {
    on = put-IsOn ids id (now, via_f64 v) shared.board y f.on;
    once = put-IsMap id (now, via_f64 v) shared.board f.once;
  })
  | inr n ↦ rw n f
]

store-Fits :
    (ids : List ℕ) (now : ℕ) (rs : List (ℕ × ℕ)) (shared : Shared)
    → Fits ids shared.board
    → Fits ids (store ids now rs shared).board
unfolding store
store-Fits ids now [] shared f = f
store-Fits ids now (r ∷ rs) shared f = store-Fits ids now rs _ (store_one-Fits ids now shared r f)

receive-Fits :
    (remote : ℕ) (ids payload : List ℕ) (shared : Shared) (r : Received)
    → Fits ids shared.board
    → Fits ids (receive remote ids payload shared r).0.board
unfolding receive
receive-Fits remote ids payload shared (datagram bytes from now) f =
    elim (Bool-cases (from == remote)) [
      | inl y ↦ rw y (store-Fits ids now (parse_rref_records bytes) shared f)
      | inr n ↦ rw n f
    ]
receive-Fits remote ids payload shared (timed_out _) f = f
receive-Fits remote ids payload shared failed f = f

receive_all-Fits :
    (remote : ℕ) (ids payload : List ℕ) (rs : List Received) (shared : Shared)
    → Fits ids shared.board
    → Fits ids (receive_all remote ids payload rs shared).board
unfolding receive_all
receive_all-Fits remote ids payload [] shared f = f
receive_all-Fits remote ids payload (r ∷ rs) shared f =
    receive_all-Fits remote ids payload rs _ (receive-Fits remote ids payload shared r f)

remove : ℕ → List ℕ → List ℕ
remove id [] = []
remove id (k ∷ ids) = let rest = remove id ids in if k == id then ids else k ∷ rest

length-remove :
    (id : ℕ) (ids : List ℕ) → contains id ids ≡ true → suc (length (remove id ids)) ≡ length ids
unfolding remove
length-remove id [] h = cc
length-remove id (k ∷ ids) h = ground (arith, length-remove id ids)

contains-remove :
    (id j : ℕ) (ids : List ℕ) → j ≢ id → contains j ids ≡ true → contains j (remove id ids) ≡ true
unfolding remove
contains-remove id j [] n h = h
contains-remove id j (k ∷ ids) n h = ground (arith, contains-remove id j ids n)

IsOn-remove :
    (id : ℕ) (ids : List ℕ) (b : ValueBoard) → IsFree id b → IsOn ids b → IsOn (remove id ids) b
IsOn-remove id ids [] f o = tt
IsOn-remove id ids ((k, d) ∷ b) f o =
    (contains-remove id k ids f.0 o.0, IsOn-remove id ids b f.1 o.1)

length-Fits : (ids : List ℕ) (b : ValueBoard) → IsOn ids b → IsMap b → length b ≤ length ids
length-Fits ids [] o m = omega arith
length-Fits ids ((k, d) ∷ b) o m =
    omega (
      arith,
      length-remove k ids o.0,
      length-Fits (remove k ids) b (IsOn-remove k ids b m.0 o.1) m.1,
    )

-- Whatever arrives, from whichever hosts, the board never has more entries than the client has
-- subscribed ids.
pub receive_all-length_le :
    (remote : ℕ) (subscribed payload : List ℕ) (rs : List Received)
    → length (receive_all remote subscribed payload rs no_packets).board ≤ length subscribed
receive_all-length_le remote subscribed payload rs =
    let f =
      receive_all-Fits remote subscribed payload rs no_packets (record { on = tt; once = tt }) in
    length-Fits subscribed _ f.on f.once
