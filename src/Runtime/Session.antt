-- ===== src/Runtime/Session.antt =====
-- crates/fd-runtime/src/session.rs: the session and its counter of event numbers.
use flightdeck_os.Base.{ℕ, ◌+◌, Option, none, some, ltb, if◌then◌else◌}
use flightdeck_os.Core.Events.{EventSeq}

pub record Session : Type 0 where
  pub id : ℕ  -- SessionId(u64)
  pub next_seq : ℕ  -- u64

abbrev pub with_id : ℕ → Session
with_id id = record { id = id; next_seq = 0 }

-- `next_seq`; `none` is the panic of `checked_add`.
unfoldable pub take_seq : Session → Option (EventSeq × Session)
take_seq session =
    if ltb session.next_seq 18446744073709551615
    then some (session.next_seq, record session { next_seq = session.next_seq + 1 })
    else none
