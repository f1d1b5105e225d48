-- ===== src/Core/Events.antt =====
-- crates/fd-core/src/events.rs: sequence numbers and provenance. An `EventSeq` is its `u64`.
use flightdeck_os.Base.{ℕ, ◌-◌, ◌^◌}

abbrev pub EventSeq : Type 0
EventSeq = ℕ

-- `EventSeq::new(u64::MAX)`, which the runtime replaces before it appends an event.
abbrev pub placeholder : EventSeq
placeholder = 2 ^ 64 - 1

pub data EventSource : Type 0 where
  simulator replay derived : EventSource
