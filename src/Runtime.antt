-- ===== src/Runtime.antt =====
-- crates/fd-runtime: the deterministic runtime.
pub mod Trace
pub mod Executor
pub mod Session
pub mod Ingest
pub mod PhaseTracker
pub mod Loop
pub mod Replay
