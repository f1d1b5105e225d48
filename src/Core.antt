-- ===== src/Core.antt =====
-- crates/fd-core: the vocabulary of the runtime.
pub mod Actions
pub mod Adapter
pub mod Telemetry
pub mod Events
pub mod Delta
pub mod Phase
pub mod Geo
pub mod Capability
