-- ===== src/Xplane.antt =====
-- crates/fd-xplane: the X-Plane UDP adapter.
pub mod Protocol
pub mod Client
pub mod Guard
pub mod Refs
pub mod Adapter
