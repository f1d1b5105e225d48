-- ===== src/Simconnect.antt =====
-- crates/fd-simconnect: the SimConnect adapter, as it is compiled on Windows.
pub mod Parse
pub mod Mapping
pub mod Bindings
pub mod Client
pub mod Adapter
