-- ===== src/Aircraft.antt =====
-- crates/fd-aircraft: the aircraft packages' typed state fields and conditions.
pub mod StateField
pub mod TriBool
pub mod Condition
