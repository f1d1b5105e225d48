-- ===== src/Virtual.antt =====
-- crates/fd-virtual: the virtual simulator.
pub mod Systems
pub mod Kinematics
pub mod Faults
pub mod Adapter
