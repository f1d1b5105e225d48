-- ===== src/Sop.antt =====
-- crates/fd-sop: standard operating procedures.
pub mod Engine
pub mod Package
