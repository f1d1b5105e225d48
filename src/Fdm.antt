-- ===== src/Fdm.antt =====
-- crates/fd-fdm: the flight session, the recorded samples and their analysis.
pub mod Session
pub mod Fdr
pub mod Analyzer
