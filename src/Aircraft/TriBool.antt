-- ===== src/Aircraft/TriBool.antt =====
-- crates/fd-aircraft/src/condition.rs: the result of a condition.
pub data TriBool : Type 0 where
  true false unknown : TriBool
