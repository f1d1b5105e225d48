-- ===== src/Mission.antt =====
-- crates/fd-mission: routes, their observation, and the mission controller.
pub mod Route
pub mod Monitor
pub mod OffRoute
pub mod Controller
pub mod Shadow
pub mod Intents
