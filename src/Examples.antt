-- ===== src/Examples.antt =====
-- Concrete inputs and the instances of the theorems on them.
pub mod Data
pub mod Actions
pub mod Flows
pub mod Phases
pub mod Loops
pub mod Missions
pub mod Sessions
pub mod Packages
pub mod Reports
pub mod Simulators
pub mod Xplane
pub mod Adapters
pub mod Shadows
