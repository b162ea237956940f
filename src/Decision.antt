-- ===== src/Decision.antt =====
-- agents/decision: the deterministic decisions.
pub mod Final
pub mod Inputs
pub mod Regime
pub mod Selector
pub mod Derivatives
pub mod Crowding
pub mod Sides
pub mod Exits
pub mod Generator
pub mod Priorities
pub mod Candidates
pub mod Rewards
pub mod Selections
pub mod Chain
pub mod Tests
