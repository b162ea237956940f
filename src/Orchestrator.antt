-- ===== src/Orchestrator.antt =====
-- agents/orchestrator: the runner of one agent and the pipeline of ten steps.
pub mod Types
pub mod Steps
pub mod PostTrade
pub mod Pipeline
pub mod Early
pub mod Progress
pub mod Flow
pub mod Reach
pub mod Requests
pub mod Runner
pub mod Retries
mod Tests
