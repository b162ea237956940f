-- ===== src/Execution.antt =====
-- agents/execution: from an approved decision to orders.
pub mod Types
pub mod Tickets
pub mod Orders
pub mod Engine
pub mod Cases
pub mod Protection
pub mod Guards
pub mod Trail
pub mod Gated
pub mod Tests
