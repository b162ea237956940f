-- ===== src/Portfolio.antt =====
-- agents/portfolio: the limits on all open positions together.
pub mod Types
pub mod Exposure
pub mod Engine
pub mod Score
pub mod Room
pub mod Admission
mod Tests
