-- ===== src/PositionManager.antt =====
-- agents/position_manager: the life of one position.
pub mod Types
pub mod Lifecycle
pub mod TpSl
pub mod Dca
pub mod Liquidation
pub mod Engine
pub mod Life
pub mod Books
pub mod Stops
pub mod Opening
mod Tests
