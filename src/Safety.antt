-- ===== src/Safety.antt =====
-- backend/app/safety: the last gate before an order.
pub mod Types
pub mod Store
pub mod Emergency
pub mod Disconnect
pub mod KillSwitch
pub mod Drawdown
pub mod Checks
pub mod Gate
pub mod Adapter
pub mod Order
pub mod History
pub mod Losses
pub mod Failures
pub mod Peak
pub mod Resets
pub mod Disabling
pub mod Redis
mod Tests
