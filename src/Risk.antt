-- ===== src/Risk.antt =====
-- agents/risk: the validation of signals and candidates, and the halts of trading.
pub mod Types
pub mod KillSwitch
pub mod Sizing
pub mod Kelly
pub mod Methods
pub mod Limits
pub mod Validators
pub mod Engine
pub mod Settings
pub mod Checks
pub mod Candidate
pub mod Approvals
pub mod Approved
pub mod Signals
pub mod Hours
pub mod Ends
pub mod Halts
pub mod Stops
pub mod Approves
pub mod Tests
