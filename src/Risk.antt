-- ===== src/Risk.antt =====
-- The crate rt-risk (crates/rt-risk/src): the pre-trade checklist and the kill switch.
pub mod Config
pub mod Context
pub mod Checks
pub mod Checklist
pub mod KillSwitch
pub mod PositionSizing
pub mod Hazard
pub mod Approval
pub mod Safety
