-- ===== src/Risk/Checks.antt =====
-- The eight checks of the standard checklist, one module for each file of
-- crates/rt-risk/src/checks.
pub mod Staleness
pub mod SpreadLiquidity
pub mod VolatilityRegime
pub mod HardLimit
pub mod DuplicatePosition
pub mod LiquidationDistance
pub mod FundingRate
pub mod NotionalCap
