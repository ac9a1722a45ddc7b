-- ===== src/Persistence.antt =====
-- The crate rt-persistence (crates/rt-persistence/src): the tables that fills are applied to.
pub mod Columns
pub mod PositionRows
pub mod Positions
pub mod OrderRows
pub mod Orders
pub mod Signals
pub mod Events
pub mod Equity
