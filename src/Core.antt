-- ===== src/Core.antt =====
-- The crate rt-core (crates/rt-core/src): the vocabulary of the other crates.
pub mod ExecutionMode
pub mod Instrument
pub mod Order
pub mod Signal
pub mod MarketData
pub mod Portfolio
pub mod Position
