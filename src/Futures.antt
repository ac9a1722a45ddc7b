-- ===== src/Futures.antt =====
-- The crate rt-kraken-futures (crates/rt-kraken-futures/src): the local order book and the stores
-- of the private feeds.
pub mod Messages
pub mod PriceMap
pub mod OrderBook
pub mod FillsRing
pub mod OpenOrders
pub mod Accounts
