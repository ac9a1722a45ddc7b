-- ===== src/Daemon.antt =====
-- The crate rt-daemon (crates/rt-daemon/src): the tasks over the tables and the stores.
pub mod FillReconciler
pub mod Tables
pub mod PortfolioLoader
pub mod MarketData
pub mod SignalRows
pub mod OrderBuilding
pub mod UncertainOrders
pub mod Submission
pub mod SignalProcessor
pub mod Supervisor
pub mod EquityWriter
pub mod PeriodicReconciler
