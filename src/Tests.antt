-- ===== src/Tests.antt =====
-- Test data, tests that evaluate the model, and the examples of the theorems.
pub mod Data
pub mod Rows
pub mod TextOrder
mod Risk
mod Futures
mod Persistence
mod Daemon
mod World
mod Processor
mod Supervisor
mod Equity
