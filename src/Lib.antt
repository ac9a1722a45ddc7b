-- ===== src/Lib.antt =====
-- razortrade: a trading daemon. A strategy process writes signals into SQLite; the daemon polls
-- them, runs each through the pre-trade checklist of crates/rt-risk over a market snapshot
-- (from the local order book of crates/rt-kraken-futures) and the portfolio, submits an order
-- where the execution mode allows it, and applies the fills of the private feed to the tables
-- of crates/rt-persistence. A supervisor evaluates the kill switch on the same portfolio.
--
-- The files and the code that they model:
-- Core: crates/rt-core/src. Core/Instrument is instrument.rs and instrument_registry.rs,
-- Core/Order order.rs, Core/Signal signal.rs, Core/ExecutionMode execution_mode.rs,
-- Core/MarketData market_data.rs, Core/Portfolio portfolio.rs, Core/Position position.rs; types
-- and methods keep their names.
-- Risk: crates/rt-risk/src. Risk/Config is RiskConfig with its defaults (lib.rs), Risk/Context
-- and Risk/Checklist are checklist.rs, Risk/Checks/ has one file for each file of checks/, with
-- `check_staleness` for the method `evaluate` of StalenessCheck and so on, Risk/KillSwitch is
-- kill_switch.rs (`evaluate_kill_switch`), Risk/PositionSizing position_sizing.rs.
-- Risk/Hazard/Spec describes the hazards of a trade on its own, Risk/Hazard/Checks and Loops
-- compare each check with its hazard, Risk/Approval and Risk/Safety hold the results on the
-- checklist and the supervisor.
-- Futures: crates/rt-kraken-futures/src. Futures/Messages is messages.rs, Futures/PriceMap the
-- BTreeMap of a book side as a list in price order, Futures/OrderBook is orderbook.rs,
-- Futures/FillsRing and Futures/OpenOrders are private_state.rs, Futures/Accounts is
-- accounts.rs. A method that takes `&mut self` returns the new state beside its result.
-- Persistence: crates/rt-persistence/src. Persistence/PositionRows holds the rows of positions
-- with their statements, Persistence/Positions apply_fill_to_position of repo.rs,
-- Persistence/OrderRows the rows of orders with their statements, Persistence/Orders
-- apply_fill_to_order, Persistence/Orders/Pending the insertion of an order with its unique
-- index, Persistence/Signals, Persistence/Events and Persistence/Equity the other tables
-- (`ORDER BY` is an insertion sort by the order of texts), Persistence/Columns the decimal
-- texts and the errors. A table is a list of rows, newest first, and a query without ORDER BY,
-- whose order SQLite leaves open, gives them in that order; a statement is a function on it; a
-- transaction that fails leaves the table as it was.
-- Daemon: crates/rt-daemon/src. Daemon/FillReconciler is `reconcile_once` of fill_reconciler.rs
-- over the tables of Persistence and the ring of Futures: `reconcile_fill` is one turn of its
-- loop, `catch_orphan` its branch for an unknown order; a pass ends with the last fill
-- (`next`), with an error that ends it early (`stopped`, the tables keep what was committed) or
-- with an abort.
-- Daemon/Tables holds the tables that the other tasks share and the trace of submitted orders.
-- Daemon/SignalProcessor is `poll_once` of signal_processor.rs down to `handle_approval`, with
-- the rows it reads in Daemon/SignalRows (`row_to_signal`), the orders it builds in
-- Daemon/OrderBuilding (`build_kraken_futures_order`, `build_exit_order`, `build_order_intent`)
-- `try_reconcile_uncertain_order` and what follows an answer of the broker in
-- Daemon/UncertainOrders, and `submit_via_broker` in Daemon/Submission. A step from one state
-- of tables and submissions to the next is cut where the code awaits an answer: `after_submit`
-- is what follows the answer of the broker, `with_market` and `with_portfolio` what follows the
-- snapshot and the loaded portfolio. Daemon/PortfolioLoader is portfolio_loader.rs,
-- Daemon/MarketData market_data.rs, Daemon/EquityWriter `write_one_snapshot` of
-- equity_writer.rs, Daemon/PeriodicReconciler the drift report of periodic_reconciler.rs,
-- Daemon/Supervisor `evaluate_kill_switch_once` and `panic_close_leverage_positions` of
-- main.rs. The files below these hold the results.
-- Execution: crates/rt-execution/src. The trait Broker as a record of the two calls that
-- decisions depend on, whose answers may depend on all orders submitted before.
-- Common, Decimal and Time: shared names and lists; `rust_decimal` and `chrono` as instance
-- arguments, with concrete instances that run the examples. Tests: test data, evaluated tests
-- and an example of each result.
--
-- Parameters. `DecimalOps` has the operations of Decimal that the code calls, `IsOrdered` the
-- laws of its order, `IsExact` that sums are exact as long as no digit is rounded away,
-- `TextOps` and `IsReadBack` that a printed decimal is read back. `TimeOps` has the order and
-- the difference of times, `IsoOps` their texts and the order of texts in SQLite, `JsonOps` the
-- reading and writing of JSON, where a reason is its kind and one detail. `BrokerClient`
-- answers for the exchange. The clock is an argument, read once for each signal and each tick.
-- Overflow of 96-bit decimals is outside the model; a division whose divisor the code does not
-- test is an abort (`panicked`).
--
-- Bounds. Sequence numbers are u64 and wrap at 2 ^ 64 where the code adds one. Counters within
-- one batch are plain numbers. Every loop is over a list, so there is no fuel.
--
-- Not modelled: the asynchronous loops and the interleaving of the tasks, errors of SQLite
-- itself, the WebSocket, REST and signing code of crates/rt-kraken-futures, which only moves
-- data between the exchange and the stores over third-party crates, configuration and start-up,
-- the dashboard, which only reads, log and summary texts, the text of JSON values, capital
-- flows and the audit log.
pub mod Common
pub mod Decimal
pub mod Time
pub mod Core
pub mod Risk
pub mod Futures
pub mod Persistence
pub mod Daemon
pub mod Tests
pub mod Execution
pub mod Formats
