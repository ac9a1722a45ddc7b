-- ===== src/Daemon/Tables.antt =====
-- The tables that the tasks of the daemon share (crates/rt-persistence/migrations), each in the
-- form of its own module, and the orders that the broker was asked to place, newest first.
use razortrade.Common.{List}
use razortrade.Core.Order.{Order}
use razortrade.Persistence.PositionRows.{PositionTable}
use razortrade.Persistence.Orders.Pending.{OrderTable}
use razortrade.Persistence.Signals.{SignalRow}
use razortrade.Persistence.Events.{EventTable, ChecklistEvaluationRow, DryRunOrderRow}
use razortrade.Persistence.Equity.{EquityTable}

pub record Tables (X : Type 0) : Type 0 where
  pub signals : List (SignalRow X)
  pub orders : OrderTable X
  pub positions : PositionTable X
  pub switch_events : EventTable
  pub equity : EquityTable X
  pub evaluations : List ChecklistEvaluationRow
  pub dry_runs : List (DryRunOrderRow X)

pub record World (D T X : Type 0) : Type 0 where
  pub tables : Tables X
  pub submissions : List (Order D T)
