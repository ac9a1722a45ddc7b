-- ===== src/Daemon/Submission.antt =====
-- `submit_via_broker` of the signal processor
-- (crates/rt-daemon/src/signal_processor.rs). A step takes the tables and the trace of submissions
-- to their new state; `false` beside it is an error that ends the processing of the signal. The
-- clock is read once for each signal.
pub mod Trace
pub mod Completion
pub mod Readback
use razortrade.Common.{ℕ, Bool, true, false, not, Option, none, some, ◌∷◌, if◌then◌else◌}
use razortrade.Decimal.{DecimalOps}
use razortrade.Formats.{IsoOps, JsonOps}
use razortrade.Execution.{BrokerClient}
use razortrade.Core.Instrument.{InstrumentRegistry, sleeve_eq, crypto_leverage}
use razortrade.Core.Order.{Order}
use razortrade.Core.Signal.{Signal}
use razortrade.Core.MarketData.{MarketSnapshot}
use razortrade.Core.Portfolio.{PortfolioState}
use razortrade.Persistence.Columns.{TextOps}
use razortrade.Persistence.Orders.Pending.{OrderTable, PendingOrder, insert_pending_order}
use razortrade.Daemon.Tables.{World}
use razortrade.Daemon.SignalRows.{side_name, sleeve_name, type_name, tif_name}
use razortrade.Daemon.OrderBuilding.{Built, built, unbuildable, build_kraken_futures_order}
use razortrade.Daemon.UncertainOrders.{
  UncertainReconcileOutcome, after_submit, already_reconciled, lookup_failed_retry,
  malformed_unrecoverable, no_existing_order, reject, resubmit_with_order_id,
  try_reconcile_uncertain_order, with_orders,
}

module _ {D T X : Type 0} ⦃txt : TextOps D X⦄ ⦃iso : IsoOps T⦄ where
  -- The arguments of `insert_pending_order`.
  abbrev pub pending_of : Order D T → ℕ → T → PendingOrder X
  pending_of order signal_id now = record {
    signal_id = some signal_id;
    broker = "kraken_futures";
    instrument_symbol = order.instrument.symbol;
    side = side_name order.side;
    order_type = type_name order.order_type;
    time_in_force = tif_name iso.show_id order.time_in_force;
    quantity = txt.to_string order.quantity;
    limit_price = elim order.limit_price [ some p ↦ some (txt.to_string p) | none ↦ none ];
    created_at = iso.canonical_iso now;
    cli_ord_id = order.cli_ord_id;
  }

  -- The order goes to the broker: the submission joins the trace, and the answer is recorded.
  unfoldable pub hand_off :
      JsonOps D T X → World D T X → ℕ → T → BrokerClient D T → Order D T → ℕ → World D T X
  unfolding after_submit
  hand_off json w id now broker order order_id =
      after_submit json (record w { submissions = order ∷ w.submissions }) id order_id now
        (broker.submit_order w.submissions order)

  -- After `insert_pending_order`.
  unfoldable pub hand_off_inserted :
      JsonOps D T X
      → World D T X
      → ℕ
      → T
      → BrokerClient D T
      → Order D T
      → Option (OrderTable X × ℕ)
      → World D T X × Bool
  unfolding hand_off
  hand_off_inserted json w id now broker order none = (w, false)
  hand_off_inserted json w id now broker order (some (t, order_id)) =
      (hand_off json (with_orders w t) id now broker order order_id, true)

  -- A row that waits is used again; otherwise a new row is inserted.
  unfoldable pub submit_built :
      JsonOps D T X
      → World D T X
      → ℕ
      → T
      → BrokerClient D T
      → Option ℕ
      → Built D T
      → World D T X × Bool
  unfolding hand_off_inserted
  submit_built json w id now broker reuse (unbuildable kind detail) =
      (reject json w id now kind detail, true)
  submit_built json w id now broker (some order_id) (built order) =
      (hand_off json w id now broker order order_id, true)
  submit_built json w id now broker none (built order) =
      hand_off_inserted json w id now broker order
        (insert_pending_order txt.zero_text (pending_of order id now) w.tables.orders)

  -- What follows the reconciliation.
  unfoldable pub submit_reconciled :
      JsonOps D T X
      → T
      → ℕ
      → BrokerClient D T
      → Built D T
      → World D T X × UncertainReconcileOutcome
      → World D T X × Bool
  unfolding submit_built
  submit_reconciled json now id broker order (w, no_existing_order) =
      submit_built json w id now broker none order
  submit_reconciled json now id broker order (w, resubmit_with_order_id order_id) =
      submit_built json w id now broker (some order_id) order
  submit_reconciled json now id broker order (w, already_reconciled) = (w, true)
  submit_reconciled json now id broker order (w, lookup_failed_retry) = (w, true)
  submit_reconciled json now id broker order (w, malformed_unrecoverable) = (w, true)

module _ {D T X : Type 0} ⦃dec : DecimalOps D⦄ ⦃txt : TextOps D X⦄ ⦃iso : IsoOps T⦄ where
  -- The broker of the leverage sleeve, which a dry run lacks.
  unfoldable pub submit_to :
      JsonOps D T X
      → InstrumentRegistry D
      → World D T X
      → Signal D T
      → MarketSnapshot D T
      → PortfolioState D T
      → T
      → Option (BrokerClient D T)
      → World D T X × Bool
  unfolding submit_reconciled try_reconcile_uncertain_order build_kraken_futures_order
  submit_to json instruments w signal snapshot portfolio now none =
      (reject json w signal.id now "broker_not_configured" "", true)
  submit_to json instruments w signal snapshot portfolio now (some broker) =
      submit_reconciled json now signal.id broker
        (build_kraken_futures_order signal snapshot portfolio instruments now)
        (try_reconcile_uncertain_order json w signal.id now broker)

  unfoldable pub submit_via_broker :
      JsonOps D T X
      → InstrumentRegistry D
      → Option (BrokerClient D T)
      → World D T X
      → Signal D T
      → MarketSnapshot D T
      → PortfolioState D T
      → T
      → World D T X × Bool
  unfolding submit_to
  submit_via_broker json instruments broker w signal snapshot portfolio now =
      if not (sleeve_eq signal.sleeve crypto_leverage)
      then (reject json w signal.id now "sleeve_not_implemented" (sleeve_name signal.sleeve), true)
      else submit_to json instruments w signal snapshot portfolio now broker
