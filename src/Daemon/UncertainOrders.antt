-- ===== src/Daemon/UncertainOrders.antt =====
-- `try_reconcile_uncertain_order` and the answers of the broker, of the signal processor
-- (crates/rt-daemon/src/signal_processor.rs). A step takes the tables to their new state; the clock
-- is read once for each signal.
use razortrade.Common.{ℕ, Option, none, some, List, [], ◌∷◌, String, str_eq, if◌then◌else◌}
use razortrade.Formats.{IsoOps, JsonOps}
use razortrade.Execution.{
  SubmissionResult, OpenOrderSummary, Answer, answered, failed_with, BrokerClient, is_uncertain,
  error_text, broker_error_kind,
}
use razortrade.Persistence.OrderRows.{
  OrderRow, one_of, backfill_broker_order_id, mark_order_submitted, mark_order_failed,
  mark_order_uncertain, pending_order_for_signal,
}
use razortrade.Persistence.Orders.Pending.{OrderTable}
use razortrade.Persistence.Signals.{
  SignalRow, mark_signal_processed, mark_signal_rejected, set_signal_retry_after,
  clear_signal_retry_after,
}
use razortrade.Daemon.Tables.{World}
use razortrade.Daemon.SignalRows.{order_status_to_string}

pub data UncertainReconcileOutcome : Type 0 where
  no_existing_order already_reconciled lookup_failed_retry malformed_unrecoverable :
      UncertainReconcileOutcome
  resubmit_with_order_id : ℕ → UncertainReconcileOutcome

module _ {D T X : Type 0} where
  abbrev pub with_signals : World D T X → List (SignalRow X) → World D T X
  with_signals w rows = record w { tables = record w.tables { signals = rows } }

  abbrev pub with_orders : World D T X → OrderTable X → World D T X
  with_orders w t = record w { tables = record w.tables { orders = t } }

  abbrev pub with_order_rows : World D T X → List (OrderRow X) → World D T X
  with_order_rows w rows = with_orders w (record w.tables.orders { orders = rows })

module _ {D T X : Type 0} ⦃iso : IsoOps T⦄ where
  -- `mark_signal_processed` and `clear_signal_retry_after`.
  abbrev pub settle : World D T X → ℕ → T → World D T X
  settle w id now = with_signals w (
      clear_signal_retry_after id
        (mark_signal_processed id (iso.canonical_iso now) w.tables.signals))

  -- A cooldown of 90 seconds.
  abbrev pub cool_down : World D T X → ℕ → T → World D T X
  cool_down w id now =
      with_signals w
        (set_signal_retry_after id (iso.canonical_iso (iso.plus_seconds now 90)) w.tables.signals)

module _ {D T X : Type 0} ⦃iso : IsoOps T⦄ (json : JsonOps D T X) where
  -- `mark_signal_rejected` with a reason of the given kind.
  abbrev pub reject : World D T X → ℕ → T → String → String → World D T X
  reject w id now kind detail = with_signals w (
      mark_signal_rejected id (iso.canonical_iso now) (json.reason_json kind detail)
        w.tables.signals)

  -- The answer of the broker on an uncertain order.
  unfoldable pub reconcile_answer :
      World D T X
      → ℕ
      → T
      → ℕ
      → Answer (Option (OpenOrderSummary D))
      → World D T X × UncertainReconcileOutcome
  reconcile_answer w id now order_id (answered (some placed)) = (
    settle
        (with_order_rows w (
          backfill_broker_order_id order_id placed.broker_order_id (iso.canonical_iso now)
            w.tables.orders.orders))
        id now,
    already_reconciled,
  )
  reconcile_answer w id now order_id (answered none) = (w, resubmit_with_order_id order_id)
  reconcile_answer w id now order_id (failed_with e) = (cool_down w id now, lookup_failed_retry)

  unfoldable pub reconcile_uncertain :
      World D T X
      → ℕ
      → T
      → BrokerClient D T
      → ℕ
      → Option String
      → World D T X × UncertainReconcileOutcome
  unfolding reconcile_answer
  reconcile_uncertain w id now broker order_id none =
      (reject w id now "uncertain_without_cli" (iso.show_id order_id), malformed_unrecoverable)
  reconcile_uncertain w id now broker order_id (some cli) =
      reconcile_answer w id now order_id (broker.get_order_by_cli_ord_id w.submissions cli)

  -- `match existing_status.as_str()`
  unfoldable pub reconcile_found :
      World D T X
      → ℕ
      → T
      → BrokerClient D T
      → Option (OrderRow X)
      → World D T X × UncertainReconcileOutcome
  unfolding reconcile_uncertain
  reconcile_found w id now broker none = (w, no_existing_order)
  reconcile_found w id now broker (some r) =
      if one_of ("acknowledged" ∷ "partially_filled" ∷ "filled" ∷ "submitted" ∷ []) r.status
      then (settle w id now, already_reconciled)
      else if str_eq r.status "uncertain"
      then reconcile_uncertain w id now broker r.id r.cli_ord_id
      else (w, already_reconciled)

  unfoldable pub try_reconcile_uncertain_order :
      World D T X → ℕ → T → BrokerClient D T → World D T X × UncertainReconcileOutcome
  unfolding reconcile_found
  try_reconcile_uncertain_order w id now broker =
      reconcile_found w id now broker (pending_order_for_signal id w.tables.orders.orders)

  -- The answer of the broker on a submission.
  unfoldable pub after_submit : World D T X → ℕ → ℕ → T → Answer (SubmissionResult T) → World D T X
  after_submit w id order_id now (answered sub) =
      settle
        (with_order_rows w (
          mark_order_submitted order_id sub.broker_order_id (order_status_to_string sub.status)
            (iso.canonical_iso now) w.tables.orders.orders))
        id now
  after_submit w id order_id now (failed_with e) =
      if is_uncertain e
      then cool_down
          (with_order_rows w (
            mark_order_uncertain order_id (error_text iso.show_id e) (iso.canonical_iso now)
              w.tables.orders.orders))
          id now
      else reject
          (with_order_rows w (
            mark_order_failed order_id (error_text iso.show_id e) (iso.canonical_iso now)
              w.tables.orders.orders))
          id now (broker_error_kind e) (error_text iso.show_id e)
