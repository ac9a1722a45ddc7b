-- ===== src/Daemon/PeriodicReconciler.antt =====
-- `reconcile_once` of crates/rt-daemon/src/periodic_reconciler.rs. It changes no table: its result
-- is what it warns about, the live orders that the broker does not list and the orders of the
-- broker that are not live in the table.
use razortrade.Common.{Bool, false, not, ◌||◌, Option, none, some, List, [], ◌∷◌, String, filter}
use razortrade.Execution.{OpenOrderSummary, Answer, answered, failed_with}
use razortrade.Persistence.OrderRows.{OrderRow, is_text, list_live_orders}

-- The two classes of drift.
pub record Drift (D X : Type 0) : Type 0 where
  pub missing_at_broker : List (OrderRow X)
  pub unknown_locally : List (OpenOrderSummary D)

-- `map(|b| set.contains(b)).unwrap_or(false)`, for the set of the names of `xs`.
abbrev pub names_one : {A : Type 0} → (A → Option String) → List A → Option String → Bool
names_one name xs none = false
names_one name [] (some s) = false
names_one name (x ∷ xs) (some s) = is_text (name x) s || names_one name xs (some s)

module _ {D X : Type 0} where
  abbrev pub is_at_broker : List (OpenOrderSummary D) → OrderRow X → Bool
  is_at_broker placed r =
      names_one (λ (o : OpenOrderSummary D). some o.broker_order_id) placed r.broker_order_id
      || names_one (λ (o : OpenOrderSummary D). o.cli_ord_id) placed r.cli_ord_id

  abbrev pub is_local : List (OrderRow X) → OpenOrderSummary D → Bool
  is_local rows o =
      names_one (λ (r : OrderRow X). r.broker_order_id) rows (some o.broker_order_id)
      || names_one (λ (r : OrderRow X). r.cli_ord_id) rows o.cli_ord_id

  abbrev pub drift : List (OpenOrderSummary D) → List (OrderRow X) → Drift D X
  drift placed rows = record {
    missing_at_broker = filter (λ r. not (is_at_broker placed r)) rows;
    unknown_locally = filter (λ o. not (is_local rows o)) placed;
  }

  -- An error of the broker ends the tick without a report.
  unfoldable pub reconcile_drift :
      Answer (List (OpenOrderSummary D)) → List (OrderRow X) → Option (Drift D X)
  unfolding list_live_orders
  reconcile_drift (answered placed) rows = some (drift placed (list_live_orders rows))
  reconcile_drift (failed_with e) rows = none
