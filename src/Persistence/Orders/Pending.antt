-- ===== src/Persistence/Orders/Pending.antt =====
-- `insert_pending_order` (crates/rt-persistence/src/repo.rs) and the unique index on the broker and
-- the client id.
use razortrade.Common.{
  ℕ, ◌+◌, Bool, false, ◌&&◌, Option, none, some, List, ◌∷◌, String, str_eq, is_some, find?,
  if◌then◌else◌,
}
use razortrade.Persistence.OrderRows.{OrderRow, is_text}

-- `next_order` is the counter of AUTOINCREMENT.
pub record OrderTable (X : Type 0) : Type 0 where
  pub orders : List (OrderRow X)
  pub next_order : ℕ

-- The arguments of `insert_pending_order`; the stop price is always NULL.
pub record PendingOrder (X : Type 0) : Type 0 where
  pub signal_id : Option ℕ
  pub broker : String
  pub instrument_symbol : String
  pub side : String
  pub order_type : String
  pub time_in_force : String
  pub quantity : X
  pub limit_price : Option X
  pub created_at : String
  pub cli_ord_id : Option String

module _ {X : Type 0} where
  -- A row of the unique index; NULL is not part of it.
  abbrev pub is_taken : String → Option String → List (OrderRow X) → Bool
  is_taken broker none rows = false
  is_taken broker (some cli) rows =
      is_some (find? (λ r. str_eq r.broker broker && is_text r.cli_ord_id cli) rows)

  -- The row; filled_quantity and fees_paid have the default '0', the argument `zero_text`.
  abbrev pub pending_row : X → PendingOrder X → ℕ → OrderRow X
  pending_row zero_text o id = record {
    id = id;
    signal_id = o.signal_id;
    broker = o.broker;
    broker_order_id = none;
    instrument_symbol = o.instrument_symbol;
    side = o.side;
    order_type = o.order_type;
    time_in_force = o.time_in_force;
    quantity = o.quantity;
    limit_price = o.limit_price;
    stop_price = none;
    status = "pending_submission";
    filled_quantity = zero_text;
    avg_fill_price = none;
    fees_paid = zero_text;
    created_at = o.created_at;
    updated_at = o.created_at;
    error_message = none;
    cli_ord_id = o.cli_ord_id;
  }

  -- A row that the unique index refuses is an error.
  unfoldable pub insert_pending_order :
      X → PendingOrder X → OrderTable X → Option (OrderTable X × ℕ)
  insert_pending_order zero_text o t =
      if is_taken o.broker o.cli_ord_id t.orders
      then none
      else some (
        record {
          orders = pending_row zero_text o t.next_order ∷ t.orders;
          next_order = t.next_order + 1;
        },
        t.next_order,
      )
