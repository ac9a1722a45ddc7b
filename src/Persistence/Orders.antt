-- ===== src/Persistence/Orders.antt =====
-- The fills applied to the table `orders`
-- (crates/rt-persistence/src/repo.rs). A statement that fails leaves the table as before.
pub mod Fills
pub mod Pending
use razortrade.Common.{
  ℕ, Bool, true, false, ◌||◌, Option, none, some, List, String, str_eq, if◌then◌else◌,
}
use razortrade.Decimal.{DecimalOps, ◌≤ᵈ◌}
use razortrade.Persistence.Columns.{DbResult, ok, invalid_enum, and_then, TextOps, parse, divide}
use razortrade.Persistence.OrderRows.{
  Filled, OrderFill, OrderRow, ParsedOrder, find_order, sleeve_of, update_order,
}

abbrev pub parse_side : String → DbResult Bool
parse_side s =
    if str_eq s "buy"
    then ok true
    else if str_eq s "sell"
    then ok false
    else invalid_enum "orders.side" s

abbrev pub status_of : Bool → String
status_of true = "filled"
status_of false = "partially_filled"

-- Once 'filled', an order stays 'filled'.
abbrev pub next_status : String → Bool → String
next_status old full = status_of (str_eq old "filled" || full)

module _ {D : Type 0} ⦃dec : DecimalOps D⦄ where
  -- The quantity-weighted average price; a zero sum of quantities panics.
  unfoldable pub new_average : D → Option D → D → D → DbResult D
  new_average old_filled none qty price = ok price
  new_average old_filled (some avg) qty price =
      if dec.is_zero old_filled
      then ok price
      else divide (dec.add (dec.mul old_filled avg) (dec.mul qty price)) (dec.add old_filled qty)

module _ {D X : Type 0} ⦃dec : DecimalOps D⦄ ⦃txt : TextOps D X⦄ where
  abbrev pub parse_average : Option X → DbResult (Option D)
  parse_average none = ok none
  parse_average (some x) = and_then (parse "orders.avg_fill_price" x) λ d. ok (some d)

  -- The columns that a fill sets.
  abbrev pub filled_row : OrderFill D → D → D → D → String → OrderRow X → OrderRow X
  filled_row p filled average fees status r = record r {
    filled_quantity = txt.to_string filled;
    avg_fill_price = some (txt.to_string average);
    fees_paid = txt.to_string fees;
    status = status;
    updated_at = p.now_iso;
  }

  unfoldable pub parse_order : OrderRow X → DbResult (ParsedOrder D)
  parse_order r = and_then (parse_side r.side) λ is_buy.
      and_then (parse "orders.quantity" r.quantity) λ quantity.
        and_then (parse "orders.filled_quantity" r.filled_quantity) λ filled.
          and_then (parse "orders.fees_paid" r.fees_paid) λ fees.
            and_then (parse_average r.avg_fill_price) λ avg. ok (record {
              is_buy = is_buy;
              quantity = quantity;
              old_filled = filled;
              old_fees = fees;
              old_avg = avg;
            })

  -- The statement and the outcome, for the new average price.
  unfoldable pub fill_row :
      List (OrderRow X) → Option String → OrderFill D → OrderRow X → ParsedOrder D → D → Filled D X
  fill_row rows sleeve p r o average =
      let filled = dec.add o.old_filled p.fill_qty in
      let fees = dec.add o.old_fees p.fee in
      let full = o.quantity ≤ᵈ filled in
      let status = next_status r.status full in
      (
        update_order r.id (filled_row p filled average fees status) rows,
        some (record {
          order_id = r.id;
          sleeve = sleeve;
          broker = r.broker;
          instrument_symbol = r.instrument_symbol;
          is_buy = o.is_buy;
          new_filled_quantity = filled;
          new_avg_fill_price = average;
          new_fees_paid = fees;
          new_status = status;
          is_fully_filled = full;
        }),
      )

  unfoldable pub fill_parsed :
      List (OrderRow X)
      → Option String
      → OrderFill D
      → OrderRow X
      → ParsedOrder D
      → DbResult (Filled D X)
  unfolding fill_row
  fill_parsed rows sleeve p r o =
      and_then (new_average o.old_filled o.old_avg p.fill_qty p.fill_price)
        λ average. ok (fill_row rows sleeve p r o average)

  -- `match row`; an unknown order is no error.
  unfoldable pub fill_found :
      List (OrderRow X)
      → List (ℕ × String)
      → OrderFill D
      → Option (OrderRow X)
      → DbResult (Filled D X)
  unfolding fill_parsed parse_order
  fill_found rows signals p none = ok (rows, none)
  fill_found rows signals p (some r) =
      and_then (parse_order r) λ o. fill_parsed rows (sleeve_of r.signal_id signals) p r o

  -- `signals` holds the id and the sleeve of each signal, which the query joins.
  unfoldable pub apply_fill_to_order :
      List (OrderRow X) → List (ℕ × String) → OrderFill D → DbResult (Filled D X)
  unfolding fill_found
  apply_fill_to_order rows signals p = fill_found rows signals p (find_order p.broker_order_id rows)
