-- ===== src/Tests/Persistence.antt =====
-- Tests and examples of the tables.
use razortrade.Common.{◌≡◌, refl, true, none, some, List, [], ◌∷◌, arith, map}
use razortrade.Common.Int.{pos, ◌+ℤ◌, ◌-ℤ◌, ◌*ℤ◌, div_ℕ}
use razortrade.Decimal.Fixed.{Fixed, fixed, fixed_ops}
use razortrade.Persistence.Columns.{ok, divide, Text, text_ops, Text-IsReadBack, Fixed-IsExact}
use razortrade.Persistence.PositionRows.{
  flipped, Applied, matches, update_row, inverse_pnl_per_contract,
}
use razortrade.Persistence.Positions.{
  parse_row, apply_fill_to_position, apply_to_found, apply_to_old, against_position, flip_position,
  new_row, close_row,
}
use razortrade.Persistence.Positions.Table.{IsValid}
use razortrade.Persistence.Positions.Quantity.{open_quantity, Moves, fill-Moves}
use razortrade.Persistence.Positions.Validity.{fill-IsValid}
use razortrade.Persistence.Signals.{SignalRow, insert_by_created, order_by_created, pending_signals}
use razortrade.Persistence.Signals.Queue.{IsQueue, pending_signals-IsQueue}
use razortrade.Persistence.OrderRows.{
  OrderRow, Filled, find_order, update_order, backfill_broker_order_id,
}
use razortrade.Persistence.Orders.{
  apply_fill_to_order, filled_row, fill_found, fill_parsed, fill_row, parse_order, new_average,
}
use razortrade.Persistence.Orders.Fills.{Applies, fill_accumulates}
use razortrade.Tests.Data.{num, minus}
use razortrade.Tests.TextOrder.{text_le, text_le_total, text_le_transitive}
use razortrade.Tests.World.{signal_row}
use razortrade.Tests.Rows.{positions, long_row, sale, order_row, order_fill}

-- Selling 15 closes the ten and opens five short.
abbrev flipped_result : Applied Fixed Text
flipped_result = (
  record {
    rows = new_row (sale 15) 2 (minus 5) ∷ close_row "t1" (fixed (pos 25_000)) long_row ∷ [];
    next_id = 3;
  },
  record {
    position_id = 2;
    new_quantity = minus 5;
    new_avg_entry_price = some (num 4);
    realized_pnl_btc = fixed (pos 25_000);
    transition = flipped;
  },
)

sale_flips : apply_fill_to_position positions (sale 15) ≡ ok flipped_result
unfolding apply_fill_to_position apply_to_found apply_to_old parse_row matches update_row
    inverse_pnl_per_contract divide against_position flip_position ◌+ℤ◌ ◌-ℤ◌ ◌*ℤ◌ div_ℕ
sale_flips = refl

positions-IsValid : IsValid positions
positions-IsValid = record { ids_below = (omega arith, tt); at_most_one = λ s b. (λ m. refl, tt) }

fill-Moves_example :
    (q : Fixed) × (open_quantity Text-IsReadBack Fixed-IsExact "PI_XBTUSD" "kraken_futures"
        positions.rows
      ≡ some q)
    × Moves Text-IsReadBack Fixed-IsExact (sale 15) q flipped_result
fill-Moves_example =
    fill-Moves Text-IsReadBack Fixed-IsExact positions (sale 15) flipped_result positions-IsValid
      sale_flips

fill-IsValid_example : IsValid flipped_result.0
fill-IsValid_example = fill-IsValid positions (sale 15) flipped_result positions-IsValid sale_flips

abbrev orders : List (OrderRow Text)
orders = order_row "acknowledged" (num 4) ∷ []

-- Six more fill the order: (4 * 2 + 6 * 4) / 10.
abbrev full_result : Filled Fixed Text
full_result = (
  filled_row (order_fill 6) (num 10) (fixed (pos 32_000)) (num 1) "filled"
        (order_row "acknowledged" (num 4))
      ∷ [],
  some (record {
    order_id = 1;
    sleeve = some "crypto_leverage";
    broker = "kraken_futures";
    instrument_symbol = "PI_XBTUSD";
    is_buy = true;
    new_filled_quantity = num 10;
    new_avg_fill_price = fixed (pos 32_000);
    new_fees_paid = num 1;
    new_status = "filled";
    is_fully_filled = true;
  }),
)

fill_completes :
    apply_fill_to_order orders ((1, "crypto_leverage") ∷ []) (order_fill 6) ≡ ok full_result
unfolding apply_fill_to_order fill_found fill_parsed fill_row parse_order find_order update_order
    new_average divide ◌+ℤ◌ ◌-ℤ◌ ◌*ℤ◌ div_ℕ
fill_completes = refl

fill_accumulates_example :
    Applies Text-IsReadBack orders (order_fill 6) (find_order "abc" orders) full_result
fill_accumulates_example =
    fill_accumulates Text-IsReadBack orders ((1, "crypto_leverage") ∷ []) (order_fill 6) full_result
      fill_completes

-- An order whose submission timed out.
abbrev unsent : List (OrderRow Text)
unsent = record (order_row "uncertain" (num 0)) { broker_order_id = none } ∷ []

backfill_acknowledges :
    map (λ r. r.status) (backfill_broker_order_id 1 "abc" "t1" unsent) ≡ ("acknowledged" ∷ [])
unfolding backfill_broker_order_id update_order
backfill_acknowledges = refl

-- Two signals are due; the second was created before the first, the third is done.
abbrev signal_rows : List (SignalRow Text)
signal_rows =
    record (signal_row "buy" "trend_entry") { created_at = "t1" }
    ∷ record (signal_row "sell" "trend_exit") { id = 2 }
    ∷ record (signal_row "buy" "trend_entry") { id = 3; status = "processed" }
    ∷ []

takes_oldest : map (λ r. r.id) (pending_signals text_le 1 "t2" signal_rows) ≡ (2 ∷ [])
unfolding pending_signals order_by_created insert_by_created
takes_oldest = refl

pending_signals-IsQueue_example :
    IsQueue text_le 1 "t2" signal_rows (pending_signals text_le 1 "t2" signal_rows)
pending_signals-IsQueue_example =
    pending_signals-IsQueue text_le text_le_total text_le_transitive 1 "t2" signal_rows
