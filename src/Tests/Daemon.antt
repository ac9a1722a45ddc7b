-- ===== src/Tests/Daemon.antt =====
-- Tests and examples of the fill reconciler.
use razortrade.Common.{ℕ, ◌≡◌, refl, true, some, List, [], ◌∷◌, arith}
use razortrade.Common.Int.{pos, ◌+ℤ◌, ◌-ℤ◌, ◌*ℤ◌, div_ℕ}
use razortrade.Decimal.Fixed.{Fixed, fixed, fixed_ops}
use razortrade.Futures.Messages.{FillEntry}
use razortrade.Persistence.Columns.{
  ok, decimal_error, other, divide, Text, printed, text_ops, Text-IsReadBack,
}
use razortrade.Persistence.PositionRows.{matches, update_row}
use razortrade.Persistence.Positions.{
  parse_row, apply_fill_to_position, apply_to_found, apply_to_old, add_to_position, added_position,
}
use razortrade.Persistence.Positions.Table.{IsValid}
use razortrade.Persistence.OrderRows.{OrderRow, OrderFillOutcome, find_order, update_order}
use razortrade.Persistence.Orders.{
  apply_fill_to_order, filled_row, fill_found, fill_parsed, fill_row, parse_order, new_average,
}
use razortrade.Daemon.FillReconciler.{
  stopped, Database, next, has_fill_been_applied, record_fill_applied, finish, after_position,
  update_position, after_order, reconcile_fill, reconcile_all, reconcile_once,
}
use razortrade.Daemon.FillReconciler as Reconciler
use razortrade.Daemon.FillReconciler.Halves.{half_applied}
use razortrade.Daemon.FillReconciler.Restart.{replay_changes_nothing}
use razortrade.Daemon.FillReconciler.Positions.{LeavesValid, reconcile_once-LeavesValid}
use razortrade.Tests.Data.{num, fill_at}
use razortrade.Tests.Rows.{long_row, positions, order_row, order_fill}

-- Six contracts bought at the price 4 for the order "abc".
abbrev bought : FillEntry Fixed
bought = record (fill_at 3) { price = num 4; qty = num 6; order_id = "abc"; fee_paid = num 1 }

abbrev before : Database Text
before = record {
  orders = order_row "acknowledged" (num 4) ∷ [];
  signals = (1, "crypto_leverage") ∷ [];
  positions = positions;
  applied_fills = [];
  evaluations = 0;
}

-- The order is full, and the position has grown to 16 at (10 * 2 + 6 * 4) / 16.
abbrev after : Database Text
after = record {
  orders =
      filled_row (order_fill 6) (num 10) (fixed (pos 32_000)) (num 1) "filled"
        (order_row "acknowledged" (num 4))
      ∷ [];
  signals = (1, "crypto_leverage") ∷ [];
  positions = record {
    rows =
        record long_row {
          quantity = printed (num 16);
          avg_entry_price = printed (fixed (pos 27_500));
          updated_at = "t1";
        }
        ∷ [];
    next_id = 2;
  };
  applied_fills = ("kraken_futures", "fill") ∷ [];
  evaluations = 1;
}

pass_applies : reconcile_all (next before 0) (bought ∷ []) "t1" ≡ next after 3
unfolding reconcile_all reconcile_fill has_fill_been_applied after_order update_position
    after_position finish record_fill_applied apply_fill_to_position apply_to_found apply_to_old
    add_to_position added_position parse_row matches update_row divide apply_fill_to_order
    fill_found fill_parsed fill_row parse_order find_order update_order new_average ◌+ℤ◌ ◌-ℤ◌ ◌*ℤ◌
    div_ℕ
pass_applies = refl

replay_changes_nothing_example :
    (final : ℕ) × (reconcile_all (next after 0) (bought ∷ []) "t2" ≡ next after final)
replay_changes_nothing_example =
    replay_changes_nothing (bought ∷ []) before after 0 3 0 "t1" "t2" pass_applies

before-IsValid : IsValid positions
before-IsValid = record { ids_below = (omega arith, tt); at_most_one = λ s b. (λ m. refl, tt) }

reconcile_once-LeavesValid_example : LeavesValid (
    reconcile_once before 0
      (record { fills = bought ∷ []; capacity = 200; highest_seq = 3; is_synced = true })
      "t1")
reconcile_once-LeavesValid_example =
    reconcile_once-LeavesValid before 0
      (record { fills = bought ∷ []; capacity = 200; highest_seq = 3; is_synced = true }) "t1"
      before-IsValid

-- The position's quantity is no number.
abbrev damaged : Database Text
damaged = record before {
  positions = record { rows = record long_row { quantity = other "ten" } ∷ []; next_id = 2 };
}

abbrev full_outcome : OrderFillOutcome Fixed
full_outcome = record {
  order_id = 1;
  sleeve = some "crypto_leverage";
  broker = "kraken_futures";
  instrument_symbol = "PI_XBTUSD";
  is_buy = true;
  new_filled_quantity = num 10;
  new_avg_fill_price = fixed (pos 32_000);
  new_fees_paid = num 1;
  new_status = "filled";
  is_fully_filled = true;
}

order_takes_fill :
    apply_fill_to_order damaged.orders damaged.signals (Reconciler.order_fill bought "t1")
    ≡ ok (after.orders, some full_outcome)
unfolding apply_fill_to_order fill_found fill_parsed fill_row parse_order find_order update_order
    new_average divide ◌+ℤ◌ ◌-ℤ◌ ◌*ℤ◌ div_ℕ
order_takes_fill = refl

position_refuses_fill :
    apply_fill_to_position damaged.positions
      (Reconciler.position_fill bought full_outcome "crypto_leverage" "t1")
    ≡ decimal_error "positions.quantity"
unfolding apply_fill_to_position apply_to_found parse_row matches
position_refuses_fill = refl

-- The order once more: 16 contracts at (10 * 3.2 + 6 * 4) / 16.
abbrev filled_twice : List (OrderRow Text)
filled_twice =
    filled_row (order_fill 6) (num 16) (fixed (pos 35_000)) (num 2) "filled"
      (order_row "acknowledged" (num 4))
    ∷ []

abbrev second_outcome : OrderFillOutcome Fixed
second_outcome = record full_outcome {
  new_filled_quantity = num 16;
  new_avg_fill_price = fixed (pos 35_000);
  new_fees_paid = num 2;
}

order_takes_fill_again :
    apply_fill_to_order after.orders damaged.signals (Reconciler.order_fill bought "t1")
    ≡ ok (filled_twice, some second_outcome)
unfolding apply_fill_to_order fill_found fill_parsed fill_row parse_order find_order update_order
    new_average divide ◌+ℤ◌ ◌-ℤ◌ ◌*ℤ◌ div_ℕ
order_takes_fill_again = refl

half_applied_example :
    let left : Database Text = record damaged { orders = after.orders } in
    let row = order_row "acknowledged" (num 4) in
    (reconcile_fill damaged 0 bought "t1" ≡ stopped left 0)
    × (reconcile_fill left 0 bought "t1" ≡ stopped (record damaged { orders = filled_twice }) 0)
    × ((filled : Fixed) × (r : OrderRow Text) × (text_ops.from_str row.filled_quantity
          ≡ some filled)
        × (find_order "abc" filled_twice ≡ some r)
        × (text_ops.from_str r.filled_quantity
            ≡ some (fixed_ops.add (fixed_ops.add filled (num 6)) (num 6))))
unfolding has_fill_been_applied find_order
half_applied_example =
    half_applied Text-IsReadBack damaged 0 bought "t1" "t1" after.orders filled_twice
      (order_row "acknowledged" (num 4)) refl refl
      (
        full_outcome, "crypto_leverage", "positions.quantity", order_takes_fill, refl,
        position_refuses_fill,
      )
      (
        second_outcome, "crypto_leverage", "positions.quantity", order_takes_fill_again, refl,
        position_refuses_fill,
      )
