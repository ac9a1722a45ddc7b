-- ===== src/Tests/Rows.antt =====
-- Rows and fills of the tables.
use razortrade.Common.{ℕ, false, none, some, [], ◌∷◌, String}
use razortrade.Decimal.Fixed.{Fixed, fixed_ops}
use razortrade.Time.{millis_ops}
use razortrade.Persistence.Columns.{Text, printed}
use razortrade.Persistence.PositionRows.{PositionRow, PositionTable, PositionFill}
use razortrade.Persistence.OrderRows.{OrderRow, OrderFill}
use razortrade.Tests.Data.{num}

-- A long position of ten contracts.
abbrev pub long_row : PositionRow Text
long_row = record {
  id = 1;
  instrument_symbol = "PI_XBTUSD";
  broker = "kraken_futures";
  sleeve = "crypto_leverage";
  quantity = printed (num 10);
  avg_entry_price = printed (num 2);
  leverage = printed (num 1);
  liquidation_price = none;
  opened_at = "t0";
  updated_at = "t0";
  closed_at = none;
  realized_pnl_chf = none;
  realized_pnl_btc = some (printed (num 0));
}

abbrev pub positions : PositionTable Text
positions = record { rows = long_row ∷ []; next_id = 2 }

-- A sale at the price 4.
abbrev pub sale : ℕ → PositionFill Fixed
sale qty = record {
  instrument_symbol = "PI_XBTUSD";
  broker = "kraken_futures";
  sleeve = "crypto_leverage";
  is_buy = false;
  fill_qty = num qty;
  fill_price = num 4;
  now_iso = "t1";
}

abbrev pub order_row : String → Fixed → OrderRow Text
order_row status filled = record {
  id = 1;
  signal_id = some 1;
  broker = "kraken_futures";
  broker_order_id = some "abc";
  instrument_symbol = "PI_XBTUSD";
  side = "buy";
  order_type = "limit";
  time_in_force = "gtc";
  quantity = printed (num 10);
  limit_price = none;
  stop_price = none;
  status = status;
  filled_quantity = printed filled;
  avg_fill_price = some (printed (num 2));
  fees_paid = printed (num 0);
  created_at = "t0";
  updated_at = "t0";
  error_message = none;
  cli_ord_id = some "rt-s1";
}

abbrev pub order_fill : ℕ → OrderFill Fixed
order_fill qty = record {
  broker_order_id = "abc";
  fill_qty = num qty;
  fill_price = num 4;
  fee = num 1;
  now_iso = "t1";
}
