-- ===== src/Tests/Data.antt =====
-- Contexts, books and rows with concrete numbers.
use razortrade.Common.{ℕ, ◌*◌, Bool, true, false, none, some, List, [], ◌∷◌, String}
use razortrade.Common.Int.{pos, neg}
use razortrade.Decimal.Fixed.{Fixed, fixed, fixed_ops}
use razortrade.Time.{Millis, at, millis_ops}
use razortrade.Core.Instrument.{crypto_leverage}
use razortrade.Core.Order.{buy}
use razortrade.Core.Signal.{Signal, trend_entry, pending}
use razortrade.Core.MarketData.{OrderBookLevel, OrderBookSnapshot, MarketSnapshot}
use razortrade.Core.Portfolio.{PortfolioState, SleeveState, OpenPositionSummary}
use razortrade.Futures.Messages.{
  BookSide, PriceLevel, BookSnapshotMessage, BookDeltaMessage, FillEntry, OpenOrderVerboseEntry,
  OpenOrdersUpdateMessage,
}
use razortrade.Futures.OrderBook.{LocalOrderBook, synced}
use razortrade.Futures.FillsRing.{FillsRing}
use razortrade.Futures.OpenOrders.{OpenOrdersState}
use razortrade.Risk.Config.{default_config}
use razortrade.Risk.Checklist.{PreTradeChecklist, standard}
use razortrade.Risk.Context.{PreTradeContext}

abbrev pub num : ℕ → Fixed
num n = fixed (pos (n * 10_000))

abbrev pub minus : ℕ → Fixed
minus n = fixed (neg (pos (n * 10_000)))

abbrev pub leverage_signal : Signal Fixed Millis
leverage_signal = record {
  id = 1;
  created_at = at 1000;
  instrument_symbol = "PI_XBTUSD";
  side = buy;
  signal_type = trend_entry;
  sleeve = crypto_leverage;
  notional_chf = num 100;
  leverage = num 2;
  metadata = none;
  status = pending;
  processed_at = none;
  rejection_reason = none;
  expires_at = none;
}

abbrev pub level_at : ℕ → ℕ → OrderBookLevel Fixed
level_at price qty = record { price = num price; quantity = num qty }

abbrev pub deep_book : OrderBookSnapshot Fixed Millis
deep_book = record {
  bids = level_at 49_990 10 ∷ level_at 49_980 20 ∷ [];
  asks = level_at 50_010 10 ∷ level_at 50_020 20 ∷ [];
  timestamp = at 1000;
}

abbrev pub calm_market : MarketSnapshot Fixed Millis
calm_market = record {
  instrument_symbol = "PI_XBTUSD";
  order_book = deep_book;
  last_price = num 50_000;
  last_trade_at = at 1000;
  atr_absolute = num 1000;
  atr_pct = num 2;
  funding_rate_per_8h = some (fixed (pos 1));
  fx_quote_per_chf = fixed (pos 11_000);
}

abbrev pub leverage_sleeve : Fixed → Fixed → SleeveState Fixed
leverage_sleeve realized unrealized = record {
  sleeve = crypto_leverage;
  market_value_chf = num 5000;
  cash_chf = num 5000;
  realized_pnl_lifetime_chf = realized;
  unrealized_pnl_chf = unrealized;
}

abbrev pub portfolio :
    Fixed → Fixed → Bool → List (OpenPositionSummary Fixed) → PortfolioState Fixed Millis
portfolio realized unrealized active positions = record {
  snapshot_at = at 1000;
  sleeves = leverage_sleeve realized unrealized ∷ [];
  nav_per_unit = num 1;
  nav_hwm_per_unit = num 1;
  total_units = num 10_000;
  kill_switch_active = active;
  open_positions = positions;
}

abbrev pub context : PortfolioState Fixed Millis → PreTradeContext Fixed Millis
context p = record {
  signal = leverage_signal;
  market = calm_market;
  portfolio = p;
  config = default_config;
  now = at 1200;
}

abbrev pub calm : PreTradeContext Fixed Millis
calm = context (portfolio (num 0) (num 0) false [])

abbrev pub standard_checks : PreTradeChecklist Fixed Millis
standard_checks = standard

-- An open loss of 1300.
abbrev pub losing : PreTradeContext Fixed Millis
losing = context (portfolio (num 0) (minus 1300) false [])

abbrev pub killed_context : PreTradeContext Fixed Millis
killed_context = context (portfolio (num 0) (num 0) true [])

-- A long position whose liquidation price is one ATR away.
abbrev pub cornered_context : PreTradeContext Fixed Millis
cornered_context = context (
    portfolio (num 0) (num 0) false (
      record {
        instrument_symbol = "PI_XBTUSD";
        sleeve = crypto_leverage;
        quantity = minus 5;
        avg_entry_price = some (num 50_000);
        liquidation_price = some (num 51_000);
        leverage = some (num 2);
      }
      ∷ []))

abbrev pub price_level : ℕ → ℕ → PriceLevel Fixed
price_level price qty = record { price = num price; qty = num qty }

abbrev pub snapshot : List (PriceLevel Fixed) → List (PriceLevel Fixed) → BookSnapshotMessage Fixed
snapshot bids asks = record {
  product_id = "PI_XBTUSD";
  timestamp = 0;
  seq = 7;
  bids = bids;
  asks = asks;
}

abbrev pub delta : BookSide → ℕ → ℕ → ℕ → BookDeltaMessage Fixed
delta side seq price qty = record {
  product_id = "PI_XBTUSD";
  timestamp = 0;
  seq = seq;
  side = side;
  price = num price;
  qty = num qty;
}

-- A book in sync at number 7, with two levels on each side.
abbrev pub synced_book : LocalOrderBook Fixed Millis
synced_book = record {
  product_id = "PI_XBTUSD";
  bids = (num 98, num 1) ∷ (num 99, num 2) ∷ [];
  asks = (num 101, num 3) ∷ (num 102, num 4) ∷ [];
  last_seq = some 7;
  last_update_at = some (at 1000);
  state = synced;
}

abbrev pub fill_at : ℕ → FillEntry Fixed
fill_at seq = record {
  instrument = "PI_XBTUSD";
  time = 0;
  price = num 50_000;
  seq = seq;
  is_buy = true;
  qty = num 1;
  remaining_order_qty = none;
  order_id = "order";
  fill_id = "fill";
  fill_type = "maker";
  fee_paid = num 0;
  fee_currency = "BTC";
  cli_ord_id = none;
  order_type = none;
  taker_order_type = none;
}

-- A ring of three with two fills.
abbrev pub small_ring : FillsRing Fixed
small_ring = record {
  fills = fill_at 1 ∷ fill_at 2 ∷ [];
  capacity = 3;
  highest_seq = 2;
  is_synced = true;
}

abbrev pub entry : String → OpenOrderVerboseEntry Fixed
entry id = record {
  instrument = "PI_XBTUSD";
  time = 0;
  last_update_time = none;
  qty = num 1;
  filled = none;
  limit_price = some (num 50_000);
  stop_price = none;
  order_type = none;
  order_id = id;
  cli_ord_id = none;
  direction = 0;
  reduce_only = none;
  trigger_signal = none;
}

abbrev pub two_orders : OpenOrdersState Fixed Millis
two_orders = record {
  orders = ("a", entry "a") ∷ ("b", entry "b") ∷ [];
  last_seen_at = some (at 1000);
  is_synced = true;
}

abbrev pub cancel_a : OpenOrdersUpdateMessage Fixed
cancel_a = record { order = none; is_cancel = true; order_id = some "a"; reason = none }
