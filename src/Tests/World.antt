-- ===== src/Tests/World.antt =====
-- A signal processor with its tables, its market and a broker, on concrete numbers.
use razortrade.Common.{
  ◌+◌, ◌*◌, true, Option, none, some, List, [], ◌∷◌, String, str_eq, ◌==◌, leb, if◌then◌else◌,
}
use razortrade.Common.Int.{pos}
use razortrade.Decimal.Fixed.{Fixed, fixed, fixed_ops}
use razortrade.Time.{Millis, at, millis, millis_ops}
use razortrade.Formats.{IsoOps, JsonOps, number_value}
use razortrade.Execution.{BrokerClient, answered, failed_with, timeout}
use razortrade.Core.Order.{acknowledged}
use razortrade.Core.ExecutionMode.{ExecutionMode}
use razortrade.Risk.Config.{default_config}
use razortrade.Futures.Messages.{TickerMessage}
use razortrade.Futures.OrderBook.{LocalOrderBook, synced}
use razortrade.Persistence.Columns.{Text, printed, text_ops}
use razortrade.Persistence.PositionRows.{PositionRow}
use razortrade.Persistence.Signals.{SignalRow}
use razortrade.Persistence.Events.{KillSwitchEventRow}
use razortrade.Persistence.Equity.{EquitySnapshotRow}
use razortrade.Daemon.Tables.{Tables, World}
use razortrade.Daemon.SignalProcessor.{SignalProcessor}
use razortrade.Tests.Data.{num, standard_checks}
use razortrade.Tests.TextOrder.{text_le}
use razortrade.Tests.Rows.{long_row}

-- Texts of times for the examples: "t0" up to 1000 milliseconds, "t1" up to 2000, "t2" after that.
instance abbrev pub iso_millis : IsoOps Millis
iso_millis = record {
  canonical_iso =
      λ t. if leb (millis t) 1000 then "t0" else if leb (millis t) 2000 then "t1" else "t2";
  parse_from_rfc3339 = λ s.
      if str_eq s "t0"
      then some (at 1000)
      else if str_eq s "t1"
      then some (at 2000)
      else if str_eq s "t2"
      then some (at 90_000)
      else none;
  plus_seconds = λ t n. at (millis t + n * 1000);
  timestamp = λ t. millis t;
  from_millis = λ n. some (at n);
  text_le = text_le;
  show_id = λ n. if n == 1 then "1" else "7";
}

abbrev metadata_number : String → Fixed
metadata_number name =
    if str_eq name "atr_absolute"
    then num 1000
    else if str_eq name "atr_pct"
    then num 2
    else fixed (pos 11_000)

abbrev pub json : JsonOps Fixed Millis Text
json = record {
  is_json = λ s. true;
  field = λ meta name. some (number_value (printed (metadata_number name)));
  reason_json = λ kind detail. kind;
  outcomes_json = λ outcomes. "outcomes";
  intent_json = λ hint price quantity. hint;
  switch_json = λ reason. "reason";
  portfolio_json = λ portfolio. "portfolio";
}

abbrev local_book : LocalOrderBook Fixed Millis
local_book = record {
  product_id = "PI_XBTUSD";
  bids = (num 49_980, num 20) ∷ (num 49_990, num 10) ∷ [];
  asks = (num 50_010, num 10) ∷ (num 50_020, num 20) ∷ [];
  last_seq = some 7;
  last_update_at = some (at 1000);
  state = synced;
}

abbrev pub ticker : TickerMessage Fixed
ticker = record {
  product_id = "PI_XBTUSD";
  bid = none;
  ask = none;
  bid_size = none;
  ask_size = none;
  funding_rate = none;
  funding_rate_prediction = none;
  relative_funding_rate = none;
  next_funding_rate_time = none;
  time = some 1000;
  last = some (num 50_000);
}

-- A broker that accepts each order and knows none by its client id.
abbrev pub accepting : BrokerClient Fixed Millis
accepting = record {
  submit_order = λ before order.
      answered (record { broker_order_id = "abc"; status = acknowledged; submitted_at = at 1200 });
  get_order_by_cli_ord_id = λ before cli. answered none;
}

-- A broker whose answers do not arrive.
abbrev pub silent : BrokerClient Fixed Millis
silent = record accepting { submit_order = λ before order. failed_with (timeout 10) }

abbrev pub processor :
    ExecutionMode → Option (BrokerClient Fixed Millis) → SignalProcessor Fixed Millis
processor mode broker = record {
  checklist = standard_checks;
  risk_config = default_config;
  market_data = record {
    books = ("PI_XBTUSD", local_book) ∷ [];
    tickers = ("PI_XBTUSD", ticker) ∷ [];
    depth = 5;
  };
  execution_mode = mode;
  crypto_leverage_broker = broker;
  instruments = [];
}

-- The side and the type of the signal are arguments.
abbrev pub signal_row : String → String → SignalRow Text
signal_row side signal_type = record {
  id = 1;
  created_at = "t0";
  instrument_symbol = "PI_XBTUSD";
  side = side;
  signal_type = signal_type;
  sleeve = "crypto_leverage";
  notional_chf = printed (num 100);
  leverage = printed (num 2);
  metadata_json = some "{}";
  status = "pending";
  processed_at = none;
  rejection_reason = none;
  expires_at = none;
  retry_after_at = none;
}

-- Five thousand in the leverage sleeve and in cash, and an unrealised P&L.
abbrev pub snapshot_row : Fixed → EquitySnapshotRow Text
snapshot_row unrealized = record {
  id = 1;
  timestamp = "t0";
  total_equity_chf = printed (num 10_000);
  crypto_spot_value_chf = printed (num 0);
  etf_value_chf = printed (num 0);
  crypto_leverage_value_chf = printed (num 5000);
  cash_chf = printed (num 5000);
  realized_pnl_leverage_lifetime = printed (num 0);
  drawdown_fraction = printed (num 0);
  unrealized_pnl_leverage_chf = printed unrealized;
  nav_per_unit = printed (num 1);
  nav_hwm_per_unit = printed (num 1);
  total_units = printed (num 10_000);
}

abbrev pub manual_event : KillSwitchEventRow
manual_event = record {
  id = 1;
  triggered_at = "t0";
  reason_kind = "manual_trigger";
  reason_detail_json = "reason";
  portfolio_snapshot = "portfolio";
  resolved_at = none;
  resolved_by = none;
  resolved_note = none;
}

abbrev pub tables :
    List (SignalRow Text) → List (PositionRow Text) → List KillSwitchEventRow → Fixed → Tables Text
tables signals positions events unrealized = record {
  signals = signals;
  orders = record { orders = []; next_order = 1 };
  positions = record { rows = positions; next_id = 2 };
  switch_events = record { events = events; next_event = 2 };
  equity = record { snapshots = snapshot_row unrealized ∷ []; next_snapshot = 2 };
  evaluations = [];
  dry_runs = [];
}

abbrev pub world : Tables Text → World Fixed Millis Text
world t = record { tables = t; submissions = [] }

-- An entry that waits, without positions.
abbrev pub entry_world : World Fixed Millis Text
entry_world = world (tables (signal_row "buy" "trend_entry" ∷ []) [] [] (num 0))

-- An exit that waits, with the kill switch on.
abbrev pub killed_world : World Fixed Millis Text
killed_world =
    world (tables (signal_row "sell" "trend_exit" ∷ []) (long_row ∷ []) (manual_event ∷ []) (num 0))
