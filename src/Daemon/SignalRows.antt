-- ===== src/Daemon/SignalRows.antt =====
-- `row_to_signal` (crates/rt-daemon/src/signal_processor.rs) and the snake_case texts of the enums,
-- which serde reads and `enum_to_snake_case` writes.
pub mod Reading
use Prim.Native.String.{◌++◌ as append}
use razortrade.Common.{ℕ, Option, none, some, List, [], ◌∷◌, String, str_eq, if◌then◌else◌}
use razortrade.Formats.{IsoOps, JsonOps}
use razortrade.Core.Instrument.{Sleeve, crypto_spot, etf, crypto_leverage, cash_yield}
use razortrade.Core.Order.{
  Side, buy, sell, OrderType, market, limit, post_only, stop_market, stop_limit, TimeInForce, gtc,
  ioc, fok, good_for_seconds, OrderStatus, pending_submission, submitted, acknowledged,
  partially_filled, filled, cancelled, rejected, failed,
}
use razortrade.Core.Signal.{
  Signal, SignalType, spot_accumulation, trend_entry, trend_exit, rebalance, SignalStatus, pending,
  processed, signal_rejected, signal_failed, signal_cancelled,
}
use razortrade.Persistence.Columns.{DbResult, ok, invalid_enum, and_then, TextOps, parse}
use razortrade.Persistence.Signals.{SignalRow}

abbrev pub side_name : Side → String
side_name buy = "buy"
side_name sell = "sell"

abbrev pub sleeve_name : Sleeve → String
sleeve_name crypto_spot = "crypto_spot"
sleeve_name etf = "etf"
sleeve_name crypto_leverage = "crypto_leverage"
sleeve_name cash_yield = "cash_yield"

abbrev pub type_name : OrderType → String
type_name market = "market"
type_name limit = "limit"
type_name post_only = "post_only"
type_name stop_market = "stop_market"
type_name stop_limit = "stop_limit"

-- `show` is `{}` of an integer.
abbrev pub tif_name : (ℕ → String) → TimeInForce → String
tif_name show gtc = "gtc"
tif_name show ioc = "ioc"
tif_name show fok = "fok"
tif_name show (good_for_seconds n) = append "{\"good_for_seconds\":" (append (show n) "}")

abbrev pub order_status_to_string : OrderStatus → String
order_status_to_string pending_submission = "pending_submission"
order_status_to_string submitted = "submitted"
order_status_to_string acknowledged = "acknowledged"
order_status_to_string partially_filled = "partially_filled"
order_status_to_string filled = "filled"
order_status_to_string cancelled = "cancelled"
order_status_to_string rejected = "rejected"
order_status_to_string failed = "failed"

-- The variant that a text names.
unfoldable pub read_enum {ℓ} : {A : Type ℓ} → List (String × A) → String → Option A
read_enum [] s = none
read_enum ((name, a) ∷ rest) s = if str_eq s name then some a else read_enum rest s

abbrev pub or_invalid : {A : Type 0} → String → String → Option A → DbResult A
or_invalid column s (some a) = ok a
or_invalid column s none = invalid_enum column s

abbrev pub sides : List (String × Side)
sides = ("buy", buy) ∷ ("sell", sell) ∷ []

abbrev pub signal_types : List (String × SignalType)
signal_types =
    ("spot_accumulation", spot_accumulation)
    ∷ ("trend_entry", trend_entry)
    ∷ ("trend_exit", trend_exit)
    ∷ ("rebalance", rebalance)
    ∷ []

abbrev pub sleeves : List (String × Sleeve)
sleeves =
    ("crypto_spot", crypto_spot)
    ∷ ("etf", etf)
    ∷ ("crypto_leverage", crypto_leverage)
    ∷ ("cash_yield", cash_yield)
    ∷ []

abbrev pub signal_statuses : List (String × SignalStatus)
signal_statuses =
    ("pending", pending)
    ∷ ("processed", processed)
    ∷ ("rejected", signal_rejected)
    ∷ ("failed", signal_failed)
    ∷ ("cancelled", signal_cancelled)
    ∷ []

module _ {T : Type 0} ⦃iso : IsoOps T⦄ where
  abbrev pub read_time : String → String → DbResult T
  read_time column s = or_invalid column s (iso.parse_from_rfc3339 s)

  abbrev pub read_time_opt : String → Option String → DbResult (Option T)
  read_time_opt column none = ok none
  read_time_opt column (some s) = and_then (read_time column s) λ t. ok (some t)

module _ {D T X : Type 0} (json : JsonOps D T X) where
  abbrev pub read_metadata : Option String → DbResult (Option String)
  read_metadata none = ok none
  read_metadata (some s) = if json.is_json s then ok (some s) else invalid_enum "metadata_json" s

module _ {D T X : Type 0} ⦃txt : TextOps D X⦄ ⦃iso : IsoOps T⦄ where
  -- The columns are read in the order of the source.
  unfoldable pub row_to_signal : JsonOps D T X → SignalRow X → DbResult (Signal D T)
  unfolding read_enum
  row_to_signal json r = and_then (or_invalid "side" r.side (read_enum sides r.side)) λ side.
      and_then (or_invalid "signal_type" r.signal_type (read_enum signal_types r.signal_type))
        λ signal_type.
          and_then (or_invalid "sleeve" r.sleeve (read_enum sleeves r.sleeve)) λ sleeve.
            and_then (parse "notional" r.notional_chf) λ notional.
              and_then (parse "leverage" r.leverage) λ leverage.
                and_then (read_time "created_at" r.created_at) λ created_at.
                  and_then (read_metadata json r.metadata_json) λ metadata.
                    and_then (or_invalid "status" r.status (read_enum signal_statuses r.status))
                      λ status.
                        and_then (read_time_opt "processed_at" r.processed_at) λ processed_at.
                          and_then (read_time_opt "expires_at" r.expires_at) λ expires_at.
                            ok (record {
                              id = r.id;
                              created_at = created_at;
                              instrument_symbol = r.instrument_symbol;
                              side = side;
                              signal_type = signal_type;
                              sleeve = sleeve;
                              notional_chf = notional;
                              leverage = leverage;
                              metadata = metadata;
                              status = status;
                              processed_at = processed_at;
                              rejection_reason = r.rejection_reason;
                              expires_at = expires_at;
                            })
