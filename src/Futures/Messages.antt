-- ===== src/Futures/Messages.antt =====
-- The feed messages that the stores read (crates/rt-kraken-futures/src/messages.rs).
use razortrade.Common.{ℕ, Bool, Option, List, String, str_eq, ◌==◌, if◌then◌else◌}

pub data BookSide : Type 0 where
  buy sell : BookSide

pub record PriceLevel (D : Type 0) : Type 0 where
  pub price : D
  pub qty : D

pub record BookSnapshotMessage (D : Type 0) : Type 0 where
  pub product_id : String
  pub timestamp : ℕ
  pub seq : ℕ
  pub bids : List (PriceLevel D)
  pub asks : List (PriceLevel D)

pub record BookDeltaMessage (D : Type 0) : Type 0 where
  pub product_id : String
  pub timestamp : ℕ
  pub seq : ℕ
  pub side : BookSide
  pub price : D
  pub qty : D

pub record FillEntry (D : Type 0) : Type 0 where
  pub instrument : String
  pub time : ℕ
  pub price : D
  pub seq : ℕ
  pub is_buy : Bool
  pub qty : D
  pub remaining_order_qty : Option D
  pub order_id : String
  pub fill_id : String
  pub fill_type : String
  pub fee_paid : D
  pub fee_currency : String
  pub cli_ord_id : Option String
  pub order_type : Option String
  pub taker_order_type : Option String

abbrev pub is_maker : {D : Type 0} → FillEntry D → Bool
is_maker f = str_eq f.fill_type "maker"

abbrev pub fill_side : {D : Type 0} → FillEntry D → BookSide
fill_side f = if f.is_buy then buy else sell

pub record OpenOrderVerboseEntry (D : Type 0) : Type 0 where
  pub instrument : String
  pub time : ℕ
  pub last_update_time : Option ℕ
  pub qty : D
  pub filled : Option D
  pub limit_price : Option D
  pub stop_price : Option D
  pub order_type : Option String
  pub order_id : String
  pub cli_ord_id : Option String
  pub direction : ℕ
  pub reduce_only : Option Bool
  pub trigger_signal : Option String

abbrev pub entry_side : {D : Type 0} → OpenOrderVerboseEntry D → BookSide
entry_side o = if o.direction == 0 then buy else sell

pub record OpenOrdersUpdateMessage (D : Type 0) : Type 0 where
  pub order : Option (OpenOrderVerboseEntry D)
  pub is_cancel : Bool
  pub order_id : Option String
  pub reason : Option String

pub record TickerMessage (D : Type 0) : Type 0 where
  pub product_id : String
  pub bid : Option D
  pub ask : Option D
  pub bid_size : Option D
  pub ask_size : Option D
  pub funding_rate : Option D
  pub funding_rate_prediction : Option D
  pub relative_funding_rate : Option D
  pub next_funding_rate_time : Option ℕ
  pub time : Option ℕ
  pub last : Option D
