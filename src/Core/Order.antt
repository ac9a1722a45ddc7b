-- ===== src/Core/Order.antt =====
-- crates/rt-core/src/order.rs.
use razortrade.Common.{ℕ, Bool, true, false, Option, String, ◌==◌}
use razortrade.Core.Instrument.{Broker, Instrument}

pub data Side : Type 0 where
  buy sell : Side

abbrev pub opposite : Side → Side
opposite buy = sell
opposite sell = buy

abbrev side_index : Side → ℕ
side_index buy = 0
side_index sell = 1

-- The derived `PartialEq`.
abbrev pub side_eq : Side → Side → Bool
side_eq a b = side_index a == side_index b

pub data OrderType : Type 0 where
  market limit post_only stop_market stop_limit : OrderType

pub data TimeInForce : Type 0 where
  gtc ioc fok : TimeInForce
  good_for_seconds : ℕ → TimeInForce

pub data OrderStatus : Type 0 where
  pending_submission submitted acknowledged partially_filled filled : OrderStatus
  cancelled rejected failed : OrderStatus

abbrev pub is_terminal : OrderStatus → Bool
is_terminal filled = true
is_terminal cancelled = true
is_terminal rejected = true
is_terminal failed = true
is_terminal _ = false

abbrev pub is_live : OrderStatus → Bool
is_live submitted = true
is_live acknowledged = true
is_live partially_filled = true
is_live _ = false

pub record Order (D T : Type 0) : Type 0 where
  pub id : ℕ
  pub signal_id : Option ℕ
  pub broker : Broker
  pub broker_order_id : Option String
  pub cli_ord_id : Option String
  pub instrument : Instrument D
  pub side : Side
  pub order_type : OrderType
  pub time_in_force : TimeInForce
  pub quantity : D
  pub limit_price : Option D
  pub stop_price : Option D
  pub status : OrderStatus
  pub filled_quantity : D
  pub avg_fill_price : Option D
  pub fees_paid : D
  pub created_at : T
  pub updated_at : T
  pub error_message : Option String
  pub reduce_only : Option Bool
