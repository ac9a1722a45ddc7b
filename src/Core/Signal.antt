-- ===== src/Core/Signal.antt =====
-- crates/rt-core/src/signal.rs.
use razortrade.Common.{ℕ, Option, String}
use razortrade.Core.Instrument.{Sleeve}
use razortrade.Core.Order.{Side}

pub data SignalType : Type 0 where
  spot_accumulation trend_entry trend_exit rebalance : SignalType

pub data SignalStatus : Type 0 where
  pending processed signal_rejected signal_failed signal_cancelled : SignalStatus

-- The metadata is kept as its JSON text.
pub record Signal (D T : Type 0) : Type 0 where
  pub id : ℕ
  pub created_at : T
  pub instrument_symbol : String
  pub side : Side
  pub signal_type : SignalType
  pub sleeve : Sleeve
  pub notional_chf : D
  pub leverage : D
  pub metadata : Option String
  pub status : SignalStatus
  pub processed_at : Option T
  pub rejection_reason : Option String
  pub expires_at : Option T
