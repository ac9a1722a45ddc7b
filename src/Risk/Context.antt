-- ===== src/Risk/Context.antt =====
-- The input and the outcomes of a check (crates/rt-risk/src/checklist.rs).
use razortrade.Common.{ℕ, Bool, true, false, List, String}
use razortrade.Core.Signal.{Signal}
use razortrade.Core.MarketData.{MarketSnapshot}
use razortrade.Core.Portfolio.{PortfolioState}
use razortrade.Risk.Config.{RiskConfig}

pub record PreTradeContext (D T : Type 0) : Type 0 where
  pub signal : Signal D T
  pub market : MarketSnapshot D T
  pub portfolio : PortfolioState D T
  pub config : RiskConfig D
  pub now : T

-- The fields stand in the order of the source.
pub data RejectionReason (D : Type 0) : Type 0 where
  stale_market_data : ℕ → ℕ → RejectionReason D
  spread_too_wide : D → D → RejectionReason D
  insufficient_liquidity : D → D → String → RejectionReason D
  volatility_too_high_for_leverage : D → D → RejectionReason D
  volatility_absolute_halt : D → D → RejectionReason D
  leverage_effective_pnl_budget_exhausted : D → D → D → D → RejectionReason D
  portfolio_drawdown_exceeded : D → D → RejectionReason D
  worst_case_loss_would_exhaust_budget : D → D → RejectionReason D
  funding_rate_too_expensive : D → D → RejectionReason D
  leverage_cap_exceeded : D → D → RejectionReason D
  notional_too_large : D → D → RejectionReason D
  duplicate_position_open : String → String → D → RejectionReason D
  liquidation_too_close : String → D → D → RejectionReason D
  kill_switch_active : RejectionReason D
  invalid_signal : String → RejectionReason D

pub data CheckOutcome (D : Type 0) : Type 0 where
  approved : CheckOutcome D
  rejected : RejectionReason D → CheckOutcome D
  not_applicable : CheckOutcome D

-- `matches!(o, CheckOutcome::Approved | CheckOutcome::NotApplicable)`
abbrev pub passes : {D : Type 0} → CheckOutcome D → Bool
passes approved = true
passes (rejected _) = false
passes not_applicable = true

-- The trait, as a record of its three methods.
pub record PreTradeCheck (D T : Type 0) : Type 0 where
  pub id : String
  pub description : String
  pub evaluate : PreTradeContext D T → CheckOutcome D

pub record ChecklistResult (D T : Type 0) : Type 0 where
  pub outcomes : List (String × CheckOutcome D)
  pub evaluated_at : T
  pub is_approved : Bool
