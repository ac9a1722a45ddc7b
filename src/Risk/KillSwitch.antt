-- ===== src/Risk/KillSwitch.antt =====
-- crates/rt-risk/src/kill_switch.rs.
use razortrade.Common.{String, if◌then◌else◌}
use razortrade.Decimal.{DecimalOps, ◌<ᵈ◌, ◌≤ᵈ◌}
use razortrade.Core.Portfolio.{
  PortfolioState, drawdown_fraction, leverage_sleeve_effective_pnl, leverage_sleeve_realized_pnl,
}
use razortrade.Risk.Config.{RiskConfig}

pub data KillSwitchReason (D : Type 0) : Type 0 where
  lifetime_realised_loss_budget_exhausted : D → D → KillSwitchReason D
  effective_pnl_budget_exhausted : D → D → KillSwitchReason D
  portfolio_drawdown : D → D → KillSwitchReason D
  manual_trigger : String → KillSwitchReason D

pub data KillSwitchDecision (D T : Type 0) : Type 0 where
  no_change : KillSwitchDecision D T
  disable : KillSwitchReason D → T → KillSwitchDecision D T
  panic_close : KillSwitchReason D → T → KillSwitchDecision D T

module _ {D T : Type 0} ⦃dec : DecimalOps D⦄ where
  -- `KillSwitchEvaluator::evaluate`.
  unfoldable pub evaluate_kill_switch :
      PortfolioState D T → RiskConfig D → T → KillSwitchDecision D T
  evaluate_kill_switch portfolio config now =
      let effective = leverage_sleeve_effective_pnl portfolio in
      let realized = leverage_sleeve_realized_pnl portfolio in
      let dd = drawdown_fraction portfolio in
      if effective ≤ᵈ config.kill_switch_effective_threshold_chf
      then panic_close
          (effective_pnl_budget_exhausted effective config.kill_switch_effective_threshold_chf) now
      else if portfolio.kill_switch_active
      then no_change
      else if realized ≤ᵈ config.leverage_kill_switch_budget_chf
      then disable
          (lifetime_realised_loss_budget_exhausted realized config.leverage_kill_switch_budget_chf)
          now
      else if config.max_portfolio_drawdown <ᵈ dd
      then disable (portfolio_drawdown dd config.max_portfolio_drawdown) now
      else no_change
