-- ===== src/Risk/Checks/HardLimit.antt =====
-- crates/rt-risk/src/checks/hard_limit.rs.
use razortrade.Common.{not, if◌then◌else◌}
use razortrade.Decimal.{DecimalOps, ◌<ᵈ◌, ◌≤ᵈ◌}
use razortrade.Core.Instrument.{sleeve_eq, crypto_leverage}
use razortrade.Core.Portfolio.{
  drawdown_fraction, leverage_sleeve_effective_pnl, leverage_sleeve_realized_pnl,
  leverage_sleeve_unrealized_pnl,
}
use razortrade.Risk.Context.{
  PreTradeContext, PreTradeCheck, CheckOutcome, approved, rejected, leverage_cap_exceeded,
  leverage_effective_pnl_budget_exhausted, portfolio_drawdown_exceeded,
  worst_case_loss_would_exhaust_budget,
}

module _ {D T : Type 0} ⦃dec : DecimalOps D⦄ where
  -- The loss of an adverse move, with the fees and the funding held in reserve.
  abbrev pub worst_case_loss : PreTradeContext D T → D
  worst_case_loss ctx =
      let notional = dec.mul ctx.signal.notional_chf ctx.signal.leverage in
      let adverse_loss = dec.mul notional ctx.config.adverse_move_for_worst_case in
      let fee_reserve = dec.mul notional ctx.config.expected_round_trip_fee_fraction in
      let funding_reserve = dec.mul notional ctx.config.expected_funding_reserve_fraction in
      dec.add (dec.add adverse_loss fee_reserve) funding_reserve

  unfoldable pub check_hard_limit : PreTradeContext D T → CheckOutcome D
  check_hard_limit ctx =
      let effective = leverage_sleeve_effective_pnl ctx.portfolio in
      let budget = ctx.config.leverage_kill_switch_budget_chf in
      let dd = drawdown_fraction ctx.portfolio in
      let projected = dec.sub effective (worst_case_loss ctx) in
      if ctx.config.max_leverage <ᵈ ctx.signal.leverage
      then rejected (leverage_cap_exceeded ctx.signal.leverage ctx.config.max_leverage)
      else if not (sleeve_eq ctx.signal.sleeve crypto_leverage)
      then approved
      else if effective ≤ᵈ budget
      then rejected (
          leverage_effective_pnl_budget_exhausted effective
            (leverage_sleeve_realized_pnl ctx.portfolio)
            (leverage_sleeve_unrealized_pnl ctx.portfolio) budget)
      else if ctx.config.max_portfolio_drawdown <ᵈ dd
      then rejected (portfolio_drawdown_exceeded dd ctx.config.max_portfolio_drawdown)
      else if projected ≤ᵈ budget
      then rejected (
          worst_case_loss_would_exhaust_budget (worst_case_loss ctx)
            (dec.max (dec.sub effective budget) dec.zero))
      else approved

  abbrev pub hard_limit_check : PreTradeCheck D T
  hard_limit_check = record {
    id = "hard_limit";
    description =
        "Enforce leverage cap, effective-P&L budget, portfolio drawdown, and worst-case projection";
    evaluate = check_hard_limit;
  }
