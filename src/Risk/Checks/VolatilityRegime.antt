-- ===== src/Risk/Checks/VolatilityRegime.antt =====
-- crates/rt-risk/src/checks/volatility.rs.
use razortrade.Common.{◌&&◌, if◌then◌else◌}
use razortrade.Decimal.{DecimalOps, ◌<ᵈ◌}
use razortrade.Core.Instrument.{sleeve_eq, crypto_leverage}
use razortrade.Risk.Context.{
  PreTradeContext, PreTradeCheck, CheckOutcome, approved, rejected, volatility_absolute_halt,
  volatility_too_high_for_leverage,
}

module _ {D T : Type 0} ⦃dec : DecimalOps D⦄ where
  unfoldable pub check_volatility_regime : PreTradeContext D T → CheckOutcome D
  check_volatility_regime ctx =
      let atr_pct = ctx.market.atr_pct in
      if ctx.config.max_atr_pct_absolute <ᵈ atr_pct
      then rejected (volatility_absolute_halt atr_pct ctx.config.max_atr_pct_absolute)
      else if sleeve_eq ctx.signal.sleeve crypto_leverage
          && (ctx.config.max_atr_pct_for_leverage <ᵈ atr_pct)
      then rejected (volatility_too_high_for_leverage atr_pct ctx.config.max_atr_pct_for_leverage)
      else approved

  abbrev pub volatility_regime_check : PreTradeCheck D T
  volatility_regime_check = record {
    id = "volatility_regime";
    description =
        "Reject leveraged trades in high-vol regimes; reject all trades in extreme-vol regimes";
    evaluate = check_volatility_regime;
  }
