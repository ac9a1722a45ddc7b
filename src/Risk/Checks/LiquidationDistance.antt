-- ===== src/Risk/Checks/LiquidationDistance.antt =====
-- crates/rt-risk/src/checks/liquidation_distance.rs.
use razortrade.Common.{
  Bool, true, false, not, ◌&&◌, none, some, List, [], ◌∷◌, str_eq, if◌then◌else◌,
}
use razortrade.Decimal.{DecimalOps, ◌<ᵈ◌}
use razortrade.Core.Instrument.{sleeve_eq, crypto_leverage}
use razortrade.Core.Portfolio.{OpenPositionSummary}
use razortrade.Risk.Context.{
  PreTradeContext, PreTradeCheck, CheckOutcome, approved, rejected, not_applicable,
  liquidation_too_close,
}

abbrev round2 : {D : Type 0} ⦃dec : DecimalOps D⦄ → D → D
round2 ⦃dec⦄ d = dec.round_dp d 2

module _ {D T : Type 0} ⦃dec : DecimalOps D⦄ where
  -- The position is on the leverage sleeve and on the signal's instrument.
  abbrev pub is_relevant : PreTradeContext D T → OpenPositionSummary D → Bool
  is_relevant ctx p =
      sleeve_eq p.sleeve crypto_leverage && str_eq p.instrument_symbol ctx.signal.instrument_symbol

  -- `abs(mark - liq) / atr`
  abbrev pub distance_atrs : PreTradeContext D T → D → D
  distance_atrs ctx liq =
      dec.div (dec.abs (dec.sub ctx.market.last_price liq)) ctx.market.atr_absolute

  -- The loop over the open positions; the flag is `any_checked`.
  unfoldable pub scan_liquidations :
      PreTradeContext D T → Bool → List (OpenPositionSummary D) → CheckOutcome D
  scan_liquidations ctx any_checked [] = if any_checked then approved else not_applicable
  scan_liquidations ctx any_checked (p ∷ ps) =
      let skip = scan_liquidations ctx any_checked ps in
      let go_on = scan_liquidations ctx true ps in
      if not (is_relevant ctx p) then skip else elim p.liquidation_price [
        | none ↦ skip
        | some liq ↦
            if distance_atrs ctx liq <ᵈ ctx.config.min_liq_distance_atrs
            then rejected (
                liquidation_too_close p.instrument_symbol (round2 (distance_atrs ctx liq))
                  ctx.config.min_liq_distance_atrs)
            else go_on
      ]

  unfoldable pub check_liquidation_distance : PreTradeContext D T → CheckOutcome D
  unfolding scan_liquidations
  check_liquidation_distance ctx =
      if not (sleeve_eq ctx.signal.sleeve crypto_leverage)
      then not_applicable
      else if dec.is_zero ctx.market.atr_absolute
      then not_applicable
      else scan_liquidations ctx false ctx.portfolio.open_positions

  abbrev pub liquidation_distance_check : PreTradeCheck D T
  liquidation_distance_check = record {
    id = "liquidation_distance";
    description =
        "Reject if an open leverage position is closer than min_liq_distance_atrs to liquidation";
    evaluate = check_liquidation_distance;
  }
