-- ===== src/Risk/Checklist.antt =====
-- `PreTradeChecklist` and `ChecklistResult` (crates/rt-risk/src/checklist.rs).
use razortrade.Common.{◌&&◌, List, [], ◌∷◌, ◌++◌, map, String, all, if◌then◌else◌}
use razortrade.Decimal.{DecimalOps}
use razortrade.Time.{TimeOps}
use razortrade.Core.Instrument.{sleeve_eq, crypto_leverage}
use razortrade.Risk.Context.{
  PreTradeContext, PreTradeCheck, CheckOutcome, approved, rejected, not_applicable, RejectionReason,
  kill_switch_active, ChecklistResult, passes,
}
use razortrade.Risk.Checks.Staleness.{staleness_check}
use razortrade.Risk.Checks.SpreadLiquidity.{spread_liquidity_check}
use razortrade.Risk.Checks.VolatilityRegime.{volatility_regime_check}
use razortrade.Risk.Checks.HardLimit.{hard_limit_check}
use razortrade.Risk.Checks.DuplicatePosition.{duplicate_position_check}
use razortrade.Risk.Checks.LiquidationDistance.{liquidation_distance_check}
use razortrade.Risk.Checks.FundingRate.{funding_rate_check}
use razortrade.Risk.Checks.NotionalCap.{notional_cap_check}

abbrev pub PreTradeChecklist : Type 0 → Type 0 → Type 0
PreTradeChecklist D T = List (PreTradeCheck D T)

-- `ChecklistResult::rejections`, on its outcomes.
unfoldable pub rejections :
    {D : Type 0} → List (String × CheckOutcome D) → List (String × RejectionReason D)
rejections [] = []
rejections ((id, rejected reason) ∷ os) = (id, reason) ∷ rejections os
rejections ((id, approved) ∷ os) = rejections os
rejections ((id, not_applicable) ∷ os) = rejections os

module _ {D T : Type 0} where
  -- The rejection that stands before all others.
  abbrev pub gate : PreTradeContext D T → List (String × CheckOutcome D)
  gate ctx =
      if ctx.portfolio.kill_switch_active && sleeve_eq ctx.signal.sleeve crypto_leverage
      then ("kill_switch_gate", rejected kill_switch_active) ∷ []
      else []

  abbrev pub run_check : PreTradeContext D T → PreTradeCheck D T → String × CheckOutcome D
  run_check ctx c = (c.id, c.evaluate ctx)

  unfoldable pub evaluate : PreTradeChecklist D T → PreTradeContext D T → ChecklistResult D T
  evaluate checks ctx =
      let outcomes = gate ctx ++ map (run_check ctx) checks in
      record {
        outcomes = outcomes;
        evaluated_at = ctx.now;
        is_approved = all (λ o. passes o.1) outcomes;
      }

  unfoldable pub check_ids : PreTradeChecklist D T → List String
  check_ids checks = map (λ c. c.id) checks

-- `PreTradeChecklist::standard`, also `default`.
abbrev pub standard : {D T : Type 0} ⦃dec : DecimalOps D⦄ ⦃chr : TimeOps T⦄ → PreTradeChecklist D T
standard =
    staleness_check ∷ spread_liquidity_check ∷ volatility_regime_check ∷ hard_limit_check
    ∷ duplicate_position_check ∷ liquidation_distance_check ∷ funding_rate_check
    ∷ notional_cap_check ∷ []
