-- ===== src/Tests/Risk.antt =====
-- Tests and examples of the risk layer.
use razortrade.Common.{◌≡◌, ◌≢◌, refl, ◌↔◌, ◌⊎◌, true, false, [], ◌∷◌, map}
use razortrade.Decimal.Fixed.{Fixed, fixed_ops, Fixed-IsOrdered}
use razortrade.Time.{Millis, at, millis_ops}
use razortrade.Core.Portfolio.{
  drawdown_fraction, leverage_sleeve_effective_pnl, leverage_sleeve_realized_pnl,
  leverage_sleeve_unrealized_pnl,
}
use razortrade.Common.Int.{◌+ℤ◌, ◌-ℤ◌, ◌*ℤ◌, div_ℕ}
use razortrade.Core.MarketData.{spread_bps, bid_depth, ask_depth}
use razortrade.Risk.Checks.Staleness.{check_staleness}
use razortrade.Risk.Checks.SpreadLiquidity.{check_spread_liquidity}
use razortrade.Risk.Checks.VolatilityRegime.{check_volatility_regime}
use razortrade.Risk.Checks.HardLimit.{check_hard_limit}
use razortrade.Risk.Checks.DuplicatePosition.{check_duplicate_position, scan_duplicates}
use razortrade.Risk.Checks.LiquidationDistance.{check_liquidation_distance, scan_liquidations}
use razortrade.Risk.Checks.FundingRate.{check_funding_rate}
use razortrade.Risk.Checks.NotionalCap.{check_notional_cap}
use razortrade.Risk.Checklist.{evaluate, standard, rejections, check_ids}
use razortrade.Risk.KillSwitch.{
  no_change, disable, panic_close, effective_pnl_budget_exhausted,
  lifetime_realised_loss_budget_exhausted, evaluate_kill_switch,
}
use razortrade.Risk.Hazard.Spec.{Hazard, IsKilled, Any, realised, unrealised}
use razortrade.Risk.Approval.{refused_iff_Hazard, evaluate-IsComplete, IsComplete, Rejects}
use razortrade.Risk.Safety.{
  supervisor_agrees, CountsLosses, IsDecision, evaluate_kill_switch-IsDecision,
  effective_pnl-CountsLosses,
}
use razortrade.Tests.Data.{
  standard_checks, calm, losing, killed_context, cornered_context, portfolio, num, minus,
}

calm_is_approved : (evaluate standard calm).is_approved ≡ true
unfolding evaluate check_staleness check_spread_liquidity check_volatility_regime check_hard_limit
    check_duplicate_position check_liquidation_distance check_funding_rate check_notional_cap
    leverage_sleeve_effective_pnl leverage_sleeve_realized_pnl leverage_sleeve_unrealized_pnl
    drawdown_fraction spread_bps bid_depth ask_depth scan_duplicates scan_liquidations ◌+ℤ◌ ◌-ℤ◌
    ◌*ℤ◌ div_ℕ
calm_is_approved = refl

cornered_is_refused :
    map (λ o. o.0) (rejections (evaluate standard cornered_context).outcomes)
    ≡ ("liquidation_distance" ∷ [])
unfolding evaluate check_staleness check_spread_liquidity check_volatility_regime check_hard_limit
    check_duplicate_position check_liquidation_distance check_funding_rate check_notional_cap
    leverage_sleeve_effective_pnl leverage_sleeve_realized_pnl leverage_sleeve_unrealized_pnl
    drawdown_fraction spread_bps bid_depth ask_depth scan_duplicates scan_liquidations ◌+ℤ◌ ◌-ℤ◌
    ◌*ℤ◌ div_ℕ rejections
cornered_is_refused = refl

losing_is_closed :
    evaluate_kill_switch losing.portfolio losing.config (at 1200)
    ≡ panic_close (effective_pnl_budget_exhausted (minus 1300) (minus 1200)) (at 1200)
unfolding evaluate_kill_switch leverage_sleeve_effective_pnl leverage_sleeve_unrealized_pnl
    leverage_sleeve_realized_pnl drawdown_fraction ◌+ℤ◌ ◌*ℤ◌
losing_is_closed = refl

losing_acts : evaluate_kill_switch losing.portfolio losing.config (at 1200) ≢ no_change
losing_acts h = cc (h, losing_is_closed)

-- A realised loss of 1100, below the budget and above the hard threshold.
realised_is_disabled :
    evaluate_kill_switch (portfolio (minus 1100) (num 0) false []) calm.config (at 1200)
    ≡ disable (lifetime_realised_loss_budget_exhausted (minus 1100) (minus 1000)) (at 1200)
unfolding evaluate_kill_switch leverage_sleeve_effective_pnl leverage_sleeve_unrealized_pnl
    leverage_sleeve_realized_pnl drawdown_fraction ◌+ℤ◌ ◌*ℤ◌
realised_is_disabled = refl

names_checks : check_ids {D = Fixed} {T = Millis} standard ≡ (
    "staleness" ∷ "spread_liquidity" ∷ "volatility_regime" ∷ "hard_limit" ∷ "duplicate_position"
    ∷ "liquidation_distance" ∷ "funding_rate" ∷ "notional_cap" ∷ [])
unfolding check_ids
names_checks = refl

refused_iff_Hazard_example :
    ((evaluate standard cornered_context).is_approved ≡ false) ↔ Hazard cornered_context
refused_iff_Hazard_example = refused_iff_Hazard cornered_context

evaluate-IsComplete_example :
    IsComplete standard_checks killed_context
    × (((evaluate standard_checks killed_context).is_approved ≡ false)
        ↔ (IsKilled killed_context ⊎ Any (Rejects killed_context) standard_checks))
evaluate-IsComplete_example = evaluate-IsComplete standard_checks killed_context

supervisor_agrees_example : (evaluate standard losing).is_approved ≡ false
unfolding ◌*ℤ◌
supervisor_agrees_example = supervisor_agrees Fixed-IsOrdered losing (at 1200) refl losing_acts refl

effective_pnl-CountsLosses_example :
    CountsLosses
      (realised losing.portfolio)
      (unrealised losing.portfolio)
      (leverage_sleeve_effective_pnl losing.portfolio)
effective_pnl-CountsLosses_example = effective_pnl-CountsLosses Fixed-IsOrdered losing.portfolio

evaluate_kill_switch-IsDecision_example :
    IsDecision losing.portfolio losing.config
      (at 1200)
      (evaluate_kill_switch losing.portfolio losing.config (at 1200))
evaluate_kill_switch-IsDecision_example =
    evaluate_kill_switch-IsDecision losing.portfolio losing.config (at 1200)
