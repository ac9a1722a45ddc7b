-- ===== src/Risk/Hazard/Checks.antt =====
-- Each check without a loop rejects exactly its hazard.
use mathlib.Core.Path.{subst}
use razortrade.Common.Int.{ℤ, pos, negsuc, pos_part}
use razortrade.Core.Portfolio.{
  leverage_sleeve_effective_pnl, leverage_sleeve_realized_pnl, leverage_sleeve_unrealized_pnl,
  drawdown_fraction,
}
use razortrade.Common.{
  ℕ, ◌<◌, sym, refl, head?, ◌≡◌, ◌↔◌, true, false, arith, inl, inr, Bool-cases, Option-cases,
}
use razortrade.Decimal.{DecimalOps, ◌<ᵈ◌, ◌≤ᵈ◌}
use razortrade.Time.{TimeOps}
use razortrade.Core.Instrument.{Sleeve, sleeve_eq, crypto_leverage}
use razortrade.Core.MarketData.{spread_bps, bps_of, bid_depth, ask_depth, OrderBookLevel}
use razortrade.Risk.Context.{PreTradeContext, passes}
use razortrade.Risk.Checks.Staleness.{check_staleness}
use razortrade.Risk.Checks.SpreadLiquidity.{check_spread_liquidity}
use razortrade.Risk.Checks.VolatilityRegime.{check_volatility_regime}
use razortrade.Risk.Checks.HardLimit.{check_hard_limit}
use razortrade.Risk.Checks.FundingRate.{check_funding_rate}
use razortrade.Risk.Checks.NotionalCap.{check_notional_cap}
use razortrade.Risk.Hazard.Spec.{
  IsStale, AreBest, middle, IsIlliquid, IsVolatile, IsOverLimit, IsExpensive, IsTooLarge,
}

pub sleeve_eq_iff : (s : Sleeve) → (sleeve_eq s crypto_leverage ≡ true) ↔ (s ≡ crypto_leverage)
sleeve_eq_iff s = ground arith

after_limit :
    (limit : ℕ) (since : ℤ)
    → (limit < pos_part since) ↔ ((age : ℕ) × (since ≡ pos age) × (limit < age))
after_limit limit (pos n) =
    (λ h. (n, refl, h), λ (age, e, h). subst (λ z. limit < pos_part z) (sym e) h)
after_limit limit (negsuc n) =
    (λ h. absurd (omega arith), λ (age, e, h). subst (λ z. limit < pos_part z) (sym e) h)

module _ {D T : Type 0} ⦃dec : DecimalOps D⦄ where
  pub staleness_exact :
      ⦃chr : TimeOps T⦄ (ctx : PreTradeContext D T)
      → (passes (check_staleness ctx) ≡ false) ↔ IsStale ctx
  unfolding check_staleness
  staleness_exact ⦃chr⦄ ctx = ground (
    arith,
    after_limit ctx.config.max_tick_age_ms
        (chr.millis_since ctx.now ctx.market.order_book.timestamp),
  )

  spread_liquidity-quoted :
      (ctx : PreTradeContext D T) (bid ask : OrderBookLevel D)
      → AreBest ctx bid ask
      → (passes (check_spread_liquidity ctx) ≡ false) ↔ IsIlliquid ctx
  unfolding check_spread_liquidity spread_bps bid_depth ask_depth
  spread_liquidity-quoted ctx bid ask (eb, ea) =
      elim (Bool-cases (ctx.market.fx_quote_per_chf ≤ᵈ dec.zero)) [
        | inl z ↦ (λ h. inl (inl z), λ h. rw z refl)
        | inr fx ↦ elim (Bool-cases (dec.is_zero (middle bid ask))) [
          | inl z ↦ (λ h. inl (inr (inr (inr (bid, ask, (eb, ea), z)))), λ h. ground arith)
          | inr mid ↦ (
            λ h. inr (elim (Bool-cases (ctx.config.max_spread_bps <ᵈ bps_of bid ask)) [
              | inl w ↦ inl (bid, ask, (eb, ea), w)
              | inr narrow ↦ inr (bid, ask, (eb, ea), ground arith)
            ]),
            λ h. ground arith,
          )
        ]
      ]

  pub spread_liquidity_exact :
      (ctx : PreTradeContext D T) → (passes (check_spread_liquidity ctx) ≡ false) ↔ IsIlliquid ctx
  unfolding check_spread_liquidity spread_bps
  spread_liquidity_exact ctx = elim (Option-cases (head? ctx.market.order_book.bids)) [
    | inl e ↦ (λ h. inl (inr (inl e)), λ h. ground arith)
    | inr (bid, eb) ↦ elim (Option-cases (head? ctx.market.order_book.asks)) [
      | inl e ↦ (λ h. inl (inr (inr (inl e))), λ h. ground arith)
      | inr (ask, ea) ↦ spread_liquidity-quoted ctx bid ask (eb, ea)
    ]
  ]

  pub volatility_regime_exact :
      (ctx : PreTradeContext D T) → (passes (check_volatility_regime ctx) ≡ false) ↔ IsVolatile ctx
  unfolding check_volatility_regime
  volatility_regime_exact ctx = ground (arith, sleeve_eq_iff ctx.signal.sleeve)

  pub hard_limit_exact :
      (ctx : PreTradeContext D T) → (passes (check_hard_limit ctx) ≡ false) ↔ IsOverLimit ctx
  unfolding check_hard_limit leverage_sleeve_effective_pnl leverage_sleeve_realized_pnl
      leverage_sleeve_unrealized_pnl drawdown_fraction
  hard_limit_exact ctx = ground (arith, sleeve_eq_iff ctx.signal.sleeve)

  pub funding_rate_exact :
      (ctx : PreTradeContext D T) → (passes (check_funding_rate ctx) ≡ false) ↔ IsExpensive ctx
  unfolding check_funding_rate
  funding_rate_exact ctx = ground arith

  pub notional_cap_exact :
      (ctx : PreTradeContext D T) → (passes (check_notional_cap ctx) ≡ false) ↔ IsTooLarge ctx
  unfolding check_notional_cap
  notional_cap_exact ctx = ground arith
