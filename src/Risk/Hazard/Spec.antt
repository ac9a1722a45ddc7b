-- ===== src/Risk/Hazard/Spec.antt =====
-- The hazards of a trade, as predicates over the figures of the context: each formula is written
-- out here and takes nothing from the checks or from the methods of crates/rt-core.
use razortrade.Common.{
  ℕ, ◌<◌, ◌≡◌, ◌⊎◌, true, false, none, some, List, [], ◌∷◌, head?, take, map, find?, if◌then◌else◌,
}
use razortrade.Common.Int.{pos}
use razortrade.Decimal.{DecimalOps, ◌<ᵈ◌, ◌≤ᵈ◌, sum}
use razortrade.Time.{TimeOps}
use razortrade.Core.Instrument.{crypto_leverage, sleeve_eq}
use razortrade.Core.Order.{Side, buy, sell}
use razortrade.Core.Signal.{Signal}
use razortrade.Core.MarketData.{OrderBookLevel}
use razortrade.Core.Portfolio.{OpenPositionSummary, PortfolioState}
use razortrade.Risk.Context.{PreTradeContext}

abbrev pub Any : {A : Type 0} → (A → Type 0) → List A → Type 0
Any P [] = ⊥
Any P (x ∷ xs) = P x ⊎ Any P xs

abbrev pub IsLeveraged : {D T : Type 0} → PreTradeContext D T → Type 0
IsLeveraged ctx = ctx.signal.sleeve ≡ crypto_leverage

-- The kill switch is on and the trade is leveraged.
abbrev pub IsKilled : {D T : Type 0} → PreTradeContext D T → Type 0
IsKilled ctx = (ctx.portfolio.kill_switch_active ≡ true) × IsLeveraged ctx

-- The order book is older than allowed.
abbrev pub IsStale : {D T : Type 0} ⦃chr : TimeOps T⦄ → PreTradeContext D T → Type 0
IsStale ⦃chr⦄ ctx =
    (age : ℕ) × (chr.millis_since ctx.now ctx.market.order_book.timestamp ≡ pos age)
    × (ctx.config.max_tick_age_ms < age)

-- The position lies in the direction in which the signal would trade.
abbrev pub SameDirection : {D : Type 0} ⦃dec : DecimalOps D⦄ → Side → OpenPositionSummary D → Type 0
SameDirection ⦃dec⦄ buy p =
    (dec.is_sign_positive p.quantity ≡ true) × (dec.is_zero p.quantity ≡ false)
SameDirection ⦃dec⦄ sell p = dec.is_sign_negative p.quantity ≡ true

-- A leveraged position on the signal's instrument.
abbrev pub OnInstrument : {D T : Type 0} → Signal D T → OpenPositionSummary D → Type 0
OnInstrument s p = (p.instrument_symbol ≡ s.instrument_symbol) × (p.sleeve ≡ crypto_leverage)

-- The middle of the best prices.
abbrev pub middle : {D : Type 0} ⦃dec : DecimalOps D⦄ → OrderBookLevel D → OrderBookLevel D → D
middle ⦃dec⦄ bid ask = dec.div (dec.add bid.price ask.price) (dec.of_int (pos 2))

-- What the first levels hold together.
abbrev pub depth : {D : Type 0} ⦃dec : DecimalOps D⦄ → ℕ → List (OrderBookLevel D) → D
depth n levels = sum (map (λ l. l.quantity) (take n levels))

module _ {D T : Type 0} ⦃dec : DecimalOps D⦄ where
  -- The best levels of both sides.
  abbrev pub AreBest : PreTradeContext D T → OrderBookLevel D → OrderBookLevel D → Type 0
  AreBest ctx bid ask =
      (head? ctx.market.order_book.bids ≡ some bid) × (head? ctx.market.order_book.asks ≡ some ask)

  -- There is no exchange rate, a side of the book is empty, or the middle price is zero.
  abbrev pub IsUnpriced : PreTradeContext D T → Type 0
  IsUnpriced ctx =
      ((ctx.market.fx_quote_per_chf ≤ᵈ dec.zero) ≡ true)
      ⊎ ((head? ctx.market.order_book.bids ≡ none)
          ⊎ ((head? ctx.market.order_book.asks ≡ none)
              ⊎ ((bid : OrderBookLevel D) × (ask : OrderBookLevel D) × AreBest ctx bid ask
                  × (dec.is_zero (middle bid ask) ≡ true))))

  -- The spread, in hundredths of a percent of the middle price, is above its limit.
  abbrev pub IsWide : PreTradeContext D T → Type 0
  IsWide ctx =
      (bid : OrderBookLevel D) × (ask : OrderBookLevel D) × AreBest ctx bid ask
      × ((ctx.config.max_spread_bps
            <ᵈ dec.mul (dec.div (dec.sub ask.price bid.price) (middle bid ask))
                (dec.of_int (pos 10_000)))
          ≡ true)

  -- What the order needs of the book: its notional in quote currency at this price, with the
  -- configured multiple.
  abbrev pub needed : PreTradeContext D T → D → D
  needed ctx price =
      dec.mul (dec.div (dec.mul ctx.signal.notional_chf ctx.market.fx_quote_per_chf) price)
        ctx.config.min_book_depth_multiple

  -- The side of the book that the order would take from holds less than the order needs: the asks
  -- for a purchase, the bids for a sale.
  abbrev pub IsThin : PreTradeContext D T → Type 0
  IsThin ctx =
      (bid : OrderBookLevel D) × (ask : OrderBookLevel D) × AreBest ctx bid ask
      × (((ctx.signal.side ≡ buy)
            × ((depth ctx.config.book_depth_levels ctx.market.order_book.asks
                  <ᵈ needed ctx (middle bid ask))
                ≡ true))
          ⊎ ((ctx.signal.side ≡ sell)
              × ((depth ctx.config.book_depth_levels ctx.market.order_book.bids
                    <ᵈ needed ctx (middle bid ask))
                  ≡ true)))

  abbrev pub IsIlliquid : PreTradeContext D T → Type 0
  IsIlliquid ctx = IsUnpriced ctx ⊎ (IsWide ctx ⊎ IsThin ctx)

  -- The volatility is above the limit for all trades, or for leveraged ones.
  abbrev pub IsVolatile : PreTradeContext D T → Type 0
  IsVolatile ctx =
      ((ctx.config.max_atr_pct_absolute <ᵈ ctx.market.atr_pct) ≡ true)
      ⊎ (IsLeveraged ctx × ((ctx.config.max_atr_pct_for_leverage <ᵈ ctx.market.atr_pct) ≡ true))

  -- The realised and the unrealised P&L of the leverage sleeve, zero without one.
  abbrev pub realised : PortfolioState D T → D
  realised p = elim (find? (λ s. sleeve_eq s.sleeve crypto_leverage) p.sleeves) [
    | some s ↦ s.realized_pnl_lifetime_chf
    | none ↦ dec.zero
  ]

  abbrev pub unrealised : PortfolioState D T → D
  unrealised p = elim (find? (λ s. sleeve_eq s.sleeve crypto_leverage) p.sleeves) [
    | some s ↦ s.unrealized_pnl_chf
    | none ↦ dec.zero
  ]

  -- Open losses count, open gains do not.
  abbrev pub effective : PortfolioState D T → D
  effective p = dec.add (realised p) (dec.min (unrealised p) dec.zero)

  -- The fall of the value per unit from its highest, as a fraction of that.
  abbrev pub fall : PortfolioState D T → D
  fall p =
      if dec.is_zero p.nav_hwm_per_unit
      then dec.zero
      else if p.nav_hwm_per_unit ≤ᵈ p.nav_per_unit
      then dec.zero
      else dec.div (dec.sub p.nav_hwm_per_unit p.nav_per_unit) p.nav_hwm_per_unit

  -- The loss of an adverse move of the leveraged notional, with the fees and the funding.
  abbrev pub worst_loss : PreTradeContext D T → D
  worst_loss ctx =
      let exposure = dec.mul ctx.signal.notional_chf ctx.signal.leverage in
      dec.add
        (dec.add (dec.mul exposure ctx.config.adverse_move_for_worst_case)
          (dec.mul exposure ctx.config.expected_round_trip_fee_fraction))
        (dec.mul exposure ctx.config.expected_funding_reserve_fraction)

  -- The leverage sleeve has spent its budget, the portfolio has fallen too far, or the worst case
  -- of this trade would spend the budget.
  abbrev pub IsExhausted : PreTradeContext D T → Type 0
  IsExhausted ctx =
      let budget = ctx.config.leverage_kill_switch_budget_chf in
      ((effective ctx.portfolio ≤ᵈ budget) ≡ true)
      ⊎ (((ctx.config.max_portfolio_drawdown <ᵈ fall ctx.portfolio) ≡ true)
          ⊎ ((dec.sub (effective ctx.portfolio) (worst_loss ctx) ≤ᵈ budget) ≡ true))

  abbrev pub IsOverLimit : PreTradeContext D T → Type 0
  IsOverLimit ctx =
      ((ctx.config.max_leverage <ᵈ ctx.signal.leverage) ≡ true)
      ⊎ (IsLeveraged ctx × IsExhausted ctx)

  abbrev pub IsDuplicate : PreTradeContext D T → Type 0
  IsDuplicate ctx =
      IsLeveraged ctx
      × Any (λ p. OnInstrument ctx.signal p × SameDirection ctx.signal.side p)
          ctx.portfolio.open_positions

  -- The position has a liquidation price that is fewer times the volatility away from the last
  -- price than allowed.
  abbrev pub NearLiquidation : PreTradeContext D T → OpenPositionSummary D → Type 0
  NearLiquidation ctx p =
      (liq : D) × (p.liquidation_price ≡ some liq)
      × ((dec.div (dec.abs (dec.sub ctx.market.last_price liq)) ctx.market.atr_absolute
            <ᵈ ctx.config.min_liq_distance_atrs)
          ≡ true)

  abbrev pub IsCornered : PreTradeContext D T → Type 0
  IsCornered ctx =
      IsLeveraged ctx
      × (dec.is_zero ctx.market.atr_absolute ≡ false)
      × Any (λ p. OnInstrument ctx.signal p × NearLiquidation ctx p) ctx.portfolio.open_positions

  -- The funding that the position would pay is above its limit: the rate for a purchase, its
  -- opposite for a sale.
  abbrev pub IsExpensive : PreTradeContext D T → Type 0
  IsExpensive ctx =
      (funding : D) × (ctx.market.funding_rate_per_8h ≡ some funding)
      × (((ctx.signal.side ≡ buy) × ((ctx.config.max_funding_rate_per_8h <ᵈ funding) ≡ true))
          ⊎ ((ctx.signal.side ≡ sell)
              × ((ctx.config.max_funding_rate_per_8h <ᵈ dec.neg funding) ≡ true)))

  abbrev pub IsTooLarge : PreTradeContext D T → Type 0
  IsTooLarge ctx = (ctx.config.max_notional_chf_per_order <ᵈ ctx.signal.notional_chf) ≡ true

module _ {D T : Type 0} ⦃dec : DecimalOps D⦄ ⦃chr : TimeOps T⦄ where
  -- Some concern speaks against the trade.
  pub data Hazard (ctx : PreTradeContext D T) : Type 0 where
    killed : IsKilled ctx → Hazard ctx
    stale : IsStale ctx → Hazard ctx
    illiquid : IsIlliquid ctx → Hazard ctx
    volatile : IsVolatile ctx → Hazard ctx
    over_limit : IsOverLimit ctx → Hazard ctx
    duplicate : IsDuplicate ctx → Hazard ctx
    cornered : IsCornered ctx → Hazard ctx
    expensive : IsExpensive ctx → Hazard ctx
    too_large : IsTooLarge ctx → Hazard ctx
