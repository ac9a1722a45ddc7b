-- ===== src/Core/MarketData.antt =====
-- crates/rt-core/src/market_data.rs.
use razortrade.Common.{ℕ, Option, none, some, List, map, String, head?, take, if◌then◌else◌}
use razortrade.Common.Int.{pos}
use razortrade.Decimal.{DecimalOps, sum}

pub record OrderBookLevel (D : Type 0) : Type 0 where
  pub price : D
  pub quantity : D

-- Bids stand in descending order of the price, asks in ascending order.
pub record OrderBookSnapshot (D T : Type 0) : Type 0 where
  pub bids : List (OrderBookLevel D)
  pub asks : List (OrderBookLevel D)
  pub timestamp : T

pub record MarketSnapshot (D T : Type 0) : Type 0 where
  pub instrument_symbol : String
  pub order_book : OrderBookSnapshot D T
  pub last_price : D
  pub last_trade_at : T
  pub atr_absolute : D
  pub atr_pct : D
  pub funding_rate_per_8h : Option D
  pub fx_quote_per_chf : D

module _ {D T : Type 0} where
  abbrev pub best_bid : OrderBookSnapshot D T → Option (OrderBookLevel D)
  best_bid b = head? b.bids

  abbrev pub best_ask : OrderBookSnapshot D T → Option (OrderBookLevel D)
  best_ask b = head? b.asks

abbrev quantity_of : {D : Type 0} → OrderBookLevel D → D
quantity_of l = l.quantity

-- `(bid + ask) / 2`
abbrev pub mid_price : {D : Type 0} ⦃dec : DecimalOps D⦄ → OrderBookLevel D → OrderBookLevel D → D
mid_price ⦃dec⦄ bid ask = dec.div (dec.add bid.price ask.price) (dec.of_int (pos 2))

-- `(ask - bid) / mid * 10_000`
abbrev pub bps_of : {D : Type 0} ⦃dec : DecimalOps D⦄ → OrderBookLevel D → OrderBookLevel D → D
bps_of ⦃dec⦄ bid ask =
    dec.mul (dec.div (dec.sub ask.price bid.price) (mid_price bid ask)) (dec.of_int (pos 10_000))

module _ {D T : Type 0} ⦃dec : DecimalOps D⦄ where
  -- Applied to the bid and the ask where both are there: `?` on each of them.
  abbrev pub with_best :
      {A : Type 0}
      → OrderBookSnapshot D T
      → (OrderBookLevel D → OrderBookLevel D → Option A)
      → Option A
  with_best b f = elim (best_bid b) [
    | none ↦ none
    | some bid ↦ elim (best_ask b) [ none ↦ none | some ask ↦ f bid ask ]
  ]

  unfoldable pub spread : OrderBookSnapshot D T → Option D
  spread b = with_best b (λ bid ask. some (dec.sub ask.price bid.price))

  unfoldable pub spread_bps : OrderBookSnapshot D T → Option D
  spread_bps b =
      with_best b λ bid ask. if dec.is_zero (mid_price bid ask) then none else some (bps_of bid ask)

  unfoldable pub bid_depth : OrderBookSnapshot D T → ℕ → D
  bid_depth b depth = sum (map quantity_of (take depth b.bids))

  unfoldable pub ask_depth : OrderBookSnapshot D T → ℕ → D
  ask_depth b depth = sum (map quantity_of (take depth b.asks))
