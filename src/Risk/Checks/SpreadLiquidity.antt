-- ===== src/Risk/Checks/SpreadLiquidity.antt =====
-- crates/rt-risk/src/checks/spread_liquidity.rs.
use Prim.Native.String.{◌++◌ as append}
use razortrade.Common.{String, Option, none, some, if◌then◌else◌}
use razortrade.Decimal.{DecimalOps, ◌<ᵈ◌, ◌≤ᵈ◌}
use razortrade.Core.Order.{Side, buy, sell}
use razortrade.Core.MarketData.{
  OrderBookLevel, mid_price, best_bid, best_ask, spread_bps, bid_depth, ask_depth,
}
use razortrade.Risk.Context.{
  PreTradeContext, PreTradeCheck, CheckOutcome, approved, rejected, invalid_signal,
  insufficient_liquidity, spread_too_wide,
}

module _ {D T : Type 0} ⦃dec : DecimalOps D⦄ where
  -- What the order needs of the book at this price, with the configured multiple.
  abbrev pub required_with_buffer : PreTradeContext D T → D → D
  required_with_buffer ctx mid =
      let notional_quote = dec.mul ctx.signal.notional_chf ctx.market.fx_quote_per_chf in
      let required_qty = dec.div notional_quote mid in
      dec.mul required_qty ctx.config.min_book_depth_multiple

  abbrev pub available : PreTradeContext D T → Side → D
  available ctx buy = ask_depth ctx.market.order_book ctx.config.book_depth_levels
  available ctx sell = bid_depth ctx.market.order_book ctx.config.book_depth_levels

abbrev side_str : Side → String
side_str buy = "ask"
side_str sell = "bid"

abbrev pub no_quote : {D : Type 0} ⦃dec : DecimalOps D⦄ → CheckOutcome D
no_quote ⦃dec⦄ = rejected (insufficient_liquidity dec.zero dec.zero "either")

module _ {D T : Type 0} ⦃dec : DecimalOps D⦄ where
  -- The depth check, at a usable middle price.
  unfoldable pub check_depth : PreTradeContext D T → D → CheckOutcome D
  check_depth ctx mid =
      if available ctx ctx.signal.side <ᵈ required_with_buffer ctx mid
      then rejected (
          insufficient_liquidity (required_with_buffer ctx mid) (available ctx ctx.signal.side)
            (side_str ctx.signal.side))
      else approved

  -- The second reading of the best prices.
  unfoldable pub check_mid :
      PreTradeContext D T → Option (OrderBookLevel D) → Option (OrderBookLevel D) → CheckOutcome D
  unfolding check_depth
  check_mid ctx (some b) (some a) =
      let mid = mid_price b a in if dec.is_zero mid then no_quote else check_depth ctx mid
  check_mid ctx (some b) none = no_quote
  check_mid ctx none a = no_quote

  -- The spread check, and the depth check if it passes.
  unfoldable pub check_spread : PreTradeContext D T → Option D → CheckOutcome D
  unfolding check_mid
  check_spread ctx none = no_quote
  check_spread ctx (some bps) =
      if ctx.config.max_spread_bps <ᵈ bps
      then rejected (spread_too_wide bps ctx.config.max_spread_bps)
      else check_mid ctx (best_bid ctx.market.order_book) (best_ask ctx.market.order_book)

  unfoldable pub check_spread_liquidity : PreTradeContext D T → CheckOutcome D
  unfolding check_spread
  check_spread_liquidity ctx =
      if ctx.market.fx_quote_per_chf ≤ᵈ dec.zero
      then rejected (
          invalid_signal (
            append "invalid fx_quote_per_chf in market snapshot: "
              (dec.show ctx.market.fx_quote_per_chf)))
      else check_spread ctx (spread_bps ctx.market.order_book)

  abbrev pub spread_liquidity_check : PreTradeCheck D T
  spread_liquidity_check = record {
    id = "spread_liquidity";
    description = "Reject if spread exceeds limit or order-book depth is insufficient";
    evaluate = check_spread_liquidity;
  }
