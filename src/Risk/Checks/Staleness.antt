-- ===== src/Risk/Checks/Staleness.antt =====
-- crates/rt-risk/src/checks/staleness.rs.
use razortrade.Common.{ℕ, ltb, if◌then◌else◌}
use razortrade.Common.Int.{pos_part}
use razortrade.Time.{TimeOps}
use razortrade.Risk.Context.{
  PreTradeContext, PreTradeCheck, CheckOutcome, approved, rejected, stale_market_data,
}

module _ {D T : Type 0} ⦃chr : TimeOps T⦄ where
  -- `age.num_milliseconds().max(0) as u64`
  abbrev pub age_ms : PreTradeContext D T → ℕ
  age_ms ctx = pos_part (chr.millis_since ctx.now ctx.market.order_book.timestamp)

  unfoldable pub check_staleness : PreTradeContext D T → CheckOutcome D
  check_staleness ctx =
      let limit = ctx.config.max_tick_age_ms in
      if ltb limit (age_ms ctx) then rejected (stale_market_data (age_ms ctx) limit) else approved

  abbrev pub staleness_check : PreTradeCheck D T
  staleness_check = record {
    id = "staleness";
    description = "Reject if last order-book update is older than the configured tick-age limit";
    evaluate = check_staleness;
  }
