-- ===== src/Risk/Checks/FundingRate.antt =====
-- crates/rt-risk/src/checks/funding_rate.rs.
use razortrade.Common.{none, some, if◌then◌else◌}
use razortrade.Decimal.{DecimalOps, ◌<ᵈ◌}
use razortrade.Core.Order.{Side, buy, sell}
use razortrade.Risk.Context.{
  PreTradeContext, PreTradeCheck, CheckOutcome, approved, rejected, not_applicable,
  funding_rate_too_expensive,
}

abbrev pub adverse_funding : {D : Type 0} ⦃dec : DecimalOps D⦄ → Side → D → D
adverse_funding buy funding = funding
adverse_funding ⦃dec⦄ sell funding = dec.neg funding

module _ {D T : Type 0} ⦃dec : DecimalOps D⦄ where
  unfoldable pub check_funding_rate : PreTradeContext D T → CheckOutcome D
  check_funding_rate ctx = elim ctx.market.funding_rate_per_8h [
    | none ↦ not_applicable
    | some funding ↦
        let limit = ctx.config.max_funding_rate_per_8h in
        if limit <ᵈ adverse_funding ctx.signal.side funding
        then rejected (funding_rate_too_expensive (adverse_funding ctx.signal.side funding) limit)
        else approved
  ]

  abbrev pub funding_rate_check : PreTradeCheck D T
  funding_rate_check = record {
    id = "funding_rate";
    description = "Reject perpetual trades when adverse funding exceeds the configured threshold";
    evaluate = check_funding_rate;
  }
