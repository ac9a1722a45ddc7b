-- ===== src/Risk/Checks/NotionalCap.antt =====
-- crates/rt-risk/src/checks/notional_cap.rs.
use razortrade.Common.{if◌then◌else◌}
use razortrade.Decimal.{DecimalOps, ◌<ᵈ◌}
use razortrade.Risk.Context.{
  PreTradeContext, PreTradeCheck, CheckOutcome, approved, rejected, notional_too_large,
}

module _ {D T : Type 0} ⦃dec : DecimalOps D⦄ where
  unfoldable pub check_notional_cap : PreTradeContext D T → CheckOutcome D
  check_notional_cap ctx =
      let notional = ctx.signal.notional_chf in
      let limit = ctx.config.max_notional_chf_per_order in
      if limit <ᵈ notional then rejected (notional_too_large notional limit) else approved

  abbrev pub notional_cap_check : PreTradeCheck D T
  notional_cap_check = record {
    id = "notional_cap";
    description = "Reject if signal notional exceeds the configured per-order cap";
    evaluate = check_notional_cap;
  }
