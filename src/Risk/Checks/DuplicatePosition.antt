-- ===== src/Risk/Checks/DuplicatePosition.antt =====
-- crates/rt-risk/src/checks/duplicate_position.rs.
use razortrade.Common.{Bool, not, ◌&&◌, ◌||◌, List, [], ◌∷◌, str_eq, if◌then◌else◌}
use razortrade.Decimal.{DecimalOps}
use razortrade.Core.Instrument.{sleeve_eq, crypto_leverage}
use razortrade.Core.Order.{side_eq, buy}
use razortrade.Core.Signal.{Signal}
use razortrade.Core.Portfolio.{OpenPositionSummary, is_long, is_short}
use razortrade.Risk.Context.{
  PreTradeContext, PreTradeCheck, CheckOutcome, approved, rejected, not_applicable,
  duplicate_position_open,
}

module _ {D T : Type 0} ⦃dec : DecimalOps D⦄ where
  -- The tests of the loop's body: the same instrument, the leverage sleeve, the same direction.
  abbrev pub is_duplicate : Signal D T → OpenPositionSummary D → Bool
  is_duplicate s p =
      let want_long = side_eq s.side buy in
      str_eq p.instrument_symbol s.instrument_symbol
      && (sleeve_eq p.sleeve crypto_leverage
          && ((want_long && is_long p) || (not want_long && is_short p)))

  -- The loop over the open positions.
  unfoldable pub scan_duplicates : Signal D T → List (OpenPositionSummary D) → CheckOutcome D
  scan_duplicates s [] = approved
  scan_duplicates s (p ∷ ps) =
      if is_duplicate s p
      then rejected (
          duplicate_position_open s.instrument_symbol (if side_eq s.side buy then "buy" else "sell")
            p.quantity)
      else scan_duplicates s ps

  unfoldable pub check_duplicate_position : PreTradeContext D T → CheckOutcome D
  unfolding scan_duplicates
  check_duplicate_position ctx =
      if not (sleeve_eq ctx.signal.sleeve crypto_leverage)
      then not_applicable
      else scan_duplicates ctx.signal ctx.portfolio.open_positions

  abbrev pub duplicate_position_check : PreTradeCheck D T
  duplicate_position_check = record {
    id = "duplicate_position";
    description =
        "Reject if an open leverage position on the same instrument + side already exists";
    evaluate = check_duplicate_position;
  }
