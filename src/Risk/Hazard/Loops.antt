-- ===== src/Risk/Hazard/Loops.antt =====
-- The two checks that loop over the open positions reject exactly their hazards.
use razortrade.Common.{◌≡◌, ◌↔◌, Bool, true, false, List, [], ◌∷◌, arith, str_eq_iff}
use razortrade.Decimal.{DecimalOps}
use razortrade.Core.Signal.{Signal}
use razortrade.Core.Portfolio.{OpenPositionSummary}
use razortrade.Risk.Context.{PreTradeContext, passes}
use razortrade.Risk.Checks.DuplicatePosition.{check_duplicate_position, scan_duplicates}
use razortrade.Risk.Checks.LiquidationDistance.{check_liquidation_distance, scan_liquidations}
use razortrade.Risk.Hazard.Spec.{
  Any, OnInstrument, SameDirection, NearLiquidation, IsDuplicate, IsCornered,
}
use razortrade.Risk.Hazard.Checks.{sleeve_eq_iff}

module _ {D T : Type 0} ⦃dec : DecimalOps D⦄ where
  scan_duplicates_exact :
      (s : Signal D T) (ps : List (OpenPositionSummary D))
      → (passes (scan_duplicates s ps) ≡ false)
        ↔ Any (λ p. OnInstrument s p × SameDirection s.side p) ps
  unfolding scan_duplicates
  scan_duplicates_exact s [] = ground arith
  scan_duplicates_exact s (p ∷ ps) = ground (
    arith,
    scan_duplicates_exact s ps,
    str_eq_iff p.instrument_symbol s.instrument_symbol,
    sleeve_eq_iff p.sleeve,
  )

  pub check_duplicates_exact :
      (ctx : PreTradeContext D T)
      → (passes (check_duplicate_position ctx) ≡ false) ↔ IsDuplicate ctx
  unfolding check_duplicate_position
  check_duplicates_exact ctx =
      let exact = scan_duplicates_exact ctx.signal ctx.portfolio.open_positions in
      ground (arith, exact, sleeve_eq_iff ctx.signal.sleeve)

  scan_liquidations_exact :
      (ctx : PreTradeContext D T) (flag : Bool) (ps : List (OpenPositionSummary D))
      → (passes (scan_liquidations ctx flag ps) ≡ false)
        ↔ Any (λ p. OnInstrument ctx.signal p × NearLiquidation ctx p) ps
  unfolding scan_liquidations
  scan_liquidations_exact ctx flag [] = ground arith
  scan_liquidations_exact ctx flag (p ∷ ps) = ground (
    arith,
    scan_liquidations_exact ctx flag ps,
    scan_liquidations_exact ctx true ps,
    str_eq_iff p.instrument_symbol ctx.signal.instrument_symbol,
    sleeve_eq_iff p.sleeve,
  )

  pub liquidation_distance_exact :
      (ctx : PreTradeContext D T)
      → (passes (check_liquidation_distance ctx) ≡ false) ↔ IsCornered ctx
  unfolding check_liquidation_distance
  liquidation_distance_exact ctx =
      let exact = scan_liquidations_exact ctx false ctx.portfolio.open_positions in
      ground (arith, exact, sleeve_eq_iff ctx.signal.sleeve)
