-- ===== src/Core/Portfolio.antt =====
-- crates/rt-core/src/portfolio.rs.
use razortrade.Common.{Bool, not, ◌&&◌, Option, none, some, List, map, String, find?, if◌then◌else◌}
use razortrade.Decimal.{DecimalOps, ◌≤ᵈ◌, sum}
use razortrade.Core.Instrument.{Sleeve, sleeve_eq, crypto_leverage}

pub record OpenPositionSummary (D : Type 0) : Type 0 where
  pub instrument_symbol : String
  pub sleeve : Sleeve
  pub quantity : D
  pub avg_entry_price : Option D
  pub liquidation_price : Option D
  pub leverage : Option D

pub record SleeveState (D : Type 0) : Type 0 where
  pub sleeve : Sleeve
  pub market_value_chf : D
  pub cash_chf : D
  pub realized_pnl_lifetime_chf : D
  pub unrealized_pnl_chf : D

pub record PortfolioState (D T : Type 0) : Type 0 where
  pub snapshot_at : T
  pub sleeves : List (SleeveState D)
  pub nav_per_unit : D
  pub nav_hwm_per_unit : D
  pub total_units : D
  pub kill_switch_active : Bool
  pub open_positions : List (OpenPositionSummary D)

module _ {D : Type 0} ⦃dec : DecimalOps D⦄ where
  abbrev pub is_long : OpenPositionSummary D → Bool
  is_long p = dec.is_sign_positive p.quantity && not (dec.is_zero p.quantity)

  abbrev pub is_short : OpenPositionSummary D → Bool
  is_short p = dec.is_sign_negative p.quantity

  -- `SleeveState::total_value_chf`.
  abbrev pub sleeve_value : SleeveState D → D
  sleeve_value s = dec.add s.market_value_chf s.cash_chf

module _ {D T : Type 0} ⦃dec : DecimalOps D⦄ where
  -- `PortfolioState::total_value_chf`.
  unfoldable pub total_value_chf : PortfolioState D T → D
  total_value_chf p = sum (map sleeve_value p.sleeves)

  -- `PortfolioState::sleeve`.
  abbrev pub find_sleeve : PortfolioState D T → Sleeve → Option (SleeveState D)
  find_sleeve p sleeve = find? (λ s. sleeve_eq s.sleeve sleeve) p.sleeves

  unfoldable pub drawdown_fraction : PortfolioState D T → D
  drawdown_fraction p =
      if dec.is_zero p.nav_hwm_per_unit
      then dec.zero
      else if p.nav_hwm_per_unit ≤ᵈ p.nav_per_unit
      then dec.zero
      else dec.div (dec.sub p.nav_hwm_per_unit p.nav_per_unit) p.nav_hwm_per_unit

  unfoldable pub leverage_sleeve_realized_pnl : PortfolioState D T → D
  leverage_sleeve_realized_pnl p = elim (find_sleeve p crypto_leverage) [
    | some s ↦ s.realized_pnl_lifetime_chf
    | none ↦ dec.zero
  ]

  unfoldable pub leverage_sleeve_unrealized_pnl : PortfolioState D T → D
  leverage_sleeve_unrealized_pnl p = elim (find_sleeve p crypto_leverage) [
    | some s ↦ s.unrealized_pnl_chf
    | none ↦ dec.zero
  ]

  -- Realised, plus unrealised where that is a loss.
  unfoldable pub leverage_sleeve_effective_pnl : PortfolioState D T → D
  leverage_sleeve_effective_pnl p =
      let realized = leverage_sleeve_realized_pnl p in
      let unrealized = leverage_sleeve_unrealized_pnl p in
      let adverse = dec.min unrealized dec.zero in dec.add realized adverse
