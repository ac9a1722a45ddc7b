-- ===== src/Daemon/PortfolioLoader.antt =====
-- crates/rt-daemon/src/portfolio_loader.rs: the portfolio of the risk checks, read from the latest
-- equity snapshot, the kill-switch events and the open positions.
pub mod Agreement
use razortrade.Common.{Bool, Option, none, some, List, [], ◌∷◌, String, str_eq, if◌then◌else◌}
use razortrade.Decimal.{DecimalOps}
use razortrade.Formats.{IsoOps}
use razortrade.Core.Instrument.{Sleeve, crypto_leverage, crypto_spot, etf}
use razortrade.Core.Portfolio.{PortfolioState, SleeveState, OpenPositionSummary}
use razortrade.Persistence.Columns.{DbResult, ok, invalid_enum, and_then, TextOps, parse}
use razortrade.Persistence.PositionRows.{PositionRow}
use razortrade.Persistence.Events.{kill_switch_active}
use razortrade.Persistence.Equity.{
  EquitySnapshotRow, latest_equity_snapshot, write_bootstrap_equity_snapshot,
  list_open_leverage_positions,
}
use razortrade.Daemon.Tables.{Tables}

-- `match sleeve_str.as_str()`
abbrev pub position_sleeve : String → DbResult Sleeve
position_sleeve s =
    if str_eq s "crypto_leverage"
    then ok crypto_leverage
    else if str_eq s "crypto_spot"
    then ok crypto_spot
    else if str_eq s "etf"
    then ok etf
    else invalid_enum "positions.sleeve" s

module _ {D : Type 0} where
  abbrev pub summary_of : String → Sleeve → D → OpenPositionSummary D
  summary_of symbol sleeve qty = record {
    instrument_symbol = symbol;
    sleeve = sleeve;
    quantity = qty;
    avg_entry_price = none;
    liquidation_price = none;
    leverage = none;
  }

module _ {D X : Type 0} ⦃txt : TextOps D X⦄ where
  -- One turn of the loop over the open positions.
  unfoldable pub summarise : PositionRow X → DbResult (OpenPositionSummary D)
  summarise r = and_then (parse "positions.quantity" r.quantity) λ qty.
      and_then (position_sleeve r.sleeve) λ sleeve. ok (summary_of r.instrument_symbol sleeve qty)

  unfoldable pub summarise_all : List (PositionRow X) → DbResult (List (OpenPositionSummary D))
  unfolding summarise
  summarise_all [] = ok []
  summarise_all (r ∷ rows) =
      and_then (summarise r) λ p. and_then (summarise_all rows) λ ps. ok (p ∷ ps)

  abbrev pub decimal : String → X → DbResult D
  decimal field raw = parse field raw

-- The parsed columns of a snapshot.
pub record SnapshotValues (D : Type 0) : Type 0 where
  pub crypto_spot_value : D
  pub etf_value : D
  pub leverage_value : D
  pub cash : D
  pub realized_leverage : D
  pub unrealized_leverage : D
  pub nav_per_unit : D
  pub nav_hwm_per_unit : D
  pub total_units : D

module _ {D : Type 0} ⦃dec : DecimalOps D⦄ where
  -- Cash is assigned to the spot sleeve.
  abbrev pub sleeve_states : SnapshotValues D → List (SleeveState D)
  sleeve_states v =
      record {
        sleeve = crypto_spot;
        market_value_chf = v.crypto_spot_value;
        cash_chf = v.cash;
        realized_pnl_lifetime_chf = dec.zero;
        unrealized_pnl_chf = dec.zero;
      }
      ∷ record {
        sleeve = etf;
        market_value_chf = v.etf_value;
        cash_chf = dec.zero;
        realized_pnl_lifetime_chf = dec.zero;
        unrealized_pnl_chf = dec.zero;
      }
      ∷ record {
        sleeve = crypto_leverage;
        market_value_chf = v.leverage_value;
        cash_chf = dec.zero;
        realized_pnl_lifetime_chf = v.realized_leverage;
        unrealized_pnl_chf = v.unrealized_leverage;
      }
      ∷ []

module _ {D T : Type 0} ⦃dec : DecimalOps D⦄ where
  abbrev pub portfolio_of :
      SnapshotValues D → T → Bool → List (OpenPositionSummary D) → PortfolioState D T
  portfolio_of v snapshot_at active positions = record {
    snapshot_at = snapshot_at;
    sleeves = sleeve_states v;
    nav_per_unit = v.nav_per_unit;
    nav_hwm_per_unit = v.nav_hwm_per_unit;
    total_units = v.total_units;
    kill_switch_active = active;
    open_positions = positions;
  }

module _ {D X : Type 0} ⦃txt : TextOps D X⦄ where
  unfoldable pub parse_snapshot : EquitySnapshotRow X → DbResult (SnapshotValues D)
  parse_snapshot s = and_then (decimal "crypto_spot_value_chf" s.crypto_spot_value_chf) λ spot.
      and_then (decimal "etf_value_chf" s.etf_value_chf) λ etf_value.
        and_then (decimal "crypto_leverage_value_chf" s.crypto_leverage_value_chf) λ leverage.
          and_then (decimal "cash_chf" s.cash_chf) λ cash.
            and_then (decimal "realized_pnl_leverage_lifetime" s.realized_pnl_leverage_lifetime)
              λ realized.
                and_then (decimal "unrealized_pnl_leverage_chf" s.unrealized_pnl_leverage_chf)
                  λ unrealized. and_then (decimal "nav_per_unit" s.nav_per_unit) λ nav.
                    and_then (decimal "nav_hwm_per_unit" s.nav_hwm_per_unit) λ hwm.
                      and_then (decimal "total_units" s.total_units) λ units. ok (record {
                        crypto_spot_value = spot;
                        etf_value = etf_value;
                        leverage_value = leverage;
                        cash = cash;
                        realized_leverage = realized;
                        unrealized_leverage = unrealized;
                        nav_per_unit = nav;
                        nav_hwm_per_unit = hwm;
                        total_units = units;
                      })

module _ {D T X : Type 0} ⦃dec : DecimalOps D⦄ ⦃txt : TextOps D X⦄ where
  unfoldable pub materialise :
      EquitySnapshotRow X → T → Bool → List (OpenPositionSummary D) → DbResult (PortfolioState D T)
  unfolding parse_snapshot
  materialise snap snapshot_at active positions =
      and_then (parse_snapshot snap) λ v. ok (portfolio_of v snapshot_at active positions)

  -- The rest of `load_portfolio_state`, for the snapshot found.
  unfoldable pub load_from :
      Tables X → T → Option (EquitySnapshotRow X) → DbResult (PortfolioState D T)
  unfolding materialise summarise_all
  load_from t snapshot_at none = invalid_enum "bootstrap snapshot not readable after insert" ""
  load_from t snapshot_at (some snap) =
      and_then (summarise_all (list_open_leverage_positions txt.is_nonzero_real t.positions.rows))
        λ positions. materialise snap snapshot_at (kill_switch_active t.switch_events) positions

module _ {X : Type 0} where
  abbrev pub bootstrapped : X → X → Tables X → String → Tables X
  bootstrapped zero_text one_text t timestamp = record t {
    equity = write_bootstrap_equity_snapshot zero_text one_text timestamp t.equity;
  }

module _ {D T X : Type 0} ⦃dec : DecimalOps D⦄ ⦃txt : TextOps D X⦄ ⦃iso : IsoOps T⦄ where
  unfoldable pub load_found :
      Tables X → T → Option (EquitySnapshotRow X) → Tables X × DbResult (PortfolioState D T)
  unfolding load_from
  load_found t snapshot_at (some snap) = (t, load_from t snapshot_at (some snap))
  load_found t snapshot_at none =
      let t' = bootstrapped txt.zero_text txt.one_text t (iso.canonical_iso snapshot_at) in
      (t', load_from t' snapshot_at (latest_equity_snapshot iso.text_le t'.equity.snapshots))

  -- The tables change where a bootstrap snapshot is written.
  unfoldable pub load_portfolio_state : Tables X → T → Tables X × DbResult (PortfolioState D T)
  unfolding load_found
  load_portfolio_state t snapshot_at =
      load_found t snapshot_at (latest_equity_snapshot iso.text_le t.equity.snapshots)
