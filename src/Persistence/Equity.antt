-- ===== src/Persistence/Equity.antt =====
-- The table `equity_snapshots` and the queries on `positions` behind it
-- (crates/rt-persistence/src/repo.rs and models.rs).
use razortrade.Common.{
  ℕ, ◌+◌, Bool, ◌&&◌, Option, none, some, List, [], ◌∷◌, String, str_eq, filter, if◌then◌else◌, map,
}
use razortrade.Decimal.{DecimalOps}
use razortrade.Persistence.Columns.{DbResult, ok, decimal_error, and_then, TextOps, parse}
use razortrade.Persistence.PositionRows.{PositionRow, is_open}

pub record EquitySnapshotRow (X : Type 0) : Type 0 where
  pub id : ℕ
  pub timestamp : String
  pub total_equity_chf : X
  pub crypto_spot_value_chf : X
  pub etf_value_chf : X
  pub crypto_leverage_value_chf : X
  pub cash_chf : X
  pub realized_pnl_leverage_lifetime : X
  pub drawdown_fraction : X
  pub unrealized_pnl_leverage_chf : X
  pub nav_per_unit : X
  pub nav_hwm_per_unit : X
  pub total_units : X

-- Rows stand newest first, by falling ids.
pub record EquityTable (X : Type 0) : Type 0 where
  pub snapshots : List (EquitySnapshotRow X)
  pub next_snapshot : ℕ

module _ {X : Type 0} where
  abbrev pub later :
      (String → String → Bool)
      → EquitySnapshotRow X
      → Option (EquitySnapshotRow X)
      → EquitySnapshotRow X
  later le r none = r
  later le r (some s) = if le s.timestamp r.timestamp then r else s

  -- ORDER BY timestamp DESC, id DESC LIMIT 1, by the order `le` of texts.
  unfoldable pub latest_equity_snapshot :
      (String → String → Bool) → List (EquitySnapshotRow X) → Option (EquitySnapshotRow X)
  latest_equity_snapshot le [] = none
  latest_equity_snapshot le (r ∷ rows) = some (later le r (latest_equity_snapshot le rows))

  -- The id of the argument is replaced by the next one.
  unfoldable pub insert_equity_snapshot : EquitySnapshotRow X → EquityTable X → EquityTable X
  insert_equity_snapshot r t = record {
    snapshots = record r { id = t.next_snapshot } ∷ t.snapshots;
    next_snapshot = t.next_snapshot + 1;
  }

  -- The texts '0' and '1' are the first two arguments.
  abbrev pub bootstrap_row : X → X → String → EquitySnapshotRow X
  bootstrap_row zero_text one_text timestamp = record {
    id = 0;
    timestamp = timestamp;
    total_equity_chf = zero_text;
    crypto_spot_value_chf = zero_text;
    etf_value_chf = zero_text;
    crypto_leverage_value_chf = zero_text;
    cash_chf = zero_text;
    realized_pnl_leverage_lifetime = zero_text;
    drawdown_fraction = zero_text;
    unrealized_pnl_leverage_chf = zero_text;
    nav_per_unit = one_text;
    nav_hwm_per_unit = one_text;
    total_units = one_text;
  }

  unfoldable pub write_bootstrap_equity_snapshot : X → X → String → EquityTable X → EquityTable X
  unfolding insert_equity_snapshot
  write_bootstrap_equity_snapshot zero_text one_text timestamp t =
      insert_equity_snapshot (bootstrap_row zero_text one_text timestamp) t

  -- The WHERE clause of `list_open_leverage_positions`; `nonzero` is CAST(quantity AS REAL) != 0.
  abbrev pub is_open_leverage : (X → Bool) → PositionRow X → Bool
  is_open_leverage nonzero r =
      is_open r && (str_eq r.sleeve "crypto_leverage" && nonzero r.quantity)

  -- With the whole rows.
  unfoldable pub list_open_leverage_positions :
      (X → Bool) → List (PositionRow X) → List (PositionRow X)
  list_open_leverage_positions nonzero rows = filter (is_open_leverage nonzero) rows

module _ {D X : Type 0} ⦃dec : DecimalOps D⦄ ⦃txt : TextOps D X⦄ where
  -- The loop over the selected column; a NULL is not decoded.
  unfoldable pub sum_column : D → List (Option X) → DbResult D
  sum_column total [] = ok total
  sum_column total (none ∷ raws) = decimal_error "realized_pnl_btc"
  sum_column total (some raw ∷ raws) =
      and_then (parse "realized_pnl_btc" raw) λ v. sum_column (dec.add total v) raws

  unfoldable pub sum_realized_pnl_btc_by_sleeve : String → List (PositionRow X) → DbResult D
  unfolding sum_column
  sum_realized_pnl_btc_by_sleeve sleeve rows =
      sum_column dec.zero
        (map (λ r. r.realized_pnl_btc) (filter (λ r. str_eq r.sleeve sleeve) rows))
