-- ===== src/Daemon/EquityWriter.antt =====
-- `write_one_snapshot` (crates/rt-daemon/src/equity_writer.rs): the accounts at the exchange and the
-- table of positions become an equity snapshot.
pub mod Blind
use razortrade.Common.{Option, none, some, List, String, if◌then◌else◌}
use razortrade.Decimal.{DecimalOps, ◌≤ᵈ◌}
use razortrade.Execution.{Answer, answered, failed_with}
use razortrade.Risk.Config.{RiskConfig}
use razortrade.Futures.Messages.{TickerMessage}
use razortrade.Futures.Accounts.{AccountsResponse, MarginAccount, FlexAccount, margin, flex}
use razortrade.Persistence.Columns.{DbResult, ok, decimal_error, invalid_enum, panicked, TextOps}
use razortrade.Persistence.PositionRows.{PositionRow}
use razortrade.Persistence.Equity.{
  EquitySnapshotRow, EquityTable, insert_equity_snapshot, sum_realized_pnl_btc_by_sleeve,
}
use razortrade.Daemon.MarketData.{by_symbol}

-- `Result<i64>`, with the table in place of the id of the new row.
pub data Written (X : Type 0) : Type 0 where
  wrote : EquityTable X → Written X
  not_written : String → Written X
  writer_panic : Written X

abbrev pub perp_symbol : String
perp_symbol = "PI_XBTUSD"

abbrev pub sc_margin_account_key : String
sc_margin_account_key = "fi_xbtusd"

abbrev pub leverage_sleeve : String
leverage_sleeve = "CryptoLeverage"

-- The amounts in CHF.
pub record Valuation (D : Type 0) : Type 0 where
  pub leverage_value_chf : D
  pub unrealized_leverage_chf : D
  pub cash_chf : D
  pub realized_chf : D

module _ {D : Type 0} ⦃dec : DecimalOps D⦄ where
  abbrev pub margin_pv : Option (MarginAccount D) → D
  margin_pv none = dec.zero
  margin_pv (some m) = m.auxiliary.pv

  abbrev pub margin_pnl : Option (MarginAccount D) → D
  margin_pnl none = dec.zero
  margin_pnl (some m) = m.auxiliary.pnl

  abbrev pub flex_balance : Option (FlexAccount D) → D
  flex_balance none = dec.zero
  flex_balance (some f) = f.balance_value

  abbrev pub last_of : Option (TickerMessage D) → Option D
  last_of none = none
  last_of (some t) = t.last

  -- `qty_btc * btc_usd / usd_per_chf`; the divisor has been tested.
  abbrev pub btc_to_chf : D → D → D → D
  btc_to_chf btc_usd usd_per_chf qty = dec.div (dec.mul qty btc_usd) usd_per_chf

  abbrev pub valuation : AccountsResponse D → D → D → D → Valuation D
  valuation a btc_usd usd_per_chf realized_btc = record {
    leverage_value_chf =
        btc_to_chf btc_usd usd_per_chf (margin_pv (margin a sc_margin_account_key));
    unrealized_leverage_chf =
        btc_to_chf btc_usd usd_per_chf (margin_pnl (margin a sc_margin_account_key));
    cash_chf = dec.div (flex_balance (flex a)) usd_per_chf;
    realized_chf = btc_to_chf btc_usd usd_per_chf realized_btc;
  }

  abbrev pub total_equity : Valuation D → D
  total_equity v = dec.add v.cash_chf v.leverage_value_chf

module _ {D X : Type 0} ⦃dec : DecimalOps D⦄ ⦃txt : TextOps D X⦄ where
  -- The arguments of `insert_equity_snapshot`; the NAV per unit is always one.
  abbrev pub equity_row : Valuation D → String → EquitySnapshotRow X
  equity_row v now_iso = record {
    id = 0;
    timestamp = now_iso;
    total_equity_chf = txt.to_string (total_equity v);
    crypto_spot_value_chf = txt.zero_text;
    etf_value_chf = txt.zero_text;
    crypto_leverage_value_chf = txt.to_string v.leverage_value_chf;
    cash_chf = txt.to_string v.cash_chf;
    realized_pnl_leverage_lifetime = txt.to_string v.realized_chf;
    drawdown_fraction = txt.to_string dec.zero;
    unrealized_pnl_leverage_chf = txt.to_string v.unrealized_leverage_chf;
    nav_per_unit = txt.to_string dec.one;
    nav_hwm_per_unit = txt.to_string dec.one;
    total_units = txt.to_string dec.one;
  }

  -- The last guard and the insertion.
  unfoldable pub persist : EquityTable X → Valuation D → String → Written X
  unfolding insert_equity_snapshot
  persist t v now_iso =
      if total_equity v ≤ᵈ dec.zero
      then not_written "computed total_equity_chf is not positive; refusing to persist"
      else wrote (insert_equity_snapshot (equity_row v now_iso) t)

  -- The realised P&L has been summed, or not.
  unfoldable pub with_realized :
      EquityTable X → AccountsResponse D → D → D → String → DbResult D → Written X
  unfolding persist
  with_realized t a btc_usd usd_per_chf now_iso (ok realized_btc) =
      persist t (valuation a btc_usd usd_per_chf realized_btc) now_iso
  with_realized t a btc_usd usd_per_chf now_iso (decimal_error c) = not_written c
  with_realized t a btc_usd usd_per_chf now_iso (invalid_enum c v) = not_written c
  with_realized t a btc_usd usd_per_chf now_iso panicked = writer_panic

  -- The accounts have been fetched, or not.
  unfoldable pub with_accounts :
      EquityTable X
      → List (PositionRow X)
      → D
      → D
      → String
      → Answer (AccountsResponse D)
      → Written X
  unfolding with_realized
  with_accounts t positions btc_usd usd_per_chf now_iso (answered a) =
      with_realized t a btc_usd usd_per_chf now_iso
        (sum_realized_pnl_btc_by_sleeve leverage_sleeve positions)
  with_accounts t positions btc_usd usd_per_chf now_iso (failed_with e) =
      not_written "fetching accounts"

  -- The mark price is known, or not.
  unfoldable pub with_mark :
      EquityTable X
      → List (PositionRow X)
      → D
      → String
      → Answer (AccountsResponse D)
      → Option D
      → Written X
  unfolding with_accounts
  with_mark t positions usd_per_chf now_iso accounts none = not_written "no ticker in store yet"
  with_mark t positions usd_per_chf now_iso accounts (some btc_usd) =
      if btc_usd ≤ᵈ dec.zero
      then not_written "ticker last price is non-positive"
      else with_accounts t positions btc_usd usd_per_chf now_iso accounts

  unfoldable pub write_one_snapshot :
      EquityTable X
      → List (PositionRow X)
      → List (String × TickerMessage D)
      → RiskConfig D
      → Answer (AccountsResponse D)
      → String
      → Written X
  unfolding with_mark by_symbol
  write_one_snapshot t positions tickers risk accounts now_iso =
      let usd_per_chf = risk.usd_per_chf_fallback in
      if usd_per_chf ≤ᵈ dec.zero
      then not_written "usd_per_chf_fallback must be > 0"
      else with_mark t positions usd_per_chf now_iso accounts
          (last_of (by_symbol perp_symbol tickers))
