-- ===== src/Daemon/EquityWriter/Blind.antt =====
-- What a written snapshot tells the kill switch.
use razortrade.Common.{
  ◌≡◌, refl, inl, inr, Bool, true, false, Option, none, some, List, [], ◌∷◌, String, str_eq, head?,
  All, filter, Bool-cases, arith,
}
use mathlib.Core.Path.{subst}
use razortrade.Decimal.{DecimalOps, IsOrdered, ◌<ᵈ◌, ◌≤ᵈ◌}
use razortrade.Execution.{Answer, answered, failed_with}
use razortrade.Core.Portfolio.{
  PortfolioState, OpenPositionSummary, drawdown_fraction, leverage_sleeve_realized_pnl,
}
use razortrade.Risk.Config.{RiskConfig}
use razortrade.Futures.Messages.{TickerMessage}
use razortrade.Futures.Accounts.{AccountsResponse}
use razortrade.Persistence.Columns.{ok, TextOps, IsReadBack, parse}
use razortrade.Persistence.PositionRows.{PositionRow}
use razortrade.Persistence.Equity.{
  EquitySnapshotRow, EquityTable, insert_equity_snapshot, sum_column,
  sum_realized_pnl_btc_by_sleeve,
}
use razortrade.Daemon.MarketData.{by_symbol}
use razortrade.Daemon.PortfolioLoader.{materialise, parse_snapshot, portfolio_of, SnapshotValues}
use razortrade.Daemon.EquityWriter.{
  Written, wrote, not_written, writer_panic, Valuation, total_equity, valuation, btc_to_chf,
  equity_row, persist, with_realized, with_accounts, with_mark, write_one_snapshot, last_of,
  leverage_sleeve, perp_symbol,
}

filter-none :
    {A : Type 0} (p : A → Bool) (xs : List A) → All (λ x. p x ≡ false) xs → filter p xs ≡ []
filter-none p [] h = refl
filter-none p (x ∷ xs) h = rw (filter, h.0) (filter-none p xs h.1)

-- The result is no snapshot, or a table that satisfies `P`.
abbrev pub Writes : {X : Type 0} → (EquityTable X → Type 0) → Written X → Type 0
Writes P (wrote t) = P t
Writes P (not_written reason) = Unit
Writes P writer_panic = Unit

module _ (D : Type 0) {X : Type 0} ⦃dec : DecimalOps D⦄ ⦃txt : TextOps D X⦄ where
  -- The newest snapshot is the row of a valuation without realised P&L.
  abbrev pub IsFlat : EquityTable X → Type 0
  IsFlat t =
      (v : Valuation D) × (now_iso : String) × (row : EquitySnapshotRow X) × (head? t.snapshots
        ≡ some row)
      × (row ≡ record (equity_row v now_iso) { id = row.id })
      × (v.realized_chf ≡ dec.zero)

module _ {D : Type 0} ⦃dec : DecimalOps D⦄ where
  -- The columns of a flat row, read back.
  abbrev flat_values : Valuation D → SnapshotValues D
  flat_values v = record {
    crypto_spot_value = dec.zero;
    etf_value = dec.zero;
    leverage_value = v.leverage_value_chf;
    cash = v.cash_chf;
    realized_leverage = v.realized_chf;
    unrealized_leverage = v.unrealized_leverage_chf;
    nav_per_unit = dec.one;
    nav_hwm_per_unit = dec.one;
    total_units = dec.one;
  }

module _ {D X : Type 0} ⦃dec : DecimalOps D⦄ ⦃txt : TextOps D X⦄ where
  sum-no_rows :
      (sleeve : String) (rows : List (PositionRow X))
      → All (λ (r : PositionRow X). str_eq r.sleeve sleeve ≡ false) rows
      → sum_realized_pnl_btc_by_sleeve sleeve rows ≡ ok dec.zero
  unfolding sum_realized_pnl_btc_by_sleeve sum_column
  sum-no_rows sleeve rows h = rw (filter-none (λ r. str_eq r.sleeve sleeve) rows h) refl

  persist-IsFlat :
      (t : EquityTable X) (v : Valuation D) (now_iso : String)
      → v.realized_chf ≡ dec.zero
      → Writes (IsFlat D) (persist t v now_iso)
  unfolding persist insert_equity_snapshot
  persist-IsFlat t v now_iso h = elim (Bool-cases (total_equity v ≤ᵈ dec.zero)) [
    | inl e ↦ rw e tt
    | inr e ↦
        rw e (v, now_iso, record (equity_row v now_iso) { id = t.next_snapshot }, refl, refl, h)
  ]

  with_accounts-IsFlat :
      (t : EquityTable X) (positions : List (PositionRow X)) (btc_usd usd_per_chf : D)
      (now_iso : String) (accounts : Answer (AccountsResponse D))
      → btc_to_chf btc_usd usd_per_chf dec.zero ≡ dec.zero
      → sum_realized_pnl_btc_by_sleeve leverage_sleeve positions ≡ ok dec.zero
      → Writes (IsFlat D) (with_accounts t positions btc_usd usd_per_chf now_iso accounts)
  unfolding with_accounts with_realized
  with_accounts-IsFlat t positions btc_usd usd_per_chf now_iso (failed_with e) z h = tt
  with_accounts-IsFlat t positions btc_usd usd_per_chf now_iso (answered a) z h =
      rw (with_accounts, h) (persist-IsFlat t (valuation a btc_usd usd_per_chf dec.zero) now_iso z)

  with_mark-IsFlat :
      (t : EquityTable X) (positions : List (PositionRow X)) (usd_per_chf : D) (now_iso : String)
      (accounts : Answer (AccountsResponse D)) (mark : Option D)
      → ((btc_usd : D) → btc_to_chf btc_usd usd_per_chf dec.zero ≡ dec.zero)
      → sum_realized_pnl_btc_by_sleeve leverage_sleeve positions ≡ ok dec.zero
      → Writes (IsFlat D) (with_mark t positions usd_per_chf now_iso accounts mark)
  unfolding with_mark
  with_mark-IsFlat t positions usd_per_chf now_iso accounts none z h = tt
  with_mark-IsFlat t positions usd_per_chf now_iso accounts (some btc_usd) z h =
      elim (Bool-cases (btc_usd ≤ᵈ dec.zero)) [
        | inl e ↦ rw e tt
        | inr e ↦
            rw e
              (with_accounts-IsFlat t positions btc_usd usd_per_chf now_iso accounts (z btc_usd) h)
      ]

  write-IsFlat :
      (t : EquityTable X) (positions : List (PositionRow X))
      (tickers : List (String × TickerMessage D)) (risk : RiskConfig D)
      (accounts : Answer (AccountsResponse D)) (now_iso : String)
      → ((a b : D) → (dec.zero <ᵈ b) ≡ true → btc_to_chf a b dec.zero ≡ dec.zero)
      → All (λ (r : PositionRow X). str_eq r.sleeve leverage_sleeve ≡ false) positions
      → Writes (IsFlat D) (write_one_snapshot t positions tickers risk accounts now_iso)
  unfolding write_one_snapshot
  write-IsFlat t positions tickers risk accounts now_iso z h =
      elim (Bool-cases (risk.usd_per_chf_fallback ≤ᵈ dec.zero)) [
        | inl e ↦ rw e tt
        | inr e ↦ rw e (
            with_mark-IsFlat t positions risk.usd_per_chf_fallback now_iso accounts
              (last_of (by_symbol perp_symbol tickers))
              (λ a. z a risk.usd_per_chf_fallback (ground arith))
              (sum-no_rows leverage_sleeve positions h))
      ]

  flat_row-read :
      (read : IsReadBack D X) (v : Valuation D) (now_iso : String) (row : EquitySnapshotRow X)
      → row ≡ record (equity_row v now_iso) { id = row.id }
      → parse_snapshot row ≡ ok (flat_values v)
  unfolding parse_snapshot
  flat_row-read read v now_iso row e = rw e (
      rw
        (
          parse,
          read.from_str-zero,
          read.from_str-to_string v.leverage_value_chf,
          read.from_str-to_string v.cash_chf,
          read.from_str-to_string v.realized_chf,
          read.from_str-to_string v.unrealized_leverage_chf,
          read.from_str-to_string dec.one,
        )
        refl)

module _ {D T : Type 0} ⦃dec : DecimalOps D⦄ where
  flat-no_drawdown :
      (v : Valuation D) (now : T) (active : Bool) (ps : List (OpenPositionSummary D))
      → (dec.one <ᵈ dec.one) ≡ false
      → drawdown_fraction (portfolio_of (flat_values v) now active ps) ≡ dec.zero
  unfolding drawdown_fraction
  flat-no_drawdown v now active ps h = elim (Bool-cases (dec.is_zero dec.one)) [
    | inl e ↦ rw e refl
    | inr e ↦ rw (e, h) refl
  ]

module _ {D T X : Type 0} ⦃dec : DecimalOps D⦄ ⦃txt : TextOps D X⦄ where
  -- The newest snapshot is read as a portfolio without drawdown and realised P&L.
  abbrev pub ReadsFlat : EquityTable X → T → Bool → List (OpenPositionSummary D) → Type 0
  ReadsFlat t now active ps =
      (row : EquitySnapshotRow X) × (pf : PortfolioState D T) × (head? t.snapshots ≡ some row)
      × (materialise row now active ps ≡ ok pf)
      × (drawdown_fraction pf ≡ dec.zero)
      × (leverage_sleeve_realized_pnl pf ≡ dec.zero)

  IsFlat-ReadsFlat :
      (read : IsReadBack D X) (ordered : IsOrdered D) (t : EquityTable X) (now : T) (active : Bool)
      (ps : List (OpenPositionSummary D))
      → IsFlat D t
      → ReadsFlat t now active ps
  unfolding materialise leverage_sleeve_realized_pnl
  IsFlat-ReadsFlat read ordered t now active ps (v, now_iso, row, first, same, flat) = (
    row,
    portfolio_of (flat_values v) now active ps,
    first,
    rw (materialise, flat_row-read read v now_iso row same) refl,
    flat-no_drawdown v now active ps (ordered.lt_irrefl dec.one),
    flat,
  )

  -- As long as printed decimals are read back and zero times a rate stays zero: if no position has
  -- the sleeve text "CryptoLeverage", which no code stores, every snapshot that the equity
  -- writer stores is read as a portfolio whose realised P&L and drawdown are zero, whatever was
  -- lost, so that neither soft trigger of the kill switch sees a loss.
  pub soft_triggers_blind :
      (read : IsReadBack D X) (ordered : IsOrdered D) (t t' : EquityTable X)
      (positions : List (PositionRow X)) (tickers : List (String × TickerMessage D))
      (risk : RiskConfig D) (accounts : Answer (AccountsResponse D)) (now_iso : String) (now : T)
      (active : Bool) (ps : List (OpenPositionSummary D))
      → ((a b : D) → (dec.zero <ᵈ b) ≡ true → btc_to_chf a b dec.zero ≡ dec.zero)
      → All (λ (r : PositionRow X). str_eq r.sleeve leverage_sleeve ≡ false) positions
      → write_one_snapshot t positions tickers risk accounts now_iso ≡ wrote t'
      → ReadsFlat t' now active ps
  soft_triggers_blind read ordered t t' positions tickers risk accounts now_iso now active ps z h
        written =
      IsFlat-ReadsFlat read ordered t' now active ps (
        subst (Writes (IsFlat D)) written
          (write-IsFlat t positions tickers risk accounts now_iso z h))
