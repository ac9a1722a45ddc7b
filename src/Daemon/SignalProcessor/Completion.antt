-- ===== src/Daemon/SignalProcessor/Completion.antt =====
-- What a turn of the signal processor leaves of the signal, and what it leaves alone.
use mathlib.Core.Path.{subst}
use razortrade.Common.{ℕ, ◌≡◌, refl, sym, inl, inr, Bool, Bool-cases, Option-cases, arith}
use razortrade.Decimal.{DecimalOps}
use razortrade.Time.{TimeOps}
use razortrade.Formats.{IsoOps, JsonOps}
use razortrade.Core.Signal.{Signal}
use razortrade.Core.MarketData.{MarketSnapshot}
use razortrade.Core.Portfolio.{PortfolioState}
use razortrade.Risk.Context.{ChecklistResult}
use razortrade.Risk.Checklist.{evaluate}
use razortrade.Persistence.Columns.{
  DbResult, ok, decimal_error, invalid_enum, panicked, TextOps, Yields,
}
use razortrade.Persistence.Signals.{SignalRow}
use razortrade.Persistence.Signals.Settled.{processed-IsDone}
use razortrade.Persistence.Equity.{latest_equity_snapshot}
use razortrade.Daemon.Tables.{World}
use razortrade.Daemon.PortfolioLoader.{load_portfolio_state, load_found}
use razortrade.Daemon.MarketData.{
  MarketResult, found, market_error, market_panic, snapshot_for_signal,
}
use razortrade.Daemon.SignalRows.{row_to_signal}
use razortrade.Daemon.SignalRows.Reading.{row_to_signal-id}
use razortrade.Daemon.Submission.{submit_via_broker}
use razortrade.Daemon.Submission.Completion.{
  Completes, Completes-after, IsFramed, reject-Completes, submit_via_broker-Completes,
}
use razortrade.Daemon.SignalProcessor.{
  SignalProcessor, record_dry_run_intent, handle_approval, act_on, with_portfolio, with_market,
  process_valid, process_read, process_signal, is_expired, pre_trade_context, audited,
}
use razortrade.Daemon.SignalProcessor.Routed.{handle_approval-live}

module _ {D T X : Type 0} ⦃dec : DecimalOps D⦄ ⦃txt : TextOps D X⦄ ⦃iso : IsoOps T⦄ where
  pub load-IsFramed :
      (w : World D T X) (now : T)
      → IsFramed w (record w { tables = (load_portfolio_state {D = D} w.tables now).0 })
  unfolding load_portfolio_state load_found
  load-IsFramed w now =
      elim (Option-cases (latest_equity_snapshot iso.text_le w.tables.equity.snapshots)) [
        | inl e ↦ rw e (refl, refl)
        | inr (s, e) ↦ rw e (refl, refl)
      ]

  Completes-result :
      (id : ℕ) (w : World D T X) (r s : World D T X × Bool)
      → r ≡ s
      → Completes id w s
      → Completes id w r
  Completes-result id w r s e h = subst (Completes id w) (sym e) h

  handle_approval-Completes :
      (json : JsonOps D T X) (p : SignalProcessor D T) (w : World D T X) (s : Signal D T)
      (m : MarketSnapshot D T) (pf : PortfolioState D T) (now : T)
      → Completes s.id w (handle_approval json p w s m pf now)
  unfolding handle_approval record_dry_run_intent
  handle_approval-Completes json p w s m pf now = elim (handle_approval-live json p w s m pf now) [
    | inl e ↦
        rw e
          ((refl, refl), λ _. inl (processed-IsDone s.id (iso.canonical_iso now) w.tables.signals))
    | inr (mode, e) ↦
        Completes-result s.id w (handle_approval json p w s m pf now)
          (submit_via_broker json p.instruments p.crypto_leverage_broker w s m pf now) e
          (submit_via_broker-Completes json p.instruments p.crypto_leverage_broker w s m pf now)
  ]

  act_on-Completes :
      (json : JsonOps D T X) (p : SignalProcessor D T) (w : World D T X) (s : Signal D T)
      (m : MarketSnapshot D T) (pf : PortfolioState D T) (now : T) (result : ChecklistResult D T)
      → Completes s.id w (act_on json p w s m pf now result)
  unfolding act_on
  act_on-Completes json p w s m pf now result =
      let w' = audited json w s now result in
      elim (Bool-cases result.is_approved) [
        | inl e ↦
            Completes-result s.id w (act_on json p w s m pf now result)
              (handle_approval json p w' s m pf now) (rw e refl)
              (handle_approval-Completes json p w' s m pf now)
        | inr e ↦ rw e (
            reject-Completes json w' s.id now "checklist_rejected"
              (json.outcomes_json result.outcomes))
      ]

  with_portfolio-Completes :
      (json : JsonOps D T X) (p : SignalProcessor D T) (w : World D T X) (s : Signal D T)
      (m : MarketSnapshot D T) (now : T) (loaded : DbResult (PortfolioState D T))
      → Completes s.id w (with_portfolio json p w s m now loaded)
  unfolding with_portfolio
  with_portfolio-Completes json p w s m now (ok pf) =
      act_on-Completes json p w s m pf now (evaluate p.checklist (pre_trade_context p s m pf now))
  with_portfolio-Completes json p w s m now (decimal_error c) =
      reject-Completes json w s.id now "portfolio_state_unavailable" c
  with_portfolio-Completes json p w s m now (invalid_enum c v) =
      reject-Completes json w s.id now "portfolio_state_unavailable" c
  with_portfolio-Completes json p w s m now panicked = ((refl, refl), λ h. absurd (ground arith))

  with_market-Completes :
      (json : JsonOps D T X) (p : SignalProcessor D T) (w : World D T X) (s : Signal D T) (now : T)
      (market : MarketResult D (MarketSnapshot D T))
      → Completes s.id w (with_market json p w s now market)
  unfolding with_market
  with_market-Completes json p w s now (found m) =
      let loaded = load_portfolio_state {D = D} w.tables now in
      let w' = record w { tables = loaded.0 } in
      Completes-after s.id w w' (with_portfolio json p w' s m now loaded.1) (load-IsFramed w now)
        (with_portfolio-Completes json p w' s m now loaded.1)
  with_market-Completes json p w s now (market_error e) =
      reject-Completes json w s.id now "market_data_unavailable" ""
  with_market-Completes json p w s now market_panic = ((refl, refl), λ h. absurd (ground arith))

module _ {D T X : Type 0} ⦃dec : DecimalOps D⦄ ⦃chr : TimeOps T⦄ ⦃txt : TextOps D X⦄
    ⦃iso : IsoOps T⦄ where
  process_valid-Completes :
      (json : JsonOps D T X) (p : SignalProcessor D T) (w : World D T X) (s : Signal D T) (now : T)
      → Completes s.id w (process_valid json p w s now)
  unfolding process_valid
  process_valid-Completes json p w s now = elim (Bool-cases (is_expired s.expires_at now)) [
    | inl e ↦ rw e (reject-Completes json w s.id now "signal_expired" (iso.canonical_iso now))
    | inr e ↦
        let market = snapshot_for_signal json p.market_data s.instrument_symbol s.metadata now in
        Completes-result s.id w (process_valid json p w s now) (with_market json p w s now market)
          (rw e refl) (with_market-Completes json p w s now market)
  ]

  process_read-Completes :
      (json : JsonOps D T X) (p : SignalProcessor D T) (w : World D T X) (id : ℕ) (now : T)
      (read : DbResult (Signal D T))
      → Yields (λ (s : Signal D T). s.id ≡ id) read
      → Completes id w (process_read json p w id now read)
  unfolding process_read
  process_read-Completes json p w id now (ok s) h =
      subst (λ i. Completes i w (process_valid json p w s now)) h
        (process_valid-Completes json p w s now)
  process_read-Completes json p w id now (decimal_error c) h =
      reject-Completes json w id now "invalid_signal" c
  process_read-Completes json p w id now (invalid_enum c v) h =
      reject-Completes json w id now "invalid_signal" c
  process_read-Completes json p w id now panicked h = ((refl, refl), λ h. absurd (ground arith))

  -- The turn for a row leaves positions and events alone, and unless it ends with an error, every
  -- row of the signal is then processed or rejected or has a cooldown, or an order of the signal
  -- is on its way.
  pub process_signal-Completes :
      (json : JsonOps D T X) (p : SignalProcessor D T) (w : World D T X) (row : SignalRow X)
      (now : T)
      → Completes row.id w (process_signal json p w row now)
  unfolding process_signal
  process_signal-Completes json p w row now =
      process_read-Completes json p w row.id now (row_to_signal json row)
        (row_to_signal-id json row)
