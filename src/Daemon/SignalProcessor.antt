-- ===== src/Daemon/SignalProcessor.antt =====
-- `SignalProcessor` (crates/rt-daemon/src/signal_processor.rs). A step takes the tables and the
-- trace of submissions to their new state; `false` beside it is an error that ends the processing
-- of the signal. The clock is read once for each signal.
pub mod Routed
pub mod Warranted
pub mod Completion
pub mod Polls
use razortrade.Common.{ℕ, Bool, true, false, not, Option, none, some, List, [], ◌∷◌, if◌then◌else◌}
use razortrade.Decimal.{DecimalOps}
use razortrade.Time.{TimeOps}
use razortrade.Formats.{IsoOps, JsonOps}
use razortrade.Execution.{BrokerClient}
use razortrade.Core.Instrument.{InstrumentRegistry}
use razortrade.Core.Signal.{Signal}
use razortrade.Core.MarketData.{MarketSnapshot}
use razortrade.Core.Portfolio.{PortfolioState}
use razortrade.Core.ExecutionMode.{ExecutionMode, dry_run}
use razortrade.Risk.Config.{RiskConfig}
use razortrade.Risk.Context.{PreTradeContext, ChecklistResult}
use razortrade.Risk.Checklist.{PreTradeChecklist, evaluate}
use razortrade.Persistence.Columns.{DbResult, ok, decimal_error, invalid_enum, panicked, TextOps}
use razortrade.Persistence.Signals.{SignalRow, mark_signal_processed, pending_signals}
use razortrade.Persistence.Events.{
  DryRunOrderRow, record_checklist_evaluation, record_dry_run_order,
}
use razortrade.Daemon.UncertainOrders.{reject}
use razortrade.Daemon.Submission.{submit_via_broker}
use razortrade.Daemon.Tables.{World}
use razortrade.Daemon.PortfolioLoader.{load_portfolio_state}
use razortrade.Daemon.MarketData.{
  MarketDataService, MarketResult, found, market_error, market_panic, snapshot_for_signal,
}
use razortrade.Daemon.SignalRows.{side_name, sleeve_name, row_to_signal}
use razortrade.Daemon.OrderBuilding.{OrderIntent, build_order_intent}

pub record SignalProcessor (D T : Type 0) : Type 0 where
  pub checklist : PreTradeChecklist D T
  pub risk_config : RiskConfig D
  pub market_data : MarketDataService D T
  pub execution_mode : ExecutionMode
  pub crypto_leverage_broker : Option (BrokerClient D T)
  pub instruments : InstrumentRegistry D

module _ {D T : Type 0} where
  abbrev pub pre_trade_context :
      SignalProcessor D T
      → Signal D T
      → MarketSnapshot D T
      → PortfolioState D T
      → T
      → PreTradeContext D T
  pre_trade_context p signal snapshot portfolio now = record {
    signal = signal;
    market = snapshot;
    portfolio = portfolio;
    config = p.risk_config;
    now = now;
  }

module _ {D T X : Type 0} ⦃iso : IsoOps T⦄ where
  abbrev pub audited :
      JsonOps D T X → World D T X → Signal D T → T → ChecklistResult D T → World D T X
  audited json w signal now result = record w {
    tables = record w.tables {
      evaluations =
          record_checklist_evaluation signal.id (iso.canonical_iso result.evaluated_at)
            result.is_approved (json.outcomes_json result.outcomes) w.tables.evaluations;
    };
  }

module _ {D T X : Type 0} ⦃dec : DecimalOps D⦄ ⦃txt : TextOps D X⦄ ⦃iso : IsoOps T⦄ where
  abbrev pub dry_run_row : JsonOps D T X → Signal D T → OrderIntent D → T → DryRunOrderRow X
  dry_run_row json signal intent now = record {
    signal_id = signal.id;
    recorded_at = iso.canonical_iso now;
    instrument_symbol = signal.instrument_symbol;
    side = side_name signal.side;
    sleeve = sleeve_name signal.sleeve;
    broker_hint = intent.broker_hint;
    notional_chf = txt.to_string signal.notional_chf;
    estimated_price = elim intent.estimated_price [ some p ↦ some (txt.to_string p) | none ↦ none ];
    estimated_quantity = elim intent.estimated_quantity [
      | some q ↦ some (txt.to_string q)
      | none ↦ none
    ];
    intent_json =
        json.intent_json intent.broker_hint intent.estimated_price intent.estimated_quantity;
  }

  unfoldable pub record_dry_run_intent :
      JsonOps D T X → World D T X → Signal D T → MarketSnapshot D T → T → World D T X
  record_dry_run_intent json w signal snapshot now = record w {
    tables = record w.tables {
      dry_runs =
          record_dry_run_order (dry_run_row json signal (build_order_intent signal snapshot) now)
            w.tables.dry_runs;
      signals = mark_signal_processed signal.id (iso.canonical_iso now) w.tables.signals;
    };
  }

  -- By the execution mode.
  unfoldable pub handle_approval :
      JsonOps D T X
      → SignalProcessor D T
      → World D T X
      → Signal D T
      → MarketSnapshot D T
      → PortfolioState D T
      → T
      → World D T X × Bool
  unfolding record_dry_run_intent submit_via_broker
  handle_approval json p w signal snapshot portfolio now = elim p.execution_mode [
    | dry_run ↦ (record_dry_run_intent json w signal snapshot now, true)
    | _ ↦
        submit_via_broker json p.instruments p.crypto_leverage_broker w signal snapshot portfolio
          now
  ]

  -- The result of the checklist is recorded and decides.
  unfoldable pub act_on :
      JsonOps D T X
      → SignalProcessor D T
      → World D T X
      → Signal D T
      → MarketSnapshot D T
      → PortfolioState D T
      → T
      → ChecklistResult D T
      → World D T X × Bool
  unfolding handle_approval
  act_on json p w signal snapshot portfolio now result =
      if result.is_approved
      then handle_approval json p (audited json w signal now result) signal snapshot portfolio now
      else (
        reject json (audited json w signal now result) signal.id now "checklist_rejected"
            (json.outcomes_json result.outcomes),
        true,
      )

  -- The portfolio has been loaded, or not; the tables may hold a bootstrap snapshot.
  unfoldable pub with_portfolio :
      JsonOps D T X
      → SignalProcessor D T
      → World D T X
      → Signal D T
      → MarketSnapshot D T
      → T
      → DbResult (PortfolioState D T)
      → World D T X × Bool
  unfolding act_on
  with_portfolio json p w signal snapshot now (ok portfolio) =
      act_on json p w signal snapshot portfolio now
        (evaluate p.checklist (pre_trade_context p signal snapshot portfolio now))
  with_portfolio json p w signal snapshot now (decimal_error c) =
      (reject json w signal.id now "portfolio_state_unavailable" c, true)
  with_portfolio json p w signal snapshot now (invalid_enum c v) =
      (reject json w signal.id now "portfolio_state_unavailable" c, true)
  with_portfolio json p w signal snapshot now panicked = (w, false)

  -- The market snapshot is there, or not.
  unfoldable pub with_market :
      JsonOps D T X
      → SignalProcessor D T
      → World D T X
      → Signal D T
      → T
      → MarketResult D (MarketSnapshot D T)
      → World D T X × Bool
  unfolding with_portfolio
  with_market json p w signal now (found snapshot) =
      let loaded = load_portfolio_state w.tables now in
      with_portfolio json p (record w { tables = loaded.0 }) signal snapshot now loaded.1
  with_market json p w signal now (market_error e) =
      (reject json w signal.id now "market_data_unavailable" "", true)
  with_market json p w signal now market_panic = (w, false)

module _ {T : Type 0} ⦃chr : TimeOps T⦄ where
  -- `if let Some(exp) = signal.expires_at`: exp <= now
  abbrev pub is_expired : Option T → T → Bool
  is_expired none now = false
  is_expired (some exp) now = not (chr.lt now exp)

module _ {D T X : Type 0} ⦃dec : DecimalOps D⦄ ⦃chr : TimeOps T⦄ ⦃txt : TextOps D X⦄
    ⦃iso : IsoOps T⦄ where
  -- A row that is a signal.
  unfoldable pub process_valid :
      JsonOps D T X → SignalProcessor D T → World D T X → Signal D T → T → World D T X × Bool
  unfolding with_market snapshot_for_signal
  process_valid json p w signal now =
      if is_expired signal.expires_at now
      then (reject json w signal.id now "signal_expired" (iso.canonical_iso now), true)
      else with_market json p w signal now
          (snapshot_for_signal json p.market_data signal.instrument_symbol signal.metadata now)

  unfoldable pub process_read :
      JsonOps D T X
      → SignalProcessor D T
      → World D T X
      → ℕ
      → T
      → DbResult (Signal D T)
      → World D T X × Bool
  unfolding process_valid
  process_read json p w id now (ok signal) = process_valid json p w signal now
  process_read json p w id now (decimal_error c) = (reject json w id now "invalid_signal" c, true)
  process_read json p w id now (invalid_enum c v) = (reject json w id now "invalid_signal" c, true)
  process_read json p w id now panicked = (w, false)

  unfoldable pub process_signal :
      JsonOps D T X → SignalProcessor D T → World D T X → SignalRow X → T → World D T X × Bool
  unfolding process_read row_to_signal
  process_signal json p w row now = process_read json p w row.id now (row_to_signal json row)

  -- The loop over the rows; an error is logged and the next signal follows.
  unfoldable pub process_all :
      JsonOps D T X → SignalProcessor D T → World D T X → List (SignalRow X) → T → World D T X
  unfolding process_signal
  process_all json p w [] now = w
  process_all json p w (row ∷ rows) now =
      process_all json p (process_signal json p w row now).0 rows now

  unfoldable pub poll_once : JsonOps D T X → SignalProcessor D T → World D T X → T → World D T X
  unfolding process_all pending_signals
  poll_once json p w now =
      process_all json p w (pending_signals iso.text_le 64 (iso.canonical_iso now) w.tables.signals)
        now
