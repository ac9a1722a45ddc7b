-- ===== src/Daemon/Supervisor.antt =====
-- The kill-switch supervisor (crates/rt-daemon/src/main.rs): `evaluate_kill_switch_once` is one
-- tick, `panic_close_leverage_positions` its hard reaction.
pub mod Events
pub mod Ticks
pub mod PanicClose
use Prim.Native.String.{◌++◌ as append}
use razortrade.Common.{
  ℕ, Bool, true, false, Option, none, some, List, [], ◌∷◌, String, if◌then◌else◌,
}
use razortrade.Decimal.{DecimalOps}
use razortrade.Formats.{IsoOps, JsonOps}
use razortrade.Execution.{BrokerClient}
use razortrade.Core.Instrument.{InstrumentRegistry}
use razortrade.Core.Order.{Order, Side, buy, sell, market, ioc}
use razortrade.Core.Portfolio.{PortfolioState}
use razortrade.Risk.Config.{RiskConfig}
use razortrade.Risk.KillSwitch.{
  KillSwitchReason, lifetime_realised_loss_budget_exhausted, effective_pnl_budget_exhausted,
  portfolio_drawdown, manual_trigger, KillSwitchDecision, no_change, disable, panic_close,
  evaluate_kill_switch,
}
use razortrade.Persistence.Columns.{DbResult, ok, decimal_error, invalid_enum, panicked, TextOps}
use razortrade.Persistence.PositionRows.{PositionRow}
use razortrade.Persistence.Events.{EventTable, record_kill_switch, has_active_hard_trigger}
use razortrade.Persistence.Equity.{list_open_leverage_positions}
use razortrade.Daemon.Tables.{World}
use razortrade.Daemon.PortfolioLoader.{load_portfolio_state}
use razortrade.Daemon.OrderBuilding.{new_order}

abbrev pub reason_kind : {D : Type 0} → KillSwitchReason D → String
reason_kind (lifetime_realised_loss_budget_exhausted _ _) = "lifetime_realised_loss_budget"
reason_kind (effective_pnl_budget_exhausted _ _) = "effective_pnl_budget"
reason_kind (portfolio_drawdown _ _) = "portfolio_drawdown"
reason_kind (manual_trigger _) = "manual_trigger"

-- `format!("rt-panic-{}-{}", event_id, now.timestamp())`
abbrev pub panic_order_id : (ℕ → String) → ℕ → ℕ → String
panic_order_id show event_id seconds =
    append "rt-panic-" (append (show event_id) (append "-" (show seconds)))

module _ {D : Type 0} ⦃dec : DecimalOps D⦄ where
  -- The side and the size that bring a quantity to zero.
  abbrev pub closing : D → Side × D
  closing qty = if dec.is_sign_positive qty then (sell, qty) else (buy, dec.abs qty)

module _ {D T : Type 0} ⦃dec : DecimalOps D⦄ ⦃iso : IsoOps T⦄ where
  abbrev pub panic_order : InstrumentRegistry D → ℕ → T → String → D → Order D T
  panic_order instruments event_id now symbol qty =
      new_order instruments none (panic_order_id iso.show_id event_id (iso.timestamp now)) symbol
        (closing qty).0 market ioc (closing qty).1 none (some true) now

module _ {D T X : Type 0} ⦃dec : DecimalOps D⦄ ⦃txt : TextOps D X⦄ ⦃iso : IsoOps T⦄ where
  -- One turn of the loop: a quantity that is not read is skipped. Nothing is done with the answer
  -- of the broker but a line in the log.
  unfoldable pub close_position :
      InstrumentRegistry D → ℕ → T → PositionRow X → List (Order D T) → List (Order D T)
  close_position instruments event_id now r submissions = elim (txt.from_str r.quantity) [
    | some qty ↦ panic_order instruments event_id now r.instrument_symbol qty ∷ submissions
    | none ↦ submissions
  ]

  unfoldable pub close_all :
      InstrumentRegistry D → ℕ → T → List (PositionRow X) → List (Order D T) → List (Order D T)
  unfolding close_position
  close_all instruments event_id now [] submissions = submissions
  close_all instruments event_id now (r ∷ rows) submissions =
      close_all instruments event_id now rows
        (close_position instruments event_id now r submissions)

  unfoldable pub panic_close_leverage_positions :
      InstrumentRegistry D → World D T X → ℕ → T → World D T X
  unfolding close_all list_open_leverage_positions
  panic_close_leverage_positions instruments w event_id now = record w {
    submissions =
        close_all instruments event_id now
          (list_open_leverage_positions txt.is_nonzero_real w.tables.positions.rows) w.submissions;
  }

  abbrev pub with_event : World D T X → EventTable → World D T X
  with_event w events = record w { tables = record w.tables { switch_events = events } }

  -- `record_kill_switch` with the reason and the portfolio as JSON.
  abbrev pub recorded :
      JsonOps D T X
      → EventTable
      → T
      → String
      → KillSwitchReason D
      → PortfolioState D T
      → EventTable × ℕ
  recorded json events at_time kind reason portfolio =
      record_kill_switch (iso.canonical_iso at_time) kind (json.switch_json reason)
        (json.portfolio_json portfolio) events

  -- `match decision`; the position of the broker decides whether orders are sent.
  unfoldable pub react :
      JsonOps D T X
      → InstrumentRegistry D
      → Option (BrokerClient D T)
      → World D T X
      → PortfolioState D T
      → T
      → KillSwitchDecision D T
      → World D T X
  unfolding panic_close_leverage_positions
  react json instruments broker w portfolio now no_change = w
  react json instruments broker w portfolio now (disable reason at_time) =
      with_event w
        (recorded json w.tables.switch_events at_time (reason_kind reason) reason portfolio).0
  react json instruments broker w portfolio now (panic_close reason at_time) =
      let event =
        recorded json w.tables.switch_events at_time "hard_effective_pnl_budget" reason portfolio in
      let w' = with_event w event.0 in
      if has_active_hard_trigger w.tables.switch_events then w else elim broker [
        | none ↦ w'
        | some _ ↦ panic_close_leverage_positions instruments w' event.1 now
      ]

  -- The portfolio has been loaded, or not; `false` is an error of the tick.
  unfoldable pub evaluate_loaded :
      JsonOps D T X
      → RiskConfig D
      → InstrumentRegistry D
      → Option (BrokerClient D T)
      → World D T X
      → T
      → DbResult (PortfolioState D T)
      → World D T X × Bool
  unfolding react
  evaluate_loaded json config instruments broker w now (ok portfolio) = (
    react json instruments broker w portfolio now (evaluate_kill_switch portfolio config now),
    true,
  )
  evaluate_loaded json config instruments broker w now (decimal_error c) = (w, false)
  evaluate_loaded json config instruments broker w now (invalid_enum c v) = (w, false)
  evaluate_loaded json config instruments broker w now panicked = (w, false)

  unfoldable pub evaluate_kill_switch_once :
      JsonOps D T X
      → RiskConfig D
      → InstrumentRegistry D
      → Option (BrokerClient D T)
      → World D T X
      → T
      → World D T X × Bool
  unfolding evaluate_loaded
  evaluate_kill_switch_once json config instruments broker w now =
      let loaded = load_portfolio_state w.tables now in
      evaluate_loaded json config instruments broker (record w { tables = loaded.0 }) now loaded.1

  -- The loop of the supervisor, by the times of its ticks; an error is logged and the next tick
  -- follows.
  unfoldable pub supervise :
      JsonOps D T X
      → RiskConfig D
      → InstrumentRegistry D
      → Option (BrokerClient D T)
      → World D T X
      → List T
      → World D T X
  unfolding evaluate_kill_switch_once
  supervise json config instruments broker w [] = w
  supervise json config instruments broker w (now ∷ times) =
      supervise json config instruments broker
        (evaluate_kill_switch_once json config instruments broker w now).0 times
