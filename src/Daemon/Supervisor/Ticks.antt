-- ===== src/Daemon/Supervisor/Ticks.antt =====
-- Runs of the supervisor, and the polls of the signal processor after them.
use razortrade.Common.{◌≡◌, refl, ◌∙◌, ap, ◌⊎◌, inl, inr, true, Option, List, [], ◌∷◌}
use razortrade.Decimal.{DecimalOps}
use razortrade.Time.{TimeOps}
use razortrade.Formats.{IsoOps, JsonOps}
use razortrade.Execution.{BrokerClient}
use razortrade.Core.Instrument.{InstrumentRegistry}
use razortrade.Core.Portfolio.{PortfolioState}
use razortrade.Risk.Config.{RiskConfig}
use razortrade.Risk.KillSwitch.{no_change, evaluate_kill_switch}
use razortrade.Persistence.Columns.{DbResult, ok, decimal_error, invalid_enum, panicked, TextOps}
use razortrade.Persistence.Events.{has_active_hard_trigger}
use razortrade.Daemon.Tables.{World}
use razortrade.Daemon.PortfolioLoader.{load_portfolio_state}
use razortrade.Daemon.SignalProcessor.{SignalProcessor, poll_once}
use razortrade.Daemon.SignalProcessor.Routed.{load-orders}
use razortrade.Daemon.SignalProcessor.Polls.{killed_submits_nothing}
use razortrade.Daemon.Supervisor.{react, evaluate_loaded, evaluate_kill_switch_once, supervise}
use razortrade.Daemon.Supervisor.Events.{react-active, react-blocked, react-hard}

module _ {D T X : Type 0} ⦃dec : DecimalOps D⦄ ⦃txt : TextOps D X⦄ ⦃iso : IsoOps T⦄
    (json : JsonOps D T X) (config : RiskConfig D) (instruments : InstrumentRegistry D)
    (broker : Option (BrokerClient D T)) where
  loaded-blocked :
      (w : World D T X) (now : T) (l : DbResult (PortfolioState D T))
      → has_active_hard_trigger w.tables.switch_events ≡ true
      → ((evaluate_loaded json config instruments broker w now l).0.submissions ≡ w.submissions)
        × (has_active_hard_trigger
              (evaluate_loaded json config instruments broker w now l).0.tables.switch_events
            ≡ true)
  unfolding evaluate_loaded
  loaded-blocked w now (ok pf) h =
      react-blocked json instruments broker w pf now (evaluate_kill_switch pf config now) h
  loaded-blocked w now (decimal_error c) h = (refl, h)
  loaded-blocked w now (invalid_enum c v) h = (refl, h)
  loaded-blocked w now panicked h = (refl, h)

  loaded-hard :
      (w : World D T X) (now : T) (l : DbResult (PortfolioState D T))
      → ((evaluate_loaded json config instruments broker w now l).0.submissions ≡ w.submissions)
        ⊎ (has_active_hard_trigger
              (evaluate_loaded json config instruments broker w now l).0.tables.switch_events
            ≡ true)
  unfolding evaluate_loaded
  loaded-hard w now (ok pf) =
      react-hard json instruments broker w pf now (evaluate_kill_switch pf config now)
  loaded-hard w now (decimal_error c) = inl refl
  loaded-hard w now (invalid_enum c v) = inl refl
  loaded-hard w now panicked = inl refl

  tick-blocked :
      (w : World D T X) (now : T)
      → has_active_hard_trigger w.tables.switch_events ≡ true
      → ((evaluate_kill_switch_once json config instruments broker w now).0.submissions
          ≡ w.submissions)
        × (has_active_hard_trigger
              (evaluate_kill_switch_once json config instruments broker w
                now).0.tables.switch_events
            ≡ true)
  unfolding evaluate_kill_switch_once
  tick-blocked w now h =
      let loaded = load_portfolio_state {D = D} w.tables now in
      loaded-blocked (record w { tables = loaded.0 }) now loaded.1
        (ap has_active_hard_trigger (load-orders D w.tables now).1 ∙ h)

  supervise-blocked :
      (w : World D T X) (times : List T)
      → has_active_hard_trigger w.tables.switch_events ≡ true
      → (supervise json config instruments broker w times).submissions ≡ w.submissions
  unfolding supervise
  supervise-blocked w [] h = refl
  supervise-blocked w (now ∷ times) h =
      let (same, active) = tick-blocked w now h in
      supervise-blocked (evaluate_kill_switch_once json config instruments broker w now).0 times
        active
      ∙ same

  -- A tick that submits orders is the last one to do so: as long as nobody resolves its event, no
  -- later tick of the supervisor, however many follow, submits an order.
  pub panic_close_once :
      (w : World D T X) (now : T) (times : List T)
      → ((evaluate_kill_switch_once json config instruments broker w now).0.submissions
          ≡ w.submissions)
        ⊎ ((supervise json config instruments broker
              (evaluate_kill_switch_once json config instruments broker w now).0
              times).submissions
            ≡ (evaluate_kill_switch_once json config instruments broker w now).0.submissions)
  unfolding evaluate_kill_switch_once
  panic_close_once w now times =
      let loaded = load_portfolio_state {D = D} w.tables now in
      let w' = record w { tables = loaded.0 } in
      elim (loaded-hard w' now loaded.1) [
        | inl e ↦ inl e
        | inr h ↦ inr (
            supervise-blocked (evaluate_loaded json config instruments broker w' now loaded.1).0
              times h)
      ]

  -- The world after a tick whose portfolio is loaded.
  pub tick-loaded :
      (w : World D T X) (now : T) (pf : PortfolioState D T)
      → (load_portfolio_state w.tables now).1 ≡ ok pf
      → (evaluate_kill_switch_once json config instruments broker w now).0
        ≡ react json instruments broker
            (record w { tables = (load_portfolio_state {D = D} w.tables now).0 })
            pf
            now
            (evaluate_kill_switch pf config now)
  unfolding evaluate_kill_switch_once evaluate_loaded
  tick-loaded w now pf h = rw (h, evaluate_loaded) refl

  -- After a tick that decides to act, a poll of the signal processor submits no order, whatever
  -- its checklist and mode.
  pub tick_silences_poll :
      ⦃chr : TimeOps T⦄ (p : SignalProcessor D T) (w : World D T X) (now later : T)
      (pf : PortfolioState D T)
      → (load_portfolio_state w.tables now).1 ≡ ok pf
      → (evaluate_kill_switch pf config now ≡ no_change)
        ⊎ ((poll_once json p
              (evaluate_kill_switch_once json config instruments broker w now).0
              later).submissions
            ≡ (evaluate_kill_switch_once json config instruments broker w now).0.submissions)
  tick_silences_poll p w now later pf h =
      let w' = record w { tables = (load_portfolio_state {D = D} w.tables now).0 } in
      let d = evaluate_kill_switch pf config now in
      elim (react-active json instruments broker w' pf now d) [
        | inl e ↦ inl e
        | inr e ↦ inr (
            rw (tick-loaded w now pf h)
              (killed_submits_nothing json p (react json instruments broker w' pf now d) later e))
      ]
