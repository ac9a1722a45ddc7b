-- ===== src/Daemon/SignalProcessor/Polls.antt =====
-- Whole polls of the signal processor that submit nothing.
use razortrade.Common.{◌≡◌, refl, ◌∙◌, ap, inl, inr, Bool, true, false, List, [], ◌∷◌, arith}
use razortrade.Decimal.{DecimalOps}
use razortrade.Time.{TimeOps}
use razortrade.Formats.{IsoOps, JsonOps}
use razortrade.Core.Order.{Order}
use razortrade.Core.Instrument.{sleeve_eq, crypto_leverage}
use razortrade.Core.ExecutionMode.{dry_run, submits_orders}
use razortrade.Risk.Context.{PreTradeContext}
use razortrade.Risk.Checklist.{PreTradeChecklist, evaluate, gate}
use razortrade.Persistence.Columns.{TextOps}
use razortrade.Persistence.Signals.{SignalRow, pending_signals}
use razortrade.Persistence.Events.{kill_switch_active}
use razortrade.Daemon.Tables.{World}
use razortrade.Daemon.PortfolioLoader.Agreement.{load-Mirrors}
use razortrade.Daemon.SignalProcessor.{
  SignalProcessor, process_signal, process_all, poll_once, pre_trade_context,
}
use razortrade.Daemon.SignalProcessor.Warranted.{IsWarranted, process_signal-IsWarranted}
use razortrade.Daemon.SignalProcessor.Completion.{process_signal-Completes}

module _ {D T : Type 0} where
  -- The gate stands before all checks.
  approved-not_killed :
      (checks : PreTradeChecklist D T) (ctx : PreTradeContext D T)
      → ctx.portfolio.kill_switch_active ≡ true
      → sleeve_eq ctx.signal.sleeve crypto_leverage ≡ true
      → (evaluate checks ctx).is_approved ≡ false
  unfolding evaluate
  approved-not_killed checks ctx k l = rw (gate, k, l) refl

not_true : {b : Bool} → b ≡ false → b ≡ true → ⊥
not_true e h = ground arith

module _ {D T X : Type 0} ⦃dec : DecimalOps D⦄ ⦃chr : TimeOps T⦄ ⦃txt : TextOps D X⦄
    ⦃iso : IsoOps T⦄ (json : JsonOps D T X) (p : SignalProcessor D T) where
  -- An invariant that no submission is compatible with.
  process_all-silent :
      (P : World D T X → Type 0) (now : T)
      → ((w : World D T X) (row : SignalRow X) → P w → P (process_signal json p w row now).0)
      → ((w : World D T X) (row : SignalRow X) (o : Order D T)
          → P w
          → IsWarranted json p w row now o
          → ⊥)
      → (w : World D T X) (rows : List (SignalRow X)) → P w
      → (process_all json p w rows now).submissions ≡ w.submissions
  unfolding process_all
  process_all-silent P now keep refute w [] h = refl
  process_all-silent P now keep refute w (row ∷ rows) h =
      let rest =
        process_all-silent P now keep refute (process_signal json p w row now).0 rows
          (keep w row h) in
      elim (process_signal-IsWarranted json p w row now) [
        | inl e ↦ rest ∙ e
        | inr (o, warrant, e) ↦ absurd (refute w row o h warrant)
      ]

  -- In the mode of a dry run a poll submits no order.
  pub dry_run_submits_nothing :
      (w : World D T X) (now : T)
      → p.execution_mode ≡ dry_run
      → (poll_once json p w now).submissions ≡ w.submissions
  unfolding poll_once
  dry_run_submits_nothing w now mode =
      process_all-silent (λ _. Unit) now (λ w row h. tt)
        (λ v row o h (s, read, (timely, (m, there, (pf, loaded, (ok, (live, routed)))))).
          absurd (not_true (ap submits_orders mode) live))
        w (pending_signals iso.text_le 64 (iso.canonical_iso now) w.tables.signals) tt

  -- While an event of the kill switch is unresolved, a poll submits no order, whatever the
  -- checklist, the mode and the signals, those of exits included.
  pub killed_submits_nothing :
      (w : World D T X) (now : T)
      → kill_switch_active w.tables.switch_events ≡ true
      → (poll_once json p w now).submissions ≡ w.submissions
  unfolding poll_once
  killed_submits_nothing w now active =
      process_all-silent (λ v. kill_switch_active v.tables.switch_events ≡ true) now
        (λ v row h. ap kill_switch_active (process_signal-Completes json p v row now).0.1 ∙ h)
        (λ v row o h (s, read, (timely, (m, there, (pf, loaded, (ok, (live, routed)))))).
          not_true
            (approved-not_killed p.checklist (pre_trade_context p s m pf now)
              ((load-Mirrors v.tables now pf loaded).1 ∙ h) routed.2)
            ok)
        w (pending_signals iso.text_le 64 (iso.canonical_iso now) w.tables.signals) active
