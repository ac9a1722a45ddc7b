-- ===== src/Daemon/Supervisor/Events.antt =====
-- The events that a tick of the supervisor records, and what they block.
use razortrade.Common.{
  ◌≡◌, refl, ◌⊎◌, inl, inr, true, ◌&&◌, Option, none, some, List, [], ◌∷◌, String, find?, is_some,
  Bool-cases, arith,
}
use razortrade.Decimal.{DecimalOps}
use razortrade.Formats.{IsoOps, JsonOps}
use razortrade.Execution.{BrokerClient}
use razortrade.Core.Instrument.{InstrumentRegistry}
use razortrade.Core.Portfolio.{PortfolioState}
use razortrade.Risk.KillSwitch.{KillSwitchDecision, no_change, disable, panic_close}
use razortrade.Persistence.Columns.{TextOps}
use razortrade.Persistence.Events.{
  KillSwitchEventRow, EventTable, record_kill_switch, kill_switch_active, has_active_hard_trigger,
  is_unresolved, is_hard,
}
use razortrade.Daemon.Tables.{World}
use razortrade.Daemon.Supervisor.{react, reason_kind, panic_close_leverage_positions}

-- A table with an unresolved hard event has an unresolved event.
hard-active :
    (events : List KillSwitchEventRow)
    → is_some (find? (λ e. is_unresolved e && is_hard e.reason_kind) events) ≡ true
    → is_some (find? is_unresolved events) ≡ true
hard-active [] h = absurd (ground arith)
hard-active (e ∷ events) h = elim (Bool-cases (is_unresolved e)) [
  | inl u ↦ rw (is_some, find?, u) refl
  | inr u ↦ rw (is_some, find?, u) (hard-active events (rw (is_some, find?, u) at h))
]

recorded-hard :
    (t : EventTable) (triggered_at kind detail snapshot : String)
    → has_active_hard_trigger t ≡ true
    → has_active_hard_trigger (record_kill_switch triggered_at kind detail snapshot t).0 ≡ true
unfolding record_kill_switch has_active_hard_trigger
recorded-hard t triggered_at kind detail snapshot h = elim (Bool-cases (is_hard kind)) [
  | inl e ↦ rw (is_some, find?, is_unresolved, e) refl
  | inr e ↦ rw (is_some, find?, is_unresolved, e) h
]

module _ {D T X : Type 0} ⦃dec : DecimalOps D⦄ ⦃txt : TextOps D X⦄ ⦃iso : IsoOps T⦄ where
  -- A decision to act leaves an unresolved event.
  pub react-active :
      (json : JsonOps D T X) (instruments : InstrumentRegistry D)
      (broker : Option (BrokerClient D T)) (w : World D T X) (pf : PortfolioState D T) (now : T)
      (d : KillSwitchDecision D T)
      → (d ≡ no_change)
        ⊎ (kill_switch_active (react json instruments broker w pf now d).tables.switch_events
            ≡ true)
  unfolding react record_kill_switch kill_switch_active has_active_hard_trigger
      panic_close_leverage_positions
  react-active json instruments broker w pf now no_change = inl refl
  react-active json instruments broker w pf now (disable reason at_time) = inr refl
  react-active json instruments none w pf now (panic_close reason at_time) =
      elim (Bool-cases (has_active_hard_trigger w.tables.switch_events)) [
        | inl e ↦ inr (rw e (hard-active w.tables.switch_events.events e))
        | inr e ↦ inr (rw e refl)
      ]
  react-active json instruments (some b) w pf now (panic_close reason at_time) =
      elim (Bool-cases (has_active_hard_trigger w.tables.switch_events)) [
        | inl e ↦ inr (rw e (hard-active w.tables.switch_events.events e))
        | inr e ↦ inr (rw e refl)
      ]

  -- A hard event that is unresolved stays so, and keeps every later decision from submitting.
  pub react-blocked :
      (json : JsonOps D T X) (instruments : InstrumentRegistry D)
      (broker : Option (BrokerClient D T)) (w : World D T X) (pf : PortfolioState D T) (now : T)
      (d : KillSwitchDecision D T)
      → has_active_hard_trigger w.tables.switch_events ≡ true
      → ((react json instruments broker w pf now d).submissions ≡ w.submissions)
        × (has_active_hard_trigger (react json instruments broker w pf now d).tables.switch_events
            ≡ true)
  unfolding react record_kill_switch
  react-blocked json instruments broker w pf now no_change h = (refl, h)
  react-blocked json instruments broker w pf now (disable reason at_time) h = (
    refl,
    recorded-hard w.tables.switch_events (iso.canonical_iso at_time) (reason_kind reason)
        (json.switch_json reason) (json.portfolio_json pf) h,
  )
  react-blocked json instruments broker w pf now (panic_close reason at_time) h = rw h (refl, h)

  -- A decision that submits leaves an unresolved hard event.
  pub react-hard :
      (json : JsonOps D T X) (instruments : InstrumentRegistry D)
      (broker : Option (BrokerClient D T)) (w : World D T X) (pf : PortfolioState D T) (now : T)
      (d : KillSwitchDecision D T)
      → ((react json instruments broker w pf now d).submissions ≡ w.submissions)
        ⊎ (has_active_hard_trigger (react json instruments broker w pf now d).tables.switch_events
            ≡ true)
  unfolding react record_kill_switch has_active_hard_trigger panic_close_leverage_positions
  react-hard json instruments broker w pf now no_change = inl refl
  react-hard json instruments broker w pf now (disable reason at_time) = inl refl
  react-hard json instruments none w pf now (panic_close reason at_time) =
      elim (Bool-cases (has_active_hard_trigger w.tables.switch_events)) [
        | inl e ↦ inl (rw e refl)
        | inr e ↦ inr (rw e refl)
      ]
  react-hard json instruments (some b) w pf now (panic_close reason at_time) =
      elim (Bool-cases (has_active_hard_trigger w.tables.switch_events)) [
        | inl e ↦ inl (rw e refl)
        | inr e ↦ inr (rw e refl)
      ]
