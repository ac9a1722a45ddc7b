-- ===== src/Daemon/Supervisor/PanicClose.antt =====
-- A panic close brings every open leverage position to zero, order by order.
use razortrade.Common.{ℕ, ◌≡◌, refl, inl, inr, true, false, some, List, [], ◌∷◌, Bool-cases, arith}
use razortrade.Common.Int.{ℤ, pos, negsuc, ◌+ℤ◌, neg, magnitude, ltb_ℤ}
use razortrade.Decimal.{DecimalOps, ◌≤ᵈ◌}
use razortrade.Formats.{IsoOps, JsonOps}
use razortrade.Execution.{BrokerClient}
use razortrade.Core.Instrument.{InstrumentRegistry}
use razortrade.Core.Order.{Order, Side, buy, sell, market}
use razortrade.Core.Portfolio.{PortfolioState, OpenPositionSummary, leverage_sleeve_effective_pnl}
use razortrade.Risk.Config.{RiskConfig}
use razortrade.Risk.KillSwitch.{evaluate_kill_switch}
use razortrade.Persistence.Columns.{ok, TextOps, IsExact}
use razortrade.Persistence.PositionRows.{PositionRow}
use razortrade.Persistence.Events.{has_active_hard_trigger, record_kill_switch}
use razortrade.Persistence.Equity.{list_open_leverage_positions}
use razortrade.Daemon.Tables.{World}
use razortrade.Daemon.PortfolioLoader.{load_portfolio_state}
use razortrade.Daemon.PortfolioLoader.Agreement.{AreSummaries, load-Mirrors}
use razortrade.Daemon.SignalProcessor.Routed.{load-orders}
use razortrade.Daemon.SignalProcessor.Completion.{load-IsFramed}
use razortrade.Daemon.Supervisor.{
  closing, panic_order, close_position, close_all, panic_close_leverage_positions, react,
  evaluate_kill_switch_once,
}
use razortrade.Daemon.Supervisor.Ticks.{tick-loaded}

-- What an order of a side adds to a position once it is filled.
abbrev pub effect : Side → ℤ → ℤ
effect buy size = size
effect sell size = neg size

add-neg : (a : ℤ) → a +ℤ neg a ≡ pos 0
unfolding ◌+ℤ◌
add-neg (pos n) = ground arith
add-neg (negsuc n) = ground arith

add-magnitude : (a : ℤ) → ltb_ℤ (pos 0) a ≡ false → a +ℤ pos (magnitude a) ≡ pos 0
unfolding ◌+ℤ◌
add-magnitude (pos n) h = ground arith
add-magnitude (negsuc n) h = ground arith

-- A quantity without a positive sign is not above zero.
not_positive :
    {D : Type 0} ⦃dec : DecimalOps D⦄ (exact : IsExact D) (qty : D)
    → dec.is_sign_positive qty ≡ false
    → ltb_ℤ (pos 0) (exact.value qty) ≡ false
not_positive exact qty e = elim (Bool-cases (ltb_ℤ (pos 0) (exact.value qty))) [
  | inl p ↦ absurd (ground (arith, exact.sign_positive qty p))
  | inr n ↦ n
]

closing-cancels :
    {D : Type 0} ⦃dec : DecimalOps D⦄ (exact : IsExact D) (qty : D)
    → exact.value qty +ℤ effect (closing qty).0 (exact.value (closing qty).1) ≡ pos 0
closing-cancels ⦃dec⦄ exact qty = elim (Bool-cases (dec.is_sign_positive qty)) [
  | inl e ↦ rw (closing, e) (add-neg (exact.value qty))
  | inr e ↦
      rw (closing, e)
        (rw (exact.value-abs qty) (add-magnitude (exact.value qty) (not_positive exact qty e)))
]

module _ {D T X : Type 0} ⦃dec : DecimalOps D⦄ ⦃txt : TextOps D X⦄ (exact : IsExact D) where
  -- A reduce-only market order that brings the position of the row to zero.
  abbrev pub IsClosing : PositionRow X → Order D T → Type 0
  IsClosing r o =
      (o.instrument.symbol ≡ r.instrument_symbol)
      × (o.reduce_only ≡ some true)
      × (o.order_type ≡ market)
      × ((qty : D) × (txt.from_str r.quantity ≡ some qty)
          × (exact.value qty +ℤ effect o.side (exact.value o.quantity) ≡ pos 0))

  -- Each row adds exactly one closing order, in the order of the rows.
  abbrev pub ClosesEach : List (PositionRow X) → List (Order D T) → List (Order D T) → Type 0
  ClosesEach [] before after = after ≡ before
  ClosesEach (r ∷ rows) before after =
      (o : Order D T) × IsClosing r o × ClosesEach rows (o ∷ before) after

  -- The orders of a panic close from `w` to `r`, with its event; no row of `orders` is changed.
  abbrev pub PanicCloses : World D T X → World D T X → Type 0
  PanicCloses w r =
      ClosesEach (list_open_leverage_positions txt.is_nonzero_real w.tables.positions.rows)
        w.submissions r.submissions
      × (has_active_hard_trigger r.tables.switch_events ≡ true)
      × (r.tables.orders ≡ w.tables.orders)

module _ {D T X : Type 0} ⦃dec : DecimalOps D⦄ ⦃txt : TextOps D X⦄ ⦃iso : IsoOps T⦄
    (exact : IsExact D) where
  close_all-ClosesEach :
      (instruments : InstrumentRegistry D) (event_id : ℕ) (now : T) (rows : List (PositionRow X))
      (ps : List (OpenPositionSummary D)) (before : List (Order D T))
      → AreSummaries rows ps
      → ClosesEach exact rows before (close_all instruments event_id now rows before)
  unfolding close_all close_position
  close_all-ClosesEach instruments event_id now [] [] before h = refl
  close_all-ClosesEach instruments event_id now [] (p ∷ ps) before h = absurd h
  close_all-ClosesEach instruments event_id now (r ∷ rows) [] before h = absurd h
  close_all-ClosesEach instruments event_id now (r ∷ rows) (p ∷ ps) before (h, rest) =
      let o = panic_order {T = T} instruments event_id now r.instrument_symbol p.quantity in
      (
        o,
        (refl, refl, refl, (p.quantity, h.2, closing-cancels exact p.quantity)),
        rw (close_all, close_position, h.2)
            (close_all-ClosesEach instruments event_id now rows ps (o ∷ before) rest),
      )

  -- A tick that finds the effective P&L at or below the hard threshold, no unresolved hard event
  -- and a broker submits exactly one order for each open leverage position: a reduce-only market
  -- order in its instrument whose side and size bring the position to zero. The hard event is
  -- recorded, the rows of the orders stay as they are.
  pub panic_tick-ClosesEach :
      (json : JsonOps D T X) (config : RiskConfig D) (instruments : InstrumentRegistry D)
      (broker : BrokerClient D T) (w : World D T X) (now : T) (pf : PortfolioState D T)
      → (load_portfolio_state w.tables now).1 ≡ ok pf
      → (leverage_sleeve_effective_pnl pf ≤ᵈ config.kill_switch_effective_threshold_chf) ≡ true
      → has_active_hard_trigger w.tables.switch_events ≡ false
      → PanicCloses exact w
          (evaluate_kill_switch_once json config instruments (some broker) w now).0
  unfolding react evaluate_kill_switch panic_close_leverage_positions record_kill_switch
      has_active_hard_trigger
  panic_tick-ClosesEach json config instruments broker w now pf loaded breached quiet =
      let (same, events) = load-orders D w.tables now in
      rw (tick-loaded json config instruments (some broker) w now pf loaded) (
        rw (evaluate_kill_switch, breached, events, quiet, (load-IsFramed w now).0)
          (
            close_all-ClosesEach instruments w.tables.switch_events.next_event now
                (list_open_leverage_positions txt.is_nonzero_real w.tables.positions.rows)
                pf.open_positions w.submissions (load-Mirrors w.tables now pf loaded).2,
            refl,
            same,
          ))
