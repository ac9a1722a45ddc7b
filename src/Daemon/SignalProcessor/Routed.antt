-- ===== src/Daemon/SignalProcessor/Routed.antt =====
-- Which conditions the routing, the checklist and the portfolio put on an order that is submitted.
use mathlib.Core.Path.{subst}
use razortrade.Common.{
  ◌≡◌, refl, ◌⊎◌, inl, inr, Bool, true, some, List, ◌∷◌, Bool-cases, Option-cases,
}
use razortrade.Decimal.{DecimalOps}
use razortrade.Formats.{IsoOps, JsonOps}
use razortrade.Execution.{BrokerClient}
use razortrade.Core.Instrument.{sleeve_eq, crypto_leverage}
use razortrade.Core.Order.{Order}
use razortrade.Core.Signal.{Signal}
use razortrade.Core.MarketData.{MarketSnapshot}
use razortrade.Core.Portfolio.{PortfolioState}
use razortrade.Core.ExecutionMode.{ExecutionMode, dry_run, paper, live, submits_orders}
use razortrade.Risk.Context.{ChecklistResult}
use razortrade.Risk.Checklist.{evaluate}
use razortrade.Persistence.Columns.{DbResult, ok, decimal_error, invalid_enum, panicked, TextOps}
use razortrade.Persistence.OrderRows.{OrderRow, pending_order_for_signal}
use razortrade.Persistence.Equity.{latest_equity_snapshot}
use razortrade.Daemon.Tables.{Tables, World}
use razortrade.Daemon.PortfolioLoader.{load_portfolio_state, load_found}
use razortrade.Daemon.MarketData.{MarketResult, found, market_error, market_panic}
use razortrade.Daemon.OrderBuilding.{built, build_kraken_futures_order}
use razortrade.Daemon.Submission.{submit_via_broker}
use razortrade.Daemon.Submission.Trace.{IsClear, submit_via_broker-adds}
use razortrade.Daemon.SignalProcessor.{
  SignalProcessor, handle_approval, act_on, with_portfolio, with_market, record_dry_run_intent,
  pre_trade_context, audited,
}

-- The list is as before, or one element that satisfies `P` is in front of it.
abbrev pub Grows : {A : Type 0} → (A → Type 0) → List A → List A → Type 0
Grows {A = A} P before after = (after ≡ before) ⊎ ((a : A) × P a × (after ≡ (a ∷ before)))

pub Grows-map :
    {A : Type 0} (P Q : A → Type 0)
    → ((a : A) → P a → Q a)
    → (before after : List A) → Grows P before after
    → Grows Q before after
Grows-map P Q f before after (inl e) = inl e
Grows-map P Q f before after (inr (a, h, e)) = inr (a, f a h, e)

pub Grows-result :
    {D T X : Type 0} (P : Order D T → Type 0) {before : List (Order D T)} (r s : World D T X × Bool)
    → r ≡ s
    → Grows P before s.0.submissions
    → Grows P before r.0.submissions
Grows-result P r s e h = rw e h

module _ {D T X : Type 0} ⦃dec : DecimalOps D⦄ ⦃iso : IsoOps T⦄ where
  -- The conditions of the routing: a broker, the leverage sleeve, no order of the signal that
  -- waits, and an order that could be built.
  abbrev IsRouted :
      SignalProcessor D T
      → List (OrderRow X)
      → List (Order D T)
      → Signal D T
      → MarketSnapshot D T
      → PortfolioState D T
      → T
      → Order D T
      → Type 0
  IsRouted p rows submissions s m pf now o =
      (submits_orders p.execution_mode ≡ true)
      × ((b : BrokerClient D T) × (p.crypto_leverage_broker ≡ some b)
          × (sleeve_eq s.sleeve crypto_leverage ≡ true)
          × IsClear b submissions (pending_order_for_signal s.id rows)
          × (build_kraken_futures_order s m pf p.instruments now ≡ built o))

module _ (D : Type 0) {T X : Type 0} ⦃dec : DecimalOps D⦄ ⦃txt : TextOps D X⦄ ⦃iso : IsoOps T⦄ where
  -- The loader leaves the orders and the events alone.
  pub load-orders :
      (t : Tables X) (now : T)
      → ((load_portfolio_state {D = D} t now).0.orders ≡ t.orders)
        × ((load_portfolio_state {D = D} t now).0.switch_events ≡ t.switch_events)
  unfolding load_portfolio_state load_found
  load-orders t now = elim (Option-cases (latest_equity_snapshot iso.text_le t.equity.snapshots)) [
    | inl e ↦ rw e (refl, refl)
    | inr (s, e) ↦ rw e (refl, refl)
  ]

mode_cases : (m : ExecutionMode) → (m ≡ dry_run) ⊎ ((m ≡ paper) ⊎ (m ≡ live))
mode_cases dry_run = inl refl
mode_cases paper = inr (inl refl)
mode_cases live = inr (inr refl)

module _ {D T X : Type 0} ⦃dec : DecimalOps D⦄ ⦃txt : TextOps D X⦄ ⦃iso : IsoOps T⦄ where
  submit-Grows :
      (json : JsonOps D T X) (p : SignalProcessor D T) (w : World D T X) (s : Signal D T)
      (m : MarketSnapshot D T) (pf : PortfolioState D T) (now : T)
      → submits_orders p.execution_mode ≡ true
      → Grows
          (IsRouted p w.tables.orders.orders w.submissions s m pf now)
          w.submissions
          (submit_via_broker json p.instruments p.crypto_leverage_broker w s m pf now).0.submissions
  submit-Grows json p w s m pf now mode =
      elim (submit_via_broker-adds json p.instruments p.crypto_leverage_broker w s m pf now) [
        | inl e ↦ inl e
        | inr (b, o, be, sl, clear, bo, e) ↦ inr (o, (mode, (b, be, sl, clear, bo)), e)
      ]

  -- Either mode but the dry run submits.
  pub handle_approval-live :
      (json : JsonOps D T X) (p : SignalProcessor D T) (w : World D T X) (s : Signal D T)
      (m : MarketSnapshot D T) (pf : PortfolioState D T) (now : T)
      → (p.execution_mode ≡ dry_run)
        ⊎ ((submits_orders p.execution_mode ≡ true)
            × (handle_approval json p w s m pf now
                ≡ submit_via_broker json p.instruments p.crypto_leverage_broker w s m pf now))
  unfolding handle_approval
  handle_approval-live json p w s m pf now = elim (mode_cases p.execution_mode) [
    | inl e ↦ inl e
    | inr (inl e) ↦ inr (rw e refl, rw e refl)
    | inr (inr e) ↦ inr (rw e refl, rw e refl)
  ]

  handle_approval-Grows :
      (json : JsonOps D T X) (p : SignalProcessor D T) (w : World D T X) (s : Signal D T)
      (m : MarketSnapshot D T) (pf : PortfolioState D T) (now : T)
      → Grows
          (IsRouted p w.tables.orders.orders w.submissions s m pf now)
          w.submissions
          (handle_approval json p w s m pf now).0.submissions
  unfolding handle_approval record_dry_run_intent
  handle_approval-Grows json p w s m pf now = elim (handle_approval-live json p w s m pf now) [
    | inl e ↦ inl (rw e refl)
    | inr (mode, e) ↦
        Grows-result (IsRouted p w.tables.orders.orders w.submissions s m pf now)
          (handle_approval json p w s m pf now)
          (submit_via_broker json p.instruments p.crypto_leverage_broker w s m pf now) e
          (submit-Grows json p w s m pf now mode)
  ]

  -- The checklist has approved.
  abbrev IsApproved :
      SignalProcessor D T
      → List (OrderRow X)
      → List (Order D T)
      → Signal D T
      → MarketSnapshot D T
      → PortfolioState D T
      → T
      → Order D T
      → Type 0
  IsApproved p rows submissions s m pf now o =
      ((evaluate p.checklist (pre_trade_context p s m pf now)).is_approved ≡ true)
      × IsRouted p rows submissions s m pf now o

  act_on-Grows :
      (json : JsonOps D T X) (p : SignalProcessor D T) (w : World D T X) (s : Signal D T)
      (m : MarketSnapshot D T) (pf : PortfolioState D T) (now : T) (result : ChecklistResult D T)
      → Grows
          (λ o.
            (result.is_approved ≡ true)
            × IsRouted p w.tables.orders.orders w.submissions s m pf now o)
          w.submissions
          (act_on json p w s m pf now result).0.submissions
  unfolding act_on
  act_on-Grows json p w s m pf now result = elim (Bool-cases result.is_approved) [
    | inl e ↦
        Grows-map (IsRouted p w.tables.orders.orders w.submissions s m pf now)
          (λ o.
            (result.is_approved ≡ true)
            × IsRouted p w.tables.orders.orders w.submissions s m pf now o)
          (λ o h. (e, h)) w.submissions (act_on json p w s m pf now result).0.submissions
          (Grows-result (IsRouted p w.tables.orders.orders w.submissions s m pf now)
            (act_on json p w s m pf now result)
            (handle_approval json p (audited json w s now result) s m pf now) (rw e refl)
            (handle_approval-Grows json p (audited json w s now result) s m pf now))
    | inr e ↦ inl (rw e refl)
  ]

  with_portfolio-Grows :
      (json : JsonOps D T X) (p : SignalProcessor D T) (w : World D T X) (s : Signal D T)
      (m : MarketSnapshot D T) (now : T) (loaded : DbResult (PortfolioState D T))
      → Grows
          (λ o.
            (pf : PortfolioState D T) × (loaded ≡ ok pf)
            × IsApproved p w.tables.orders.orders w.submissions s m pf now o)
          w.submissions
          (with_portfolio json p w s m now loaded).0.submissions
  unfolding with_portfolio
  with_portfolio-Grows json p w s m now (ok pf) =
      Grows-map (IsApproved p w.tables.orders.orders w.submissions s m pf now)
        (λ o.
          (pf' : PortfolioState D T) × (ok pf ≡ ok pf')
          × IsApproved p w.tables.orders.orders w.submissions s m pf' now o)
        (λ o h. (pf, refl, h)) w.submissions (with_portfolio json p w s m now (ok pf)).0.submissions
        (act_on-Grows json p w s m pf now (evaluate p.checklist (pre_trade_context p s m pf now)))
  with_portfolio-Grows json p w s m now (decimal_error c) = inl refl
  with_portfolio-Grows json p w s m now (invalid_enum c v) = inl refl
  with_portfolio-Grows json p w s m now panicked = inl refl

  -- The loaded portfolio, and what follows from it.
  abbrev pub IsFunded :
      SignalProcessor D T → World D T X → Signal D T → MarketSnapshot D T → T → Order D T → Type 0
  IsFunded p w s m now o =
      (pf : PortfolioState D T) × ((load_portfolio_state w.tables now).1 ≡ ok pf)
      × IsApproved p w.tables.orders.orders w.submissions s m pf now o

  pub with_market-Grows :
      (json : JsonOps D T X) (p : SignalProcessor D T) (w : World D T X) (s : Signal D T) (now : T)
      (market : MarketResult D (MarketSnapshot D T))
      → Grows
          (λ o. (m : MarketSnapshot D T) × (market ≡ found m) × IsFunded p w s m now o)
          w.submissions
          (with_market json p w s now market).0.submissions
  unfolding with_market
  with_market-Grows json p w s now (found m) =
      let loaded = (load_portfolio_state w.tables now).1 in
      let w' = record w { tables = (load_portfolio_state {D = D} w.tables now).0 } in
      Grows-map
        (λ o.
          (pf : PortfolioState D T) × (loaded ≡ ok pf)
          × IsApproved p w'.tables.orders.orders w.submissions s m pf now o)
        (λ o. (m' : MarketSnapshot D T) × (found m ≡ found m') × IsFunded p w s m' now o)
        (λ o (pf, e, h). (
          m,
          refl,
          (
            pf,
            e,
            subst (λ t. IsApproved p t.orders w.submissions s m pf now o)
                (load-orders D w.tables now).0 h,
          ),
        ))
        w.submissions (with_market json p w s now (found m)).0.submissions
        (with_portfolio-Grows json p w' s m now loaded)
  with_market-Grows json p w s now (market_error e) = inl refl
  with_market-Grows json p w s now market_panic = inl refl
