-- ===== src/Daemon/Submission/Completion.antt =====
-- What `submit_via_broker` leaves of the signal, and what it leaves alone.
use razortrade.Common.{
  ℕ, ◌≡◌, refl, ◌∙◌, ◌⊎◌, inl, inr, Bool, true, Option, none, some, [], ◌∷◌, String, str_eq,
  Bool-cases, arith,
}
use razortrade.Decimal.{DecimalOps}
use razortrade.Formats.{IsoOps, JsonOps}
use razortrade.Execution.{
  SubmissionResult, OpenOrderSummary, Answer, answered, failed_with, BrokerClient, is_uncertain,
  broker_error_kind, error_text,
}
use razortrade.Core.Instrument.{InstrumentRegistry, sleeve_eq, crypto_leverage}
use razortrade.Core.Order.{Order}
use razortrade.Core.Signal.{Signal}
use razortrade.Core.MarketData.{MarketSnapshot}
use razortrade.Core.Portfolio.{PortfolioState}
use razortrade.Persistence.Columns.{TextOps}
use razortrade.Persistence.OrderRows.{OrderRow, pending_order_for_signal, one_of}
use razortrade.Persistence.Orders.Pending.{OrderTable, insert_pending_order}
use razortrade.Persistence.Signals.Settled.{
  AllOf, IsDone, rejected-IsDone, settled-IsDone, cooling-IsDone,
}
use razortrade.Daemon.Tables.{World}
use razortrade.Daemon.SignalRows.{sleeve_name}
use razortrade.Daemon.OrderBuilding.{Built, built, unbuildable, build_kraken_futures_order}
use razortrade.Daemon.UncertainOrders.{
  UncertainReconcileOutcome, no_existing_order, already_reconciled, resubmit_with_order_id,
  lookup_failed_retry, malformed_unrecoverable, reconcile_answer, reconcile_uncertain,
  reconcile_found, try_reconcile_uncertain_order, after_submit, with_orders, reject,
}
use razortrade.Daemon.Submission.{
  hand_off, hand_off_inserted, submit_built, submit_reconciled, submit_to, submit_via_broker,
  pending_of,
}

module _ {D T X : Type 0} where
  -- The signal is closed or on a cooldown, or an order of it is on its way.
  abbrev pub IsSettled : ℕ → World D T X → Type 0
  IsSettled id w =
      AllOf id IsDone w.tables.signals
      ⊎ ((r : OrderRow X) × (pending_order_for_signal id w.tables.orders.orders ≡ some r))

  -- Positions and events are as before.
  abbrev pub IsFramed : World D T X → World D T X → Type 0
  IsFramed w w' =
      (w'.tables.positions ≡ w.tables.positions)
      × (w'.tables.switch_events ≡ w.tables.switch_events)

  -- The step ends with an error, or the signal is settled.
  abbrev pub Completes : ℕ → World D T X → World D T X × Bool → Type 0
  Completes id w r = IsFramed w r.0 × (r.1 ≡ true → IsSettled id r.0)

  -- The same for a reconciliation that ends the step.
  abbrev pub Reconciles : ℕ → World D T X → World D T X × UncertainReconcileOutcome → Type 0
  Reconciles id w s =
      IsFramed w s.0
      × ((s.1 ≡ no_existing_order)
          ⊎ ((n : ℕ) × (s.1 ≡ resubmit_with_order_id n))
          ⊎ IsSettled id s.0)

  -- What follows a step that left positions and events alone.
  pub Completes-after :
      (id : ℕ) (w w' : World D T X) (r : World D T X × Bool)
      → IsFramed w w'
      → Completes id w' r
      → Completes id w r
  Completes-after id w w' r f h = ((h.0.0 ∙ f.0, h.0.1 ∙ f.1), h.1)

module _ {D T X : Type 0} ⦃iso : IsoOps T⦄ (json : JsonOps D T X) where
  pub reject-Completes :
      (w : World D T X) (id : ℕ) (now : T) (kind detail : String)
      → Completes id w (reject json w id now kind detail, true)
  reject-Completes w id now kind detail = (
    (refl, refl),
    λ _. inl (
        rejected-IsDone id (iso.canonical_iso now) (json.reason_json kind detail) w.tables.signals),
  )

  after_submit-Completes :
      (w : World D T X) (id order_id : ℕ) (now : T) (a : Answer (SubmissionResult T))
      → Completes id w (after_submit json w id order_id now a, true)
  unfolding after_submit
  after_submit-Completes w id order_id now (answered sub) =
      ((refl, refl), λ _. inl (settled-IsDone id (iso.canonical_iso now) w.tables.signals))
  after_submit-Completes w id order_id now (failed_with e) = elim (Bool-cases (is_uncertain e)) [
    | inl h ↦ rw h (
      (refl, refl),
      λ _. inl (cooling-IsDone id (iso.canonical_iso (iso.plus_seconds now 90)) w.tables.signals),
    )
    | inr h ↦ rw h (
      (refl, refl),
      λ _. inl (
          rejected-IsDone id (iso.canonical_iso now)
            (json.reason_json (broker_error_kind e) (error_text iso.show_id e)) w.tables.signals),
    )
  ]

  reconcile_answer-Reconciles :
      (w : World D T X) (id order_id : ℕ) (now : T) (a : Answer (Option (OpenOrderSummary D)))
      → Reconciles id w (reconcile_answer json w id now order_id a)
  unfolding reconcile_answer
  reconcile_answer-Reconciles w id order_id now (answered (some placed)) =
      ((refl, refl), inr (inr (inl (settled-IsDone id (iso.canonical_iso now) w.tables.signals))))
  reconcile_answer-Reconciles w id order_id now (answered none) =
      ((refl, refl), inr (inl (order_id, refl)))
  reconcile_answer-Reconciles w id order_id now (failed_with e) = (
    (refl, refl),
    inr (
        inr
          (inl (cooling-IsDone id (iso.canonical_iso (iso.plus_seconds now 90)) w.tables.signals))),
  )

  reconcile_uncertain-Reconciles :
      (w : World D T X) (id : ℕ) (now : T) (broker : BrokerClient D T) (order_id : ℕ)
      (cli : Option String)
      → Reconciles id w (reconcile_uncertain json w id now broker order_id cli)
  unfolding reconcile_uncertain
  reconcile_uncertain-Reconciles w id now broker order_id none = (
    (refl, refl),
    inr (
        inr (
          inl (
            rejected-IsDone id (iso.canonical_iso now)
              (json.reason_json "uncertain_without_cli" (iso.show_id order_id)) w.tables.signals))),
  )
  reconcile_uncertain-Reconciles w id now broker order_id (some cli) =
      reconcile_answer-Reconciles w id order_id now
        (broker.get_order_by_cli_ord_id w.submissions cli)

  reconcile_found-Reconciles :
      (w : World D T X) (id : ℕ) (now : T) (broker : BrokerClient D T) (found : Option (OrderRow X))
      → pending_order_for_signal id w.tables.orders.orders ≡ found
      → Reconciles id w (reconcile_found json w id now broker found)
  unfolding reconcile_found
  reconcile_found-Reconciles w id now broker none h = ((refl, refl), inl refl)
  reconcile_found-Reconciles w id now broker (some r) h =
      elim (Bool-cases
        (one_of ("acknowledged" ∷ "partially_filled" ∷ "filled" ∷ "submitted" ∷ []) r.status)) [
          | inl p ↦ rw p (
            (refl, refl),
            inr (inr (inl (settled-IsDone id (iso.canonical_iso now) w.tables.signals))),
          )
          | inr p ↦ elim (Bool-cases (str_eq r.status "uncertain")) [
            | inl u ↦ rw (p, u) (reconcile_uncertain-Reconciles w id now broker r.id r.cli_ord_id)
            | inr u ↦ rw (p, u) ((refl, refl), inr (inr (inr (r, h))))
          ]
        ]

-- The outcomes that end the step.
abbrev pub Ends : UncertainReconcileOutcome → Type 0
Ends no_existing_order = ⊥
Ends (resubmit_with_order_id _) = ⊥
Ends _ = Unit

IsSettled-by :
    {D T X : Type 0} (id : ℕ) (w : World D T X) (o : UncertainReconcileOutcome)
    → Ends o
    → (o ≡ no_existing_order) ⊎ ((n : ℕ) × (o ≡ resubmit_with_order_id n)) ⊎ IsSettled id w
    → IsSettled id w
IsSettled-by id w o h (inl e) = absurd (rw e at h)
IsSettled-by id w o h (inr (inl (n, e))) = absurd (rw e at h)
IsSettled-by id w o h (inr (inr s)) = s

module _ {D T X : Type 0} ⦃txt : TextOps D X⦄ ⦃iso : IsoOps T⦄ (json : JsonOps D T X) where
  hand_off-Completes :
      (w : World D T X) (id : ℕ) (now : T) (broker : BrokerClient D T) (o : Order D T)
      (order_id : ℕ)
      → Completes id w (hand_off json w id now broker o order_id, true)
  unfolding hand_off
  hand_off-Completes w id now broker o order_id =
      after_submit-Completes json (record w { submissions = o ∷ w.submissions }) id order_id now
        (broker.submit_order w.submissions o)

  hand_off_inserted-Completes :
      (w : World D T X) (id : ℕ) (now : T) (broker : BrokerClient D T) (o : Order D T)
      (inserted : Option (OrderTable X × ℕ))
      → Completes id w (hand_off_inserted json w id now broker o inserted)
  unfolding hand_off_inserted
  hand_off_inserted-Completes w id now broker o none = ((refl, refl), λ h. absurd (ground arith))
  hand_off_inserted-Completes w id now broker o (some (t, order_id)) =
      hand_off-Completes (with_orders w t) id now broker o order_id

  submit_built-Completes :
      (w : World D T X) (id : ℕ) (now : T) (broker : BrokerClient D T) (reuse : Option ℕ)
      (b : Built D T)
      → Completes id w (submit_built json w id now broker reuse b)
  unfolding submit_built
  submit_built-Completes w id now broker reuse (unbuildable kind detail) =
      reject-Completes json w id now kind detail
  submit_built-Completes w id now broker (some order_id) (built o) =
      hand_off-Completes w id now broker o order_id
  submit_built-Completes w id now broker none (built o) =
      hand_off_inserted-Completes w id now broker o
        (insert_pending_order txt.zero_text (pending_of o id now) w.tables.orders)

  submit_reconciled-Completes :
      (w : World D T X) (now : T) (id : ℕ) (broker : BrokerClient D T) (b : Built D T)
      (s : World D T X × UncertainReconcileOutcome)
      → Reconciles id w s
      → Completes id w (submit_reconciled json now id broker b s)
  unfolding submit_reconciled
  submit_reconciled-Completes w now id broker b (w', no_existing_order) h =
      Completes-after id w w' (submit_built json w' id now broker none b) h.0
        (submit_built-Completes w' id now broker none b)
  submit_reconciled-Completes w now id broker b (w', resubmit_with_order_id n) h =
      Completes-after id w w' (submit_built json w' id now broker (some n) b) h.0
        (submit_built-Completes w' id now broker (some n) b)
  submit_reconciled-Completes w now id broker b (w', already_reconciled) (f, h) =
      (f, λ _. IsSettled-by id w' already_reconciled (tt) h)
  submit_reconciled-Completes w now id broker b (w', lookup_failed_retry) (f, h) =
      (f, λ _. IsSettled-by id w' lookup_failed_retry (tt) h)
  submit_reconciled-Completes w now id broker b (w', malformed_unrecoverable) (f, h) =
      (f, λ _. IsSettled-by id w' malformed_unrecoverable (tt) h)

module _ {D T X : Type 0} ⦃dec : DecimalOps D⦄ ⦃txt : TextOps D X⦄ ⦃iso : IsoOps T⦄ where
  submit_to-Completes :
      (json : JsonOps D T X) (instruments : InstrumentRegistry D) (w : World D T X) (s : Signal D T)
      (m : MarketSnapshot D T) (p : PortfolioState D T) (now : T)
      (broker : Option (BrokerClient D T))
      → Completes s.id w (submit_to json instruments w s m p now broker)
  unfolding submit_to try_reconcile_uncertain_order
  submit_to-Completes json instruments w s m p now none =
      reject-Completes json w s.id now "broker_not_configured" ""
  submit_to-Completes json instruments w s m p now (some b) =
      let row = pending_order_for_signal s.id w.tables.orders.orders in
      submit_reconciled-Completes json w now s.id b
        (build_kraken_futures_order s m p instruments now) (reconcile_found json w s.id now b row)
        (reconcile_found-Reconciles json w s.id now b row refl)

  pub submit_via_broker-Completes :
      (json : JsonOps D T X) (instruments : InstrumentRegistry D)
      (broker : Option (BrokerClient D T)) (w : World D T X) (s : Signal D T)
      (m : MarketSnapshot D T) (p : PortfolioState D T) (now : T)
      → Completes s.id w (submit_via_broker json instruments broker w s m p now)
  unfolding submit_via_broker
  submit_via_broker-Completes json instruments broker w s m p now =
      elim (Bool-cases (sleeve_eq s.sleeve crypto_leverage)) [
        | inl e ↦ rw e (submit_to-Completes json instruments w s m p now broker)
        | inr e ↦
            rw e (reject-Completes json w s.id now "sleeve_not_implemented" (sleeve_name s.sleeve))
      ]
