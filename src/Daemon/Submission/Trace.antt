-- ===== src/Daemon/Submission/Trace.antt =====
-- What `submit_via_broker` may add to the trace of submissions.
use razortrade.Common.{
  ℕ, ◌≡◌, refl, ap, ◌∙◌, ◌⊎◌, inl, inr, true, Option, none, some, List, [], ◌∷◌, String, str_eq,
  Bool-cases, str_eq_iff,
}
use razortrade.Decimal.{DecimalOps}
use razortrade.Formats.{IsoOps, JsonOps}
use razortrade.Execution.{
  SubmissionResult, OpenOrderSummary, Answer, answered, failed_with, BrokerClient, is_uncertain,
}
use razortrade.Core.Instrument.{InstrumentRegistry, sleeve_eq, crypto_leverage}
use razortrade.Core.Order.{Order}
use razortrade.Core.Signal.{Signal}
use razortrade.Core.MarketData.{MarketSnapshot}
use razortrade.Core.Portfolio.{PortfolioState}
use razortrade.Persistence.Columns.{TextOps}
use razortrade.Persistence.OrderRows.{OrderRow, pending_order_for_signal, one_of}
use razortrade.Persistence.Orders.Pending.{OrderTable, insert_pending_order}
use razortrade.Daemon.Tables.{World}
use razortrade.Daemon.OrderBuilding.{Built, built, unbuildable, build_kraken_futures_order}
use razortrade.Daemon.UncertainOrders.{
  UncertainReconcileOutcome, no_existing_order, already_reconciled, resubmit_with_order_id,
  lookup_failed_retry, malformed_unrecoverable, reconcile_answer, reconcile_uncertain,
  reconcile_found, try_reconcile_uncertain_order, after_submit, with_orders,
}
use razortrade.Daemon.Submission.{
  hand_off, hand_off_inserted, submit_built, submit_reconciled, submit_to, submit_via_broker,
  pending_of,
}

-- The trace is as before, or the order of the build is its only new one.
abbrev pub Adds : {D T : Type 0} → Built D T → List (Order D T) → List (Order D T) → Type 0
Adds {D = D} {T = T} b before after =
    (after ≡ before) ⊎ ((o : Order D T) × (b ≡ built o) × (after ≡ (o ∷ before)))

-- The outcomes that let an order through.
abbrev pub LetsThrough : UncertainReconcileOutcome → Type 0
LetsThrough no_existing_order = Unit
LetsThrough (resubmit_with_order_id _) = Unit
LetsThrough _ = ⊥

-- No order of the signal waits, or the only one is uncertain and the broker does not know it.
abbrev pub IsClear :
    {D T X : Type 0} → BrokerClient D T → List (Order D T) → Option (OrderRow X) → Type 0
IsClear broker submissions none = Unit
IsClear broker submissions (some r) =
    (r.status ≡ "uncertain")
    × ((cli : String) × (r.cli_ord_id ≡ some cli)
        × (broker.get_order_by_cli_ord_id submissions cli ≡ answered none))

module _ {D T X : Type 0} ⦃iso : IsoOps T⦄ (json : JsonOps D T X) where
  after_submit-submissions :
      (w : World D T X) (id order_id : ℕ) (now : T) (a : Answer (SubmissionResult T))
      → (after_submit json w id order_id now a).submissions ≡ w.submissions
  unfolding after_submit
  after_submit-submissions w id order_id now (answered sub) = refl
  after_submit-submissions w id order_id now (failed_with e) = elim (Bool-cases (is_uncertain e)) [
    | inl h ↦ rw h refl
    | inr h ↦ rw h refl
  ]

  reconcile_answer-submissions :
      (w : World D T X) (id order_id : ℕ) (now : T) (a : Answer (Option (OpenOrderSummary D)))
      → (reconcile_answer json w id now order_id a).0.submissions ≡ w.submissions
  unfolding reconcile_answer
  reconcile_answer-submissions w id order_id now (answered (some placed)) = refl
  reconcile_answer-submissions w id order_id now (answered none) = refl
  reconcile_answer-submissions w id order_id now (failed_with e) = refl

  reconcile_uncertain-submissions :
      (w : World D T X) (id : ℕ) (now : T) (broker : BrokerClient D T) (order_id : ℕ)
      (cli : Option String)
      → (reconcile_uncertain json w id now broker order_id cli).0.submissions ≡ w.submissions
  unfolding reconcile_uncertain
  reconcile_uncertain-submissions w id now broker order_id none = refl
  reconcile_uncertain-submissions w id now broker order_id (some cli) =
      reconcile_answer-submissions w id order_id now
        (broker.get_order_by_cli_ord_id w.submissions cli)

  pub reconcile_found-submissions :
      (w : World D T X) (id : ℕ) (now : T) (broker : BrokerClient D T) (r : Option (OrderRow X))
      → (reconcile_found json w id now broker r).0.submissions ≡ w.submissions
  unfolding reconcile_found
  reconcile_found-submissions w id now broker none = refl
  reconcile_found-submissions w id now broker (some r) =
      elim (Bool-cases
        (one_of ("acknowledged" ∷ "partially_filled" ∷ "filled" ∷ "submitted" ∷ []) r.status)) [
          | inl h ↦ rw h refl
          | inr h ↦ elim (Bool-cases (str_eq r.status "uncertain")) [
            | inl u ↦ rw (h, u) (reconcile_uncertain-submissions w id now broker r.id r.cli_ord_id)
            | inr u ↦ rw (h, u) refl
          ]
        ]

module _ {D T X : Type 0} ⦃txt : TextOps D X⦄ ⦃iso : IsoOps T⦄ (json : JsonOps D T X) where
  hand_off-submissions :
      (w : World D T X) (id : ℕ) (now : T) (broker : BrokerClient D T) (o : Order D T)
      (order_id : ℕ)
      → (hand_off json w id now broker o order_id).submissions ≡ (o ∷ w.submissions)
  unfolding hand_off
  hand_off-submissions w id now broker o order_id =
      after_submit-submissions json (record w { submissions = o ∷ w.submissions }) id order_id now
        (broker.submit_order w.submissions o)

  hand_off_inserted-Adds :
      (w : World D T X) (id : ℕ) (now : T) (broker : BrokerClient D T) (o : Order D T)
      (inserted : Option (OrderTable X × ℕ))
      → Adds
          (built o)
          w.submissions
          (hand_off_inserted json w id now broker o inserted).0.submissions
  unfolding hand_off_inserted
  hand_off_inserted-Adds w id now broker o none = inl refl
  hand_off_inserted-Adds w id now broker o (some (t, order_id)) =
      inr (o, refl, hand_off-submissions (with_orders w t) id now broker o order_id)

  submit_built-Adds :
      (w : World D T X) (id : ℕ) (now : T) (broker : BrokerClient D T) (reuse : Option ℕ)
      (b : Built D T)
      → Adds b w.submissions (submit_built json w id now broker reuse b).0.submissions
  unfolding submit_built
  submit_built-Adds w id now broker reuse (unbuildable kind detail) = inl refl
  submit_built-Adds w id now broker (some order_id) (built o) =
      inr (o, refl, hand_off-submissions w id now broker o order_id)
  submit_built-Adds w id now broker none (built o) =
      hand_off_inserted-Adds w id now broker o
        (insert_pending_order txt.zero_text (pending_of o id now) w.tables.orders)

  submit_reconciled-Adds :
      (now : T) (id : ℕ) (broker : BrokerClient D T) (b : Built D T)
      (s : World D T X × UncertainReconcileOutcome)
      → ((submit_reconciled json now id broker b s).0.submissions ≡ s.0.submissions)
        ⊎ (LetsThrough s.1
            × Adds b s.0.submissions (submit_reconciled json now id broker b s).0.submissions)
  unfolding submit_reconciled
  submit_reconciled-Adds now id broker b (w, no_existing_order) =
      inr (tt, submit_built-Adds w id now broker none b)
  submit_reconciled-Adds now id broker b (w, resubmit_with_order_id order_id) =
      inr (tt, submit_built-Adds w id now broker (some order_id) b)
  submit_reconciled-Adds now id broker b (w, already_reconciled) = inl refl
  submit_reconciled-Adds now id broker b (w, lookup_failed_retry) = inl refl
  submit_reconciled-Adds now id broker b (w, malformed_unrecoverable) = inl refl

module _ {D T X : Type 0} ⦃iso : IsoOps T⦄ (json : JsonOps D T X) where
  answer_clears :
      (w : World D T X) (id order_id : ℕ) (now : T) (a : Answer (Option (OpenOrderSummary D)))
      → LetsThrough (reconcile_answer json w id now order_id a).1
      → a ≡ answered none
  unfolding reconcile_answer
  answer_clears w id order_id now (answered (some placed)) h = absurd h
  answer_clears w id order_id now (answered none) h = refl
  answer_clears w id order_id now (failed_with e) h = absurd h

  uncertain_clears :
      (w : World D T X) (id : ℕ) (now : T) (broker : BrokerClient D T) (order_id : ℕ)
      (cli : Option String)
      → LetsThrough (reconcile_uncertain json w id now broker order_id cli).1
      → (c : String) × (cli ≡ some c)
        × (broker.get_order_by_cli_ord_id w.submissions c ≡ answered none)
  unfolding reconcile_uncertain
  uncertain_clears w id now broker order_id none h = absurd h
  uncertain_clears w id now broker order_id (some cli) h = (
    cli,
    refl,
    answer_clears w id order_id now (broker.get_order_by_cli_ord_id w.submissions cli) h,
  )

  found_clears :
      (w : World D T X) (id : ℕ) (now : T) (broker : BrokerClient D T) (r : Option (OrderRow X))
      → LetsThrough (reconcile_found json w id now broker r).1
      → IsClear broker w.submissions r
  unfolding reconcile_found
  found_clears w id now broker none h = tt
  found_clears w id now broker (some r) h =
      elim (Bool-cases
        (one_of ("acknowledged" ∷ "partially_filled" ∷ "filled" ∷ "submitted" ∷ []) r.status)) [
          | inl p ↦ absurd (rw p at h)
          | inr p ↦ elim (Bool-cases (str_eq r.status "uncertain")) [
            | inl u ↦ (
              (str_eq_iff r.status "uncertain").0 u,
              uncertain_clears w id now broker r.id r.cli_ord_id (rw (p, u) at h),
            )
            | inr u ↦ absurd (rw (p, u) at h)
          ]
        ]

module _ {D T X : Type 0} ⦃dec : DecimalOps D⦄ ⦃txt : TextOps D X⦄ ⦃iso : IsoOps T⦄ where
  submit_to-adds :
      (json : JsonOps D T X) (instruments : InstrumentRegistry D) (w : World D T X) (s : Signal D T)
      (m : MarketSnapshot D T) (p : PortfolioState D T) (now : T) (b : BrokerClient D T)
      → ((submit_to json instruments w s m p now (some b)).0.submissions ≡ w.submissions)
        ⊎ ((o : Order D T) × IsClear b w.submissions
              (pending_order_for_signal s.id w.tables.orders.orders)
            × (build_kraken_futures_order s m p instruments now ≡ built o)
            × ((submit_to json instruments w s m p now (some b)).0.submissions
                ≡ (o ∷ w.submissions)))
  unfolding submit_to try_reconcile_uncertain_order
  submit_to-adds json instruments w s m p now b =
      let row = pending_order_for_signal s.id w.tables.orders.orders in
      let same = reconcile_found-submissions json w s.id now b row in
      elim (submit_reconciled-Adds json now s.id b
        (build_kraken_futures_order s m p instruments now)
        (reconcile_found json w s.id now b row)) [
          | inl e ↦ inl (e ∙ same)
          | inr (lets, inl e) ↦ inl (e ∙ same)
          | inr (lets, inr (o, be, te)) ↦
              inr (o, found_clears json w s.id now b row lets, be, te ∙ ap (λ l. o ∷ l) same)
        ]

  -- What an order that is added by `submit_via_broker` presupposes.
  pub submit_via_broker-adds :
      (json : JsonOps D T X) (instruments : InstrumentRegistry D)
      (broker : Option (BrokerClient D T)) (w : World D T X) (s : Signal D T)
      (m : MarketSnapshot D T) (p : PortfolioState D T) (now : T)
      → ((submit_via_broker json instruments broker w s m p now).0.submissions ≡ w.submissions)
        ⊎ ((b : BrokerClient D T) × (o : Order D T) × (broker ≡ some b)
            × (sleeve_eq s.sleeve crypto_leverage ≡ true)
            × IsClear b w.submissions (pending_order_for_signal s.id w.tables.orders.orders)
            × (build_kraken_futures_order s m p instruments now ≡ built o)
            × ((submit_via_broker json instruments broker w s m p now).0.submissions
                ≡ (o ∷ w.submissions)))
  unfolding submit_via_broker submit_to
  submit_via_broker-adds json instruments none w s m p now =
      elim (Bool-cases (sleeve_eq s.sleeve crypto_leverage)) [
        | inl e ↦ inl (rw e refl)
        | inr e ↦ inl (rw e refl)
      ]
  submit_via_broker-adds json instruments (some b) w s m p now =
      elim (Bool-cases (sleeve_eq s.sleeve crypto_leverage)) [
        | inr e ↦ inl (rw e refl)
        | inl e ↦ elim (submit_to-adds json instruments w s m p now b) [
          | inl same ↦ inl (rw e same)
          | inr (o, clear, be, te) ↦ inr (b, o, refl, e, clear, be, rw e te)
        ]
      ]
