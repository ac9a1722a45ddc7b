-- ===== src/Risk/Safety.antt =====
-- The kill-switch supervisor and the checklist agree: crates/rt-risk/src/kill_switch.rs against
-- checks/hard_limit.rs.
use razortrade.Common.{ap, ◌≡◌, ◌≢◌, ◌↔◌, ◌⊎◌, inl, inr, true, false, arith}
use razortrade.Decimal.{DecimalOps, IsOrdered, ◌<ᵈ◌, ◌≤ᵈ◌, ◌=ᵈ◌}
use razortrade.Time.{TimeOps}
use razortrade.Core.Portfolio.{
  PortfolioState, drawdown_fraction, leverage_sleeve_effective_pnl, leverage_sleeve_realized_pnl,
  leverage_sleeve_unrealized_pnl,
}
use razortrade.Risk.Config.{RiskConfig}
use razortrade.Risk.Context.{PreTradeContext}
use razortrade.Risk.Checklist.{evaluate, standard}
use razortrade.Risk.KillSwitch.{
  no_change, disable, panic_close, KillSwitchDecision, KillSwitchReason, portfolio_drawdown,
  lifetime_realised_loss_budget_exhausted, effective_pnl_budget_exhausted, evaluate_kill_switch,
}
use razortrade.Risk.Hazard.Spec.{IsLeveraged, over_limit, realised, unrealised, effective, fall}
use razortrade.Risk.Approval.{refused_iff_Hazard}

module _ {D : Type 0} ⦃dec : DecimalOps D⦄ (laws : IsOrdered D) where
  adverse_min :
      (u : D)
      → (((u <ᵈ dec.zero) ≡ true) × (dec.min u dec.zero ≡ u))
        ⊎ (((u <ᵈ dec.zero) ≡ false)
            × ((dec.min u dec.zero ≡ dec.zero)
                ⊎ (((u =ᵈ dec.zero) ≡ true) × (dec.min u dec.zero ≡ u))))
  adverse_min u = elim (laws.min_is_one u dec.zero) [
    | inl e ↦
        let low : (u ≤ᵈ dec.zero) ≡ true = rw e at (laws.min_le_right u dec.zero) in ground arith
    | inr e ↦
        let high : (dec.zero ≤ᵈ u) ≡ true = rw e at (laws.min_le_left u dec.zero) in ground arith
  ]

module _ {D : Type 0} ⦃dec : DecimalOps D⦄ where
  -- What counts of a realised and an unrealised P&L: an open loss in full, an open gain not at all;
  -- an unrealised P&L of the value zero may stand in for the zero.
  abbrev pub CountsLosses : D → D → D → Type 0
  CountsLosses r u e =
      ((e ≤ᵈ r) ≡ true)
      × ((((u <ᵈ dec.zero) ≡ true) × (e ≡ dec.add r u))
          ⊎ (((u <ᵈ dec.zero) ≡ false)
              × ((e ≡ dec.add r dec.zero) ⊎ (((u =ᵈ dec.zero) ≡ true) × (e ≡ dec.add r u)))))

module _ {D T : Type 0} ⦃dec : DecimalOps D⦄ (laws : IsOrdered D) where
  -- The effective P&L is never above the realised P&L of the leverage sleeve. With an open loss it
  -- is realised plus unrealised, the loss in full; without one it is realised plus zero, an open
  -- gain not at all, but for an unrealised P&L of the value zero, which may stand in for the zero.
  pub effective_pnl-CountsLosses :
      (p : PortfolioState D T)
      → CountsLosses (realised p) (unrealised p) (leverage_sleeve_effective_pnl p)
  unfolding leverage_sleeve_effective_pnl leverage_sleeve_realized_pnl
      leverage_sleeve_unrealized_pnl
  effective_pnl-CountsLosses p = (
    laws.add-le_of_nonpos (realised p) (dec.min (unrealised p) dec.zero)
        (laws.min_le_right (unrealised p) dec.zero),
    elim (adverse_min laws (unrealised p)) [
      | inl (l, e) ↦ inl (l, ap (dec.add (realised p)) e)
      | inr (g, inl e) ↦ inr (g, inl (ap (dec.add (realised p)) e))
      | inr (g, inr (z, e)) ↦ inr (g, inr (z, ap (dec.add (realised p)) e))
    ],
  )

  -- Whatever makes the supervisor act also exhausts the budget of new trades.
  decision-IsExhausted :
      (p : PortfolioState D T) (c : RiskConfig D) (now : T)
      → (c.kill_switch_effective_threshold_chf ≤ᵈ c.leverage_kill_switch_budget_chf) ≡ true
      → evaluate_kill_switch p c now ≢ no_change
      → ((leverage_sleeve_effective_pnl p ≤ᵈ c.leverage_kill_switch_budget_chf) ≡ true)
        ⊎ ((c.max_portfolio_drawdown <ᵈ drawdown_fraction p) ≡ true)
  unfolding evaluate_kill_switch leverage_sleeve_realized_pnl
  decision-IsExhausted p c now ordered acts = ground (
    arith,
    laws.le_trans (leverage_sleeve_effective_pnl p) c.kill_switch_effective_threshold_chf
        c.leverage_kill_switch_budget_chf,
    laws.le_trans (leverage_sleeve_effective_pnl p) (leverage_sleeve_realized_pnl p)
        c.leverage_kill_switch_budget_chf,
    (effective_pnl-CountsLosses p).0,
  )

module _ {D T : Type 0} ⦃dec : DecimalOps D⦄ ⦃chr : TimeOps T⦄ (laws : IsOrdered D) where
  -- If the hard threshold does not lie above the budget, then whenever the supervisor decides
  -- anything but `NoChange`, the standard checklist already refuses every leveraged trade on the
  -- same portfolio, before the flag is written.
  pub supervisor_agrees :
      (ctx : PreTradeContext D T) (now : T)
      → (ctx.config.kill_switch_effective_threshold_chf
          ≤ᵈ ctx.config.leverage_kill_switch_budget_chf)
        ≡ true
      → evaluate_kill_switch ctx.portfolio ctx.config now ≢ no_change
      → IsLeveraged ctx
      → (evaluate standard ctx).is_approved ≡ false
  unfolding leverage_sleeve_effective_pnl leverage_sleeve_realized_pnl
      leverage_sleeve_unrealized_pnl drawdown_fraction
  supervisor_agrees ctx now ordered acts leveraged = (refused_iff_Hazard ctx).1 (
      over_limit (
        inr (
          leveraged,
          elim (decision-IsExhausted laws ctx.portfolio ctx.config now ordered acts) [
            | inl spent ↦ inl spent
            | inr fallen ↦ inr (inl fallen)
          ],
        )))

module _ {D T : Type 0} ⦃dec : DecimalOps D⦄ where
  -- Realised and open losses of the leverage sleeve together reach the hard threshold.
  abbrev pub IsHard : PortfolioState D T → RiskConfig D → Type 0
  IsHard p c = (effective p ≤ᵈ c.kill_switch_effective_threshold_chf) ≡ true

  -- The realised loss alone spends the budget.
  abbrev pub IsSpent : PortfolioState D T → RiskConfig D → Type 0
  IsSpent p c = (realised p ≤ᵈ c.leverage_kill_switch_budget_chf) ≡ true

  -- The portfolio has fallen too far.
  abbrev pub IsFallen : PortfolioState D T → RiskConfig D → Type 0
  IsFallen p c = (c.max_portfolio_drawdown <ᵈ fall p) ≡ true

  -- Which of the four decisions the supervisor takes, with the figures that it reports.
  abbrev pub IsDecision : PortfolioState D T → RiskConfig D → T → KillSwitchDecision D T → Type 0
  IsDecision p c now d =
      let hard = c.kill_switch_effective_threshold_chf in
      let budget = c.leverage_kill_switch_budget_chf in
      let limit = c.max_portfolio_drawdown in
      let is_soft = (¬ IsHard p c) × (p.kill_switch_active ≡ false) in
      ((d ≡ panic_close (effective_pnl_budget_exhausted (effective p) hard) now) ↔ IsHard p c)
      × ((d ≡ disable (lifetime_realised_loss_budget_exhausted (realised p) budget) now)
          ↔ (is_soft × IsSpent p c))
      × ((d ≡ disable (portfolio_drawdown (fall p) limit) now)
          ↔ (is_soft × (¬ IsSpent p c) × IsFallen p c))
      × ((d ≡ no_change) ↔ (
          (¬ IsHard p c) × ((p.kill_switch_active ≡ true) ⊎ ((¬ IsSpent p c) × (¬ IsFallen p c)))))

  -- The decision of the supervisor by the figures of the sleeves and the values per unit: a panic
  -- close exactly if realised and open losses together reach the hard threshold, whether or not the
  -- kill switch is on and whatever was realised; else, with the switch off, a disabling exactly if
  -- the realised loss alone spends the budget, or else the portfolio has fallen too far; and else
  -- no change. Each decision carries these figures.
  pub evaluate_kill_switch-IsDecision :
      (p : PortfolioState D T) (c : RiskConfig D) (now : T)
      → IsDecision p c now (evaluate_kill_switch p c now)
  unfolding evaluate_kill_switch leverage_sleeve_effective_pnl leverage_sleeve_realized_pnl
      leverage_sleeve_unrealized_pnl drawdown_fraction
  evaluate_kill_switch-IsDecision p c now = (ground arith, ground arith, ground arith, ground arith)

  -- While the kill switch is on, the supervisor never asks to disable again.
  pub disable-not-active :
      (p : PortfolioState D T) (c : RiskConfig D) (now at : T) (r : KillSwitchReason D)
      → evaluate_kill_switch p c now ≡ disable r at
      → p.kill_switch_active ≡ false
  unfolding evaluate_kill_switch
  disable-not-active p c now at r e = ground arith
