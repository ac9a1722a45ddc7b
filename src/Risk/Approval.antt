-- ===== src/Risk/Approval.antt =====
-- What an approval by `PreTradeChecklist::evaluate` means.
use razortrade.Common.{
  ◌≡◌, refl, ◌↔◌, ◌⊎◌, inl, inr, true, false, Bool-cases, ◌&&◌, List, [], ◌∷◌, ◌++◌, map, all,
  String, arith,
}
use razortrade.Decimal.{DecimalOps}
use razortrade.Time.{TimeOps}
use razortrade.Core.Instrument.{sleeve_eq, crypto_leverage}
use razortrade.Risk.Context.{
  PreTradeContext, PreTradeCheck, CheckOutcome, RejectionReason, kill_switch_active, approved,
  rejected, not_applicable, passes,
}
use razortrade.Risk.Checklist.{PreTradeChecklist, rejections, gate, run_check, evaluate, standard}
use razortrade.Risk.Hazard.Spec.{
  Hazard, killed, stale, illiquid, volatile, over_limit, duplicate, cornered, expensive, too_large,
  IsKilled, Any,
}
use razortrade.Risk.Hazard.Checks.{
  sleeve_eq_iff, staleness_exact, spread_liquidity_exact, volatility_regime_exact, hard_limit_exact,
  funding_rate_exact, notional_cap_exact,
}
use razortrade.Risk.Hazard.Loops.{check_duplicates_exact, liquidation_distance_exact}

all_pass_iff :
    {D : Type 0} (os : List (String × CheckOutcome D))
    → (all (λ o. passes o.1) os ≡ true) ↔ (rejections os ≡ [])
unfolding rejections
all_pass_iff [] = ground arith
all_pass_iff ((id, approved) ∷ os) = ground (arith, all_pass_iff os)
all_pass_iff ((id, rejected r) ∷ os) = ground arith
all_pass_iff ((id, not_applicable) ∷ os) = ground (arith, all_pass_iff os)

module _ {D T : Type 0} where
  -- For any list of checks, the result is approved exactly when it reports no rejection.
  evaluate_approved_iff :
      (checks : PreTradeChecklist D T) (ctx : PreTradeContext D T)
      → ((evaluate checks ctx).is_approved ≡ true)
        ↔ (rejections (evaluate checks ctx).outcomes ≡ [])
  unfolding evaluate
  evaluate_approved_iff checks ctx = all_pass_iff (gate ctx ++ map (run_check ctx) checks)

  -- With the kill switch on no leveraged trade is approved, whatever the checks are.
  pub killed-not-approved :
      (checks : PreTradeChecklist D T) (ctx : PreTradeContext D T)
      → IsKilled ctx
      → (evaluate checks ctx).is_approved ≡ false
  unfolding evaluate
  killed-not-approved checks ctx h = ground (arith, sleeve_eq_iff ctx.signal.sleeve)

-- The outcome that spoils an approval.
spoiler :
    {D : Type 0} (os : List (String × CheckOutcome D))
    → (all (λ o. passes o.1) os ≡ false) ↔ Any (λ o. passes o.1 ≡ false) os
spoiler [] = ground arith
spoiler (o ∷ os) = ground (arith, spoiler os)

Any-append :
    {A : Type 0} (P : A → Type 0) (xs ys : List A) → Any P (xs ++ ys) ↔ (Any P xs ⊎ Any P ys)
Any-append P [] ys = (inr, elim [ inl e ↦ absurd e | inr h ↦ h ])
Any-append P (x ∷ xs) ys = ground (arith, Any-append P xs ys)

module _ {D T : Type 0} where
  gate_exact : (ctx : PreTradeContext D T) → Any (λ o. passes o.1 ≡ false) (gate ctx) ↔ IsKilled ctx
  gate_exact ctx =
      elim (Bool-cases
        (ctx.portfolio.kill_switch_active && sleeve_eq ctx.signal.sleeve crypto_leverage)) [
          | inl on ↦ rw on (ground (arith, sleeve_eq_iff ctx.signal.sleeve))
          | inr off ↦ rw off (ground (arith, sleeve_eq_iff ctx.signal.sleeve))
        ]

fails_iff :
    {D : Type 0} (o : CheckOutcome D)
    → (passes o ≡ false) ↔ ((r : RejectionReason D) × (o ≡ rejected r))
fails_iff approved = ground arith
fails_iff (rejected r) = (λ h. (r, refl), λ h. refl)
fails_iff not_applicable = ground arith

module _ {D T : Type 0} where
  abbrev pub Rejects : PreTradeContext D T → PreTradeCheck D T → Type 0
  Rejects ctx c = (r : RejectionReason D) × (c.evaluate ctx ≡ rejected r)

  -- One outcome for each check, in order: its id and what it says about the trade.
  abbrev pub Reports :
      PreTradeContext D T → PreTradeChecklist D T → List (String × CheckOutcome D) → Type 0
  Reports ctx [] [] = Unit
  Reports ctx [] (o ∷ os) = ⊥
  Reports ctx (c ∷ cs) [] = ⊥
  Reports ctx (c ∷ cs) ((id, o) ∷ os) = (id ≡ c.id) × (o ≡ c.evaluate ctx) × Reports ctx cs os

  run_check-Reports :
      (checks : PreTradeChecklist D T) (ctx : PreTradeContext D T)
      → Reports ctx checks (map (run_check ctx) checks)
  run_check-Reports [] ctx = tt
  run_check-Reports (c ∷ cs) ctx = (refl, refl, run_check-Reports cs ctx)

  some-Rejects :
      (checks : PreTradeChecklist D T) (ctx : PreTradeContext D T)
      → Any (λ o. passes o.1 ≡ false) (map (run_check ctx) checks) ↔ Any (Rejects ctx) checks
  some-Rejects [] ctx = ground arith
  some-Rejects (c ∷ cs) ctx = ground (arith, fails_iff (c.evaluate ctx), some-Rejects cs ctx)

  abbrev pub IsComplete : PreTradeChecklist D T → PreTradeContext D T → Type 0
  IsComplete checks ctx =
      let outcomes = (evaluate checks ctx).outcomes in
      (IsKilled ctx
        × ((rest : List (String × CheckOutcome D)) × (outcomes
              ≡ ("kill_switch_gate", rejected kill_switch_active) ∷ rest)
            × Reports ctx checks rest))
      ⊎ ((¬ IsKilled ctx) × Reports ctx checks outcomes)

  outcomes-IsComplete :
      (checks : PreTradeChecklist D T) (ctx : PreTradeContext D T) → IsComplete checks ctx
  unfolding evaluate
  outcomes-IsComplete checks ctx =
      let reports = run_check-Reports checks ctx in
      elim (Bool-cases
        (ctx.portfolio.kill_switch_active && sleeve_eq ctx.signal.sleeve crypto_leverage)) [
          | inl on ↦ inl (
            ground (arith, sleeve_eq_iff ctx.signal.sleeve),
            rw on (map (run_check ctx) checks, refl, reports),
          )
          | inr off ↦ inr (ground (arith, sleeve_eq_iff ctx.signal.sleeve), rw off reports)
        ]

  -- For any list of checks, the outcomes hold the id and the outcome of each check, in order and
  -- whatever the others say; before them stands the rejection of the gate exactly when the kill
  -- switch is on and the trade is leveraged. The result is refused exactly when it is so or when
  -- some check rejects the trade.
  pub evaluate-IsComplete :
      (checks : PreTradeChecklist D T) (ctx : PreTradeContext D T)
      → IsComplete checks ctx
        × (((evaluate checks ctx).is_approved ≡ false) ↔ (IsKilled ctx ⊎ Any (Rejects ctx) checks))
  unfolding evaluate
  evaluate-IsComplete checks ctx =
      let outcomes = map (run_check ctx) checks in
      (
        outcomes-IsComplete checks ctx,
        ground (
          arith,
          spoiler (gate ctx ++ outcomes),
          Any-append (λ o. passes o.1 ≡ false) (gate ctx) outcomes,
          gate_exact ctx,
          some-Rejects checks ctx,
        ),
      )

module _ {D T : Type 0} ⦃dec : DecimalOps D⦄ ⦃chr : TimeOps T⦄ where
  abbrev SomeCheckFails : PreTradeContext D T → Type 0
  SomeCheckFails ctx = Any (λ o. passes o.1 ≡ false) (map (run_check ctx) standard)

  Hazard-of : (ctx : PreTradeContext D T) → SomeCheckFails ctx → Hazard ctx
  Hazard-of ctx (inl h) = stale ((staleness_exact ctx).0 h)
  Hazard-of ctx (inr (inl h)) = illiquid ((spread_liquidity_exact ctx).0 h)
  Hazard-of ctx (inr (inr (inl h))) = volatile ((volatility_regime_exact ctx).0 h)
  Hazard-of ctx (inr (inr (inr (inl h)))) = over_limit ((hard_limit_exact ctx).0 h)
  Hazard-of ctx (inr (inr (inr (inr (inl h))))) = duplicate ((check_duplicates_exact ctx).0 h)
  Hazard-of ctx (inr (inr (inr (inr (inr (inl h)))))) =
      cornered ((liquidation_distance_exact ctx).0 h)
  Hazard-of ctx (inr (inr (inr (inr (inr (inr (inl h))))))) =
      expensive ((funding_rate_exact ctx).0 h)
  Hazard-of ctx (inr (inr (inr (inr (inr (inr (inr (inl h)))))))) =
      too_large ((notional_cap_exact ctx).0 h)
  Hazard-of ctx (inr (inr (inr (inr (inr (inr (inr (inr x)))))))) = elim x [ ]

  failing_check : (ctx : PreTradeContext D T) → Hazard ctx → IsKilled ctx ⊎ SomeCheckFails ctx
  failing_check ctx (killed h) = inl h
  failing_check ctx (stale h) = inr (inl ((staleness_exact ctx).1 h))
  failing_check ctx (illiquid h) = inr (inr (inl ((spread_liquidity_exact ctx).1 h)))
  failing_check ctx (volatile h) = inr (inr (inr (inl ((volatility_regime_exact ctx).1 h))))
  failing_check ctx (over_limit h) = inr (inr (inr (inr (inl ((hard_limit_exact ctx).1 h)))))
  failing_check ctx (duplicate h) =
      inr (inr (inr (inr (inr (inl ((check_duplicates_exact ctx).1 h))))))
  failing_check ctx (cornered h) =
      inr (inr (inr (inr (inr (inr (inl ((liquidation_distance_exact ctx).1 h)))))))
  failing_check ctx (expensive h) =
      inr (inr (inr (inr (inr (inr (inr (inl ((funding_rate_exact ctx).1 h))))))))
  failing_check ctx (too_large h) =
      inr (inr (inr (inr (inr (inr (inr (inr (inl ((notional_cap_exact ctx).1 h)))))))))

  -- The standard checklist refuses a trade exactly when some hazard speaks against it.
  pub refused_iff_Hazard :
      (ctx : PreTradeContext D T) → ((evaluate standard ctx).is_approved ≡ false) ↔ Hazard ctx
  unfolding evaluate
  refused_iff_Hazard ctx =
      let outcomes = gate ctx ++ map (run_check ctx) standard in
      let parts = Any-append (λ o. passes o.1 ≡ false) (gate ctx) (map (run_check ctx) standard) in
      (
        λ h. elim (parts.0 ((spoiler outcomes).0 h)) [
          | inl g ↦ killed ((gate_exact ctx).0 g)
          | inr c ↦ Hazard-of ctx c
        ],
        λ z. (spoiler outcomes).1 (
            parts.1
              (elim (failing_check ctx z) [ inl k ↦ inl ((gate_exact ctx).1 k) | inr c ↦ inr c ])),
      )
