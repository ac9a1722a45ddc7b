-- ===== src/Persistence/Positions/Signs.antt =====
-- The arithmetic of a fill on the opposite side of a position.
use razortrade.Common.{◌≡◌, sym, ap, ◌∙◌, Bool, true, false, arith}
use razortrade.Common.Int.{ℤ, pos, negsuc, ◌+ℤ◌, ◌-ℤ◌, neg, magnitude, ltb_ℤ}
use razortrade.Decimal.{DecimalOps, ◌=ᵈ◌}
use razortrade.Persistence.Columns.{IsExact}
use razortrade.Persistence.PositionRows.{signed, same_side}

pub zero_add : (a : ℤ) → a ≡ pos 0 +ℤ a
unfolding ◌+ℤ◌
zero_add a = ground arith

-- A long position taken off by a sale, and a short one by a purchase.
buy_rest :
    (f q : ℤ)
    → ltb_ℤ (pos 0) q ≡ false
    → (f -ℤ pos (magnitude q) ≡ q +ℤ f)
      × ((ltb_ℤ f (pos (magnitude q)) ≡ false)
          → (ltb_ℤ (pos (magnitude q)) f ≡ false)
          → q +ℤ f ≡ pos 0)
unfolding ◌+ℤ◌ ◌-ℤ◌
buy_rest f (pos n) h = (ground arith, λ a b. ground arith)
buy_rest f (negsuc n) h = (ground arith, λ a b. ground arith)

sell_rest :
    (f q : ℤ)
    → ltb_ℤ q (pos 0) ≡ false
    → (neg (f -ℤ pos (magnitude q)) ≡ q +ℤ neg f)
      × ((ltb_ℤ f (pos (magnitude q)) ≡ false)
          → (ltb_ℤ (pos (magnitude q)) f ≡ false)
          → q +ℤ neg f ≡ pos 0)
unfolding ◌+ℤ◌ ◌-ℤ◌
sell_rest f (pos n) h = (ground arith, λ a b. ground arith)
sell_rest f (negsuc n) h = absurd (ground arith)

module _ {D : Type 0} ⦃dec : DecimalOps D⦄ (exact : IsExact D) where
  -- The rest of a fill on the opposite side, once the old position is taken off.
  pub signed_rest :
      (buy : Bool) (fill qty : D)
      → same_side buy qty ≡ false
      → (exact.value (signed buy (dec.sub fill (dec.abs qty)))
          ≡ exact.value qty +ℤ exact.value (signed buy fill))
        × (((fill =ᵈ dec.abs qty) ≡ true)
            → exact.value qty +ℤ exact.value (signed buy fill) ≡ pos 0)
  signed_rest true fill qty h =
      let (moved, zero) =
        buy_rest (exact.value fill) (exact.value qty) (ground (arith, exact.sign_positive qty)) in
      let size = exact.value-abs qty in
      (
        exact.value-sub fill (dec.abs qty) ∙ ap (λ a. exact.value fill -ℤ a) size ∙ moved,
        λ e.
            zero (ground (arith, e, exact.value-lt fill (dec.abs qty), size))
              (ground (arith, e, exact.value-lt (dec.abs qty) fill, size)),
      )
  signed_rest false fill qty h =
      let (moved, zero) =
        sell_rest (exact.value fill) (exact.value qty)
          (ground (arith, exact.sign_negative qty, exact.sign-not qty)) in
      let size = exact.value-abs qty in
      let negated = ap (λ a. exact.value qty +ℤ a) (exact.value-neg fill) in
      (
        exact.value-neg (dec.sub fill (dec.abs qty))
            ∙ ap neg (exact.value-sub fill (dec.abs qty) ∙ ap (λ a. exact.value fill -ℤ a) size)
            ∙ moved
            ∙ sym negated,
        λ e.
            negated
            ∙ zero (ground (arith, e, exact.value-lt fill (dec.abs qty), size))
                (ground (arith, e, exact.value-lt (dec.abs qty) fill, size)),
      )
