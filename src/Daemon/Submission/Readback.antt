-- ===== src/Daemon/Submission/Readback.antt =====
-- An order that is inserted is read back by the code that applies its fills.
use mathlib.Core.Path.{subst}
use razortrade.Common.{
  ℕ, ◌≡◌, refl, Bool, true, false, ◌&&◌, Option, none, some, String, str_eq, ◌==◌, find?, inl, inr,
  Bool-cases, arith, str_eq_iff,
}
use razortrade.Decimal.{DecimalOps}
use razortrade.Formats.{IsoOps}
use razortrade.Core.Order.{Order, Side, buy, sell}
use razortrade.Persistence.Columns.{ok, TextOps, IsReadBack, parse}
use razortrade.Persistence.OrderRows.{OrderRow, is_text, is_id, pending_order_for_signal}
use razortrade.Persistence.Orders.{parse_side, parse_order}
use razortrade.Persistence.Orders.Pending.{OrderTable, insert_pending_order, pending_row, is_taken}
use razortrade.Daemon.SignalRows.{side_name}
use razortrade.Daemon.Submission.{pending_of}

abbrev pub is_purchase : Side → Bool
is_purchase buy = true
is_purchase sell = false

parse_side-side_name : (s : Side) → parse_side (side_name s) ≡ ok (is_purchase s)
parse_side-side_name buy = refl
parse_side-side_name sell = refl

named_text : (c : Option String) (cli : String) → c ≡ some cli → is_text c cli ≡ true
named_text c cli e = rw (e, is_text) ((str_eq_iff cli cli).1 refl)

eq_self : (n : ℕ) → (n == n) ≡ true
eq_self n = ground arith

none-not-some : {A : Type 0} {a : A} → none ≡ some a → ⊥
none-not-some h = ground arith

some-injective : {A : Type 0} {a b : A} → some a ≡ some b → a ≡ b
some-injective h = ground arith

module _ {D T X : Type 0} ⦃dec : DecimalOps D⦄ ⦃txt : TextOps D X⦄ ⦃iso : IsoOps T⦄
    (read : IsReadBack D X) where
  row-read :
      (o : Order D T) (signal_id id : ℕ) (now : T)
      → parse_order (pending_row txt.zero_text (pending_of o signal_id now) id)
        ≡ ok (record {
          is_buy = is_purchase o.side;
          quantity = o.quantity;
          old_filled = dec.zero;
          old_fees = dec.zero;
          old_avg = none;
        })
  unfolding parse_order
  row-read o signal_id id now =
      rw
        (parse_side-side_name o.side, parse, read.from_str-to_string o.quantity, read.from_str-zero)
        refl

  -- What the tables know of an order that has been inserted as row `id`.
  abbrev pub IsFound : Order D T → ℕ → String → OrderTable X × ℕ → Type 0
  IsFound o signal_id cli at_row =
      (r : OrderRow X) × (r.id ≡ at_row.1)
      × (find? (λ r. str_eq r.broker "kraken_futures" && is_text r.cli_ord_id cli) at_row.0.orders
          ≡ some r)
      × (pending_order_for_signal signal_id at_row.0.orders ≡ some r)
      × (parse_order r
          ≡ ok (record {
            is_buy = is_purchase o.side;
            quantity = o.quantity;
            old_filled = dec.zero;
            old_fees = dec.zero;
            old_avg = none;
          }))

  -- As long as printed decimals are read back: an order with a client id that is inserted is found
  -- by that id and as the pending order of its signal, and the code that applies fills reads back
  -- its side and quantity, nothing filled and no fees.
  pub inserted-IsFound :
      (o : Order D T) (signal_id : ℕ) (now : T) (t : OrderTable X) (cli : String)
      (r : OrderTable X × ℕ)
      → o.cli_ord_id ≡ some cli
      → insert_pending_order txt.zero_text (pending_of o signal_id now) t ≡ some r
      → IsFound o signal_id cli r
  unfolding insert_pending_order pending_order_for_signal
  inserted-IsFound o signal_id now t cli r named h =
      let row = pending_row txt.zero_text (pending_of o signal_id now) t.next_order in
      elim (Bool-cases (is_taken "kraken_futures" o.cli_ord_id t.orders)) [
        | inl e ↦ absurd (none-not-some (rw e at h))
        | inr e ↦ subst (IsFound o signal_id cli) (some-injective (rw e at h)) (
          row,
          refl,
          rw (find?, named_text o.cli_ord_id cli named) refl,
          rw (find?, is_id, eq_self signal_id) refl,
          row-read o signal_id t.next_order now,
        )
      ]
