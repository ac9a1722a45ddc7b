-- ===== src/Daemon/FillReconciler/Halves.antt =====
-- What is left when the order takes a fill and the position does not.
use mathlib.Core.Path.{subst}
use mathlib.Core.Option
use razortrade.Common.{ℕ, ◌≡◌, refl, ap, sym, ◌∙◌, false, some, List, String}
use razortrade.Decimal.{DecimalOps}
use razortrade.Futures.Messages.{FillEntry}
use razortrade.Persistence.Columns.{ok, decimal_error, TextOps, IsReadBack}
use razortrade.Persistence.Positions.{apply_fill_to_position}
use razortrade.Persistence.OrderRows.{OrderRow, OrderFillOutcome, find_order}
use razortrade.Persistence.Orders.{apply_fill_to_order}
use razortrade.Persistence.Orders.Fills.{Applies, Accumulates, fill_accumulates}
use razortrade.Daemon.FillReconciler.{
  Database, stopped, broker_tag, has_fill_been_applied, after_position, update_position, order_fill,
  position_fill, after_order, reconcile_fill,
}

module _ {D X : Type 0} ⦃dec : DecimalOps D⦄ ⦃txt : TextOps D X⦄ where
  -- The turn for the fill takes the order to `orders`, and a column of its position does not parse.
  abbrev pub Refuses : Database X → FillEntry D → String → List (OrderRow X) → Type 0
  Refuses db f now orders =
      (o : OrderFillOutcome D) × (sleeve : String) × (column : String) × (apply_fill_to_order
          db.orders db.signals (order_fill f now)
        ≡ ok (orders, some o))
      × (o.sleeve ≡ some sleeve)
      × (apply_fill_to_position db.positions (position_fill f o sleeve now) ≡ decimal_error column)

  refused_turn :
      (db : Database X) (mark : ℕ) (f : FillEntry D) (now : String) (orders : List (OrderRow X))
      → has_fill_been_applied db broker_tag f.fill_id ≡ false
      → Refuses db f now orders
      → reconcile_fill db mark f now ≡ stopped (record db { orders = orders }) mark
  unfolding reconcile_fill after_order update_position after_position
  refused_turn db mark f now orders new (o, sleeve, column, filled, known, bad) =
      rw new (rw filled (rw known (rw bad refl)))

  module _ (read : IsReadBack D X) where
    raised :
        (db : Database X) (f : FillEntry D) (now : String) (orders : List (OrderRow X))
        (r : OrderRow X)
        → find_order f.order_id db.orders ≡ some r
        → Refuses db f now orders
        → (r' : OrderRow X) × (find_order f.order_id orders ≡ some r')
          × Accumulates read (order_fill f now) r r'
    raised db f now orders r found (o, sleeve, column, filled, known, bad) =
        subst (λ q. Applies read db.orders (order_fill f now) q (orders, some o)) found
          (fill_accumulates read db.orders db.signals (order_fill f now) (orders, some o) filled)

    -- As long as printed decimals are read back: if two turns in succession find the same new fill
    -- with a position that has a column that does not parse, each ends the pass with the order
    -- changed, the positions as before and the fill not recorded, so that after the second turn the
    -- filled quantity of the order has grown by the fill twice.
    pub half_applied :
        (db : Database X) (mark : ℕ) (f : FillEntry D) (now later : String)
        (once twice : List (OrderRow X)) (r : OrderRow X)
        → has_fill_been_applied db broker_tag f.fill_id ≡ false
        → find_order f.order_id db.orders ≡ some r
        → Refuses db f now once
        → Refuses (record db { orders = once }) f later twice
        → (reconcile_fill db mark f now ≡ stopped (record db { orders = once }) mark)
          × (reconcile_fill (record db { orders = once }) mark f later
              ≡ stopped (record db { orders = twice }) mark)
          × ((filled : D) × (r'' : OrderRow X) × (txt.from_str r.filled_quantity ≡ some filled)
              × (find_order f.order_id twice ≡ some r'')
              × (txt.from_str r''.filled_quantity ≡ some (dec.add (dec.add filled f.qty) f.qty)))
    unfolding has_fill_been_applied
    half_applied db mark f now later once twice r new found first second =
        let left : Database X = record db { orders = once } in
        let (r', found', a) = raised db f now once r found first in
        let (r'', found'', a') = raised left f later twice r' found' second in
        let same : some (a'.filled) ≡ some (dec.add a.filled f.qty) =
          sym a'.reads_filled ∙ a.new_filled in
        (
          refused_turn db mark f now once new first,
          refused_turn left mark f later twice new second,
          (
            a.filled,
            r'',
            a.reads_filled,
            found'',
            a'.new_filled ∙ ap (Option.map (λ d. dec.add d f.qty)) same,
          ),
        )
