-- ===== src/Persistence/Orders/Fills.antt =====
-- What a fill does to its order.
use razortrade.Common.{
  ℕ, ◌≡◌, ◌↔◌, ◌⊎◌, inl, inr, refl, Bool, true, false, Option, none, some, List, [], ◌∷◌, String,
  str_eq, str_eq_iff, arith, Bool-cases,
}
use mathlib.Core.Path.{subst}
use razortrade.Decimal.{DecimalOps, ◌≤ᵈ◌}
use razortrade.Persistence.Columns.{ok, and_then-ok, ok-injective, TextOps, IsReadBack}
use razortrade.Persistence.OrderRows.{
  backfill_broker_order_id, OrderRow, OrderFill, ParsedOrder, Filled, find_order, update_order,
  sleeve_of,
}
use razortrade.Persistence.Orders.{
  status_of, next_status, filled_row, parse_order, new_average, fill_row, fill_parsed, fill_found,
  apply_fill_to_order,
}

module _ {X : Type 0} where
  -- The row that a broker id finds, after an update of it that keeps that id.
  find-update_order :
      (f : OrderRow X → OrderRow X) (b : String) (rows : List (OrderRow X)) (r : OrderRow X)
      → ((q : OrderRow X) → (f q).broker_order_id ≡ q.broker_order_id)
      → find_order b rows ≡ some r
      → find_order b (update_order r.id f rows) ≡ some (f r)
  unfolding find_order update_order
  find-update_order f b [] r k h = absurd (ground arith)
  find-update_order f b (q ∷ rows) r k h = ground (arith, k q, find-update_order f b rows r k)

partially_filled-ne-filled : ¬ (status_of false ≡ status_of true)
partially_filled-ne-filled h =
    let e : false ≡ true = (str_eq_iff "partially_filled" "filled").1 h in ground arith

-- The same for a status that is not 'filled'.
by_full :
    (s : String)
    → str_eq s "filled" ≡ false
    → (full : Bool)
    → ((status_of full ≡ "filled") ↔ ((s ≡ "filled") ⊎ (full ≡ true)))
      × ((status_of full ≡ "filled") ⊎ (status_of full ≡ "partially_filled"))
by_full s n true = ((λ h. inr refl, λ h. refl), inl refl)
by_full s n false = (
  (
    λ h. absurd (partially_filled-ne-filled h),
    λ h. absurd (elim h [
      | inl e ↦ let t = (str_eq_iff s "filled").1 e in ground arith
      | inr f ↦ ground arith
    ]),
  ),
  inr refl,
)

next_status_lem :
    (s : String) (full : Bool)
    → ((next_status s full ≡ "filled") ↔ ((s ≡ "filled") ⊎ (full ≡ true)))
      × ((next_status s full ≡ "filled") ⊎ (next_status s full ≡ "partially_filled"))
next_status_lem s full = elim (Bool-cases (str_eq s "filled")) [
  | inl e ↦ rw e ((λ h. inl ((str_eq_iff s "filled").0 e), λ h. refl), inl refl)
  | inr n ↦ rw n (by_full s n full)
]

module _ {D X : Type 0} ⦃dec : DecimalOps D⦄ ⦃txt : TextOps D X⦄ (read : IsReadBack D X) where
  -- The order before and after a fill: the filled quantity has grown by the fill, and the status is
  -- 'filled' exactly if it was so before or the order is now full, and else 'partially_filled'.
  pub record Accumulates (p : OrderFill D) (r r' : OrderRow X) : Type 0 where
    pub total : D
    pub filled : D
    pub reads_total : txt.from_str r.quantity ≡ some total
    pub reads_filled : txt.from_str r.filled_quantity ≡ some filled
    pub new_filled : txt.from_str r'.filled_quantity ≡ some (dec.add filled p.fill_qty)
    pub full_iff :
        (r'.status ≡ "filled")
        ↔ ((r.status ≡ "filled") ⊎ ((total ≤ᵈ dec.add filled p.fill_qty) ≡ true))
    pub else_partial : (r'.status ≡ "filled") ⊎ (r'.status ≡ "partially_filled")

  parse_order_lem :
      (r : OrderRow X) (o : ParsedOrder D)
      → parse_order r ≡ ok o
      → (txt.from_str r.quantity ≡ some o.quantity)
        × (txt.from_str r.filled_quantity ≡ some o.old_filled)
  unfolding parse_order
  parse_order_lem r o e = ground arith

  fill_row_lem :
      (rows : List (OrderRow X)) (sleeve : Option String) (p : OrderFill D) (r : OrderRow X)
      (o : ParsedOrder D) (average : D)
      → find_order p.broker_order_id rows ≡ some r
      → parse_order r ≡ ok o
      → (r' : OrderRow X) × (find_order p.broker_order_id (fill_row rows sleeve p r o average).0
          ≡ some r')
        × Accumulates p r r'
  unfolding fill_row
  fill_row_lem rows sleeve p r o average h e =
      let filled = dec.add o.old_filled p.fill_qty in
      let full = o.quantity ≤ᵈ filled in
      let fees = dec.add o.old_fees p.fee in
      let f = filled_row p filled average fees (next_status r.status full) in
      let (total, before) = parse_order_lem r o e in
      let (iff, either) = next_status_lem r.status full in
      (
        f r,
        find-update_order f p.broker_order_id rows r (λ q. refl) h,
        record {
          total = o.quantity;
          filled = o.old_filled;
          reads_total = total;
          reads_filled = before;
          new_filled = read.from_str-to_string filled;
          full_iff = iff;
          else_partial = either;
        },
      )

  -- What the theorem says, by the row that the broker id found.
  abbrev pub Applies : List (OrderRow X) → OrderFill D → Option (OrderRow X) → Filled D X → Type 0
  Applies rows p none (rows', o) = (rows' ≡ rows) × (o ≡ none)
  Applies rows p (some r) (rows', o) =
      (r' : OrderRow X) × (find_order p.broker_order_id rows' ≡ some r') × Accumulates p r r'

  fill_found_lem :
      (rows : List (OrderRow X)) (signals : List (ℕ × String)) (p : OrderFill D)
      (found : Option (OrderRow X)) (a : Filled D X)
      → find_order p.broker_order_id rows ≡ found
      → fill_found rows signals p found ≡ ok a
      → Applies rows p found a
  unfolding fill_found fill_parsed
  fill_found_lem rows signals p none a h e =
      subst (Applies rows p none) {x = (rows, none)} (ok-injective e) (refl, refl)
  fill_found_lem rows signals p (some r) a h e =
      let sleeve = sleeve_of r.signal_id signals in
      let (o, parsed, filled) =
        and_then-ok (parse_order r) (λ o. fill_parsed rows sleeve p r o) e in
      let (average, _, same) =
        and_then-ok (new_average o.old_filled o.old_avg p.fill_qty p.fill_price)
          (λ average. ok (fill_row rows sleeve p r o average)) filled in
      subst (Applies rows p (some r)) {x = fill_row rows sleeve p r o average} (ok-injective same)
        (fill_row_lem rows sleeve p r o average h parsed)

  -- If applying a fill succeeds: for an unknown broker id the table is unchanged and there is no
  -- outcome; else the order that the id finds has its filled quantity raised by the fill, and its
  -- status is 'filled' exactly if it was so before or the order is now full, and else
  -- 'partially_filled'.
  pub fill_accumulates :
      (rows : List (OrderRow X)) (signals : List (ℕ × String)) (p : OrderFill D) (a : Filled D X)
      → apply_fill_to_order rows signals p ≡ ok a
      → Applies rows p (find_order p.broker_order_id rows) a
  unfolding apply_fill_to_order
  fill_accumulates rows signals p a e =
      fill_found_lem rows signals p (find_order p.broker_order_id rows) a refl e

module _ {X : Type 0} where
  -- A broker id is filled in only once: a second attempt, whatever id and time it brings, changes
  -- no row of the table.
  pub backfill_once :
      (rows : List (OrderRow X)) (id : ℕ) (first second now later : String)
      → let once = backfill_broker_order_id id first now rows in
        backfill_broker_order_id id second later once ≡ once
  unfolding backfill_broker_order_id update_order
  backfill_once [] id first second now later = refl
  backfill_once (r ∷ rows) id first second now later =
      ground (arith, backfill_once rows id first second now later)
