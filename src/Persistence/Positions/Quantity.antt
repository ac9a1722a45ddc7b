-- ===== src/Persistence/Positions/Quantity.antt =====
-- A fill moves the open quantity of its instrument and broker by exactly its signed size.
use razortrade.Common.{
  ℕ, ◌≡◌, refl, sym, ap, ◌∙◌, true, false, Option, none, some, List, ◌∷◌, String, str_eq_iff, arith,
  Bool-cases, inl, inr,
}
use mathlib.Core.Path.{subst}
use razortrade.Common.Int.{◌+ℤ◌}
use razortrade.Decimal.{DecimalOps, ◌<ᵈ◌, ◌=ᵈ◌}
use razortrade.Persistence.Columns.{
  DbResult, ok, and_then, and_then-ok, ok-injective, TextOps, IsReadBack, IsExact,
}
use razortrade.Persistence.PositionRows.{
  PositionRow, PositionTable, PositionFill, OldPosition, Applied, matches, find_open, update_row,
  signed, fill_signed, same_side,
}
use razortrade.Persistence.Positions.{
  new_row, close_row, parse_row, open_position, added_position, add_to_position, reduce_position,
  close_position, flip_position, against_position, apply_to_old, apply_to_found,
  apply_fill_to_position,
}
use razortrade.Persistence.Positions.Signs.{zero_add, signed_rest}
use razortrade.Persistence.Positions.Table.{
  IsValid, KeepsKey, KeepsOpen, find-update-keeps, find-update-Closes,
}

module _ {D X : Type 0} ⦃dec : DecimalOps D⦄ ⦃txt : TextOps D X⦄ (read : IsReadBack D X)
    (exact : IsExact D) where
  -- The quantity of an open row, and zero without one.
  abbrev pub row_quantity : Option (PositionRow X) → Option D
  row_quantity none = some dec.zero
  row_quantity (some r) = txt.from_str r.quantity

  abbrev pub open_quantity : String → String → List (PositionRow X) → Option D
  open_quantity s b rows = row_quantity (find_open s b rows)

  find-new_row :
      (p : PositionFill D) (id : ℕ) (qty : D) (rows : List (PositionRow X))
      → find_open p.instrument_symbol p.broker (new_row p id qty ∷ rows) ≡ some (new_row p id qty)
  unfolding matches
  find-new_row p id qty rows =
      ground
        (arith, str_eq_iff p.instrument_symbol p.instrument_symbol, str_eq_iff p.broker p.broker)

  quantity-new_row :
      (p : PositionFill D) (id : ℕ) (qty : D) (rows : List (PositionRow X))
      → open_quantity p.instrument_symbol p.broker (new_row p id qty ∷ rows) ≡ some qty
  quantity-new_row p id qty rows =
      ap row_quantity (find-new_row p id qty rows) ∙ read.from_str-to_string qty

  -- What the theorem says of one outcome, for an open quantity before it.
  abbrev pub Moves : PositionFill D → D → Applied D X → Type 0
  Moves p q (t, o) =
      (open_quantity p.instrument_symbol p.broker t.rows ≡ some o.new_quantity)
      × (exact.value o.new_quantity ≡ exact.value q +ℤ exact.value (fill_signed p))

  keep_lem :
      (f : PositionRow X → PositionRow X) (s b : String) (t : PositionTable X) (row : PositionRow X)
      (id : ℕ) (qty : D)
      → KeepsKey f
      → KeepsOpen f
      → ((r : PositionRow X) → (f r).quantity ≡ txt.to_string qty)
      → IsValid t
      → find_open s b t.rows ≡ some row
      → id ≡ row.id
      → open_quantity s b (update_row id f t.rows) ≡ some qty
  keep_lem f s b t row id qty k o e v h i =
      ap (λ n. open_quantity s b (update_row n f t.rows)) i
      ∙ ap row_quantity (find-update-keeps f s b t.next_id t.rows row k o v.ids_below h).1
      ∙ ap txt.from_str (e row)
      ∙ read.from_str-to_string qty

  open_lem :
      (t : PositionTable X) (p : PositionFill D)
      → find_open p.instrument_symbol p.broker t.rows ≡ none
      → Moves p dec.zero (open_position t p)
  unfolding open_position ◌+ℤ◌
  open_lem t p h = (
    quantity-new_row p t.next_id (fill_signed p) t.rows,
    rw exact.value-zero (zero_add (exact.value (fill_signed p))),
  )

  add_lem :
      (t : PositionTable X) (p : PositionFill D) (old : OldPosition D) (row : PositionRow X)
      (entry : D)
      → IsValid t
      → find_open p.instrument_symbol p.broker t.rows ≡ some row
      → old.pos_id ≡ row.id
      → Moves p old.qty (added_position t p old entry)
  unfolding added_position
  add_lem t p old row entry v h i = (
    keep_lem _ p.instrument_symbol p.broker t row old.pos_id (dec.add old.qty (fill_signed p))
        (record { symbol = λ r. refl; broker = λ r. refl; id = λ r. refl }) (λ r. refl) (λ r. refl)
        v h i,
    exact.value-add old.qty (fill_signed p),
  )

  reduce_lem :
      (t : PositionTable X) (p : PositionFill D) (old : OldPosition D) (row : PositionRow X)
      (pnl : D)
      → IsValid t
      → find_open p.instrument_symbol p.broker t.rows ≡ some row
      → old.pos_id ≡ row.id
      → Moves p old.qty (reduce_position t p old pnl)
  unfolding reduce_position
  reduce_lem t p old row pnl v h i = (
    keep_lem _ p.instrument_symbol p.broker t row old.pos_id (dec.add old.qty (fill_signed p))
        (record { symbol = λ r. refl; broker = λ r. refl; id = λ r. refl }) (λ r. refl) (λ r. refl)
        v h i,
    exact.value-add old.qty (fill_signed p),
  )

  close_lem :
      (t : PositionTable X) (p : PositionFill D) (old : OldPosition D) (row : PositionRow X)
      (pnl : D)
      → IsValid t
      → find_open p.instrument_symbol p.broker t.rows ≡ some row
      → old.pos_id ≡ row.id
      → same_side p.is_buy old.qty ≡ false
      → (p.fill_qty =ᵈ dec.abs old.qty) ≡ true
      → Moves p old.qty (close_position t p old pnl)
  unfolding close_position
  close_lem t p old row pnl v h i d e = (
    ap
          (λ n. open_quantity p.instrument_symbol p.broker (
            update_row n (close_row p.now_iso (dec.add old.realized_btc (dec.mul old.qty pnl)))
              t.rows))
          i
        ∙ ap row_quantity
            (find-update-Closes
              (close_row p.now_iso (dec.add old.realized_btc (dec.mul old.qty pnl)))
              p.instrument_symbol p.broker t.next_id t.rows row
              (record { symbol = λ r. refl; broker = λ r. refl; id = λ r. refl }) (λ r. refl)
              v.ids_below (v.at_most_one p.instrument_symbol p.broker) h).1,
    exact.value-zero ∙ sym ((signed_rest exact p.is_buy p.fill_qty old.qty d).1 e),
  )

  flip_lem :
      (t : PositionTable X) (p : PositionFill D) (old : OldPosition D) (pnl : D)
      → same_side p.is_buy old.qty ≡ false
      → Moves p old.qty (flip_position t p old pnl)
  unfolding flip_position
  flip_lem t p old pnl d = (
    quantity-new_row p t.next_id (signed p.is_buy (dec.sub p.fill_qty (dec.abs old.qty))) _,
    (signed_rest exact p.is_buy p.fill_qty old.qty d).0,
  )

  against_lem :
      (t : PositionTable X) (p : PositionFill D) (old : OldPosition D) (row : PositionRow X)
      (pnl : D)
      → IsValid t
      → find_open p.instrument_symbol p.broker t.rows ≡ some row
      → old.pos_id ≡ row.id
      → same_side p.is_buy old.qty ≡ false
      → Moves p old.qty (against_position t p old pnl)
  unfolding against_position
  against_lem t p old row pnl v h i d = elim (Bool-cases (p.fill_qty <ᵈ dec.abs old.qty)) [
    | inl less ↦ rw less (reduce_lem t p old row pnl v h i)
    | inr more ↦ elim (Bool-cases (dec.abs old.qty <ᵈ p.fill_qty)) [
      | inl over ↦ rw more (rw over (flip_lem t p old pnl d))
      | inr same ↦
          rw more (rw same (close_lem t p old row pnl v h i d (ground (arith, more, same))))
    ]
  ]

  parse_row_lem :
      (row : PositionRow X) (old : OldPosition D)
      → parse_row row ≡ ok old
      → (old.pos_id ≡ row.id) × (txt.from_str row.quantity ≡ some old.qty)
  unfolding parse_row
  parse_row_lem row old e = ground arith

  added_lem :
      (t : PositionTable X) (p : PositionFill D) (old : OldPosition D) (row : PositionRow X)
      (entry : DbResult D) (a : Applied D X)
      → IsValid t
      → find_open p.instrument_symbol p.broker t.rows ≡ some row
      → old.pos_id ≡ row.id
      → and_then entry (λ c. ok (added_position t p old c)) ≡ ok a
      → Moves p old.qty a
  added_lem t p old row entry a v h i e =
      let (c, _, same) = and_then-ok entry (λ c. ok (added_position t p old c)) e in
      subst (Moves p old.qty) {x = added_position t p old c} (ok-injective same)
        (add_lem t p old row c v h i)

  opposed_lem :
      (t : PositionTable X) (p : PositionFill D) (old : OldPosition D) (row : PositionRow X)
      (pnl : DbResult D) (a : Applied D X)
      → IsValid t
      → find_open p.instrument_symbol p.broker t.rows ≡ some row
      → old.pos_id ≡ row.id
      → same_side p.is_buy old.qty ≡ false
      → and_then pnl (λ c. ok (against_position t p old c)) ≡ ok a
      → Moves p old.qty a
  opposed_lem t p old row pnl a v h i d e =
      let (c, _, same) = and_then-ok pnl (λ c. ok (against_position t p old c)) e in
      subst (Moves p old.qty) {x = against_position t p old c} (ok-injective same)
        (against_lem t p old row c v h i d)

  apply_to_old_lem :
      (t : PositionTable X) (p : PositionFill D) (old : OldPosition D) (row : PositionRow X)
      (a : Applied D X)
      → IsValid t
      → find_open p.instrument_symbol p.broker t.rows ≡ some row
      → old.pos_id ≡ row.id
      → apply_to_old t p old ≡ ok a
      → Moves p old.qty a
  unfolding apply_to_old add_to_position
  apply_to_old_lem t p old row a v h i e = elim (Bool-cases (same_side p.is_buy old.qty)) [
    | inl d ↦ added_lem t p old row _ a v h i (rw d at e)
    | inr d ↦ opposed_lem t p old row _ a v h i d (rw d at e)
  ]

  found_lem :
      (t : PositionTable X) (p : PositionFill D) (found : Option (PositionRow X)) (a : Applied D X)
      → IsValid t
      → find_open p.instrument_symbol p.broker t.rows ≡ found
      → apply_to_found t p found ≡ ok a
      → (q : D) × (row_quantity found ≡ some q) × Moves p q a
  unfolding apply_to_found
  found_lem t p none a v h e = (
    dec.zero,
    refl,
    subst (Moves p dec.zero) {x = open_position t p} (ok-injective e) (open_lem t p h),
  )
  found_lem t p (some row) a v h e =
      let (old, parsed, applied) = and_then-ok (parse_row row) (λ o. apply_to_old t p o) e in
      let (i, q) = parse_row_lem row old parsed in
      (old.qty, q, apply_to_old_lem t p old row a v h i applied)

  -- As long as decimals are exact and their texts are read back: if a fill is applied to a valid
  -- table, the open quantity of its instrument and broker, zero
  -- without an open row, moves by exactly the signed fill, whichever of the five transitions it is;
  -- the outcome reports the new quantity.
  pub fill-Moves :
      (t : PositionTable X) (p : PositionFill D) (a : Applied D X)
      → IsValid t
      → apply_fill_to_position t p ≡ ok a
      → (q : D) × (open_quantity p.instrument_symbol p.broker t.rows ≡ some q) × Moves p q a
  unfolding apply_fill_to_position
  fill-Moves t p a v e = found_lem t p (find_open p.instrument_symbol p.broker t.rows) a v refl e
