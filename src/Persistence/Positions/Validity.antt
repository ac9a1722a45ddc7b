-- ===== src/Persistence/Positions/Validity.antt =====
-- Fills keep the table valid: ids stay distinct and no key gets two open positions.
use razortrade.Common.{
  ℕ, ◌≡◌, refl, sym, ap, ◌∙◌, Option, none, some, String, str_eq_iff, arith, Bool-cases, inl, inr,
  ◌⊎◌,
}
use mathlib.Core.Path.{subst}
use razortrade.Decimal.{DecimalOps, ◌<ᵈ◌}
use razortrade.Persistence.Columns.{DbResult, ok, and_then, and_then-ok, ok-injective, TextOps}
use razortrade.Persistence.PositionRows.{
  PositionRow, PositionTable, PositionFill, OldPosition, Applied, matches, find_open, update_row,
  same_side,
}
use razortrade.Persistence.Positions.{
  insert_row, close_row, parse_row, open_position, added_position, add_to_position, reduce_position,
  close_position, flip_position, against_position, apply_to_old, apply_to_found,
  apply_fill_to_position,
}
use razortrade.Persistence.Positions.Table.{
  IsValid, KeepsKey, KeepsOpen, Closes, update-IdsBelow, update-AtMostOne, find-update-Closes,
}

module _ {X : Type 0} where
  update-IsValid :
      (f : PositionRow X → PositionRow X) (id : ℕ) (t : PositionTable X)
      → KeepsKey f
      → KeepsOpen f ⊎ Closes f
      → IsValid t
      → IsValid (record t { rows = update_row id f t.rows })
  update-IsValid f id t k o v = record {
    ids_below = update-IdsBelow id f t.next_id t.rows k v.ids_below;
    at_most_one = λ s b. update-AtMostOne id f s b t.rows k o (v.at_most_one s b);
  }

module _ {D X : Type 0} ⦃dec : DecimalOps D⦄ ⦃txt : TextOps D X⦄ where
  insert-IsValid :
      (p : PositionFill D) (qty : D) (t : PositionTable X)
      → IsValid t
      → find_open p.instrument_symbol p.broker t.rows ≡ none
      → IsValid (insert_row p qty t.rows t.next_id)
  unfolding matches
  insert-IsValid p qty t v h = record {
    ids_below = (omega arith, v.ids_below);
    at_most_one = λ s b. (
      λ m.
          let same : (p.instrument_symbol ≡ s) × (p.broker ≡ b) =
            ground (arith, m, str_eq_iff p.instrument_symbol s, str_eq_iff p.broker b) in
          ap (λ k. find_open k b t.rows) (sym same.0)
          ∙ ap (λ k. find_open p.instrument_symbol k t.rows) (sym same.1)
          ∙ h,
      v.at_most_one s b,
    );
  }

  closed_row-keeps : (now : String) (d : D) → KeepsKey {X = X} (close_row now d)
  closed_row-keeps now d = record { symbol = λ r. refl; broker = λ r. refl; id = λ r. refl }

  added-IsValid :
      (t : PositionTable X) (p : PositionFill D) (old : OldPosition D) (entry : D)
      → IsValid t
      → IsValid (added_position t p old entry).0
  unfolding added_position
  added-IsValid t p old entry v =
      update-IsValid _ old.pos_id t
        (record { symbol = λ r. refl; broker = λ r. refl; id = λ r. refl }) (inl (λ r. refl)) v

  reduced-IsValid :
      (t : PositionTable X) (p : PositionFill D) (old : OldPosition D) (pnl : D)
      → IsValid t
      → IsValid (reduce_position t p old pnl).0
  unfolding reduce_position
  reduced-IsValid t p old pnl v =
      update-IsValid _ old.pos_id t
        (record { symbol = λ r. refl; broker = λ r. refl; id = λ r. refl }) (inl (λ r. refl)) v

  closed-IsValid :
      (t : PositionTable X) (p : PositionFill D) (old : OldPosition D) (pnl : D)
      → IsValid t
      → IsValid (close_position t p old pnl).0
  unfolding close_position
  closed-IsValid t p old pnl v =
      let now = p.now_iso in
      update-IsValid _ old.pos_id t
        (closed_row-keeps now (dec.add old.realized_btc (dec.mul old.qty pnl))) (inr (λ r. refl)) v

  flipped-IsValid :
      (t : PositionTable X) (p : PositionFill D) (old : OldPosition D) (row : PositionRow X)
      (pnl : D)
      → IsValid t
      → find_open p.instrument_symbol p.broker t.rows ≡ some row
      → old.pos_id ≡ row.id
      → IsValid (flip_position t p old pnl).0
  unfolding flip_position close_position
  flipped-IsValid t p old row pnl v h i =
      let realized = dec.add old.realized_btc (dec.mul old.qty pnl) in
      let closing = close_row p.now_iso realized in
      insert-IsValid p _ (close_position t p old pnl).0 (closed-IsValid t p old pnl v) (
        ap (λ n. find_open p.instrument_symbol p.broker (update_row n closing t.rows)) i
        ∙ (find-update-Closes closing p.instrument_symbol p.broker t.next_id t.rows row
            (closed_row-keeps p.now_iso realized) (λ r. refl) v.ids_below
            (v.at_most_one p.instrument_symbol p.broker) h).1)

  against-IsValid :
      (t : PositionTable X) (p : PositionFill D) (old : OldPosition D) (row : PositionRow X)
      (pnl : D)
      → IsValid t
      → find_open p.instrument_symbol p.broker t.rows ≡ some row
      → old.pos_id ≡ row.id
      → IsValid (against_position t p old pnl).0
  unfolding against_position
  against-IsValid t p old row pnl v h i = elim (Bool-cases (p.fill_qty <ᵈ dec.abs old.qty)) [
    | inl less ↦ rw less (reduced-IsValid t p old pnl v)
    | inr more ↦ elim (Bool-cases (dec.abs old.qty <ᵈ p.fill_qty)) [
      | inl over ↦ rw more (rw over (flipped-IsValid t p old row pnl v h i))
      | inr same ↦ rw more (rw same (closed-IsValid t p old pnl v))
    ]
  ]

  added_step :
      (t : PositionTable X) (p : PositionFill D) (old : OldPosition D) (entry : DbResult D)
      (a : Applied D X)
      → IsValid t
      → and_then entry (λ c. ok (added_position t p old c)) ≡ ok a
      → IsValid a.0
  added_step t p old entry a v e =
      let (c, _, same) = and_then-ok entry (λ c. ok (added_position t p old c)) e in
      subst (λ a. IsValid a.0) {x = added_position t p old c} (ok-injective same)
        (added-IsValid t p old c v)

  against_step :
      (t : PositionTable X) (p : PositionFill D) (old : OldPosition D) (row : PositionRow X)
      (pnl : DbResult D) (a : Applied D X)
      → IsValid t
      → find_open p.instrument_symbol p.broker t.rows ≡ some row
      → old.pos_id ≡ row.id
      → and_then pnl (λ c. ok (against_position t p old c)) ≡ ok a
      → IsValid a.0
  against_step t p old row pnl a v h i e =
      let (c, _, same) = and_then-ok pnl (λ c. ok (against_position t p old c)) e in
      subst (λ a. IsValid a.0) {x = against_position t p old c} (ok-injective same)
        (against-IsValid t p old row c v h i)

  parsed_id :
      (row : PositionRow X) (old : OldPosition D) → parse_row row ≡ ok old → old.pos_id ≡ row.id
  unfolding parse_row
  parsed_id row old e = ground arith

  old_step :
      (t : PositionTable X) (p : PositionFill D) (old : OldPosition D) (row : PositionRow X)
      (a : Applied D X)
      → IsValid t
      → find_open p.instrument_symbol p.broker t.rows ≡ some row
      → old.pos_id ≡ row.id
      → apply_to_old t p old ≡ ok a
      → IsValid a.0
  unfolding apply_to_old add_to_position
  old_step t p old row a v h i e = elim (Bool-cases (same_side p.is_buy old.qty)) [
    | inl d ↦ added_step t p old _ a v (rw d at e)
    | inr d ↦ against_step t p old row _ a v h i (rw d at e)
  ]

  found_step :
      (t : PositionTable X) (p : PositionFill D) (found : Option (PositionRow X)) (a : Applied D X)
      → IsValid t
      → find_open p.instrument_symbol p.broker t.rows ≡ found
      → apply_to_found t p found ≡ ok a
      → IsValid a.0
  unfolding apply_to_found open_position
  found_step t p none a v h e =
      subst (λ a. IsValid a.0) {x = open_position t p} (ok-injective e) (insert-IsValid p _ t v h)
  found_step t p (some row) a v h e =
      let (old, parsed, applied) = and_then-ok (parse_row row) (λ o. apply_to_old t p o) e in
      old_step t p old row a v h (parsed_id row old parsed) applied

  -- A fill that is applied to a valid table leaves it valid: ids are distinct, and there is at most
  -- one open position for each instrument and broker, also after a flip.
  pub fill-IsValid :
      (t : PositionTable X) (p : PositionFill D) (a : Applied D X)
      → IsValid t
      → apply_fill_to_position t p ≡ ok a
      → IsValid a.0
  unfolding apply_fill_to_position
  fill-IsValid t p a v e = found_step t p (find_open p.instrument_symbol p.broker t.rows) a v refl e
