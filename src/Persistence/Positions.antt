-- ===== src/Persistence/Positions.antt =====
-- The fills applied to the table `positions` (crates/rt-persistence/src/repo.rs). A statement that fails leaves the
-- transaction uncommitted, so that the table is as before.
pub mod Table
pub mod Signs
pub mod Quantity
pub mod Validity
use razortrade.Common.{ℕ, ◌+◌, Option, none, some, List, ◌∷◌, String, if◌then◌else◌}
use razortrade.Decimal.{DecimalOps, ◌<ᵈ◌, ◌=ᵈ◌}
use razortrade.Persistence.Columns.{DbResult, ok, and_then, TextOps, parse, divide}
use razortrade.Persistence.PositionRows.{
  Applied, OldPosition, PositionFill, PositionRow, PositionTable, added, closed, fill_signed,
  find_open, flipped, inverse_pnl_per_contract, opened, reduced, same_side, signed, update_row,
}

module _ {D X : Type 0} ⦃dec : DecimalOps D⦄ ⦃txt : TextOps D X⦄ where
  -- INSERT INTO positions …: a fresh open row.
  abbrev pub new_row : PositionFill D → ℕ → D → PositionRow X
  new_row p id qty = record {
    id = id;
    instrument_symbol = p.instrument_symbol;
    broker = p.broker;
    sleeve = p.sleeve;
    quantity = txt.to_string qty;
    avg_entry_price = txt.to_string p.fill_price;
    leverage = txt.one_text;
    liquidation_price = none;
    opened_at = p.now_iso;
    updated_at = p.now_iso;
    closed_at = none;
    realized_pnl_chf = none;
    realized_pnl_btc = some txt.zero_text;
  }

  abbrev pub insert_row : PositionFill D → D → List (PositionRow X) → ℕ → PositionTable X
  insert_row p qty rows id = record { rows = new_row p id qty ∷ rows; next_id = id + 1 }

  -- A missing or empty realised PnL is zero.
  abbrev pub parse_realized : Option X → DbResult D
  parse_realized none = ok dec.zero
  parse_realized (some x) =
      if txt.is_empty x then ok dec.zero else parse "positions.realized_pnl_btc" x

  unfoldable pub parse_row : PositionRow X → DbResult (OldPosition D)
  parse_row r = and_then (parse "positions.quantity" r.quantity) λ qty.
      and_then (parse "positions.avg_entry_price" r.avg_entry_price) λ entry.
        and_then (parse_realized r.realized_pnl_btc) λ realized.
          ok (record { pos_id = r.id; qty = qty; entry = entry; realized_btc = realized })

  -- SET quantity = '0', closed_at = ?, updated_at = ?, realized_pnl_btc = ?
  abbrev pub close_row : String → D → PositionRow X → PositionRow X
  close_row now realized r = record r {
    quantity = txt.zero_text;
    closed_at = some now;
    updated_at = now;
    realized_pnl_btc = some (txt.to_string realized);
  }

  unfoldable pub open_position : PositionTable X → PositionFill D → Applied D X
  open_position t p = (
    insert_row p (fill_signed p) t.rows t.next_id,
    record {
      position_id = t.next_id;
      new_quantity = fill_signed p;
      new_avg_entry_price = some p.fill_price;
      realized_pnl_btc = dec.zero;
      transition = opened;
    },
  )

  -- The statement and the outcome for a larger position.
  unfoldable pub added_position : PositionTable X → PositionFill D → OldPosition D → D → Applied D X
  added_position t p old new_entry =
      let new_qty = dec.add old.qty (fill_signed p) in
      (
        record t {
          rows =
              update_row old.pos_id
                (λ r. record r {
                  quantity = txt.to_string new_qty;
                  avg_entry_price = txt.to_string new_entry;
                  updated_at = p.now_iso;
                })
                t.rows;
        },
        record {
          position_id = old.pos_id;
          new_quantity = new_qty;
          new_avg_entry_price = some new_entry;
          realized_pnl_btc = dec.zero;
          transition = added;
        },
      )

  unfoldable pub add_to_position :
      PositionTable X → PositionFill D → OldPosition D → DbResult (Applied D X)
  unfolding added_position
  add_to_position t p old =
      let new_abs = dec.abs (dec.add old.qty (fill_signed p)) in
      let cost = dec.add (dec.mul (dec.abs old.qty) old.entry) (dec.mul p.fill_qty p.fill_price) in
      and_then (divide cost new_abs) λ new_entry. ok (added_position t p old new_entry)

  unfoldable pub reduce_position :
      PositionTable X → PositionFill D → OldPosition D → D → Applied D X
  reduce_position t p old pnl_per_contract =
      let realized = dec.mul (signed (dec.is_sign_positive old.qty) p.fill_qty) pnl_per_contract in
      let new_qty = dec.add old.qty (fill_signed p) in
      (
        record t {
          rows =
              update_row old.pos_id
                (λ r. record r {
                  quantity = txt.to_string new_qty;
                  realized_pnl_btc = some (txt.to_string (dec.add old.realized_btc realized));
                  updated_at = p.now_iso;
                })
                t.rows;
        },
        record {
          position_id = old.pos_id;
          new_quantity = new_qty;
          new_avg_entry_price = some old.entry;
          realized_pnl_btc = realized;
          transition = reduced;
        },
      )

  unfoldable pub close_position : PositionTable X → PositionFill D → OldPosition D → D → Applied D X
  close_position t p old pnl_per_contract =
      let realized = dec.mul old.qty pnl_per_contract in
      (
        record t {
          rows =
              update_row old.pos_id (close_row p.now_iso (dec.add old.realized_btc realized))
                t.rows;
        },
        record {
          position_id = old.pos_id;
          new_quantity = dec.zero;
          new_avg_entry_price = none;
          realized_pnl_btc = realized;
          transition = closed;
        },
      )

  -- Closes the old row and opens one for the rest.
  unfoldable pub flip_position : PositionTable X → PositionFill D → OldPosition D → D → Applied D X
  flip_position t p old pnl_per_contract =
      let realized = dec.mul old.qty pnl_per_contract in
      let residual = signed p.is_buy (dec.sub p.fill_qty (dec.abs old.qty)) in
      (
        insert_row p residual
            (update_row old.pos_id (close_row p.now_iso (dec.add old.realized_btc realized)) t.rows)
            t.next_id,
        record {
          position_id = t.next_id;
          new_quantity = residual;
          new_avg_entry_price = some p.fill_price;
          realized_pnl_btc = realized;
          transition = flipped;
        },
      )

  -- A fill on the side opposite to the position.
  unfoldable pub against_position :
      PositionTable X → PositionFill D → OldPosition D → D → Applied D X
  unfolding reduce_position close_position flip_position
  against_position t p old pnl =
      if p.fill_qty <ᵈ dec.abs old.qty
      then reduce_position t p old pnl
      else if p.fill_qty =ᵈ dec.abs old.qty
      then close_position t p old pnl
      else flip_position t p old pnl

  unfoldable pub apply_to_old :
      PositionTable X → PositionFill D → OldPosition D → DbResult (Applied D X)
  unfolding add_to_position against_position
  apply_to_old t p old =
      if same_side p.is_buy old.qty
      then add_to_position t p old
      else and_then (inverse_pnl_per_contract old.entry p.fill_price)
          λ pnl. ok (against_position t p old pnl)

  -- `match existing`, on the open row that was found.
  unfoldable pub apply_to_found :
      PositionTable X → PositionFill D → Option (PositionRow X) → DbResult (Applied D X)
  unfolding open_position parse_row apply_to_old
  apply_to_found t p none = ok (open_position t p)
  apply_to_found t p (some row) = and_then (parse_row row) λ old. apply_to_old t p old

  unfoldable pub apply_fill_to_position : PositionTable X → PositionFill D → DbResult (Applied D X)
  unfolding apply_to_found
  apply_fill_to_position t p = apply_to_found t p (find_open p.instrument_symbol p.broker t.rows)
