-- ===== src/Daemon/FillReconciler.antt =====
-- `reconcile_once` (crates/rt-daemon/src/fill_reconciler.rs): the fills of the ring are applied to
-- the tables. Errors of SQLite itself are left out; each call of `evaluate_kill_switch_once`, which
-- touches none of these tables, is counted.
pub mod Restart
pub mod Positions
pub mod Halves
pub mod Unknown
use razortrade.Common.{
  ℕ, ◌+◌, max, Bool, false, not, ◌&&◌, ◌||◌, Option, none, some, List, [], ◌∷◌, String, str_eq, leb,
  ltb, if◌then◌else◌, find?, filter,
}
use razortrade.Decimal.{DecimalOps}
use razortrade.Futures.Messages.{FillEntry}
use razortrade.Futures.FillsRing.{FillsRing}
use razortrade.Persistence.Columns.{DbResult, ok, decimal_error, invalid_enum, panicked, TextOps}
use razortrade.Persistence.PositionRows.{PositionTable, PositionFill, Applied}
use razortrade.Persistence.Positions.{apply_fill_to_position}
use razortrade.Persistence.OrderRows.{
  OrderRow, OrderFill, OrderFillOutcome, Filled, is_text, backfill_broker_order_id,
}
use razortrade.Persistence.Orders.{apply_fill_to_order}

pub record Database (X : Type 0) : Type 0 where
  pub orders : List (OrderRow X)
  pub signals : List (ℕ × String)
  pub positions : PositionTable X
  pub applied_fills : List (String × String)
  pub evaluations : ℕ

-- How a fill ends: with the next one, with an error that ends the pass, or with an abort. The
-- tables keep what was committed before.
pub data Step (X : Type 0) : Type 0 where
  next : Database X → ℕ → Step X
  stopped : Database X → ℕ → Step X
  aborted : Database X → Step X

abbrev pub broker_tag : String
broker_tag = "kraken_futures"

abbrev pub has_row : String → String → List (String × String) → Bool
has_row broker fill_id [] = false
has_row broker fill_id ((b, f) ∷ rows) =
    (str_eq b broker && str_eq f fill_id) || has_row broker fill_id rows

module _ {X : Type 0} where
  -- The new positions; on the leverage sleeve the kill switch is evaluated.
  abbrev pub with_positions : Database X → PositionTable X → String → Database X
  with_positions db positions sleeve = record db {
    positions = positions;
    evaluations = (if str_eq sleeve "crypto_leverage" then db.evaluations + 1 else db.evaluations);
  }

  unfoldable pub has_fill_been_applied : Database X → String → String → Bool
  has_fill_been_applied db broker fill_id = has_row broker fill_id db.applied_fills

  -- INSERT OR IGNORE.
  unfoldable pub record_fill_applied : Database X → String → String → Database X
  record_fill_applied db broker fill_id = record db {
    applied_fills =
        (if has_row broker fill_id db.applied_fills
          then db.applied_fills
          else (broker, fill_id) ∷ db.applied_fills);
  }

  unfoldable pub find_order_id_by_cli_ord_id : Database X → String → String → Option ℕ
  find_order_id_by_cli_ord_id db broker cli =
      elim (find? (λ r. str_eq r.broker broker && is_text r.cli_ord_id cli) db.orders) [
        | some r ↦ some r.id
        | none ↦ none
      ]

  abbrev pub orphan_id : Database X → Option String → Option ℕ
  orphan_id db none = none
  orphan_id db (some cli) = find_order_id_by_cli_ord_id db broker_tag cli

module _ {D : Type 0} where
  abbrev pub order_fill : FillEntry D → String → OrderFill D
  order_fill f now = record {
    broker_order_id = f.order_id;
    fill_qty = f.qty;
    fill_price = f.price;
    fee = f.fee_paid;
    now_iso = now;
  }

  abbrev pub position_fill : FillEntry D → OrderFillOutcome D → String → String → PositionFill D
  position_fill f o sleeve now = record {
    instrument_symbol = o.instrument_symbol;
    broker = o.broker;
    sleeve = sleeve;
    is_buy = o.is_buy;
    fill_qty = f.qty;
    fill_price = f.price;
    now_iso = now;
  }

module _ {D X : Type 0} where
  -- The end of the loop's body: the fill is recorded and the watermark moves.
  unfoldable pub finish : Database X → ℕ → FillEntry D → Step X
  unfolding record_fill_applied
  finish db mark f = next (record_fill_applied db broker_tag f.fill_id) (max mark f.seq)

  -- The position has been updated, or not.
  unfoldable pub after_position :
      Database X → ℕ → FillEntry D → String → DbResult (Applied D X) → Step X
  unfolding finish
  after_position db mark f sleeve (ok (positions, o)) =
      finish (with_positions db positions sleeve) mark f
  after_position db mark f sleeve (decimal_error c) = stopped db mark
  after_position db mark f sleeve (invalid_enum c v) = stopped db mark
  after_position db mark f sleeve panicked = aborted db

module _ {D X : Type 0} ⦃dec : DecimalOps D⦄ ⦃txt : TextOps D X⦄ where
  -- The order has been updated: the position follows, unless the sleeve is unknown.
  unfoldable pub update_position :
      Database X → ℕ → FillEntry D → String → OrderFillOutcome D → Option String → Step X
  unfolding after_position
  update_position db mark f now o none = finish db mark f
  update_position db mark f now o (some sleeve) =
      after_position db mark f sleeve
        (apply_fill_to_position db.positions (position_fill f o sleeve now))

  -- The second attempt of the orphan-catcher.
  unfoldable pub after_retry :
      Database X → ℕ → FillEntry D → String → DbResult (Filled D X) → Step X
  unfolding update_position
  after_retry db mark f now (ok (orders, some o)) =
      update_position (record db { orders = orders }) mark f now o o.sleeve
  after_retry db mark f now (ok (orders, none)) = finish (record db { orders = orders }) mark f
  after_retry db mark f now (decimal_error c) = stopped db mark
  after_retry db mark f now (invalid_enum c v) = stopped db mark
  after_retry db mark f now panicked = aborted db

  -- The orphan-catcher, by the order that the client id names.
  unfoldable pub catch_orphan : Database X → ℕ → FillEntry D → String → Option ℕ → Step X
  unfolding after_retry
  catch_orphan db mark f now none = finish db mark f
  catch_orphan db mark f now (some id) =
      let db' = record db { orders = backfill_broker_order_id id f.order_id now db.orders } in
      after_retry db' mark f now (apply_fill_to_order db'.orders db'.signals (order_fill f now))

  unfoldable pub after_order :
      Database X → ℕ → FillEntry D → String → DbResult (Filled D X) → Step X
  unfolding catch_orphan find_order_id_by_cli_ord_id
  after_order db mark f now (ok (orders, some o)) =
      update_position (record db { orders = orders }) mark f now o o.sleeve
  after_order db mark f now (ok (orders, none)) =
      let db' = record db { orders = orders } in
      catch_orphan db' mark f now (orphan_id db' f.cli_ord_id)
  after_order db mark f now (decimal_error c) = stopped db mark
  after_order db mark f now (invalid_enum c v) = stopped db mark
  after_order db mark f now panicked = aborted db

  -- One turn of the loop.
  unfoldable pub reconcile_fill : Database X → ℕ → FillEntry D → String → Step X
  unfolding after_order has_fill_been_applied
  reconcile_fill db mark f now =
      if has_fill_been_applied db broker_tag f.fill_id
      then next db (max mark f.seq)
      else after_order db mark f now (apply_fill_to_order db.orders db.signals (order_fill f now))

  -- The loop goes on after each fill that ends with the next one.
  unfoldable pub reconcile_all : Step X → List (FillEntry D) → String → Step X
  reconcile_all (next db mark) [] now = next db mark
  reconcile_all (next db mark) (f ∷ fs) now = reconcile_all (reconcile_fill db mark f now) fs now
  reconcile_all (stopped db mark) fs now = stopped db mark
  reconcile_all (aborted db) fs now = aborted db

  -- A pass over the ring, by the watermark of the passes before.
  unfoldable pub reconcile_once : Database X → ℕ → FillsRing D → String → Step X
  unfolding reconcile_all
  reconcile_once db mark ring now =
      let fills = filter (λ f. ltb mark f.seq) ring.fills in
      if not ring.is_synced
      then next db mark
      else if leb ring.highest_seq mark
      then next db mark
      else reconcile_all (next db mark) fills now
