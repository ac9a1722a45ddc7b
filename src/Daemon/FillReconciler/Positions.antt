-- ===== src/Daemon/FillReconciler/Positions.antt =====
-- A pass of the reconciler keeps the table of positions valid, however it ends.
use razortrade.Common.{
  ℕ, ◌≡◌, refl, Bool-cases, inl, inr, Option, none, some, List, [], ◌∷◌, String, filter, ltb, arith,
}
use razortrade.Decimal.{DecimalOps}
use razortrade.Futures.Messages.{FillEntry}
use razortrade.Futures.FillsRing.{FillsRing}
use razortrade.Persistence.Columns.{DbResult, ok, decimal_error, invalid_enum, panicked, TextOps}
use razortrade.Persistence.PositionRows.{Applied}
use razortrade.Persistence.Positions.{apply_fill_to_position}
use razortrade.Persistence.Positions.Table.{IsValid}
use razortrade.Persistence.Positions.Validity.{fill-IsValid}
use razortrade.Persistence.OrderRows.{OrderFillOutcome, Filled, backfill_broker_order_id}
use razortrade.Persistence.Orders.{apply_fill_to_order}
use razortrade.Daemon.FillReconciler.{
  Database, Step, next, stopped, aborted, broker_tag, has_row, has_fill_been_applied,
  record_fill_applied, with_positions, finish, after_position, update_position, after_retry,
  catch_orphan, orphan_id, order_fill, position_fill, after_order, reconcile_fill, reconcile_all,
  reconcile_once,
}

module _ {X : Type 0} where
  abbrev pub database_of : Step X → Database X
  database_of (next db mark) = db
  database_of (stopped db mark) = db
  database_of (aborted db) = db

  -- The positions of the tables that a step leaves are valid.
  abbrev pub LeavesValid : Step X → Type 0
  LeavesValid s = IsValid (database_of s).positions

module _ {D X : Type 0} where
  finish-LeavesValid :
      (db : Database X) (mark : ℕ) (f : FillEntry D)
      → IsValid db.positions
      → LeavesValid (finish db mark f)
  unfolding finish record_fill_applied
  finish-LeavesValid db mark f v = v

  after_position-LeavesValid :
      (db : Database X) (mark : ℕ) (f : FillEntry D) (sleeve : String) (r : DbResult (Applied D X))
      → IsValid db.positions
      → ((a : Applied D X) → r ≡ ok a → IsValid a.0)
      → LeavesValid (after_position db mark f sleeve r)
  unfolding after_position
  after_position-LeavesValid db mark f sleeve (ok (positions, o)) v keeps =
      finish-LeavesValid (with_positions db positions sleeve) mark f (keeps (positions, o) refl)
  after_position-LeavesValid db mark f sleeve (decimal_error c) v keeps = v
  after_position-LeavesValid db mark f sleeve (invalid_enum c e) v keeps = v
  after_position-LeavesValid db mark f sleeve panicked v keeps = v

module _ {D X : Type 0} ⦃dec : DecimalOps D⦄ ⦃txt : TextOps D X⦄ where
  update_position-LeavesValid :
      (db : Database X) (mark : ℕ) (f : FillEntry D) (now : String) (o : OrderFillOutcome D)
      (sleeve : Option String)
      → IsValid db.positions
      → LeavesValid (update_position db mark f now o sleeve)
  unfolding update_position
  update_position-LeavesValid db mark f now o none v = finish-LeavesValid db mark f v
  update_position-LeavesValid db mark f now o (some sleeve) v =
      let p = position_fill f o sleeve now in
      after_position-LeavesValid db mark f sleeve (apply_fill_to_position db.positions p) v
        (λ a e. fill-IsValid db.positions p a v e)

  after_retry-LeavesValid :
      (db : Database X) (mark : ℕ) (f : FillEntry D) (now : String) (r : DbResult (Filled D X))
      → IsValid db.positions
      → LeavesValid (after_retry db mark f now r)
  unfolding after_retry
  after_retry-LeavesValid db mark f now (ok (orders, some o)) v =
      update_position-LeavesValid (record db { orders = orders }) mark f now o o.sleeve v
  after_retry-LeavesValid db mark f now (ok (orders, none)) v =
      finish-LeavesValid (record db { orders = orders }) mark f v
  after_retry-LeavesValid db mark f now (decimal_error c) v = v
  after_retry-LeavesValid db mark f now (invalid_enum c e) v = v
  after_retry-LeavesValid db mark f now panicked v = v

  catch_orphan-LeavesValid :
      (db : Database X) (mark : ℕ) (f : FillEntry D) (now : String) (id : Option ℕ)
      → IsValid db.positions
      → LeavesValid (catch_orphan db mark f now id)
  unfolding catch_orphan
  catch_orphan-LeavesValid db mark f now none v = finish-LeavesValid db mark f v
  catch_orphan-LeavesValid db mark f now (some id) v =
      let db' : Database X = record db {
        orders = backfill_broker_order_id id f.order_id now db.orders;
      } in
      after_retry-LeavesValid db' mark f now
        (apply_fill_to_order db'.orders db'.signals (order_fill f now)) v

  after_order-LeavesValid :
      (db : Database X) (mark : ℕ) (f : FillEntry D) (now : String) (r : DbResult (Filled D X))
      → IsValid db.positions
      → LeavesValid (after_order db mark f now r)
  unfolding after_order
  after_order-LeavesValid db mark f now (ok (orders, some o)) v =
      update_position-LeavesValid (record db { orders = orders }) mark f now o o.sleeve v
  after_order-LeavesValid db mark f now (ok (orders, none)) v =
      let db' : Database X = record db { orders = orders } in
      catch_orphan-LeavesValid db' mark f now (orphan_id db' f.cli_ord_id) v
  after_order-LeavesValid db mark f now (decimal_error c) v = v
  after_order-LeavesValid db mark f now (invalid_enum c e) v = v
  after_order-LeavesValid db mark f now panicked v = v

  reconcile_fill-LeavesValid :
      (db : Database X) (mark : ℕ) (f : FillEntry D) (now : String)
      → IsValid db.positions
      → LeavesValid (reconcile_fill db mark f now)
  unfolding reconcile_fill has_fill_been_applied
  reconcile_fill-LeavesValid db mark f now v =
      elim (Bool-cases (has_row broker_tag f.fill_id db.applied_fills)) [
        | inl e ↦ rw e v
        | inr e ↦ rw e (
            after_order-LeavesValid db mark f now
              (apply_fill_to_order db.orders db.signals (order_fill f now)) v)
      ]

  reconcile_all-LeavesValid :
      (fs : List (FillEntry D)) (s : Step X) (now : String)
      → LeavesValid s
      → LeavesValid (reconcile_all s fs now)
  unfolding reconcile_all
  reconcile_all-LeavesValid [] (next db mark) now v = v
  reconcile_all-LeavesValid (f ∷ fs) (next db mark) now v =
      reconcile_all-LeavesValid fs (reconcile_fill db mark f now) now
        (reconcile_fill-LeavesValid db mark f now v)
  reconcile_all-LeavesValid fs (stopped db mark) now v = v
  reconcile_all-LeavesValid fs (aborted db) now v = v

  -- A pass over the ring leaves the positions valid, ids distinct and at most one of them open for
  -- each instrument and broker, also where an error or an abort ends it early.
  pub reconcile_once-LeavesValid :
      (db : Database X) (mark : ℕ) (ring : FillsRing D) (now : String)
      → IsValid db.positions
      → LeavesValid (reconcile_once db mark ring now)
  unfolding reconcile_once
  reconcile_once-LeavesValid db mark ring now v =
      let fills = filter (λ f. ltb mark f.seq) ring.fills in
      ground (arith, reconcile_all-LeavesValid fills (next db mark) now v)
