-- ===== src/Daemon/FillReconciler/Restart.antt =====
-- A fill that was recorded is never applied again, also after a restart, when the watermark is 0
-- and the feed replays its history.
use razortrade.Common.{
  ℕ, max, ◌≡◌, refl, ap, ◌∙◌, true, Option, none, some, List, [], ◌∷◌, String, str_eq_iff, arith,
  Bool-cases, inl, inr, All,
}
use razortrade.Decimal.{DecimalOps}
use razortrade.Futures.Messages.{FillEntry}
use razortrade.Persistence.Columns.{DbResult, ok, decimal_error, invalid_enum, panicked, TextOps}
use razortrade.Persistence.PositionRows.{Applied}
use razortrade.Persistence.OrderRows.{OrderFillOutcome, Filled, backfill_broker_order_id}
use razortrade.Persistence.Orders.{apply_fill_to_order}
use razortrade.Daemon.FillReconciler.{
  Database, Step, next, stopped, aborted, broker_tag, has_row, has_fill_been_applied,
  record_fill_applied, with_positions, finish, after_position, update_position, after_retry,
  catch_orphan, order_fill, after_order, reconcile_fill, reconcile_all,
}

module _ {D X : Type 0} where
  -- What a step that goes on leaves behind: its fill is recorded, and so is all that was before.
  abbrev pub Records : List (String × String) → FillEntry D → Step X → Type 0
  Records old f (next db mark) =
      (has_row broker_tag f.fill_id db.applied_fills ≡ true)
      × ((k : String)
          → has_row broker_tag k old ≡ true
          → has_row broker_tag k db.applied_fills ≡ true)
  Records old f (stopped db mark) = Unit
  Records old f (aborted db) = Unit

  finish-Records :
      (db : Database X) (mark : ℕ) (f : FillEntry D) → Records db.applied_fills f (finish db mark f)
  unfolding finish record_fill_applied
  finish-Records db mark f = elim (Bool-cases (has_row broker_tag f.fill_id db.applied_fills)) [
    | inl e ↦ rw e (e, λ k h. h)
    | inr e ↦ rw e (ground (arith, str_eq_iff f.fill_id f.fill_id), λ k h. ground arith)
  ]

  after_position-Records :
      (db : Database X) (mark : ℕ) (f : FillEntry D) (sleeve : String) (r : DbResult (Applied D X))
      → Records db.applied_fills f (after_position db mark f sleeve r)
  unfolding after_position
  after_position-Records db mark f sleeve (ok (positions, o)) =
      finish-Records (with_positions db positions sleeve) mark f
  after_position-Records db mark f sleeve (decimal_error c) = tt
  after_position-Records db mark f sleeve (invalid_enum c v) = tt
  after_position-Records db mark f sleeve panicked = tt

module _ {D X : Type 0} ⦃dec : DecimalOps D⦄ ⦃txt : TextOps D X⦄ where
  update_position-Records :
      (db : Database X) (mark : ℕ) (f : FillEntry D) (now : String) (o : OrderFillOutcome D)
      (sleeve : Option String)
      → Records db.applied_fills f (update_position db mark f now o sleeve)
  unfolding update_position
  update_position-Records db mark f now o none = finish-Records db mark f
  update_position-Records db mark f now o (some sleeve) = after_position-Records db mark f sleeve _

  after_retry-Records :
      (db : Database X) (mark : ℕ) (f : FillEntry D) (now : String) (r : DbResult (Filled D X))
      → Records db.applied_fills f (after_retry db mark f now r)
  unfolding after_retry
  after_retry-Records db mark f now (ok (orders, some o)) =
      update_position-Records (record db { orders = orders }) mark f now o o.sleeve
  after_retry-Records db mark f now (ok (orders, none)) =
      finish-Records (record db { orders = orders }) mark f
  after_retry-Records db mark f now (decimal_error c) = tt
  after_retry-Records db mark f now (invalid_enum c v) = tt
  after_retry-Records db mark f now panicked = tt

  catch_orphan-Records :
      (db : Database X) (mark : ℕ) (f : FillEntry D) (now : String) (id : Option ℕ)
      → Records db.applied_fills f (catch_orphan db mark f now id)
  unfolding catch_orphan
  catch_orphan-Records db mark f now none = finish-Records db mark f
  catch_orphan-Records db mark f now (some id) =
      let db' : Database X = record db {
        orders = backfill_broker_order_id id f.order_id now db.orders;
      } in
      after_retry-Records db' mark f now
        (apply_fill_to_order db'.orders db'.signals (order_fill f now))

  after_order-Records :
      (db : Database X) (mark : ℕ) (f : FillEntry D) (now : String) (r : DbResult (Filled D X))
      → Records db.applied_fills f (after_order db mark f now r)
  unfolding after_order
  after_order-Records db mark f now (ok (orders, some o)) =
      update_position-Records (record db { orders = orders }) mark f now o o.sleeve
  after_order-Records db mark f now (ok (orders, none)) =
      catch_orphan-Records (record db { orders = orders }) mark f now _
  after_order-Records db mark f now (decimal_error c) = tt
  after_order-Records db mark f now (invalid_enum c v) = tt
  after_order-Records db mark f now panicked = tt

  reconcile_fill-Records :
      (db : Database X) (mark : ℕ) (f : FillEntry D) (now : String)
      → Records db.applied_fills f (reconcile_fill db mark f now)
  unfolding reconcile_fill has_fill_been_applied
  reconcile_fill-Records db mark f now =
      elim (Bool-cases (has_row broker_tag f.fill_id db.applied_fills)) [
        | inl e ↦ rw e (e, λ k h. h)
        | inr e ↦ rw e (after_order-Records db mark f now _)
      ]

  after_step :
      (fs : List (FillEntry D)) (f : FillEntry D) (now : String) (old : List (String × String))
      (s : Step X) (db' : Database X) (mark' : ℕ)
      → Records old f s
      → reconcile_all s fs now ≡ next db' mark'
      → ((db : Database X) × (mark : ℕ) × (reconcile_all (next db mark) fs now ≡ next db' mark')
          × Records old f (next db mark))
  unfolding reconcile_all
  after_step fs f now old (next db mark) db' mark' h e = (db, mark, e, h)
  after_step fs f now old (stopped db mark) db' mark' h e = absurd (ground arith)
  after_step fs f now old (aborted db) db' mark' h e = absurd (ground arith)

  -- All fills of a pass that comes to its end are recorded, and no record is lost.
  pass_lem :
      (fs : List (FillEntry D)) (db db' : Database X) (mark mark' : ℕ) (now : String)
      → reconcile_all (next db mark) fs now ≡ next db' mark'
      → All (λ f. has_row broker_tag f.fill_id db'.applied_fills ≡ true) fs
        × ((k : String)
            → has_row broker_tag k db.applied_fills ≡ true
            → has_row broker_tag k db'.applied_fills ≡ true)
  unfolding reconcile_all
  pass_lem [] db db' mark mark' now e = (tt, λ k h. ground arith)
  pass_lem (f ∷ fs) db db' mark mark' now e =
      let (mid, point, rest, (done, kept)) =
        after_step fs f now db.applied_fills (reconcile_fill db mark f now) db' mark'
          (reconcile_fill-Records db mark f now) e in
      let (all, later) = pass_lem fs mid db' point mark' now rest in
      ((later f.fill_id done, all), λ k h. later k (kept k h))

  skip_lem :
      (db : Database X) (mark : ℕ) (f : FillEntry D) (now : String)
      → has_row broker_tag f.fill_id db.applied_fills ≡ true
      → reconcile_fill db mark f now ≡ next db (max mark f.seq)
  unfolding reconcile_fill has_fill_been_applied
  skip_lem db mark f now h = rw h refl

  replay_lem :
      (fs : List (FillEntry D)) (db : Database X) (mark : ℕ) (now : String)
      → All (λ f. has_row broker_tag f.fill_id db.applied_fills ≡ true) fs
      → (mark' : ℕ) × (reconcile_all (next db mark) fs now ≡ next db mark')
  unfolding reconcile_all
  replay_lem [] db mark now h = (mark, refl)
  replay_lem (f ∷ fs) db mark now h =
      let (mark', e) = replay_lem fs db (max mark f.seq) now h.1 in
      (mark', ap (λ s. reconcile_all s fs now) (skip_lem db mark f now h.0) ∙ e)

  -- Once a pass over some fills has come to its end, another pass over the same fills, from any
  -- watermark and at any time, comes to its end and changes no table.
  pub replay_changes_nothing :
      (fs : List (FillEntry D)) (db db' : Database X) (mark mark' again : ℕ) (now later : String)
      → reconcile_all (next db mark) fs now ≡ next db' mark'
      → (final : ℕ) × (reconcile_all (next db' again) fs later ≡ next db' final)
  replay_changes_nothing fs db db' mark mark' again now later e =
      replay_lem fs db' again later (pass_lem fs db db' mark mark' now e).0
