-- ===== src/Daemon/FillReconciler/Unknown.antt =====
-- Fills of orders that no row of `orders` knows, such as those of a panic close.
use razortrade.Common.{
  ℕ, ◌≡◌, ◌≢◌, refl, true, false, Option, none, some, List, [], ◌∷◌, ◌++◌, String, str_eq,
  str_eq_iff, max, All, arith, ◌↔◌, ◌&&◌, &&-true, Bool-cases, inl, inr, find?-none,
}
use razortrade.Decimal.{DecimalOps}
use razortrade.Futures.Messages.{FillEntry}
use razortrade.Persistence.Columns.{TextOps}
use razortrade.Persistence.OrderRows.{OrderRow, find_order, is_text}
use razortrade.Persistence.Orders.{apply_fill_to_order, fill_found}
use razortrade.Daemon.FillReconciler.{
  Database, next, broker_tag, has_row, has_fill_been_applied, record_fill_applied, finish,
  find_order_id_by_cli_ord_id, orphan_id, catch_orphan, after_order, reconcile_fill,
}

finish-new :
    {D X : Type 0} (db : Database X) (mark : ℕ) (f : FillEntry D)
    → has_fill_been_applied db broker_tag f.fill_id ≡ false
    → finish db mark f
      ≡ next
          (record db { applied_fills = (broker_tag, f.fill_id) ∷ db.applied_fills })
          (max mark f.seq)
unfolding finish record_fill_applied has_fill_been_applied
finish-new db mark f new = rw new refl

has_row-append :
    (broker id : String) (added rows : List (String × String))
    → has_row broker id (added ++ ((broker, id) ∷ rows)) ≡ true
has_row-append broker id [] rows = ground (arith, str_eq_iff broker broker, str_eq_iff id id)
has_row-append broker id (x ∷ added) rows = ground (arith, has_row-append broker id added rows)

is_text_iff : (o : Option String) (s : String) → (is_text o s ≡ true) ↔ (o ≡ some s)
is_text_iff none s = ground arith
is_text_iff (some t) s = ground (arith, str_eq_iff t s)

module _ {D X : Type 0} where
  -- The order has neither the broker id of the fill nor, at the same broker, its client id.
  abbrev pub IsOther : FillEntry D → OrderRow X → Type 0
  IsOther f r =
      (r.broker_order_id ≢ some f.order_id)
      × (¬ (
          (cli : String) × (f.cli_ord_id ≡ some cli)
          × (r.broker ≡ "kraken_futures")
          × (r.cli_ord_id ≡ some cli)))

  other-not-named :
      (f : FillEntry D) (r : OrderRow X)
      → IsOther f r
      → is_text r.broker_order_id f.order_id ≡ false
  other-not-named f r h = ground (arith, is_text_iff r.broker_order_id f.order_id, h.0)

  other-not-client :
      (f : FillEntry D) (cli : String)
      → f.cli_ord_id ≡ some cli
      → (r : OrderRow X) → IsOther f r
      → (str_eq r.broker broker_tag && is_text r.cli_ord_id cli) ≡ false
  other-not-client f cli e r h =
      elim (Bool-cases (str_eq r.broker broker_tag && is_text r.cli_ord_id cli)) [
        | inr n ↦ n
        | inl t ↦
            let both = (&&-true (str_eq r.broker broker_tag) (is_text r.cli_ord_id cli)).0 t in
            absurd (
              h.1 (
                cli,
                e,
                (str_eq_iff r.broker broker_tag).0 both.0,
                (is_text_iff r.cli_ord_id cli).0 both.1,
              ))
      ]

  orphan-IsOther :
      (db : Database X) (f : FillEntry D) (cli : Option String)
      → f.cli_ord_id ≡ cli
      → All (IsOther f) db.orders
      → orphan_id db cli ≡ none
  unfolding find_order_id_by_cli_ord_id
  orphan-IsOther db f none e h = refl
  orphan-IsOther db f (some cli) e h =
      rw
        (
          find_order_id_by_cli_ord_id,
          find?-none (IsOther f)
              (λ (r : OrderRow X). str_eq r.broker broker_tag && is_text r.cli_ord_id cli)
              (other-not-client f cli e) db.orders h,
        )
        refl

module _ {D X : Type 0} ⦃dec : DecimalOps D⦄ ⦃txt : TextOps D X⦄ where
  reconcile-IsOther :
      (db : Database X) (mark : ℕ) (f : FillEntry D) (now : String)
      → has_fill_been_applied db broker_tag f.fill_id ≡ false
      → All (IsOther f) db.orders
      → reconcile_fill db mark f now
        ≡ next
            (record db { applied_fills = (broker_tag, f.fill_id) ∷ db.applied_fills })
            (max mark f.seq)
  unfolding reconcile_fill after_order catch_orphan apply_fill_to_order fill_found find_order
  reconcile-IsOther db mark f now new unnamed =
      rw
        (
          new,
          find?-none (IsOther f) (λ (r : OrderRow X). is_text r.broker_order_id f.order_id)
              (other-not-named f) db.orders unnamed,
          orphan-IsOther db f f.cli_ord_id refl unnamed,
        )
        (finish-new db mark f new)

  -- A new fill whose broker id and client id stand in no row of `orders` is recorded as applied, and
  -- neither the orders nor the positions take notice of it. Nor is it applied later: in any tables
  -- that still hold the record, whatever orders have come in between, another turn for the fill
  -- changes nothing.
  pub unknown_fill_lost :
      (db later : Database X) (mark after : ℕ) (f : FillEntry D) (now then : String)
      (added : List (String × String))
      → has_fill_been_applied db broker_tag f.fill_id ≡ false
      → All (IsOther f) db.orders
      → later.applied_fills ≡ (added ++ (("kraken_futures", f.fill_id) ∷ db.applied_fills))
      → (reconcile_fill db mark f now
          ≡ next
              (record db { applied_fills = ("kraken_futures", f.fill_id) ∷ db.applied_fills })
              (max mark f.seq))
        × (reconcile_fill later after f then ≡ next later (max after f.seq))
  unfolding reconcile_fill has_fill_been_applied
  unknown_fill_lost db later mark after f now then added new unnamed kept =
      let recorded : has_row broker_tag f.fill_id later.applied_fills ≡ true =
        rw kept (has_row-append broker_tag f.fill_id added db.applied_fills) in
      (reconcile-IsOther db mark f now new unnamed, rw recorded refl)
