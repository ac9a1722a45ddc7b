-- ===== src/Tests/Equity.antt =====
-- Tests and examples of the equity writer, the periodic reconciler and unknown fills.
use razortrade.Common.{
  All, ◌≢◌, ◌∙◌, ap, sym, Option, String, str_eq, str_eq_iff, arith, ℕ, ◌+◌, arith, ◌≡◌, refl, true,
  false, some, none, [], ◌∷◌,
}
use razortrade.Common.Int.{ℤ, pos, negsuc, ◌+ℤ◌, ◌-ℤ◌, ◌*ℤ◌, div_ℕ}
use razortrade.Decimal.Fixed.{Fixed, fixed, fixed_ops, Fixed-IsOrdered}
use razortrade.Time.{at}
use razortrade.Execution.{answered, OpenOrderSummary}
use razortrade.Core.Order.{acknowledged}
use razortrade.Futures.Messages.{FillEntry}
use razortrade.Risk.Config.{default_config}
use razortrade.Futures.Accounts.{AccountsResponse, margin_value, account}
use razortrade.Persistence.Columns.{Text, text_ops, Text-IsReadBack}
use razortrade.Persistence.Equity.{
  EquityTable, insert_equity_snapshot, sum_column, sum_realized_pnl_btc_by_sleeve,
}
use razortrade.Persistence.OrderRows.{list_live_orders}
use razortrade.Daemon.MarketData.{by_symbol}
use razortrade.Daemon.FillReconciler.{Database, next, has_fill_been_applied, reconcile_fill}
use razortrade.Daemon.FillReconciler.Unknown.{IsOther, unknown_fill_lost}
use razortrade.Daemon.PeriodicReconciler.{reconcile_drift}
use razortrade.Daemon.EquityWriter.{
  Valuation, equity_row, wrote, persist, with_realized, with_accounts, with_mark,
  write_one_snapshot,
}
use razortrade.Daemon.EquityWriter.Blind.{ReadsFlat, soft_triggers_blind}
use razortrade.Tests.Data.{num, fill_at}
use razortrade.Tests.Rows.{long_row, positions, order_row}
use razortrade.Tests.World.{ticker}

-- A tenth of a bitcoin.
abbrev accounts : AccountsResponse Fixed
accounts = record {
  result = "success";
  accounts =
      (
        "fi_xbtusd",
        margin_value (record {
          account_type = "marginAccount";
          currency = "xbt";
          auxiliary = record {
            usd = num 0;
            pv = fixed (pos 1000);
            pnl = num 0;
            af = num 0;
            funding = num 0;
          };
          balances = [];
        }),
      )
      ∷ [];
  server_time = "t0";
}

abbrev no_snapshots : EquityTable Text
no_snapshots = record { snapshots = []; next_snapshot = 1 }

-- 5000 dollars at the default rate.
abbrev written : Valuation Fixed
written = record {
  leverage_value_chf = fixed_ops.div (num 5000) default_config.usd_per_chf_fallback;
  unrealized_leverage_chf = num 0;
  cash_chf = num 0;
  realized_chf = num 0;
}

abbrev one_snapshot : EquityTable Text
one_snapshot = record {
  snapshots = record (equity_row written "t1") { id = 1 } ∷ [];
  next_snapshot = 2;
}

writes_snapshot :
    write_one_snapshot no_snapshots
      (long_row ∷ [])
      (("PI_XBTUSD", ticker) ∷ [])
      default_config
      (answered accounts)
      "t1"
    ≡ wrote one_snapshot
unfolding write_one_snapshot with_mark with_accounts with_realized persist by_symbol account
    insert_equity_snapshot sum_realized_pnl_btc_by_sleeve sum_column ◌+ℤ◌ ◌-ℤ◌ ◌*ℤ◌ div_ℕ
writes_snapshot = refl

zero_times : (a : ℤ) → pos 0 *ℤ a ≡ pos 0
unfolding ◌*ℤ◌
zero_times (pos n) = ground arith
zero_times (negsuc n) = ground arith

zero_over : (n : ℕ) → div_ℕ (pos 0) n ≡ pos 0
unfolding div_ℕ
zero_over n = ground arith

-- Nothing stays nothing at every rate.
zero_product :
    (a b : Fixed)
    → (fixed_ops.lt (fixed (pos 0)) b) ≡ true
    → fixed_ops.div (fixed_ops.mul (fixed (pos 0)) a) b ≡ fixed (pos 0)
zero_product (fixed a) (fixed (pos n)) h =
    rw (zero_times a, zero_over 10_000, zero_times (pos 10_000), zero_over n) refl
zero_product (fixed a) (fixed (negsuc n)) h =
    rw (zero_times a, zero_over 10_000, zero_times (pos 10_000), zero_over (n + 1)) refl

soft_triggers_blind_example : ReadsFlat {D = Fixed} one_snapshot (at 1200) false []
soft_triggers_blind_example =
    soft_triggers_blind Text-IsReadBack Fixed-IsOrdered no_snapshots one_snapshot (long_row ∷ [])
      (("PI_XBTUSD", ticker) ∷ []) default_config (answered accounts) "t1" (at 1200) false []
      zero_product (refl, tt) writes_snapshot

-- The fill of a panic close: no row has its ids.
abbrev panic_fill : FillEntry Fixed
panic_fill = record (fill_at 3) { order_id = "xyz"; cli_ord_id = some "rt-panic-7-7" }

abbrev local : Database Text
local = record {
  orders = order_row "filled" (num 10) ∷ [];
  signals = (1, "crypto_leverage") ∷ [];
  positions = positions;
  applied_fills = [];
  evaluations = 0;
}

is_new : has_fill_been_applied local "kraken_futures" panic_fill.fill_id ≡ false
unfolding has_fill_been_applied
is_new = refl

abbrev text_of : Option String → String
text_of none = ""
text_of (some s) = s

other_texts : (a b : String) → str_eq a b ≡ false → (some a) ≢ (some b)
other_texts a b n e =
    absurd (let t : str_eq a b ≡ true = (str_eq_iff a b).1 (ap text_of e) in ground arith)

-- The order of the row is another one.
abc-IsOther : All (IsOther panic_fill) local.orders
abc-IsOther = (
  (
    other_texts "abc" "xyz" refl,
    λ (cli, e, b, h). other_texts "rt-s1" "rt-panic-7-7" refl (h ∙ sym e),
  ),
  tt,
)

-- An order with the ids of the fill that is inserted too late.
abbrev later_local : Database Text
later_local = record local {
  orders = record (order_row "submitted" (num 0)) { broker_order_id = some "xyz" } ∷ [];
  applied_fills = ("kraken_futures", "other") ∷ ("kraken_futures", "fill") ∷ [];
}

unknown_fill_lost_example :
    (reconcile_fill local 0 panic_fill "t1"
      ≡ next (record local { applied_fills = ("kraken_futures", "fill") ∷ [] }) 3)
    × (reconcile_fill later_local 0 panic_fill "t2" ≡ next later_local 3)
unknown_fill_lost_example =
    unknown_fill_lost local later_local 0 0 panic_fill "t1" "t2" (("kraken_futures", "other") ∷ [])
      is_new abc-IsOther refl

-- The local order is live, and the broker lists another one.
abbrev stranger : OpenOrderSummary Fixed
stranger = record {
  broker_order_id = "xyz";
  instrument_symbol = "PI_XBTUSD";
  status = acknowledged;
  quantity = num 1;
  filled_quantity = num 0;
  limit_price = none;
  cli_ord_id = none;
}

reports_drift :
    reconcile_drift (answered (stranger ∷ [])) (order_row "submitted" (num 0) ∷ [])
    ≡ some (record {
      missing_at_broker = order_row "submitted" (num 0) ∷ [];
      unknown_locally = stranger ∷ [];
    })
unfolding reconcile_drift list_live_orders
reports_drift = refl
