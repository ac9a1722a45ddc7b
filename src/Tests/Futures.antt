-- ===== src/Tests/Futures.antt =====
-- Tests and examples of the order book and of the stores of the private feeds.
use razortrade.Common.{
  ◌+◌, ◌%◌, ◌^◌, ◌≤◌, ◌≡◌, ◌≢◌, refl, inr, true, false, none, some, List, [], ◌∷◌, ◌++◌, arith,
  length, if◌then◌else◌,
}
use mathlib.Core.Option
use razortrade.Common.Int.{◌*ℤ◌}
use razortrade.Decimal.{◌=ᵈ◌}
use razortrade.Decimal.Fixed.{Fixed, fixed_ops, Fixed-IsOrdered}
use razortrade.Time.{Millis, at}
use razortrade.Core.MarketData.{OrderBookSnapshot, best_bid, best_ask}
use razortrade.Futures.Messages.{buy, sell, FillEntry, BookDeltaMessage}
use razortrade.Futures.PriceMap.{get, insert, remove, first, last}
use razortrade.Futures.OrderBook.{
  LocalOrderBook, new_book, synced, out_of_sync, ok, err, panicked, crossed, book_out_of_sync,
  level, apply_snapshot, apply_delta, load_levels, to_rf_core_snapshot,
}
use razortrade.Futures.OrderBook.Invariant
use razortrade.Futures.OrderBook.Invariant.{
  IsValid, BookEvent, invalidation, after_events, apply_snapshot-IsValid, apply_delta-IsValid,
  apply_delta-not-panicked,
}
use razortrade.Futures.OrderBook.Sequence.{
  Numbered, apply_all, feed, apply_all-Numbered, gap_blocks,
}
use razortrade.Futures.OrderBook.Levels.{
  IsUncrossed, apply_delta_levels, apply_delta-IsUncrossed, crossed_snapshot_readable,
}
use razortrade.Futures.OrderBook.Reading.{IsFalling, IsRising, reading_sorted, reading_best}
use razortrade.Futures.FillsRing
use razortrade.Futures.FillsRing.{FillsRing, apply_fills, apply_loop, apply_fill, push}
use razortrade.Futures.FillsRing.Bounded.{IsBounded, ring-IsBounded}
use razortrade.Futures.FillsRing.Numbers.{apply_fills_again, apply_fills-no_gap}
use razortrade.Futures.FillsRing.History.{fresh, last_n, apply_fills_history}
use razortrade.Futures.OpenOrders.History as OrdersHistory
use razortrade.Futures.OpenOrders.History.{OrdersEvent, snapshot as snapshot_of, update, answer}
use razortrade.Tests.Data.{
  num, price_level, snapshot, delta, synced_book, fill_at, small_ring, entry, cancel_a,
}

synced_book-IsValid : IsValid synced_book
unfolding ◌*ℤ◌
synced_book-IsValid = record {
  bids_ascending = ((refl, tt), (tt, tt));
  asks_ascending = ((refl, tt), (tt, tt));
  seq_known = inr (λ e. ground arith);
}

next_is_applied : (apply_delta synced_book (delta buy 8 100 5) (at 1100)).1 ≡ ok tt
unfolding apply_delta insert
next_is_applied = refl

-- The book after the two deltas.
abbrev book_after : LocalOrderBook Fixed Millis
book_after = record {
  product_id = "PI_XBTUSD";
  bids = (num 98, num 1) ∷ (num 99, num 2) ∷ (num 100, num 5) ∷ [];
  asks = (num 102, num 4) ∷ [];
  last_seq = some 9;
  last_update_at = some (at 1100);
  state = synced;
}

abbrev two_deltas : List (BookDeltaMessage Fixed)
two_deltas = delta buy 8 100 5 ∷ delta sell 9 101 0 ∷ []

two_are_applied : apply_all synced_book two_deltas (at 1100) ≡ some book_after
unfolding apply_all apply_delta insert remove
two_are_applied = refl

apply_all-Numbered_example : Numbered 7 two_deltas × (book_after.last_seq ≡ some ((7 + 2) % 2 ^ 64))
apply_all-Numbered_example =
    apply_all-Numbered two_deltas synced_book book_after (at 1100) 7 (omega arith) refl
      two_are_applied

gap_blocks_example :
    (feed (apply_delta synced_book (delta buy 9 100 5) (at 1100)).0 two_deltas (at 1100)
      ≡ record synced_book { state = out_of_sync })
    × (to_rf_core_snapshot (record synced_book { state = out_of_sync }) 5 (at 1100)
        ≡ err (book_out_of_sync "PI_XBTUSD" "current state: OutOfSync"))
gap_blocks_example =
    gap_blocks synced_book (delta buy 9 100 5) two_deltas (at 1100) 7 5 refl refl refl
      (ground arith)

apply_delta_levels_example :
    let b' = (apply_delta synced_book (delta buy 8 100 5) (at 1100)).0 in
    (get (num 100) b'.bids ≡ (
      if num 100 =ᵈ num 100
      then (if fixed_ops.is_zero (num 5) then none else some (num 5))
      else get (num 100) synced_book.bids))
    × (b'.asks ≡ synced_book.asks)
apply_delta_levels_example =
    apply_delta_levels Fixed-IsOrdered synced_book (delta buy 8 100 5) (at 1100) (num 100)
      synced_book-IsValid next_is_applied

apply_delta-IsValid_example : IsValid (apply_delta synced_book (delta buy 8 100 5) (at 1100)).0
apply_delta-IsValid_example =
    apply_delta-IsValid Fixed-IsOrdered synced_book (delta buy 8 100 5) (at 1100)
      synced_book-IsValid

apply_snapshot-IsValid_example :
    IsValid
      (apply_snapshot synced_book
        (snapshot (price_level 90 1 ∷ price_level 95 1 ∷ []) [])
        (at 1100)).0
apply_snapshot-IsValid_example =
    apply_snapshot-IsValid Fixed-IsOrdered synced_book
      (snapshot (price_level 90 1 ∷ price_level 95 1 ∷ []) []) (at 1100) synced_book-IsValid

-- A snapshot, a delta of its product behind a gap, and an invalidation.
abbrev book_history : List (BookEvent Fixed Millis)
book_history =
    Invariant.snapshot (snapshot (price_level 90 1 ∷ []) []) (at 1000)
    ∷ Invariant.delta (delta buy 9 100 5) (at 1050)
    ∷ invalidation
    ∷ []

apply_delta-not-panicked_example :
    (apply_delta (after_events (new_book "PI_XBTUSD") book_history) (delta buy 8 100 5) (at 1100)).1
    ≢ panicked
apply_delta-not-panicked_example =
    apply_delta-not-panicked "PI_XBTUSD" book_history (delta buy 8 100 5) (at 1100)

apply_delta-IsUncrossed_example :
    let b' = (apply_delta synced_book (delta buy 8 100 5) (at 1100)).0 in
    IsUncrossed (last b'.bids) (first b'.asks)
apply_delta-IsUncrossed_example =
    apply_delta-IsUncrossed synced_book (delta buy 8 100 5) (at 1100) next_is_applied

snapshot_is_applied :
    (apply_snapshot synced_book
      (snapshot (price_level 90 1 ∷ []) (price_level 95 1 ∷ []))
      (at 1100)).1
    ≡ ok tt
unfolding apply_snapshot load_levels insert ◌*ℤ◌
snapshot_is_applied = refl

snapshot_crosses :
    (apply_snapshot synced_book
      (snapshot (price_level 96 1 ∷ []) (price_level 95 1 ∷ []))
      (at 1100)).1
    ≡ err (crossed (num 96) (num 95))
unfolding apply_snapshot load_levels insert ◌*ℤ◌
snapshot_crosses = refl

crossed_snapshot_readable_example :
    let b' =
      (apply_snapshot synced_book
        (snapshot (price_level 96 1 ∷ []) (price_level 95 1 ∷ []))
        (at 1100)).0 in
    (b'.state ≡ synced)
    × (book : OrderBookSnapshot Fixed Millis) × (to_rf_core_snapshot b' 5 (at 1100) ≡ ok book)
crossed_snapshot_readable_example =
    crossed_snapshot_readable synced_book (snapshot (price_level 96 1 ∷ []) (price_level 95 1 ∷ []))
      (at 1100) (num 96) (num 95) 5 snapshot_crosses

abbrev reading : OrderBookSnapshot Fixed Millis
reading = record {
  bids = level (num 99, num 2) ∷ level (num 98, num 1) ∷ [];
  asks = level (num 101, num 3) ∷ level (num 102, num 4) ∷ [];
  timestamp = at 1000;
}

book_reads : to_rf_core_snapshot synced_book 5 (at 1100) ≡ ok reading
unfolding to_rf_core_snapshot
book_reads = refl

reading_sorted_example :
    (synced_book.state ≡ synced)
    × ((length reading.bids ≤ 5) × (length reading.asks ≤ 5))
    × (IsFalling reading.bids × IsRising reading.asks)
reading_sorted_example =
    reading_sorted synced_book 5 (at 1100) reading synced_book-IsValid book_reads

reading_best_example :
    (best_bid reading ≡ Option.map level (last synced_book.bids))
    × (best_ask reading ≡ Option.map level (first synced_book.asks))
reading_best_example = reading_best synced_book 4 (at 1100) reading book_reads

-- A duplicate, a fill that follows, and one behind a gap.
abbrev batch : List (FillEntry Fixed)
batch = fill_at 2 ∷ fill_at 3 ∷ fill_at 5 ∷ []

batch_is_counted :
    (apply_fills small_ring batch).1 ≡ record { appended = 2; duplicates = 1; gap_detected = true }
unfolding apply_fills apply_loop apply_fill push
batch_is_counted = refl

apply_fills_history_example :
    (apply_fills small_ring batch).0.fills ≡ last_n 3 (small_ring.fills ++ fresh 2 batch)
apply_fills_history_example = apply_fills_history small_ring batch (omega arith, omega arith)

apply_fills_again_example :
    let once = (apply_fills small_ring batch).0 in
    ((apply_fills once batch).0 ≡ once) × ((apply_fills once batch).1.appended ≡ 0)
apply_fills_again_example = apply_fills_again small_ring batch

no_gap_is_seen : (apply_fills small_ring (fill_at 3 ∷ fill_at 4 ∷ [])).1.gap_detected ≡ false
unfolding apply_fills apply_loop apply_fill push
no_gap_is_seen = refl

apply_fills-no_gap_example :
    let s = apply_fills small_ring (fill_at 3 ∷ fill_at 4 ∷ []) in
    s.0.highest_seq ≡ small_ring.highest_seq + s.1.appended
apply_fills-no_gap_example =
    apply_fills-no_gap small_ring (fill_at 3 ∷ fill_at 4 ∷ []) (omega arith)
      (omega arith, (omega arith, tt)) no_gap_is_seen

ring-IsBounded_example :
    IsBounded (apply_fills small_ring batch).0
    × IsBounded (FillsRing.apply_snapshot small_ring batch)
ring-IsBounded_example = ring-IsBounded small_ring batch (omega arith, omega arith)

-- A snapshot of "a" and "b", and a cancel of "a" by the id beside it.
abbrev orders_history : List (OrdersEvent Fixed Millis)
orders_history = snapshot_of (entry "a" ∷ entry "b" ∷ []) (at 1000) ∷ update cancel_a (at 1100) ∷ []

cancel_is_seen : answer "a" (false, none) orders_history ≡ (true, none)
cancel_is_seen = refl
