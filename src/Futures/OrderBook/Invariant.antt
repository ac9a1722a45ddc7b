-- ===== src/Futures/OrderBook/Invariant.antt =====
-- The invariant of the book, and that every method keeps it.
use razortrade.Common.{◌≡◌, ◌≢◌, ◌⊎◌, inl, inr, Bool-cases, none, List, [], ◌∷◌, arith, String}
use razortrade.Decimal.{DecimalOps, IsOrdered, ◌<ᵈ◌}
use razortrade.Futures.Messages.{PriceLevel, BookSnapshotMessage, BookDeltaMessage}
use razortrade.Futures.PriceMap.{PriceMap, IsAscending}
use razortrade.Futures.PriceMap.Order.{insert-IsAscending, remove-IsAscending}
use razortrade.Futures.OrderBook.{
  LocalOrderBook, synced, panicked, load_levels, update_side, apply_snapshot, apply_delta,
  invalidate, new_book,
}

module _ {D T : Type 0} ⦃dec : DecimalOps D⦄ where
  -- Both sides are in order, and a book in sync knows its last sequence number.
  pub record IsValid (b : LocalOrderBook D T) : Type 0 where
    pub bids_ascending : IsAscending b.bids
    pub asks_ascending : IsAscending b.asks
    pub seq_known : (¬ (b.state ≡ synced)) ⊎ (b.last_seq ≢ none)

  pub new_book-IsValid : (product : String) → IsValid (new_book product)
  new_book-IsValid product = record {
    bids_ascending = tt;
    asks_ascending = tt;
    seq_known = inl (ground arith);
  }

  pub invalidate-IsValid : (b : LocalOrderBook D T) → IsValid (invalidate b)
  unfolding invalidate
  invalidate-IsValid b = record {
    bids_ascending = tt;
    asks_ascending = tt;
    seq_known = inl (ground arith);
  }

module _ {D : Type 0} ⦃dec : DecimalOps D⦄ (laws : IsOrdered D) where
  load_levels-IsAscending :
      (ls : List (PriceLevel D)) (m : PriceMap D) → IsAscending m → IsAscending (load_levels ls m)
  unfolding load_levels
  load_levels-IsAscending [] m s = s
  load_levels-IsAscending (l ∷ ls) m s = elim (Bool-cases (dec.zero <ᵈ l.qty)) [
    | inl p ↦ rw p (load_levels-IsAscending ls _ (insert-IsAscending laws l.price l.qty m s))
    | inr n ↦ rw n (load_levels-IsAscending ls m s)
  ]

  update_side-IsAscending :
      (price qty : D) (m : PriceMap D) → IsAscending m → IsAscending (update_side price qty m)
  update_side-IsAscending price qty m s =
      ground (arith, insert-IsAscending laws price qty m s, remove-IsAscending laws price m s)

module _ {D T : Type 0} ⦃dec : DecimalOps D⦄ (laws : IsOrdered D) where
  -- A snapshot keeps a valid book valid, whatever levels it carries and whether or not it succeeds:
  -- both sides in strict price order, and a last number known in sync.
  pub apply_snapshot-IsValid :
      (b : LocalOrderBook D T) (snap : BookSnapshotMessage D) (now : T)
      → IsValid b
      → IsValid (apply_snapshot b snap now).0
  unfolding apply_snapshot
  apply_snapshot-IsValid b snap now v = ground (
    arith,
    load_levels-IsAscending laws snap.bids [] tt,
    load_levels-IsAscending laws snap.asks [] tt,
  )

  -- A delta keeps a valid book valid, whether or not it succeeds: both sides in strict price order,
  -- and a last number known in sync.
  pub apply_delta-IsValid :
      (b : LocalOrderBook D T) (delta : BookDeltaMessage D) (now : T)
      → IsValid b
      → IsValid (apply_delta b delta now).0
  unfolding apply_delta
  apply_delta-IsValid b delta now v = ground (
    arith,
    update_side-IsAscending laws delta.price delta.qty b.bids v.bids_ascending,
    update_side-IsAscending laws delta.price delta.qty b.asks v.asks_ascending,
  )

-- A call of one of the three methods that change a book.
pub data BookEvent (D T : Type 0) : Type 0 where
  snapshot : BookSnapshotMessage D → T → BookEvent D T
  delta : BookDeltaMessage D → T → BookEvent D T
  invalidation : BookEvent D T

module _ {D T : Type 0} ⦃dec : DecimalOps D⦄ where
  abbrev pub after_event : LocalOrderBook D T → BookEvent D T → LocalOrderBook D T
  after_event b (snapshot m now) = (apply_snapshot b m now).0
  after_event b (delta m now) = (apply_delta b m now).0
  after_event b invalidation = invalidate b

  abbrev pub after_events : LocalOrderBook D T → List (BookEvent D T) → LocalOrderBook D T
  after_events b [] = b
  after_events b (e ∷ es) = after_events (after_event b e) es

  abbrev KnowsSeq : LocalOrderBook D T → Type 0
  KnowsSeq b = (¬ (b.state ≡ synced)) ⊎ (b.last_seq ≢ none)

  after_event-KnowsSeq :
      (b : LocalOrderBook D T) (e : BookEvent D T) → KnowsSeq b → KnowsSeq (after_event b e)
  unfolding apply_snapshot apply_delta invalidate
  after_event-KnowsSeq b (snapshot m now) h = ground arith
  after_event-KnowsSeq b (delta m now) h = ground arith
  after_event-KnowsSeq b invalidation h = inl (ground arith)

  after_events-KnowsSeq :
      (b : LocalOrderBook D T) (es : List (BookEvent D T))
      → KnowsSeq b
      → KnowsSeq (after_events b es)
  after_events-KnowsSeq b [] h = h
  after_events-KnowsSeq b (e ∷ es) h =
      after_events-KnowsSeq (after_event b e) es (after_event-KnowsSeq b e h)

  delta-not-panicked :
      (b : LocalOrderBook D T) (m : BookDeltaMessage D) (now : T)
      → KnowsSeq b
      → (apply_delta b m now).1 ≢ panicked
  unfolding apply_delta
  delta-not-panicked b m now h = ground arith

  -- `expect("Synced implies last_seq is set")` never panics: on a new book and after any calls of
  -- its methods, whether they succeeded or not, a delta does not panic.
  pub apply_delta-not-panicked :
      (product : String) (es : List (BookEvent D T)) (m : BookDeltaMessage D) (now : T)
      → (apply_delta (after_events (new_book product) es) m now).1 ≢ panicked
  apply_delta-not-panicked product es m now =
      delta-not-panicked (after_events (new_book product) es) m now
        (after_events-KnowsSeq (new_book product) es (inl (ground arith)))
