-- ===== src/Futures/OrderBook/Sequence.antt =====
-- Sequence numbers: what a run of accepted deltas proves about them, and what a gap does.
use razortrade.Common.{
  ℕ, ◌+◌, ◌%◌, ◌^◌, ◌<◌, ◌≡◌, ◌≢◌, refl, ◌∙◌, ap, Option, none, some, List, [], ◌∷◌, arith, length,
  str_eq_iff,
}
use razortrade.Decimal.{DecimalOps}
use razortrade.Futures.Messages.{BookDeltaMessage}
use razortrade.Futures.OrderBook.{
  LocalOrderBook, synced, out_of_sync, ok, err, panicked, book_out_of_sync, apply_delta,
  to_rf_core_snapshot, Done,
}

abbrev pub next_seq : ℕ → ℕ
next_seq s = (s + 1) % 2 ^ 64

-- The deltas carry the numbers that follow `s`.
abbrev pub Numbered : {D : Type 0} → ℕ → List (BookDeltaMessage D) → Type 0
Numbered s [] = Unit
Numbered s (d ∷ ds) = (d.seq ≡ next_seq s) × Numbered (next_seq s) ds

module _ {D T : Type 0} ⦃dec : DecimalOps D⦄ where
  -- Goes on only after a success.
  abbrev proceed :
      LocalOrderBook D T × Done D
      → (LocalOrderBook D T → Option (LocalOrderBook D T))
      → Option (LocalOrderBook D T)
  proceed (b, ok _) f = f b
  proceed (b, err _) f = none
  proceed (b, panicked) f = none

  -- Applies the deltas in turn; there is a book only if all succeed.
  unfoldable pub apply_all :
      LocalOrderBook D T → List (BookDeltaMessage D) → T → Option (LocalOrderBook D T)
  apply_all b [] now = some b
  apply_all b (d ∷ ds) now = proceed (apply_delta b d now) λ b'. apply_all b' ds now

  -- Applies the deltas in turn, whatever their results are.
  unfoldable pub feed : LocalOrderBook D T → List (BookDeltaMessage D) → T → LocalOrderBook D T
  feed b [] now = b
  feed b (d ∷ ds) now = feed (apply_delta b d now).0 ds now

  -- A delta that succeeds on a book with a last number carries the next one, which the book keeps.
  apply_delta-seq :
      (b : LocalOrderBook D T) (d : BookDeltaMessage D) (now : T) (s : ℕ)
      → b.last_seq ≡ some s
      → (apply_delta b d now).1 ≡ ok tt
      → (d.seq ≡ next_seq s) × ((apply_delta b d now).0.last_seq ≡ some (next_seq s))
  unfolding apply_delta
  apply_delta-seq b d now s e h = ground arith

  proceed-some :
      (r : LocalOrderBook D T × Done D) (f : LocalOrderBook D T → Option (LocalOrderBook D T))
      {b' : LocalOrderBook D T}
      → proceed r f ≡ some b'
      → (r.1 ≡ ok tt) × (f r.0 ≡ some b')
  proceed-some (b, ok tt) f h = (refl, h)
  proceed-some (b, err e) f h = cc
  proceed-some (b, panicked) f h = cc

  -- If a run of deltas is accepted by a book with a last number, their numbers follow the book's last one without a gap, and the
  -- book's last number has moved by their count, modulo 2 ^ 64.
  pub apply_all-Numbered :
      (ds : List (BookDeltaMessage D)) (b b' : LocalOrderBook D T) (now : T) (s : ℕ)
      → s < 2 ^ 64
      → b.last_seq ≡ some s
      → apply_all b ds now ≡ some b'
      → Numbered s ds × (b'.last_seq ≡ some ((s + length ds) % 2 ^ 64))
  unfolding apply_all
  apply_all-Numbered [] b b' now s lt e h = (tt, ground arith)
  apply_all-Numbered (d ∷ ds) b b' now s lt e h =
      let (done, rest) = proceed-some (apply_delta b d now) (λ c. apply_all c ds now) h in
      let (number, last) = apply_delta-seq b d now s e done in
      let (numbers, moved) =
        apply_all-Numbered ds (apply_delta b d now).0 b' now (next_seq s) (omega arith) last rest in
      ((number, numbers), moved ∙ ap some (omega arith))

  apply_delta-out_of_sync :
      (b : LocalOrderBook D T) (d : BookDeltaMessage D) (now : T)
      → b.state ≡ out_of_sync
      → (apply_delta b d now).0 ≡ b
  unfolding apply_delta
  apply_delta-out_of_sync b d now e = ground arith

  -- A book that is out of sync takes no delta.
  feed-out_of_sync :
      (ds : List (BookDeltaMessage D)) (b : LocalOrderBook D T) (now : T)
      → b.state ≡ out_of_sync
      → feed b ds now ≡ b
  unfolding feed
  feed-out_of_sync [] b now e = refl
  feed-out_of_sync (d ∷ ds) b now e =
      rw (apply_delta-out_of_sync b d now e) (feed-out_of_sync ds b now e)

  apply_delta-gap :
      (b : LocalOrderBook D T) (d : BookDeltaMessage D) (now : T) (s : ℕ)
      → d.product_id ≡ b.product_id
      → b.state ≡ synced
      → b.last_seq ≡ some s
      → d.seq ≢ next_seq s
      → (apply_delta b d now).0 ≡ record b { state = out_of_sync }
  unfolding apply_delta
  apply_delta-gap b d now s ep es el gap = ground (arith, str_eq_iff d.product_id b.product_id)

  -- On a book in sync with a last number, a delta of its product with any number but the next one
  -- marks the book; then no further delta changes it, and every reading fails.
  pub gap_blocks :
      (b : LocalOrderBook D T) (d : BookDeltaMessage D) (ds : List (BookDeltaMessage D)) (now : T)
      (s depth : ℕ)
      → d.product_id ≡ b.product_id
      → b.state ≡ synced
      → b.last_seq ≡ some s
      → d.seq ≢ next_seq s
      → let marked = record b { state = out_of_sync } in
        (feed (apply_delta b d now).0 ds now ≡ marked)
        × (to_rf_core_snapshot marked depth now
            ≡ err (book_out_of_sync b.product_id "current state: OutOfSync"))
  unfolding to_rf_core_snapshot
  gap_blocks b d ds now s depth ep es el gap =
      let marked = record b { state = out_of_sync } in
      (rw (apply_delta-gap b d now s ep es el gap) (feed-out_of_sync ds marked now refl), refl)
