-- ===== src/Futures/FillsRing/Numbers.antt =====
-- The sequence numbers of the ring, and what the counters of a batch say about them.
use razortrade.Common.{
  ◌+◌, ◌≤◌, ◌<◌, ◌^◌, ◌≡◌, ◌≢◌, refl, ap, ◌∙◌, List, [], ◌∷◌, length, All, arith, false,
}
use razortrade.Futures.Messages.{FillEntry}
use razortrade.Futures.FillsRing.{
  FillsRing, FillApplyResult, push, apply_fill, apply_loop, apply_fills,
}

module _ {D : Type 0} where
  apply_fill_count :
      (s : FillsRing D × FillApplyResult) (f : FillEntry D)
      → let s' = apply_fill s f in
        (s'.1.appended + s'.1.duplicates ≡ s.1.appended + s.1.duplicates + 1)
        × ((s.0.highest_seq ≤ s'.0.highest_seq) × (f.seq ≤ s'.0.highest_seq))
  unfolding apply_fill push
  apply_fill_count (r, n) f = ground arith

  apply_loop_count :
      (fs : List (FillEntry D)) (s : FillsRing D × FillApplyResult)
      → let s' = apply_loop s fs in
        (s'.1.appended + s'.1.duplicates ≡ s.1.appended + s.1.duplicates + length fs)
        × (s.0.highest_seq ≤ s'.0.highest_seq)
  unfolding apply_loop
  apply_loop_count [] s = (omega arith, omega arith)
  apply_loop_count (f ∷ fs) s =
      let (count, below) = apply_loop_count fs (apply_fill s f) in
      let (one, step) = apply_fill_count s f in (omega arith, omega arith)

  -- Every fill of a batch is counted once, as appended or as a duplicate, and the highest number
  -- never falls.
  pub apply_fills_count :
      (r : FillsRing D) (fs : List (FillEntry D))
      → let s = apply_fills r fs in
        (s.1.appended + s.1.duplicates ≡ length fs) × (r.highest_seq ≤ s.0.highest_seq)
  unfolding apply_fills
  apply_fills_count r fs =
      let (count, below) =
        apply_loop_count fs (r, record { appended = 0; duplicates = 0; gap_detected = false }) in
      (omega (arith, count), below)

  -- No fill of the batch lies above the ring's highest number afterwards.
  apply_loop_seen :
      (fs : List (FillEntry D)) (s : FillsRing D × FillApplyResult)
      → All (λ f. f.seq ≤ (apply_loop s fs).0.highest_seq) fs
  unfolding apply_loop
  apply_loop_seen [] s = tt
  apply_loop_seen (f ∷ fs) s =
      let (count, below) = apply_loop_count fs (apply_fill s f) in
      let (one, step) = apply_fill_count s f in (omega arith, apply_loop_seen fs (apply_fill s f))

  apply_fill-duplicate :
      (r : FillsRing D) (n : FillApplyResult) (f : FillEntry D)
      → f.seq ≤ r.highest_seq
      → apply_fill (r, n) f ≡ (r, record n { duplicates = n.duplicates + 1 })
  unfolding apply_fill
  apply_fill-duplicate r n f h = ground arith

  apply_loop-duplicates :
      (fs : List (FillEntry D)) (r : FillsRing D) (n : FillApplyResult)
      → All (λ f. f.seq ≤ r.highest_seq) fs
      → ((apply_loop (r, n) fs).0 ≡ r) × ((apply_loop (r, n) fs).1.appended ≡ n.appended)
  unfolding apply_loop
  apply_loop-duplicates [] r n h = (refl, refl)
  apply_loop-duplicates (f ∷ fs) r n h =
      let same = ap (λ s. apply_loop s fs) (apply_fill-duplicate r n f h.0) in
      let (ring, count) =
        apply_loop-duplicates fs r (record n { duplicates = n.duplicates + 1 }) h.1 in
      (ap (λ s. s.0) same ∙ ring, ap (λ s. s.1.appended) same ∙ count)

  -- A batch that is delivered twice changes nothing the second time: the ring is the same and no
  -- fill is appended.
  pub apply_fills_again :
      (r : FillsRing D) (fs : List (FillEntry D))
      → let once = (apply_fills r fs).0 in
        ((apply_fills once fs).0 ≡ once) × ((apply_fills once fs).1.appended ≡ 0)
  unfolding apply_fills
  apply_fills_again r fs =
      let start : FillApplyResult = record { appended = 0; duplicates = 0; gap_detected = false } in
      apply_loop-duplicates fs (apply_loop (r, start) fs).0 start (apply_loop_seen fs (r, start))

  apply_fill-no_gap :
      (s : FillsRing D × FillApplyResult) (f : FillEntry D)
      → s.0.highest_seq ≢ 0
      → f.seq < 2 ^ 64
      → (apply_fill s f).1.gap_detected ≡ false
      → let s' = apply_fill s f in
        (s.1.gap_detected ≡ false)
        × (s'.0.highest_seq + s.1.appended ≡ s.0.highest_seq + s'.1.appended)
  unfolding apply_fill push
  apply_fill-no_gap (r, n) f h lt e = ground arith

  apply_loop-no_gap :
      (fs : List (FillEntry D)) (s : FillsRing D × FillApplyResult)
      → s.0.highest_seq ≢ 0
      → All (λ f. f.seq < 2 ^ 64) fs
      → (apply_loop s fs).1.gap_detected ≡ false
      → let s' = apply_loop s fs in
        (s.1.gap_detected ≡ false)
        × (s'.0.highest_seq + s.1.appended ≡ s.0.highest_seq + s'.1.appended)
  unfolding apply_loop
  apply_loop-no_gap [] s h lt e = (e, refl)
  apply_loop-no_gap (f ∷ fs) s h lt e =
      let (count, step) = apply_fill_count s f in
      let (flag, moved) = apply_loop-no_gap fs (apply_fill s f) (omega arith) lt.1 e in
      let (flag', moved') = apply_fill-no_gap s f h lt.0 flag in (flag', omega arith)

  -- Once a number is known, a batch of `u64` numbers that reports no gap has moved the highest number by exactly the
  -- count of appended fills: none is missing.
  pub apply_fills-no_gap :
      (r : FillsRing D) (fs : List (FillEntry D))
      → r.highest_seq ≢ 0
      → All (λ f. f.seq < 2 ^ 64) fs
      → (apply_fills r fs).1.gap_detected ≡ false
      → let s = apply_fills r fs in s.0.highest_seq ≡ r.highest_seq + s.1.appended
  unfolding apply_fills
  apply_fills-no_gap r fs h lt e =
      let (flag, moved) =
        apply_loop-no_gap fs (r, record { appended = 0; duplicates = 0; gap_detected = false }) h lt
          e in
      omega (arith, moved)
