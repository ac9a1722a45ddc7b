-- ===== src/Futures/FillsRing/Bounded.antt =====
-- The ring stays within its capacity.
use razortrade.Common.{◌+◌, ◌≤◌, ◌<◌, max, ◌≡◌, List, [], ◌∷◌, length, length-append, arith}
use razortrade.Futures.Messages.{FillEntry}
use razortrade.Futures.FillsRing.{
  FillsRing, FillApplyResult, pop_front, push, push_all, apply_snapshot, apply_fill, apply_loop,
  apply_fills,
}

module _ {D : Type 0} where
  -- A ring with room for a fill holds at most its capacity.
  abbrev pub IsBounded : FillsRing D → Type 0
  IsBounded r = (0 < r.capacity) × (length r.fills ≤ r.capacity)

  length-pop_front :
      (xs : List (FillEntry D)) → 0 < length xs → length (pop_front xs) + 1 ≡ length xs
  length-pop_front [] h = omega (arith, h)
  length-pop_front (x ∷ xs) h = omega arith

  pub push-IsBounded : (r : FillsRing D) (f : FillEntry D) → IsBounded r → IsBounded (push r f)
  unfolding push
  push-IsBounded r f h = ground (
    arith,
    length-append r.fills (f ∷ []),
    length-append (pop_front r.fills) (f ∷ []),
    length-pop_front r.fills,
  )

  push_all-IsBounded :
      (fs : List (FillEntry D)) (r : FillsRing D) → IsBounded r → IsBounded (push_all r fs)
  unfolding push_all
  push_all-IsBounded [] r h = h
  push_all-IsBounded (f ∷ fs) r h =
      push_all-IsBounded fs (push (record r { highest_seq = max r.highest_seq f.seq }) f)
        (push-IsBounded (record r { highest_seq = max r.highest_seq f.seq }) f h)

  apply_fill-IsBounded :
      (s : FillsRing D × FillApplyResult) (f : FillEntry D)
      → IsBounded s.0
      → IsBounded (apply_fill s f).0
  unfolding apply_fill
  apply_fill-IsBounded (r, n) f h =
      ground (arith, push-IsBounded (record r { highest_seq = f.seq }) f h)

  pub apply_loop-IsBounded :
      (fs : List (FillEntry D)) (s : FillsRing D × FillApplyResult)
      → IsBounded s.0
      → IsBounded (apply_loop s fs).0
  unfolding apply_loop
  apply_loop-IsBounded [] s h = h
  apply_loop-IsBounded (f ∷ fs) s h =
      apply_loop-IsBounded fs (apply_fill s f) (apply_fill-IsBounded s f h)

  -- Neither a batch of fills nor a snapshot, of any length, takes a ring that is
  -- within its positive capacity beyond it.
  pub ring-IsBounded :
      (r : FillsRing D) (fs : List (FillEntry D))
      → IsBounded r
      → IsBounded (apply_fills r fs).0 × IsBounded (apply_snapshot r fs)
  unfolding apply_fills apply_snapshot
  ring-IsBounded r fs h = (
    apply_loop-IsBounded fs _ h,
    push_all-IsBounded fs (record r { fills = []; highest_seq = 0 }) (h.0, omega arith),
  )
