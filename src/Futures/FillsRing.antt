-- ===== src/Futures/FillsRing.antt =====
-- `FillsRing` (crates/rt-kraken-futures/src/private_state.rs): the recent fills of the account.
-- Sequence numbers are `u64`; the counters of one batch cannot overflow.
pub mod Bounded
pub mod Numbers
pub mod History
use razortrade.Common.{
  ℕ, ◌+◌, ◌%◌, ◌^◌, max, Bool, true, false, not, ◌&&◌, List, [], ◌∷◌, ◌++◌, length, leb, ltb, ◌==◌,
  if◌then◌else◌,
}
use razortrade.Futures.Messages.{FillEntry}

pub record FillsRing (D : Type 0) : Type 0 where
  pub fills : List (FillEntry D)
  pub capacity : ℕ
  pub highest_seq : ℕ
  pub is_synced : Bool

pub record FillApplyResult : Type 0 where
  pub appended : ℕ
  pub duplicates : ℕ
  pub gap_detected : Bool

-- `VecDeque::pop_front`.
abbrev pub pop_front : {A : Type 0} → List A → List A
pop_front [] = []
pop_front (x ∷ xs) = xs

-- The test for a missed fill, with the `u64` addition.
abbrev pub is_gap : ℕ → ℕ → Bool
is_gap highest seq = not (highest == 0) && ltb ((highest + 1) % 2 ^ 64) seq

module _ {D : Type 0} where
  -- `FillsRing::new`.
  abbrev pub new_ring : ℕ → FillsRing D
  new_ring capacity = record { fills = []; capacity = capacity; highest_seq = 0; is_synced = false }

  -- `FillsRing::default`, with `FILLS_RING_CAPACITY`.
  abbrev pub default_ring : FillsRing D
  default_ring = new_ring 200

  unfoldable pub push : FillsRing D → FillEntry D → FillsRing D
  push r f = record r {
    fills = (if length r.fills == r.capacity then pop_front r.fills else r.fills) ++ f ∷ [];
  }

  -- The loop of `apply_snapshot`.
  unfoldable pub push_all : FillsRing D → List (FillEntry D) → FillsRing D
  push_all r [] = r
  push_all r (f ∷ fs) = push_all (push (record r { highest_seq = max r.highest_seq f.seq }) f) fs

  unfoldable pub apply_snapshot : FillsRing D → List (FillEntry D) → FillsRing D
  apply_snapshot r fs = record (push_all (record r { fills = []; highest_seq = 0 }) fs) {
    is_synced = true;
  }

  -- One turn of the loop of `apply_fills`.
  unfoldable pub apply_fill :
      FillsRing D × FillApplyResult → FillEntry D → FillsRing D × FillApplyResult
  apply_fill (r, n) f =
      if leb f.seq r.highest_seq then (r, record n { duplicates = n.duplicates + 1 }) else (
        push (record r { highest_seq = f.seq }) f,
        record n {
          appended = n.appended + 1;
          gap_detected = if is_gap r.highest_seq f.seq then true else n.gap_detected;
        },
      )

  unfoldable pub apply_loop :
      FillsRing D × FillApplyResult → List (FillEntry D) → FillsRing D × FillApplyResult
  apply_loop s [] = s
  apply_loop s (f ∷ fs) = apply_loop (apply_fill s f) fs

  unfoldable pub apply_fills : FillsRing D → List (FillEntry D) → FillsRing D × FillApplyResult
  apply_fills r fs =
      apply_loop (r, record { appended = 0; duplicates = 0; gap_detected = false }) fs

  unfoldable pub invalidate : FillsRing D → FillsRing D
  invalidate r = record r { fills = []; highest_seq = 0; is_synced = false }
