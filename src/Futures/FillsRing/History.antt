-- ===== src/Futures/FillsRing/History.antt =====
-- The ring is the end of the history of new fills.
use razortrade.Common.{
  ℕ, zero, suc, ◌+◌, ◌-◌, ◌≤◌, ◌<◌, ◌≡◌, refl, sym, ap, ◌∙◌, List, [], ◌∷◌, ◌++◌, length,
  length-append, leb, ◌==◌, if◌then◌else◌, arith, true, false, Bool-cases, inl, inr,
}
use mathlib.Core.List.{append-nil}
use razortrade.Futures.Messages.{FillEntry}
use razortrade.Futures.FillsRing.{
  FillsRing, FillApplyResult, pop_front, push, apply_fill, apply_loop, apply_fills,
}
use razortrade.Futures.FillsRing.Bounded.{IsBounded}

module _ {D : Type 0} where
  -- The fills of a batch with a number above all before them.
  unfoldable pub fresh : ℕ → List (FillEntry D) → List (FillEntry D)
  fresh highest [] = []
  fresh highest (f ∷ fs) = elim (leb f.seq highest) [
    | true ↦ fresh highest fs
    | false ↦ f ∷ fresh f.seq fs
  ]

  unfoldable pub drop : ℕ → List (FillEntry D) → List (FillEntry D)
  drop zero xs = xs
  drop (suc n) [] = []
  drop (suc n) (x ∷ xs) = drop n xs

  -- The last `n` fills.
  unfoldable pub last_n : ℕ → List (FillEntry D) → List (FillEntry D)
  unfolding drop
  last_n n xs = drop (length xs - n) xs

  -- The numbers rise from one fill to the next, above the bound.
  unfoldable pub IsRisingFrom : ℕ → List (FillEntry D) → Type 0
  IsRisingFrom s [] = Unit
  IsRisingFrom s (f ∷ fs) = (s < f.seq) × IsRisingFrom f.seq fs

  pub fresh-IsRisingFrom : (h : ℕ) (fs : List (FillEntry D)) → IsRisingFrom h (fresh h fs)
  unfolding fresh IsRisingFrom
  fresh-IsRisingFrom h [] = tt
  fresh-IsRisingFrom h (f ∷ fs) =
      ground (arith, fresh-IsRisingFrom h fs, fresh-IsRisingFrom f.seq fs)

  fresh-old :
      (hi : ℕ) (f : FillEntry D) (fs : List (FillEntry D))
      → leb f.seq hi ≡ true
      → fresh hi (f ∷ fs) ≡ fresh hi fs
  unfolding fresh
  fresh-old hi f fs b = ground arith

  fresh-new :
      (hi : ℕ) (f : FillEntry D) (fs : List (FillEntry D))
      → leb f.seq hi ≡ false
      → fresh hi (f ∷ fs) ≡ f ∷ fresh f.seq fs
  unfolding fresh
  fresh-new hi f fs b = ground arith

  append-∷ :
      (xs : List (FillEntry D)) (y : FillEntry D) (ys : List (FillEntry D))
      → (xs ++ y ∷ []) ++ ys ≡ xs ++ y ∷ ys
  append-∷ [] y ys = refl
  append-∷ (x ∷ xs) y ys = ap (λ zs. x ∷ zs) (append-∷ xs y ys)

  last_n-all : (n : ℕ) (xs : List (FillEntry D)) → length xs ≤ n → last_n n xs ≡ xs
  unfolding last_n drop
  last_n-all n xs h = let e : length xs - n ≡ 0 = omega arith in rw e refl

  drop-append-one :
      (n : ℕ) (xs : List (FillEntry D)) (y : FillEntry D)
      → n ≤ length xs
      → drop n (xs ++ y ∷ []) ≡ drop n xs ++ y ∷ []
  unfolding drop
  drop-append-one zero xs y h = refl
  drop-append-one (suc n) [] y h = absurd (omega (arith, h))
  drop-append-one (suc n) (x ∷ xs) y h = drop-append-one n xs y (omega arith)

  pop_front-drop : (n : ℕ) (xs : List (FillEntry D)) → pop_front (drop n xs) ≡ drop (suc n) xs
  unfolding drop
  pop_front-drop zero [] = refl
  pop_front-drop zero (x ∷ xs) = refl
  pop_front-drop (suc n) [] = refl
  pop_front-drop (suc n) (x ∷ xs) = pop_front-drop n xs

  length-drop : (n : ℕ) (xs : List (FillEntry D)) → length (drop n xs) ≡ length xs - n
  unfolding drop
  length-drop zero xs = omega arith
  length-drop (suc n) [] = omega arith
  length-drop (suc n) (x ∷ xs) = omega (arith, length-drop n xs)

  -- The end of a history with one more fill.
  last_n-append-one :
      (n : ℕ) (all : List (FillEntry D)) (f : FillEntry D)
      → 0 < n
      → (if length (last_n n all) == n then pop_front (last_n n all) else last_n n all) ++ f ∷ []
        ≡ last_n n (all ++ f ∷ [])
  unfolding last_n
  last_n-append-one n all f pos =
      let grown : length (all ++ f ∷ []) ≡ length all + 1 = length-append all (f ∷ []) in
      elim (Bool-cases (length (last_n n all) == n)) [
        | inl e ↦
            let m : length (all ++ f ∷ []) - n ≡ suc (length all - n) =
              ground (arith, length-drop (length all - n) all) in
            rw e (
              rw m (
                ap (λ xs. xs ++ f ∷ []) (pop_front-drop (length all - n) all)
                ∙ sym (
                    drop-append-one (suc (length all - n)) all f
                      (ground (arith, length-drop (length all - n) all)))))
        | inr e ↦
            let m : length (all ++ f ∷ []) - n ≡ 0 =
              ground (arith, length-drop (length all - n) all) in
            let k : length all - n ≡ 0 = omega arith in rw e (rw m (rw k refl))
      ]

  push-history :
      (r : FillsRing D) (f : FillEntry D) (all : List (FillEntry D))
      → 0 < r.capacity
      → r.fills ≡ last_n r.capacity all
      → (push r f).fills ≡ last_n r.capacity (all ++ f ∷ [])
  unfolding push
  push-history r f all pos e = rw e (last_n-append-one r.capacity all f pos)

  -- One fill, by the capacity and the highest number of the ring before it.
  apply_fill-history :
      (s : FillsRing D × FillApplyResult) (f : FillEntry D) (all : List (FillEntry D)) (room hi : ℕ)
      → 0 < room
      → s.0.capacity ≡ room
      → s.0.highest_seq ≡ hi
      → s.0.fills ≡ last_n room all
      → let s' = (apply_fill s f).0 in
        (s'.capacity ≡ room)
        × (s'.fills ≡ last_n room (if leb f.seq hi then all else all ++ f ∷ []))
        × (s'.highest_seq ≡ (if leb f.seq hi then hi else f.seq))
  unfolding apply_fill push
  apply_fill-history (r, n) f all room hi pos ec eh e =
      ground (arith, push-history (record r { highest_seq = f.seq }) f all (omega arith) (rw ec e))

  apply_loop-history :
      (fs : List (FillEntry D)) (s : FillsRing D × FillApplyResult) (all : List (FillEntry D))
      (room hi : ℕ)
      → 0 < room
      → s.0.capacity ≡ room
      → s.0.highest_seq ≡ hi
      → s.0.fills ≡ last_n room all
      → (apply_loop s fs).0.fills ≡ last_n room (all ++ fresh hi fs)
  unfolding apply_loop fresh
  apply_loop-history [] s all room hi pos ec eh e = rw (append-nil all) e
  apply_loop-history (f ∷ fs) s all room hi pos ec eh e =
      let (ec', e', eh') = apply_fill-history s f all room hi pos ec eh e in
      elim (Bool-cases (leb f.seq hi)) [
        | inl b ↦
            rw (fresh-old hi f fs b) (
              apply_loop-history fs (apply_fill s f) all room hi pos ec' (rw b at eh') (rw b at e'))
        | inr b ↦ rw (fresh-new hi f fs b) (
            apply_loop-history fs (apply_fill s f) (all ++ f ∷ []) room f.seq pos ec' (rw b at eh')
              (rw b at e')
            ∙ ap (last_n room) (append-∷ all f (fresh f.seq fs)))
      ]

  -- After a batch a ring that was within its positive capacity holds the last fills, up to its capacity, of what it held before
  -- followed by the new fills of the batch.
  pub apply_fills_history :
      (r : FillsRing D) (fs : List (FillEntry D))
      → IsBounded r
      → (apply_fills r fs).0.fills ≡ last_n r.capacity (r.fills ++ fresh r.highest_seq fs)
  unfolding apply_fills
  apply_fills_history r fs h =
      apply_loop-history fs (r, record { appended = 0; duplicates = 0; gap_detected = false })
        r.fills r.capacity r.highest_seq h.0 refl refl (sym (last_n-all r.capacity r.fills h.1))
