-- ===== src/Futures/OrderBook/Reading.antt =====
-- The snapshot that the risk layer reads.
use razortrade.Common.{
  ℕ, zero, suc, ◌≤◌, ◌≡◌, refl, sym, ap, ◌∙◌, true, List, [], ◌∷◌, ◌++◌, arith, map, take, reverse,
  length, length-take, length-map, head?, head-map,
}
use mathlib.Core.Option
use mathlib.Core.List.{reverse-append}
use razortrade.Decimal.{DecimalOps, ◌<ᵈ◌}
use razortrade.Core.MarketData.{OrderBookLevel, OrderBookSnapshot, best_bid, best_ask}
use razortrade.Futures.PriceMap.{PriceMap, first, last, AllAbove, IsAscending}
use razortrade.Futures.OrderBook.{LocalOrderBook, synced, ok, level, to_rf_core_snapshot}
use razortrade.Futures.OrderBook.Invariant.{IsValid}

module _ {D : Type 0} ⦃dec : DecimalOps D⦄ where
  -- Each price is above, or below, all that follow it.
  abbrev pub AllBelow : D → List (OrderBookLevel D) → Type 0
  AllBelow p [] = Unit
  AllBelow p (l ∷ ls) = ((l.price <ᵈ p) ≡ true) × AllBelow p ls

  abbrev pub AllOver : D → List (OrderBookLevel D) → Type 0
  AllOver p [] = Unit
  AllOver p (l ∷ ls) = ((p <ᵈ l.price) ≡ true) × AllOver p ls

  abbrev pub IsFalling : List (OrderBookLevel D) → Type 0
  IsFalling [] = Unit
  IsFalling (l ∷ ls) = AllBelow l.price ls × IsFalling ls

  abbrev pub IsRising : List (OrderBookLevel D) → Type 0
  IsRising [] = Unit
  IsRising (l ∷ ls) = AllOver l.price ls × IsRising ls

  AllOver-take : (n : ℕ) (p : D) (m : PriceMap D) → AllAbove p m → AllOver p (map level (take n m))
  AllOver-take zero p m h = tt
  AllOver-take (suc n) p [] h = tt
  AllOver-take (suc n) p ((k, v) ∷ m) h = (h.0, AllOver-take n p m h.1)

  IsRising-take : (n : ℕ) (m : PriceMap D) → IsAscending m → IsRising (map level (take n m))
  IsRising-take zero m h = tt
  IsRising-take (suc n) [] h = tt
  IsRising-take (suc n) ((k, v) ∷ m) h = (AllOver-take n k m h.0, IsRising-take n m h.1)

  -- The same on plain pairs, in falling order.
  abbrev Under : D → PriceMap D → Type 0
  Under p [] = Unit
  Under p ((k, v) ∷ m) = ((k <ᵈ p) ≡ true) × Under p m

  abbrev IsDescending : PriceMap D → Type 0
  IsDescending [] = Unit
  IsDescending ((k, v) ∷ m) = Under k m × IsDescending m

  AllBelow-take : (n : ℕ) (p : D) (m : PriceMap D) → Under p m → AllBelow p (map level (take n m))
  AllBelow-take zero p m h = tt
  AllBelow-take (suc n) p [] h = tt
  AllBelow-take (suc n) p ((k, v) ∷ m) h = (h.0, AllBelow-take n p m h.1)

  IsFalling-take : (n : ℕ) (m : PriceMap D) → IsDescending m → IsFalling (map level (take n m))
  IsFalling-take zero m h = tt
  IsFalling-take (suc n) [] h = tt
  IsFalling-take (suc n) ((k, v) ∷ m) h = (AllBelow-take n k m h.0, IsFalling-take n m h.1)

  -- Appending the least entry at the end of a descending list.
  Under-append :
      (p k v : D) (m : PriceMap D) → Under p m → (k <ᵈ p) ≡ true → Under p (m ++ (k, v) ∷ [])
  Under-append p k v [] u h = (h, tt)
  Under-append p k v ((j, w) ∷ m) u h = (u.0, Under-append p k v m u.1 h)

  AllAbove-append :
      (a k v : D) (m : PriceMap D) → AllAbove a m → (a <ᵈ k) ≡ true → AllAbove a (m ++ (k, v) ∷ [])
  AllAbove-append a k v [] u h = (h, tt)
  AllAbove-append a k v ((j, w) ∷ m) u h = (u.0, AllAbove-append a k v m u.1 h)

  IsDescending-append :
      (k v : D) (m : PriceMap D) → IsDescending m → AllAbove k m → IsDescending (m ++ (k, v) ∷ [])
  IsDescending-append k v [] d a = (tt, tt)
  IsDescending-append k v ((j, w) ∷ m) d a =
      (Under-append j k v m d.0 a.0, IsDescending-append k v m d.1 a.1)

  AllAbove-reverse : (a : D) (m : PriceMap D) → AllAbove a m → AllAbove a (reverse m)
  AllAbove-reverse a [] h = tt
  AllAbove-reverse a ((k, v) ∷ m) h =
      rw (reverse-append ((k, v) ∷ []) m)
        (AllAbove-append a k v (reverse m) (AllAbove-reverse a m h.1) h.0)

  IsDescending-reverse : (m : PriceMap D) → IsAscending m → IsDescending (reverse m)
  IsDescending-reverse [] h = tt
  IsDescending-reverse ((k, v) ∷ m) h =
      rw (reverse-append ((k, v) ∷ []) m) (
        IsDescending-append k v (reverse m) (IsDescending-reverse m h.1) (AllAbove-reverse k m h.0))

head-append :
    {A : Type 0} (xs : List A) (y : A) (z : A)
    → head? ((xs ++ y ∷ []) ++ z ∷ []) ≡ head? (xs ++ y ∷ [])
head-append [] y z = refl
head-append (x ∷ xs) y z = refl

head-reverse : {D : Type 0} ⦃dec : DecimalOps D⦄ (m : PriceMap D) → head? (reverse m) ≡ last m
head-reverse [] = refl
head-reverse (e ∷ []) = refl
head-reverse (e ∷ f ∷ m) =
    ap head? (reverse-append (e ∷ []) (f ∷ m))
    ∙ ap (λ xs. head? (xs ++ e ∷ [])) (reverse-append (f ∷ []) m)
    ∙ head-append (reverse m) f e
    ∙ ap head? (sym (reverse-append (f ∷ []) m))
    ∙ head-reverse (f ∷ m)

head-take : {A : Type 0} (n : ℕ) (xs : List A) → head? (take (suc n) xs) ≡ head? xs
head-take n [] = refl
head-take n (x ∷ xs) = refl

length-level : {D : Type 0} (n : ℕ) (m : PriceMap D) → length (map level (take n m)) ≤ n
length-level n m = omega (arith, length-map {0, 0} level (take n m), length-take {0} n m)

head-first : {D : Type 0} ⦃dec : DecimalOps D⦄ (m : PriceMap D) → head? m ≡ first m
head-first [] = refl
head-first (e ∷ m) = refl

module _ {D T : Type 0} ⦃dec : DecimalOps D⦄ where
  -- The two sides of a reading that succeeds.
  reading_sides :
      (b : LocalOrderBook D T) (depth : ℕ) (now : T) (s : OrderBookSnapshot D T)
      → to_rf_core_snapshot b depth now ≡ ok s
      → (b.state ≡ synced)
        × (s.bids ≡ map level (take depth (reverse b.bids)))
        × (s.asks ≡ map level (take depth b.asks))
  unfolding to_rf_core_snapshot
  reading_sides b depth now s e = ground arith

  -- Reading a valid book succeeds only in sync, and gives at most `depth` levels for each side, the
  -- bids strictly falling and the asks strictly rising in price.
  pub reading_sorted :
      (b : LocalOrderBook D T) (depth : ℕ) (now : T) (s : OrderBookSnapshot D T)
      → IsValid b
      → to_rf_core_snapshot b depth now ≡ ok s
      → (b.state ≡ synced)
        × ((length s.bids ≤ depth) × (length s.asks ≤ depth))
        × (IsFalling s.bids × IsRising s.asks)
  reading_sorted b depth now s v e =
      let (state, bids, asks) = reading_sides b depth now s e in
      (
        state,
        (rw bids (length-level depth (reverse b.bids)), rw asks (length-level depth b.asks)),
        (
          rw bids (
              IsFalling-take depth (reverse b.bids) (IsDescending-reverse b.bids v.bids_ascending)),
          rw asks (IsRising-take depth b.asks v.asks_ascending),
        ),
      )

  -- The best bid and the best ask of a reading with a positive depth are the book's own.
  pub reading_best :
      (b : LocalOrderBook D T) (depth : ℕ) (now : T) (s : OrderBookSnapshot D T)
      → to_rf_core_snapshot b (suc depth) now ≡ ok s
      → (best_bid s ≡ Option.map level (last b.bids))
        × (best_ask s ≡ Option.map level (first b.asks))
  reading_best b depth now s e =
      let (state, bids, asks) = reading_sides b (suc depth) now s e in
      (
        ap head? bids
            ∙ head-map level (take (suc depth) (reverse b.bids))
            ∙ ap (Option.map level) (head-take depth (reverse b.bids) ∙ head-reverse b.bids),
        ap head? asks
            ∙ head-map level (take (suc depth) b.asks)
            ∙ ap (Option.map level) (head-take depth b.asks ∙ head-first b.asks),
      )
