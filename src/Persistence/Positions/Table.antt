-- ===== src/Persistence/Positions/Table.antt =====
-- The table under updates of one row and inserts: which row is the open one of a key.
use razortrade.Common.{
  ◌⊎◌, ℕ, ◌+◌, ◌<◌, ◌≡◌, refl, sym, ◌∙◌, Bool, true, false, ◌&&◌, none, some, List, [], ◌∷◌, String,
  str_eq, str_eq_iff, ◌==◌, if◌then◌else◌, arith, Bool-cases, inl, inr,
}
use razortrade.Persistence.PositionRows.{
  PositionRow, PositionTable, is_open, matches, find_open, update_row,
}

module _ {X : Type 0} where
  -- The ids fall, from below the bound.
  abbrev pub IdsBelow : ℕ → List (PositionRow X) → Type 0
  IdsBelow n [] = Unit
  IdsBelow n (r ∷ rows) = (r.id < n) × IdsBelow r.id rows

  -- At most one row of the key is open.
  abbrev pub AtMostOne : String → String → List (PositionRow X) → Type 0
  AtMostOne s b [] = Unit
  AtMostOne s b (r ∷ rows) =
      ((matches s b r ≡ true) → find_open s b rows ≡ none) × AtMostOne s b rows

  -- The ids are distinct, and no key has two open positions.
  pub record IsValid (t : PositionTable X) : Type 0 where
    pub ids_below : IdsBelow t.next_id t.rows
    pub at_most_one : (s b : String) → AtMostOne s b t.rows

  -- The update keeps the key of every row.
  pub record KeepsKey (f : PositionRow X → PositionRow X) : Type 0 where
    pub symbol : (r : PositionRow X) → (f r).instrument_symbol ≡ r.instrument_symbol
    pub broker : (r : PositionRow X) → (f r).broker ≡ r.broker
    pub id : (r : PositionRow X) → (f r).id ≡ r.id

  -- It keeps an open row open, …
  abbrev pub KeepsOpen : (PositionRow X → PositionRow X) → Type 0
  KeepsOpen f = (r : PositionRow X) → is_open (f r) ≡ is_open r

  -- … or closes the row.
  abbrev pub Closes : (PositionRow X → PositionRow X) → Type 0
  Closes f = (r : PositionRow X) → is_open (f r) ≡ false

  matches-keeps :
      (f : PositionRow X → PositionRow X) (s b : String) (r : PositionRow X)
      → KeepsKey f
      → KeepsOpen f
      → matches s b (f r) ≡ matches s b r
  unfolding matches
  matches-keeps f s b r k o = ground (arith, k.symbol r, k.broker r, o r)

  matches-Closes :
      (f : PositionRow X → PositionRow X) (s b : String) (r : PositionRow X)
      → Closes f
      → matches s b (f r) ≡ false
  unfolding matches
  matches-Closes f s b r c = ground (arith, c r)

  -- Rows with lower ids are not touched.
  update-below :
      (n : ℕ) (f : PositionRow X → PositionRow X) (m : ℕ) (rows : List (PositionRow X))
      → m < n + 1
      → IdsBelow m rows
      → update_row n f rows ≡ rows
  unfolding update_row
  update-below n f m [] lt h = refl
  update-below n f m (r ∷ rows) lt h = ground (arith, update-below n f r.id rows (omega arith) h.1)

  pub update-IdsBelow :
      (i : ℕ) (f : PositionRow X → PositionRow X) (n : ℕ) (rows : List (PositionRow X))
      → KeepsKey f
      → IdsBelow n rows
      → IdsBelow n (update_row i f rows)
  unfolding update_row
  update-IdsBelow i f n [] k h = tt
  update-IdsBelow i f n (r ∷ rows) k h = ground (arith, k.id r, update-IdsBelow i f r.id rows k h.1)

  -- No row of a key is open after an update if none was before.
  update-none :
      (i : ℕ) (f : PositionRow X → PositionRow X) (s b : String) (rows : List (PositionRow X))
      → KeepsKey f
      → KeepsOpen f ⊎ Closes f
      → find_open s b rows ≡ none
      → find_open s b (update_row i f rows) ≡ none
  unfolding update_row
  update-none i f s b [] k o h = refl
  update-none i f s b (r ∷ rows) k (inl o) h =
      ground (arith, matches-keeps f s b r k o, update-none i f s b rows k (inl o))
  update-none i f s b (r ∷ rows) k (inr c) h =
      ground (arith, matches-Closes f s b r c, update-none i f s b rows k (inr c))

  matches-update :
      (f : PositionRow X → PositionRow X) (s b : String) (r : PositionRow X) (c : Bool)
      → KeepsKey f
      → KeepsOpen f ⊎ Closes f
      → matches s b (if c then f r else r) ≡ true
      → matches s b r ≡ true
  matches-update f s b r false k o m = m
  matches-update f s b r true k (inl o) m = sym (matches-keeps f s b r k o) ∙ m
  matches-update f s b r true k (inr c) m = ground (arith, matches-Closes f s b r c)

  pub update-AtMostOne :
      (i : ℕ) (f : PositionRow X → PositionRow X) (s b : String) (rows : List (PositionRow X))
      → KeepsKey f
      → KeepsOpen f ⊎ Closes f
      → AtMostOne s b rows
      → AtMostOne s b (update_row i f rows)
  unfolding update_row
  update-AtMostOne i f s b [] k o h = tt
  update-AtMostOne i f s b (r ∷ rows) k o h = (
    λ m. update-none i f s b rows k o (h.0 (matches-update f s b r (r.id == i) k o m)),
    update-AtMostOne i f s b rows k o h.1,
  )

  -- The open row, after an update that keeps it open.
  pub find-update-keeps :
      (f : PositionRow X → PositionRow X) (s b : String) (n : ℕ) (rows : List (PositionRow X))
      (r : PositionRow X)
      → KeepsKey f
      → KeepsOpen f
      → IdsBelow n rows
      → find_open s b rows ≡ some r
      → (r.id < n) × (find_open s b (update_row r.id f rows) ≡ some (f r))
  unfolding update_row
  find-update-keeps f s b n [] r k o i h = absurd (ground arith)
  find-update-keeps f s b n (q ∷ rows) r k o i h =
      ground (arith, matches-keeps f s b q k o, find-update-keeps f s b q.id rows r k o i.1)

  -- No row of the key is open after the one is closed.
  pub find-update-Closes :
      (f : PositionRow X → PositionRow X) (s b : String) (n : ℕ) (rows : List (PositionRow X))
      (r : PositionRow X)
      → KeepsKey f
      → Closes f
      → IdsBelow n rows
      → AtMostOne s b rows
      → find_open s b rows ≡ some r
      → (r.id < n) × (find_open s b (update_row r.id f rows) ≡ none)
  unfolding update_row
  find-update-Closes f s b n [] r k c i a h = absurd (ground arith)
  find-update-Closes f s b n (q ∷ rows) r k c i a h = ground (
    arith,
    a.0,
    matches-Closes f s b q c,
    update-below q.id f q.id rows (omega arith) i.1,
    find-update-Closes f s b q.id rows r k c i.1 a.1,
  )

  not-matches-other :
      (s b s' b' : String) (r : PositionRow X)
      → matches s b r ≡ true
      → (str_eq s s' && str_eq b b') ≡ false
      → (str_eq r.instrument_symbol s' && str_eq r.broker b') ≡ false
  unfolding matches
  not-matches-other s b s' b' r m d =
      ground (arith, str_eq_iff r.instrument_symbol s, str_eq_iff r.broker b)

  matches-false :
      (s b : String) (r : PositionRow X)
      → (str_eq r.instrument_symbol s && str_eq r.broker b) ≡ false
      → matches s b r ≡ false
  unfolding matches
  matches-false s b r h = ground arith

  matches-key :
      (f : PositionRow X → PositionRow X) (s b : String) (r : PositionRow X)
      → KeepsKey f
      → (str_eq r.instrument_symbol s && str_eq r.broker b) ≡ false
      → matches s b (f r) ≡ false
  unfolding matches
  matches-key f s b r k h = ground (arith, k.symbol r, k.broker r)

  -- The update of the open row of one key leaves every other key's as it is.
  pub find-update-other :
      (f : PositionRow X → PositionRow X) (s b s' b' : String) (n : ℕ) (rows : List (PositionRow X))
      (r : PositionRow X)
      → KeepsKey f
      → IdsBelow n rows
      → (str_eq s s' && str_eq b b') ≡ false
      → find_open s b rows ≡ some r
      → (r.id < n) × (find_open s' b' (update_row r.id f rows) ≡ find_open s' b' rows)
  unfolding update_row
  find-update-other f s b s' b' n [] r k i d h = absurd (ground arith)
  find-update-other f s b s' b' n (q ∷ rows) r k i d h = elim (Bool-cases (matches s b q)) [
    | inl m ↦
        let other = not-matches-other s b s' b' q m d in
        ground (
          arith,
          matches-false s' b' q other,
          matches-key f s' b' q k other,
          update-below q.id f q.id rows (omega arith) i.1,
        )
    | inr m ↦ ground (arith, find-update-other f s b s' b' q.id rows r k i.1 d)
  ]
