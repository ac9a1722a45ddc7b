-- ===== src/Persistence/Signals/Queue.antt =====
-- Which signals a poll takes from the table.
use Prim.Native.Nat.{ℕ, min}
use mathlib.Core.List.{Perm}
use mathlib.Core.List.Perm
use razortrade.Common.{
  ◌↔◌, Option, none, some, arith, str_eq_iff, Selects, filter-Selects, ◌≡◌, refl, ◌⊎◌, inl, inr,
  Bool, true, List, [], ◌∷◌, ◌++◌, String, All, length, take, filter, Bool-cases, All-map,
  length-take, ap, ◌∙◌, zero, suc,
}
use razortrade.Persistence.Signals.{
  SignalRow, cooled_down, is_due, insert_by_created, order_by_created, pending_signals,
}

abbrev drop : {A : Type 0} → ℕ → List A → List A
drop zero xs = xs
drop (suc n) [] = []
drop (suc n) (x ∷ xs) = drop n xs

take-drop : {A : Type 0} (n : ℕ) (xs : List A) → (take n xs ++ drop n xs) ≡ xs
take-drop zero xs = refl
take-drop (suc n) [] = refl
take-drop (suc n) (x ∷ xs) = ap (λ ys. x ∷ ys) (take-drop n xs)

cooled_down_iff :
    (le : String → String → Bool) (now : String) (retry : Option String)
    → (cooled_down le now retry ≡ true)
      ↔ ((retry ≡ none) ⊎ ((t : String) × (retry ≡ some t) × (le t now ≡ true)))
cooled_down_iff le now none = (λ h. inl refl, λ h. refl)
cooled_down_iff le now (some t) =
    (λ h. inr (t, refl, h), elim [ inl e ↦ absurd (ground arith) | inr (u, e, h) ↦ ground arith ])

module _ {X : Type 0} (le : String → String → Bool) where
  abbrev IsBefore : SignalRow X → SignalRow X → Type 0
  IsBefore r s = le r.created_at s.created_at ≡ true

  -- No row was created after one behind it.
  abbrev pub IsOldestFirst : List (SignalRow X) → Type 0
  IsOldestFirst [] = Unit
  IsOldestFirst (r ∷ rows) = All (IsBefore r) rows × IsOldestFirst rows

  -- A signal that waits to be processed, and is on no cooldown that ends after `now`.
  abbrev pub IsDue : String → SignalRow X → Type 0
  IsDue now r =
      (r.status ≡ "pending")
      × ((r.retry_after_at ≡ none)
          ⊎ ((retry : String) × (r.retry_after_at ≡ some retry) × (le retry now ≡ true)))

  -- `taken` are the first rows, at most `limit`, of the due rows by their age.
  abbrev pub IsQueue : ℕ → String → List (SignalRow X) → List (SignalRow X) → Type 0
  IsQueue limit now rows taken =
      (due : List (SignalRow X)) × (waiting : List (SignalRow X)) × Selects (IsDue now) rows due
      × Perm (taken ++ waiting) due
      × IsOldestFirst (taken ++ waiting)
      × (length taken ≡ min limit (length due))

  is_due_iff : (now : String) (r : SignalRow X) → (is_due le now r ≡ true) ↔ IsDue now r
  is_due_iff now r =
      ground (arith, str_eq_iff r.status "pending", cooled_down_iff le now r.retry_after_at)

  insert-Perm :
      (r : SignalRow X) (rows : List (SignalRow X)) → Perm (insert_by_created le r rows) (r ∷ rows)
  unfolding insert_by_created
  insert-Perm r [] = Perm.refl (r ∷ [])
  insert-Perm r (s ∷ rows) = elim (Bool-cases (le s.created_at r.created_at)) [
    | inl e ↦ rw e (Perm.trans (Perm.cons s (insert-Perm r rows)) (Perm.swap r s rows))
    | inr e ↦ rw e (Perm.refl (r ∷ s ∷ rows))
  ]

  pub order-Perm : (rows : List (SignalRow X)) → Perm (order_by_created le rows) rows
  unfolding order_by_created
  order-Perm [] = Perm.refl []
  order-Perm (r ∷ rows) =
      Perm.trans (insert-Perm r (order_by_created le rows)) (Perm.cons r (order-Perm rows))

  length-insert :
      (r : SignalRow X) (rows : List (SignalRow X))
      → length (insert_by_created le r rows) ≡ suc (length rows)
  unfolding insert_by_created
  length-insert r [] = refl
  length-insert r (s ∷ rows) = elim (Bool-cases (le s.created_at r.created_at)) [
    | inl e ↦ rw e (ap suc (length-insert r rows))
    | inr e ↦ rw e refl
  ]

  length-order : (rows : List (SignalRow X)) → length (order_by_created le rows) ≡ length rows
  unfolding order_by_created
  length-order [] = refl
  length-order (r ∷ rows) = length-insert r (order_by_created le rows) ∙ ap suc (length-order rows)

  All-insert :
      (P : SignalRow X → Type 0) (r : SignalRow X) (rows : List (SignalRow X))
      → P r
      → All P rows
      → All P (insert_by_created le r rows)
  unfolding insert_by_created
  All-insert P r [] h hs = (h, tt)
  All-insert P r (s ∷ rows) h hs = elim (Bool-cases (le s.created_at r.created_at)) [
    | inl e ↦ rw e (hs.0, All-insert P r rows h hs.1)
    | inr e ↦ rw e (h, hs)
  ]

  module _ (total : (a b : String) → (le a b ≡ true) ⊎ (le b a ≡ true))
      (transitive : (a b c : String) → le a b ≡ true → le b c ≡ true → le a c ≡ true) where
    insert-IsOldestFirst :
        (r : SignalRow X) (rows : List (SignalRow X))
        → IsOldestFirst rows
        → IsOldestFirst (insert_by_created le r rows)
    unfolding insert_by_created
    insert-IsOldestFirst r [] h = (tt, tt)
    insert-IsOldestFirst r (s ∷ rows) h = elim (Bool-cases (le s.created_at r.created_at)) [
      | inl e ↦ rw e (All-insert (IsBefore s) r rows e h.0, insert-IsOldestFirst r rows h.1)
      | inr e ↦ elim (total s.created_at r.created_at) [
        | inl b ↦ cc
        | inr b ↦ rw e (
          (
            b,
            All-map (IsBefore s) (IsBefore r)
                (λ q c. transitive r.created_at s.created_at q.created_at b c) rows h.0,
          ),
          h,
        )
      ]
    ]

    order-IsOldestFirst : (rows : List (SignalRow X)) → IsOldestFirst (order_by_created le rows)
    unfolding order_by_created
    order-IsOldestFirst [] = tt
    order-IsOldestFirst (r ∷ rows) =
        insert-IsOldestFirst r (order_by_created le rows) (order-IsOldestFirst rows)

    -- As long as the order of the texts of times is total and transitive: the signals that a poll
    -- takes are the oldest of the due ones, oldest first, and as many as there are up to the limit:
    -- followed by the ones that wait on, they are the due rows of the table by their age.
    pub pending_signals-IsQueue :
        (limit : ℕ) (now : String) (rows : List (SignalRow X))
        → IsQueue limit now rows (pending_signals le limit now rows)
    unfolding pending_signals
    pending_signals-IsQueue limit now rows =
        let due = filter (is_due le now) rows in
        let sorted = order_by_created le due in
        (
          due,
          drop limit sorted,
          filter-Selects (IsDue now) (is_due le now) (is_due_iff now) rows,
          rw (take-drop limit sorted) (order-Perm due),
          rw (take-drop limit sorted) (order-IsOldestFirst due),
          length-take limit sorted ∙ ap (min limit) (length-order due),
        )
