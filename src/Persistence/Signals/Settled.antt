-- ===== src/Persistence/Signals/Settled.antt =====
-- When the poll of the signal processor is done with a signal.
use razortrade.Common.{
  ℕ, ◌≡◌, refl, ◌⊎◌, inl, inr, true, none, some, List, [], ◌∷◌, String, ◌==◌, All, Bool-cases,
  arith,
}
use razortrade.Persistence.Signals.{
  SignalRow, update_signal, processed_row, rejected_row, retry_row, mark_signal_processed,
  mark_signal_rejected, set_signal_retry_after, clear_signal_retry_after,
}

module _ {X : Type 0} where
  -- Every row of the id satisfies `P`.
  abbrev pub AllOf : ℕ → (SignalRow X → Type 0) → List (SignalRow X) → Type 0
  AllOf id P rows = All (λ (r : SignalRow X). (r.id == id) ≡ true → P r) rows

  abbrev pub IsClosed : SignalRow X → Type 0
  IsClosed r = (r.status ≡ "processed") ⊎ (r.status ≡ "rejected")

  -- Closed, or on a cooldown.
  abbrev pub IsDone : SignalRow X → Type 0
  IsDone r = IsClosed r ⊎ ((retry : String) × (r.retry_after_at ≡ some retry))

  update_signal-AllOf :
      (P Q : SignalRow X → Type 0) (id : ℕ) (f : SignalRow X → SignalRow X)
      → ((r : SignalRow X) → P r → Q (f r))
      → (rows : List (SignalRow X)) → AllOf id P rows
      → AllOf id Q (update_signal id f rows)
  unfolding update_signal
  update_signal-AllOf P Q id f step [] h = tt
  update_signal-AllOf P Q id f step (r ∷ rows) h = elim (Bool-cases (r.id == id)) [
    | inl e ↦ rw (All, e) (λ _. step r (h.0 e), update_signal-AllOf P Q id f step rows h.1)
    | inr e ↦ rw (All, e) (λ k. absurd (ground arith), update_signal-AllOf P Q id f step rows h.1)
  ]

  trivial_for_all : (id : ℕ) (rows : List (SignalRow X)) → AllOf id (λ r. Unit) rows
  trivial_for_all id [] = tt
  trivial_for_all id (r ∷ rows) = (λ _. tt, trivial_for_all id rows)

  weaken :
      (P Q : SignalRow X → Type 0)
      → ((r : SignalRow X) → P r → Q r)
      → (id : ℕ) (rows : List (SignalRow X)) → AllOf id P rows
      → AllOf id Q rows
  weaken P Q f id [] h = tt
  weaken P Q f id (r ∷ rows) h = (λ e. f r (h.0 e), weaken P Q f id rows h.1)

  pub rejected-IsDone :
      (id : ℕ) (now reason : String) (rows : List (SignalRow X))
      → AllOf id IsDone (mark_signal_rejected id now reason rows)
  unfolding mark_signal_rejected
  rejected-IsDone id now reason rows =
      update_signal-AllOf (λ r. Unit) IsDone id (rejected_row now reason) (λ r _. inl (inr refl))
        rows (trivial_for_all id rows)

  processed-IsClosed :
      (id : ℕ) (now : String) (rows : List (SignalRow X))
      → AllOf id IsClosed (mark_signal_processed id now rows)
  unfolding mark_signal_processed
  processed-IsClosed id now rows =
      update_signal-AllOf (λ r. Unit) IsClosed id (processed_row now) (λ r _. inl refl) rows
        (trivial_for_all id rows)

  pub processed-IsDone :
      (id : ℕ) (now : String) (rows : List (SignalRow X))
      → AllOf id IsDone (mark_signal_processed id now rows)
  processed-IsDone id now rows =
      weaken IsClosed IsDone (λ r h. inl h) id (mark_signal_processed id now rows)
        (processed-IsClosed id now rows)

  pub settled-IsDone :
      (id : ℕ) (now : String) (rows : List (SignalRow X))
      → AllOf id IsDone (clear_signal_retry_after id (mark_signal_processed id now rows))
  unfolding clear_signal_retry_after
  settled-IsDone id now rows =
      update_signal-AllOf IsClosed IsDone id (retry_row none) (λ r h. inl h)
        (mark_signal_processed id now rows) (processed-IsClosed id now rows)

  pub cooling-IsDone :
      (id : ℕ) (retry : String) (rows : List (SignalRow X))
      → AllOf id IsDone (set_signal_retry_after id retry rows)
  unfolding set_signal_retry_after
  cooling-IsDone id retry rows =
      update_signal-AllOf (λ r. Unit) IsDone id (retry_row (some retry)) (λ r _. inr (retry, refl))
        rows (trivial_for_all id rows)
