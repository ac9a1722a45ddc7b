-- ===== src/Tests/TextOrder.antt =====
-- The order of texts by the numbers of their characters: an order of texts for the examples.
use Prim.Native.Nat.{Ordering, compare as compare_ℕ}
use Prim.Native.Char.{Char, code}
use Prim.Native.String.{compare, then, [], ◌∷◌}
use Prim.Native.String.compare
use text.Mathlib.Text.{is_le}
use mathlib.Core.Bool.{false≢true}
use razortrade.Common.{
  sym, ℕ, ◌≡◌, refl, ◌∙◌, ap, ◌⊎◌, inl, inr, Bool, true, false, ◌&&◌, ◌||◌, String, ltb, ◌==◌,
  arith,
}

abbrev pub text_le : String → String → Bool
text_le a b = is_le (compare a b)

le_then :
    (o r : Ordering)
    → is_le (then o r) ≡ (
        elim o [ Ordering.lt ↦ true | _ ↦ false ]
        || (elim o [ Ordering.eq ↦ true | _ ↦ false ] && is_le r))
le_then Ordering.lt r = refl
le_then Ordering.eq r = refl
le_then Ordering.gt r = refl

cons_le :
    (c d : Char) (s t : String)
    → text_le (c ∷ s) (d ∷ t) ≡ (ltb (code c) (code d) || (code c == code d && text_le s t))
cons_le c d s t =
    ap is_le (compare.cons-cons c d s t) ∙ le_then (compare_ℕ (code c) (code d)) (compare s t)

step_total :
    (m n : ℕ) (p q : Bool)
    → (p ≡ true) ⊎ (q ≡ true)
    → ((ltb m n || (m == n && p)) ≡ true) ⊎ ((ltb n m || (n == m && q)) ≡ true)
step_total m n p q h = ground arith

step_transitive :
    (m n k : ℕ) (p q r : Bool)
    → (p ≡ true → q ≡ true → r ≡ true)
    → (ltb m n || (m == n && p)) ≡ true
    → (ltb n k || (n == k && q)) ≡ true
    → (ltb m k || (m == k && r)) ≡ true
step_transitive m n k p q r f h g = ground arith

pub text_le_total : (s t : String) → (text_le s t ≡ true) ⊎ (text_le t s ≡ true)
text_le_total [] [] = inl (ap is_le compare.nil-nil)
text_le_total [] (d ∷ t) = inl (ap is_le (compare.nil-cons d t))
text_le_total (c ∷ s) [] = inr (ap is_le (compare.nil-cons c s))
text_le_total (c ∷ s) (d ∷ t) =
    rw (cons_le c d s t, cons_le d c t s)
      (step_total (code c) (code d) (text_le s t) (text_le t s) (text_le_total s t))

pub text_le_transitive :
    (s t u : String) → text_le s t ≡ true → text_le t u ≡ true → text_le s u ≡ true
text_le_transitive [] t [] h g = ap is_le compare.nil-nil
text_le_transitive [] t (e ∷ u) h g = ap is_le (compare.nil-cons e u)
text_le_transitive (c ∷ s) [] u h g =
    absurd (false≢true (sym (ap is_le (compare.cons-nil c s)) ∙ h))
text_le_transitive (c ∷ s) (d ∷ t) [] h g =
    absurd (false≢true (sym (ap is_le (compare.cons-nil d t)) ∙ g))
text_le_transitive (c ∷ s) (d ∷ t) (e ∷ u) h g = rw (cons_le c e s u) (
    step_transitive (code c) (code d) (code e) (text_le s t) (text_le t u) (text_le s u)
      (text_le_transitive s t u) (sym (cons_le c d s t) ∙ h) (sym (cons_le d e t u) ∙ g))
