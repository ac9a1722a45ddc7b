-- ===== src/Decimal.antt =====
-- `rust_decimal::Decimal`, a third-party type: the operations that the program calls, as an
-- instance argument, and the documented laws that proofs rely on, as records of hypotheses.
-- Decimal arithmetic that overflows 96 bits panics in the source and is outside the model.
pub mod Fixed
use razortrade.Common.{ℕ, ◌≡◌, ◌⊎◌, Bool, true, false, not, ◌&&◌, Option, List, [], ◌∷◌, String}
use razortrade.Common.Int.{ℤ, ltb_ℤ}

pub record DecimalOps (D : Type 0) : Type 0 where
  -- the total order of `Ord`, as the test `<`
  pub lt : D → D → Bool
  pub zero : D
  pub one : D
  pub add : D → D → D
  pub sub : D → D → D
  pub mul : D → D → D
  pub div : D → D → D
  pub neg : D → D
  pub abs : D → D
  pub min : D → D → D
  pub max : D → D → D
  pub is_zero : D → Bool
  pub is_sign_positive : D → Bool
  pub is_sign_negative : D → Bool
  -- `Decimal::from`
  pub of_int : ℤ → D
  -- `Decimal::new`: a mantissa and a scale
  pub new : ℤ → ℕ → D
  pub floor : D → D
  pub round_dp : D → ℕ → D
  pub checked_mul : D → D → Option D
  pub checked_div : D → D → Option D
  -- `Display`
  pub show : D → String

module _ {D : Type 0} ⦃dec : DecimalOps D⦄ where
  infix 50 ◌<ᵈ◌ ◌≤ᵈ◌ ◌=ᵈ◌
  -- The comparisons of the source, each a test on the one order.
  abbrev pub ◌<ᵈ◌ : D → D → Bool
  a <ᵈ b = dec.lt a b

  abbrev pub ◌≤ᵈ◌ : D → D → Bool
  a ≤ᵈ b = not (dec.lt b a)

  -- `==` compares values: 1.0 == 1.00.
  abbrev pub ◌=ᵈ◌ : D → D → Bool
  a =ᵈ b = not (dec.lt a b) && not (dec.lt b a)

  abbrev pub sum_from : D → List D → D
  sum_from acc [] = acc
  sum_from acc (x ∷ xs) = sum_from (dec.add acc x) xs

  -- `Iterator::sum`.
  abbrev pub sum : List D → D
  sum = sum_from dec.zero

-- The order is total, and addition and the lesser of two respect it.
pub record IsOrdered (D : Type 0) ⦃dec : DecimalOps D⦄ : Type 0 where
  pub lt_irrefl : (a : D) → (a <ᵈ a) ≡ false
  pub lt_trans : (a b c : D) → (a <ᵈ b) ≡ true → (b <ᵈ c) ≡ true → (a <ᵈ c) ≡ true
  pub le_trans : (a b c : D) → (a ≤ᵈ b) ≡ true → (b ≤ᵈ c) ≡ true → (a ≤ᵈ c) ≡ true
  pub min_le_left : (a b : D) → (dec.min a b ≤ᵈ a) ≡ true
  pub min_le_right : (a b : D) → (dec.min a b ≤ᵈ b) ≡ true
  pub min_is_one : (a b : D) → (dec.min a b ≡ a) ⊎ (dec.min a b ≡ b)
  pub add-le_of_nonpos : (a b : D) → (b ≤ᵈ dec.zero) ≡ true → (dec.add a b ≤ᵈ a) ≡ true
  pub of_int-lt : (a b : ℤ) → (dec.of_int a <ᵈ dec.of_int b) ≡ ltb_ℤ a b
