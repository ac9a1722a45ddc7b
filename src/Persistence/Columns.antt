-- ===== src/Persistence/Columns.antt =====
-- Decimal columns are TEXT. `X` is the type of such a text, with the printing and the parsing of
-- `rust_decimal`; the laws say that a printed decimal is read back.
use razortrade.Common.{◌≡◌, refl, Bool, true, false, not, Option, none, some, String, str_eq, arith}
use razortrade.Common.Int.{ℤ, pos, ◌+ℤ◌, ◌-ℤ◌, neg, magnitude, ltb_ℤ}
use razortrade.Decimal.{DecimalOps, ◌<ᵈ◌}
use razortrade.Decimal.Fixed.{Fixed, fixed, fixed_ops, mantissa}

-- `PersistenceError`, without the errors of the database itself; `panicked` is the abort of a
-- division by zero.
pub data DbResult (A : Type 0) : Type 0 where
  ok : A → DbResult A
  decimal_error : String → DbResult A
  invalid_enum : String → String → DbResult A
  panicked : DbResult A

abbrev pub and_then : {A B : Type 0} → DbResult A → (A → DbResult B) → DbResult B
and_then (ok a) f = f a
and_then (decimal_error c) f = decimal_error c
and_then (invalid_enum c v) f = invalid_enum c v
and_then panicked f = panicked

pub ok-injective : {A : Type 0} {a b : A} → ok a ≡ ok b → a ≡ b
ok-injective e = ground arith

pub and_then-ok :
    {A B : Type 0} (r : DbResult A) (f : A → DbResult B) {b : B}
    → and_then r f ≡ ok b
    → (a : A) × (r ≡ ok a) × (f a ≡ ok b)
and_then-ok (ok a) f e = (a, refl, e)
and_then-ok (decimal_error c) f e = absurd (ground arith)
and_then-ok (invalid_enum c v) f e = absurd (ground arith)
and_then-ok panicked f e = absurd (ground arith)

pub record TextOps (D X : Type 0) : Type 0 where
  pub to_string : D → X
  pub from_str : X → Option D
  pub is_empty : X → Bool
  -- SQLite's CAST(… AS REAL) != 0
  pub is_nonzero_real : X → Bool
  -- the texts '0' and '1' of the schema and the statements
  pub zero_text : X
  pub one_text : X

pub record IsReadBack (D X : Type 0) ⦃dec : DecimalOps D⦄ ⦃txt : TextOps D X⦄ : Type 0 where
  pub from_str-to_string : (d : D) → txt.from_str (txt.to_string d) ≡ some d
  pub from_str-zero : txt.from_str txt.zero_text ≡ some dec.zero

-- A decimal is a multiple of 10^-28, `value` being the multiple. As long as no digit is rounded
-- away, sums are exact, and the order is that of the values.
pub record IsExact (D : Type 0) ⦃dec : DecimalOps D⦄ : Type 0 where
  pub value : D → ℤ
  pub value-zero : value dec.zero ≡ pos 0
  pub value-add : (a b : D) → value (dec.add a b) ≡ value a +ℤ value b
  pub value-sub : (a b : D) → value (dec.sub a b) ≡ value a -ℤ value b
  pub value-neg : (a : D) → value (dec.neg a) ≡ neg (value a)
  pub value-abs : (a : D) → value (dec.abs a) ≡ pos (magnitude (value a))
  pub value-lt : (a b : D) → (a <ᵈ b) ≡ ltb_ℤ (value a) (value b)
  pub sign_positive : (a : D) → ltb_ℤ (pos 0) (value a) ≡ true → dec.is_sign_positive a ≡ true
  pub sign_negative : (a : D) → ltb_ℤ (value a) (pos 0) ≡ true → dec.is_sign_positive a ≡ false
  pub sign-not : (a : D) → dec.is_sign_negative a ≡ not (dec.is_sign_positive a)

-- `Decimal::from_str(…).map_err(…)?`
abbrev pub parse : {D X : Type 0} ⦃txt : TextOps D X⦄ → String → X → DbResult D
parse ⦃txt = txt⦄ column x = elim (txt.from_str x) [ some d ↦ ok d | none ↦ decimal_error column ]

-- `a / b`.
unfoldable pub divide : {D : Type 0} ⦃dec : DecimalOps D⦄ → D → D → DbResult D
divide ⦃dec = dec⦄ a b = elim (dec.is_zero b) [ true ↦ panicked | false ↦ ok (dec.div a b) ]

-- A text for the examples: a printed decimal, or something else.
pub data Text : Type 0 where
  printed : Fixed → Text
  other : String → Text

instance abbrev pub text_ops : TextOps Fixed Text
text_ops = record {
  to_string = printed;
  from_str = λ x. elim x [ printed d ↦ some d | other _ ↦ none ];
  is_empty = λ x. elim x [ printed _ ↦ false | other s ↦ str_eq s "" ];
  is_nonzero_real = λ x. elim x [ printed d ↦ not (fixed_ops.is_zero d) | other _ ↦ false ];
  zero_text = printed (fixed (pos 0));
  one_text = printed (fixed (pos 10_000));
}

pub Text-IsReadBack : IsReadBack Fixed Text
Text-IsReadBack = record { from_str-to_string = λ d. refl; from_str-zero = refl }

pub Fixed-IsExact : IsExact Fixed
unfolding ◌+ℤ◌ ◌-ℤ◌
Fixed-IsExact = record {
  value = mantissa;
  value-zero = refl;
  value-add = λ a b. refl;
  value-sub = λ a b. refl;
  value-neg = λ a. refl;
  value-abs = λ a. refl;
  value-lt = λ a b. refl;
  sign_positive = λ a h. ground arith;
  sign_negative = λ a h. ground arith;
  sign-not = λ a. ground arith;
}

-- A value that is returned satisfies `P`.
abbrev pub Yields : {A : Type 0} → (A → Type 0) → DbResult A → Type 0
Yields P (ok a) = P a
Yields P (decimal_error c) = Unit
Yields P (invalid_enum c v) = Unit
Yields P panicked = Unit

pub and_then-Yields :
    {A B : Type 0} (P : B → Type 0) (r : DbResult A) (f : A → DbResult B)
    → ((a : A) → Yields P (f a))
    → Yields P (and_then r f)
and_then-Yields P (ok a) f h = h a
and_then-Yields P (decimal_error c) f h = tt
and_then-Yields P (invalid_enum c v) f h = tt
and_then-Yields P panicked f h = tt
