-- ===== src/Decimal/Fixed.antt =====
-- A concrete decimal with four places, which shows that the laws can be met and runs the examples.
use razortrade.Common.{ℕ, ◌+◌, ◌-◌, ◌*◌, ◌/◌, ◌^◌, not, none, some, arith, leb, ◌==◌, if◌then◌else◌}
use razortrade.Common.Int.{
  ℤ, pos, negsuc, pos_part, neg_part, neg, ◌+ℤ◌, ◌-ℤ◌, ◌*ℤ◌, div_ℕ, magnitude, ltb_ℤ,
}
use razortrade.Decimal.{DecimalOps, IsOrdered}

-- The value is the mantissa over 10000.
pub data Fixed : Type 0 where
  fixed : ℤ → Fixed

abbrev pub mantissa : Fixed → ℤ
mantissa (fixed m) = m

abbrev divide : ℤ → ℤ → ℤ
divide a (pos n) = div_ℕ (a *ℤ pos 10_000) n
divide a (negsuc n) = div_ℕ (neg a *ℤ pos 10_000) (n + 1)

abbrev scaled : ℤ → ℕ → ℤ
scaled m s = div_ℕ (m *ℤ pos 10_000) (10 ^ s)

abbrev floor_ten : ℤ → ℤ
floor_ten m =
    if leb (neg_part m) 0
    then pos (pos_part m / 10_000 * 10_000)
    else neg (pos ((neg_part m + 9999) / 10_000 * 10_000))

instance abbrev pub fixed_ops : DecimalOps Fixed
fixed_ops = record {
  lt = λ a b. ltb_ℤ (mantissa a) (mantissa b);
  zero = fixed (pos 0);
  one = fixed (pos 10_000);
  add = λ a b. fixed (mantissa a +ℤ mantissa b);
  sub = λ a b. fixed (mantissa a -ℤ mantissa b);
  mul = λ a b. fixed (div_ℕ (mantissa a *ℤ mantissa b) 10_000);
  div = λ a b. fixed (divide (mantissa a) (mantissa b));
  neg = λ a. fixed (neg (mantissa a));
  abs = λ a. fixed (pos (magnitude (mantissa a)));
  min = λ a b. if ltb_ℤ (mantissa b) (mantissa a) then b else a;
  max = λ a b. if ltb_ℤ (mantissa a) (mantissa b) then b else a;
  is_zero = λ a. magnitude (mantissa a) == 0;
  is_sign_positive = λ a. not (ltb_ℤ (mantissa a) (pos 0));
  is_sign_negative = λ a. ltb_ℤ (mantissa a) (pos 0);
  of_int = λ n. fixed (n *ℤ pos 10_000);
  new = λ m s. fixed (scaled m s);
  floor = λ a. fixed (floor_ten (mantissa a));
  round_dp = λ a n. fixed (div_ℕ (mantissa a) (10 ^ (4 - n)) *ℤ pos (10 ^ (4 - n)));
  checked_mul = λ a b. some (fixed (div_ℕ (mantissa a *ℤ mantissa b) 10_000));
  checked_div = λ a b.
      if magnitude (mantissa b) == 0 then none else some (fixed (divide (mantissa a) (mantissa b)));
  show = λ a. if ltb_ℤ (mantissa a) (pos 0) then "negative" else "nonnegative";
}

pub Fixed-IsOrdered : IsOrdered Fixed
unfolding ◌+ℤ◌ ◌*ℤ◌
Fixed-IsOrdered = record {
  lt_irrefl = λ a. ground arith;
  lt_trans = λ a b c. ground arith;
  le_trans = λ a b c. ground arith;
  min_le_left = λ a b. ground arith;
  min_le_right = λ a b. ground arith;
  min_is_one = λ a b. ground arith;
  add-le_of_nonpos = λ a b. ground arith;
  of_int-lt = λ a b. ground arith;
}
