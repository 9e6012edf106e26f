-- ===== src/Floats/Fixed.antt =====
-- Fixed-point numbers with four decimals, which stand for floats where a theorem or a function is
-- run on a concrete input.
use stock_advisor.Prelude.{ℕ, zero, suc, ◌*◌, ◌/◌, ◌≡◌, refl, arith, ◌==◌, ◌&&◌}
use stock_advisor.Prelude.Int.{
  ℤ, pos, negsuc, pos_part, neg_part, sub_ℕ, ◌+ℤ◌, ◌-ℤ◌, ◌*ℤ◌, ltb_ℤ, leb_ℤ,
}
use stock_advisor.Floats.{Double, IsOrdered}

-- A value is a number of ten-thousandths.
abbrev pub Fixed : Type 0
Fixed = ℤ

-- The quotient of an integer by a positive number, rounded towards zero and downwards.
abbrev pub quot : ℤ → ℕ → ℤ
quot (pos n) m = pos (n / m)
quot (negsuc n) m = sub_ℕ 0 (suc n / m)

abbrev pub floor : ℤ → ℕ → ℤ
floor (pos n) m = pos (n / m)
floor (negsuc n) m = negsuc (n / m)

abbrev pub neg : ℤ → ℤ
neg (pos n) = sub_ℕ 0 n
neg (negsuc n) = pos (suc n)

-- The same with a divisor of either sign; division by zero is 0.
abbrev pub divide : (ℤ → ℕ → ℤ) → ℤ → ℤ → ℤ
divide f a (pos n) = f a n
divide f a (negsuc n) = f (neg a) (suc n)

abbrev pub power_of_ten : ℕ → ℕ
power_of_ten zero = 1
power_of_ten (suc n) = 10 * power_of_ten n

instance abbrev pub fixed_double : Double Fixed
unfolding ◌+ℤ◌ ◌-ℤ◌ ◌*ℤ◌
fixed_double = record {
  of_int = λ n. n *ℤ pos 10_000;
  decimal = λ m k. quot (m *ℤ pos 10_000) (power_of_ten k);
  add = ◌+ℤ◌;
  sub = ◌-ℤ◌;
  mul = λ a b. quot (a *ℤ b) 10_000;
  div = λ a b. divide quot (a *ℤ pos 10_000) b;
  floor_div = λ a b. divide floor a b *ℤ pos 10_000;
  negate = neg;
  lt = ltb_ℤ;
  le = leb_ℤ;
  eq = λ a b. pos_part a == pos_part b && neg_part a == neg_part b;
  truncate = λ a. quot a 10_000;
  round = λ a k. a;
}

pub Fixed-IsOrdered : IsOrdered Fixed
unfolding fixed_double
Fixed-IsOrdered = record {
  le_trans = λ x y z p q. ground arith;
  le_of_lt = λ x y p. ground arith;
  not-lt_of_le = λ x y p. ground arith;
}

runs : fixed_double.div (pos 10_000) (pos 30_000) ≡ pos 3333
unfolding ◌*ℤ◌ ◌+ℤ◌ ◌-ℤ◌
runs = refl
