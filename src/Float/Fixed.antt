-- ===== src/Float/Fixed.antt =====
-- A concrete instance, for the tests: millionths as signed integers. The square root is the integer
-- one, and sine and cosine are the first terms of their series.
use rmp_ros2_control.Prelude.{
  ℕ, zero, suc, ◌+◌, ◌-◌, ◌*◌, ◌/◌, ◌%◌, ◌^◌, true, List, [], ◌∷◌, arith, leb, ◌&&◌, if◌then◌else◌,
}
use rmp_ros2_control.Prelude.Int.{
  ℤ, pos, negsuc, pos_part, neg_part, sub_ℕ, ◌+ℤ◌, ◌-ℤ◌, ◌*ℤ◌, ltb_ℤ, leb_ℤ,
}
use rmp_ros2_control.Float.{Float}
use rmp_ros2_control.Float.Order.{IsOrdered}

abbrev scale : ℕ
scale = 1_000_000

abbrev magnitude : ℤ → ℕ
magnitude a = pos_part a + neg_part a

-- quotient towards zero
abbrev div_ℤ : ℤ → ℕ → ℤ
div_ℤ a n = sub_ℕ (pos_part a / n) (neg_part a / n)

abbrev sign_ℤ : ℤ → ℤ
sign_ℤ (pos n) = pos 1
sign_ℤ (negsuc n) = negsuc 0

-- the largest root below `root + 2 ^ bits`, by bisection
isqrt : ℕ → ℕ → ℕ → ℕ
isqrt zero n root = root
isqrt (suc bits) n root =
    let next = root + 2 ^ bits in isqrt bits n (if leb (next * next) n then next else root)

square_sum : List ℤ → List ℤ → ℕ
square_sum [] ys = 0
square_sum (x ∷ xs) [] = 0
square_sum (x ∷ xs) (y ∷ ys) = let d = magnitude (x -ℤ y) in d * d + square_sum xs ys

mul_fixed : ℤ → ℤ → ℤ
unfolding ◌*ℤ◌
mul_fixed a b = div_ℤ (a *ℤ b) scale

unfoldable pub fixed_add : ℤ → ℤ → ℤ
unfolding ◌+ℤ◌
fixed_add a b = a +ℤ b

unfoldable pub fixed_sub : ℤ → ℤ → ℤ
unfolding ◌-ℤ◌
fixed_sub a b = a -ℤ b

unfoldable pub fixed_mul : ℤ → ℤ → ℤ
unfolding mul_fixed
fixed_mul a b = mul_fixed a b

unfoldable pub fixed_div : ℤ → ℤ → ℤ
unfolding ◌*ℤ◌
fixed_div a b = div_ℤ (a *ℤ sign_ℤ b *ℤ pos scale) (magnitude b)

unfoldable pub fixed_sqrt : ℕ → ℤ
unfolding isqrt
fixed_sqrt n = pos (isqrt 40 n 0)

unfoldable pub fixed_dist : List ℤ → List ℤ → ℤ
unfolding isqrt square_sum ◌-ℤ◌
fixed_dist xs ys = pos (isqrt 40 (square_sum xs ys) 0)

unfoldable pub fixed_ceil : ℤ → ℤ
fixed_ceil (pos n) = pos ((n + (scale - 1)) / scale)
fixed_ceil (negsuc n) = sub_ℕ 0 (suc n / scale)

unfoldable pub fixed_lit : ℕ → ℕ → ℤ
fixed_lit m k = pos (m * scale / 10 ^ k)

instance abbrev pub fixed : Float ℤ
fixed = record {
  lit = fixed_lit;
  add = fixed_add;
  sub = fixed_sub;
  mul = fixed_mul;
  div = fixed_div;
  lt = ltb_ℤ;
  le = leb_ℤ;
  eq = λ a b. leb_ℤ a b && leb_ℤ b a;
  neg = λ a. fixed_sub (pos 0) a;
  abs = λ a. pos (magnitude a);
  -- the power one half is all that the code takes
  pow = λ a b. fixed_sqrt (magnitude a * scale);
  inf = pos 1_000_000_000_000_000;
  remainder = λ a b. pos (magnitude a % magnitude b);
  sqrt = λ a. fixed_sqrt (magnitude a * scale);
  sin = λ a. a;
  cos = λ a. fixed_sub (pos scale) (fixed_div (fixed_mul a a) (pos 2_000_000));
  atan2 = fixed_div;
  radians = λ a. fixed_div a (pos 57_295_779);
  pi = pos 3_141_593;
  hypot = λ a b. fixed_dist (a ∷ b ∷ []) (pos 0 ∷ pos 0 ∷ []);
  dist = fixed_dist;
  ceil = fixed_ceil;
  is_finite = λ a. true;
}

pub fixed-IsOrdered : IsOrdered ℤ
fixed-IsOrdered = record {
  le_trans = λ x y z h k. ground arith;
  numbers_of_le = λ x y h. ground arith;
  lt-eq-not-le = λ x y h k. ground arith;
  le_total = λ x y h k. ground arith;
}
