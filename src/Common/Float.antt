-- ===== src/Common/Float.antt =====
-- Python's `float`. A finite double is an integer divided by a power of two, so comparisons and
-- `is_integer` are exact; -0.0 and 0.0 are one value here. Sums, products and quotients round,
-- and are parameters of the components that compute with them.
pub mod Order
use Prim.Native.Nat.{ℕ, ◌^◌, ◌%◌, ◌/◌, ◌+◌}
use mathlib.Core.Bool.{Bool, true, false, ◌||◌}
use guard_x.Common.Tests.{◌==◌}
use guard_x.Common.Int.{ℤ, pos, negsuc, pos_part, neg_part, scale, sub_ℕ, ltb_ℤ, eqb_ℤ}

-- `finite n k` is n / 2^k.
pub data Float : Type 0 where
  finite : ℤ → ℕ → Float
  inf neg_inf nan : Float

-- `a < b`; every comparison with a NaN is false.
abbrev pub lt : Float → Float → Bool
lt (finite m j) (finite n k) = ltb_ℤ (scale m (2 ^ k)) (scale n (2 ^ j))
lt (finite m j) inf = true
lt (finite m j) neg_inf = false
lt neg_inf (finite n k) = true
lt neg_inf inf = true
lt neg_inf neg_inf = false
lt inf (finite n k) = false
lt inf inf = false
lt inf neg_inf = false
lt nan nan = false
lt nan _ = false
lt _ nan = false

-- `a == b`; a NaN is not equal to itself.
abbrev pub eq : Float → Float → Bool
eq (finite m j) (finite n k) = eqb_ℤ (scale m (2 ^ k)) (scale n (2 ^ j))
eq inf inf = true
eq neg_inf neg_inf = true
eq _ _ = false

-- `a >= b`
abbrev pub geq : Float → Float → Bool
geq a b = lt b a || eq b a

abbrev pub of_int : ℤ → Float
of_int n = finite n 0

-- The value as an integer, where it is one.
abbrev pub to_int : Float → ℤ
to_int (finite (pos n) k) = pos (n / 2 ^ k)
to_int (finite (negsuc n) k) = sub_ℕ 0 ((n + 1) / 2 ^ k)
to_int inf = pos 0
to_int neg_inf = pos 0
to_int nan = pos 0

-- `value.is_integer()`
abbrev pub is_integer : Float → Bool
is_integer (finite n k) = (pos_part n + neg_part n) % 2 ^ k == 0
is_integer inf = false
is_integer neg_inf = false
is_integer nan = false
