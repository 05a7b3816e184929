-- ===== src/Common/Float/Order.antt =====
-- The order of the floats that are numbers.
use Prim.Native.Nat.{ℕ, suc, ◌+◌, ◌*◌, ◌^◌, ◌≤◌, ◌<◌}
use mathlib.Core.Path.{◌≡◌, refl}
use mathlib.Core.Logic.{inl, inr}
use mathlib.Core.Bool.{true, false}
use native.Mathlib.Omega.{arith}
use native.Mathlib.Nat.{
  one-le-pow, mul-le-mul_right, le_of_mul-le-mul_right, mul-lt-mul_of_pos_right,
  lt_of_mul-lt-mul_right,
}
use guard_x.Common.Tests.{Bool-cases, ltb→lt, le_of_not-ltb}
use guard_x.Common.Int.{ℤ, pos, negsuc, pos_part, neg_part, scale, sub_ℕ, ltb_ℤ_irrefl}
use guard_x.Common.Float.{Float, finite, inf, neg_inf, nan, lt}

sub_parts : (b : ℕ) → (pos_part (sub_ℕ 0 b) ≡ 0) × (neg_part (sub_ℕ 0 b) ≡ b)
sub_parts b = ground arith

pub scale_parts :
    (n : ℤ) (k : ℕ)
    → (pos_part (scale n k) ≡ pos_part n * k) × (neg_part (scale n k) ≡ neg_part n * k)
scale_parts (pos n) k = (refl, omega arith)
scale_parts (negsuc n) k = let (p, n') = sub_parts (suc n * k) in (omega (arith, p), n')

le_trans_scaled :
    (p1 n1 J1 p2 n2 J2 p3 n3 J3 : ℕ)
    → 1 ≤ J2
    → p2 * J1 + n1 * J2 ≤ p1 * J2 + n2 * J1
    → p3 * J2 + n2 * J3 ≤ p2 * J3 + n3 * J2
    → p3 * J1 + n1 * J3 ≤ p1 * J3 + n3 * J1
le_trans_scaled p1 n1 J1 p2 n2 J2 p3 n3 J3 l h k =
    le_of_mul-le-mul_right {k = J2} (omega (arith, mul-le-mul_right J3 h, mul-le-mul_right J1 k)) l

-- The numbers but for the infinities and NaN.
abbrev pub IsFinite : Float → Type 0
IsFinite x = (n : ℤ) × (k : ℕ) × (x ≡ finite n k)

not_lt-le :
    (m n : ℤ) (j k : ℕ)
    → lt (finite n k) (finite m j) ≡ false
    → pos_part m * 2 ^ k + neg_part n * 2 ^ j ≤ pos_part n * 2 ^ j + neg_part m * 2 ^ k
not_lt-le m n j k h =
    let (a, b) = scale_parts n (2 ^ j) in
    let (c, d) = scale_parts m (2 ^ k) in omega (arith, a, b, c, d, le_of_not-ltb _ _ h)

le-not_lt :
    (m n : ℤ) (j k : ℕ)
    → pos_part m * 2 ^ k + neg_part n * 2 ^ j ≤ pos_part n * 2 ^ j + neg_part m * 2 ^ k
    → lt (finite n k) (finite m j) ≡ false
le-not_lt m n j k h =
    let (a, b) = scale_parts n (2 ^ j) in
    let (c, d) = scale_parts m (2 ^ k) in ground (arith, a, b, c, d)

-- "Not less" is transitive on numbers.
pub not_lt_trans :
    (a b c : Float)
    → IsFinite a
    → IsFinite b
    → IsFinite c
    → lt b a ≡ false
    → lt c b ≡ false
    → lt c a ≡ false
not_lt_trans a b c (m, i, ea) (n, j, eb) (o, k, ec) h l =
    rw (ea, ec)
      (le-not_lt m o i k (
        le_trans_scaled (pos_part o) (neg_part o) (2 ^ k) (pos_part n) (neg_part n) (2 ^ j)
          (pos_part m) (neg_part m) (2 ^ i) (one-le-pow j 2 (omega arith))
          (not_lt-le n o j k (rw (eb, ec) at l)) (not_lt-le m n i j (rw (ea, eb) at h))))

pub lt_asym : (a b : Float) → IsFinite a → IsFinite b → lt a b ≡ true → lt b a ≡ false
lt_asym a b (m, i, ea) (n, j, eb) h =
    let h' : lt (finite m i) (finite n j) ≡ true = rw (ea, eb) at h in
    let (p, q) = scale_parts m (2 ^ j) in
    let (r, s) = scale_parts n (2 ^ i) in rw (ea, eb) (ground (arith, p, q, r, s, h'))

pub lt_irrefl : (a : Float) → IsFinite a → lt a a ≡ false
lt_irrefl a f = elim (Bool-cases (lt a a)) [ inl less ↦ lt_asym a a f f less | inr here ↦ here ]

lt_trans_scaled :
    (p1 n1 J1 p2 n2 J2 p3 n3 J3 : ℕ)
    → 1 ≤ J1
    → 1 ≤ J3
    → p1 * J2 + n2 * J1 < p2 * J1 + n1 * J2
    → p2 * J3 + n3 * J2 < p3 * J2 + n2 * J3
    → p1 * J3 + n3 * J1 < p3 * J1 + n1 * J3
lt_trans_scaled p1 n1 J1 p2 n2 J2 p3 n3 J3 l l' h k =
    lt_of_mul-lt-mul_right J2
      (omega (arith, mul-lt-mul_of_pos_right h l', mul-lt-mul_of_pos_right k l))

lt_lem :
    (m n : ℤ) (j k : ℕ)
    → lt (finite m j) (finite n k) ≡ true
    → pos_part m * 2 ^ k + neg_part n * 2 ^ j < pos_part n * 2 ^ j + neg_part m * 2 ^ k
lt_lem m n j k h =
    let (a, b) = scale_parts n (2 ^ j) in
    let (c, d) = scale_parts m (2 ^ k) in omega (arith, a, b, c, d, ltb→lt _ _ h)

of_lt :
    (m n : ℤ) (j k : ℕ)
    → pos_part m * 2 ^ k + neg_part n * 2 ^ j < pos_part n * 2 ^ j + neg_part m * 2 ^ k
    → lt (finite m j) (finite n k) ≡ true
of_lt m n j k h =
    let (a, b) = scale_parts n (2 ^ j) in
    let (c, d) = scale_parts m (2 ^ k) in ground (arith, a, b, c, d)

-- "Less" is transitive on all floats, and no float is less than itself.
pub lt_trans : (a b c : Float) → lt a b ≡ true → lt b c ≡ true → lt a c ≡ true
lt_trans (finite m i) (finite n j) (finite o k) h l = of_lt m o i k (
    lt_trans_scaled (pos_part m) (neg_part m) (2 ^ i) (pos_part n) (neg_part n) (2 ^ j) (pos_part o)
      (neg_part o) (2 ^ k) (one-le-pow i 2 (omega arith)) (one-le-pow k 2 (omega arith))
      (lt_lem m n i j h) (lt_lem n o j k l))
lt_trans a b inf h l = ground arith
lt_trans neg_inf b c h l = ground arith
lt_trans a b c h l = ground arith

pub not_lt_self : (a : Float) → lt a a ≡ false
not_lt_self (finite m i) = ltb_ℤ_irrefl (scale m (2 ^ i))
not_lt_self inf = refl
not_lt_self neg_inf = refl
not_lt_self nan = refl
