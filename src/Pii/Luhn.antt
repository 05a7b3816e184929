-- ===== src/Pii/Luhn.antt =====
-- validators.py: what the Luhn checksum detects.
use Prim.Native.Char.{code}
use Prim.Native.String.{String}
use mathlib.Core.Path.{subst}
use guard_x.Common.{
  append_assoc, ◌≢◌, ℕ, ◌+◌, ◌%◌, ◌<◌, ◌≡◌, refl, ◌∙◌, ap, Bool, true, false, not, List, [], ◌∷◌,
  ◌++◌, arith, All, Bool-cases, inl, inr, if◌then◌else◌,
}
use guard_x.Pii.Validators.{is_digit, digits_of, doubled, luhn_sum, reversed, luhn_digits, luhn}

digits_of-small : (s : String) → All (λ x. x < 10) (digits_of s)
unfolding digits_of
digits_of-small String.[] = tt
digits_of-small (String.◌∷◌ c s) = elim (Bool-cases (is_digit (code c))) [
  | inl digit ↦ rw digit (ground arith, digits_of-small s)
  | inr other ↦ rw other (digits_of-small s)
]

-- What the loop adds for a digit.
abbrev term : Bool → ℕ → ℕ
term odd x = if odd then doubled x else x

term-injective : (odd : Bool) (d e : ℕ) → d < 10 → e < 10 → term odd d ≡ term odd e → d ≡ e
term-injective odd d e l m h = ground arith

term-small : (odd : Bool) (d : ℕ) → d < 10 → term odd d < 10
term-small odd d l = ground arith

-- Two small numbers that leave the same remainder are one.
same_remainder :
    (n r a b : ℕ) → a < 10 → b < 10 → (n + (a + r)) % 10 ≡ 0 → (n + (b + r)) % 10 ≡ 0 → a ≡ b
same_remainder n r a b l m h k = omega arith

move_sum : (n a r : ℕ) → (n + (a + r)) % 10 ≡ 0 → (n + a + r) % 10 ≡ 0
move_sum n a r h = omega arith

luhn_sum_differs :
    (n : ℕ) (odd : Bool) (xs ys : List ℕ) (d e : ℕ)
    → d < 10
    → e < 10
    → (n + luhn_sum odd (xs ++ d ∷ ys)) % 10 ≡ 0
    → (n + luhn_sum odd (xs ++ e ∷ ys)) % 10 ≡ 0
    → d ≡ e
unfolding luhn_sum
luhn_sum_differs n odd [] ys d e l m h k = term-injective odd d e l m (
    same_remainder n (luhn_sum (not odd) ys) (term odd d) (term odd e) (term-small odd d l)
      (term-small odd e m) h k)
luhn_sum_differs n odd (x ∷ xs) ys d e l m h k =
    luhn_sum_differs (n + term odd x) (not odd) xs ys d e l m
      (move_sum n (term odd x) (luhn_sum (not odd) (xs ++ d ∷ ys)) h)
      (move_sum n (term odd x) (luhn_sum (not odd) (xs ++ e ∷ ys)) k)

reversed-append :
    (d : ℕ) (xs ys : List ℕ) → reversed (xs ++ d ∷ ys) ≡ reversed ys ++ d ∷ reversed xs
unfolding reversed
reversed-append d [] ys = refl
reversed-append d (x ∷ xs) ys =
    ap (λ r. r ++ x ∷ []) (reversed-append d xs ys)
    ∙ append_assoc (reversed ys) (d ∷ reversed xs) (x ∷ [])

-- A number without its digits passes no checksum.
luhn_digits-sum : (d : List ℕ) → luhn_digits d ≡ true → luhn_sum false (reversed d) % 10 ≡ 0
unfolding luhn_digits
luhn_digits-sum d h = ground (arith, h)

All-middle : (P : ℕ → Type 0) (xs ys : List ℕ) (d : ℕ) → All P (xs ++ d ∷ ys) → P d
All-middle P [] ys d h = h.0
All-middle P (x ∷ xs) ys d h = All-middle P xs ys d h.1

digit_small : (s : String) (xs ys : List ℕ) (d : ℕ) → digits_of s ≡ xs ++ d ∷ ys → d < 10
digit_small s xs ys d h =
    All-middle (λ x. x < 10) xs ys d (subst (All (λ x. x < 10)) h (digits_of-small s))

luhn_sum-of_luhn :
    (s : String) (xs ys : List ℕ) (d : ℕ)
    → digits_of s ≡ xs ++ d ∷ ys
    → luhn s ≡ true
    → (0 + luhn_sum false (reversed ys ++ d ∷ reversed xs)) % 10 ≡ 0
unfolding luhn
luhn_sum-of_luhn s xs ys d h passes =
    let sum = luhn_digits-sum (xs ++ d ∷ ys) (subst (λ r. luhn_digits r ≡ true) h passes) in
    let moved : luhn_sum false (reversed ys ++ d ∷ reversed xs) % 10 ≡ 0 =
      subst (λ r. luhn_sum false r % 10 ≡ 0) (reversed-append d xs ys) sum in
    omega (arith, moved)

-- Two texts whose digits differ in exactly one place do not both pass the Luhn checksum.
pub luhn_one_digit :
    (s t : String) (xs ys : List ℕ) (d e : ℕ)
    → digits_of s ≡ xs ++ d ∷ ys
    → digits_of t ≡ xs ++ e ∷ ys
    → d ≢ e
    → luhn s ≡ true
    → luhn t ≡ false
luhn_one_digit s t xs ys d e h k differ passes = elim (Bool-cases (luhn t)) [
  | inl both ↦ absurd (
      differ (
        luhn_sum_differs 0 false (reversed ys) (reversed xs) d e (digit_small s xs ys d h)
          (digit_small t xs ys e k) (luhn_sum-of_luhn s xs ys d h passes)
          (luhn_sum-of_luhn t xs ys e k both)))
  | inr here ↦ here
]
