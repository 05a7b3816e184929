-- ===== src/Pii/Validators.antt =====
-- validators.py: the structural checks of a match. A digit is one of ASCII; a letter has upper case
-- where it is one of ASCII.
use Prim.Native.Char.{code}
use Prim.Native.String.{String}
use guard_x.Common.{
  ℕ, ◌+◌, ◌-◌, ◌*◌, ◌%◌, Bool, true, false, not, ◌&&◌, Option, none, some, List, [], ◌∷◌, ◌++◌,
  length, ltb, leb, ◌==◌, str_eq, if◌then◌else◌, zero, suc,
}
use guard_x.Common.Text.{is_space}

abbrev pub is_digit : ℕ → Bool
is_digit c = leb 48 c && leb c 57

-- `[int(c) for c in digits if c.isdigit()]`
unfoldable pub digits_of : String → List ℕ
digits_of String.[] = []
digits_of (String.◌∷◌ c s) =
    let rest = digits_of s in if is_digit (code c) then (code c - 48) ∷ rest else rest

abbrev pub doubled : ℕ → ℕ
doubled x = if ltb 9 (2 * x) then 2 * x - 9 else 2 * x

-- The loop over the reversed digits; the flag tells an odd position.
unfoldable pub luhn_sum : Bool → List ℕ → ℕ
luhn_sum odd [] = 0
luhn_sum odd (x ∷ xs) = (if odd then doubled x else x) + luhn_sum (not odd) xs

unfoldable pub reversed : List ℕ → List ℕ
reversed [] = []
reversed (x ∷ xs) = reversed xs ++ x ∷ []

-- The checksum on the digits.
unfoldable pub luhn_digits : List ℕ → Bool
unfolding luhn_sum reversed
luhn_digits d = if ltb (length d) 13 then false else luhn_sum false (reversed d) % 10 == 0

-- `luhn`
unfoldable pub luhn : String → Bool
unfolding digits_of luhn_digits
luhn digits = luhn_digits (digits_of digits)

-- The weighted sum of nine digits.
abbrev pub aba_digits : List ℕ → Bool
aba_digits (d0 ∷ d1 ∷ d2 ∷ d3 ∷ d4 ∷ d5 ∷ d6 ∷ d7 ∷ d8 ∷ []) =
    (3 * (d0 + d3 + d6) + 7 * (d1 + d4 + d7) + (d2 + d5 + d8)) % 10 == 0
aba_digits _ = false

-- `aba_checksum`
unfoldable pub aba_checksum : String → Bool
unfolding digits_of
aba_checksum digits = aba_digits (digits_of digits)

abbrev upper_code : ℕ → ℕ
upper_code c = if leb 97 c && leb c 122 then c - 32 else c

-- The code points of `"".join(s.split()).upper()`.
unfoldable pub compact : String → List ℕ
compact String.[] = []
compact (String.◌∷◌ c s) =
    let rest = compact s in if is_space c then rest else upper_code (code c) ∷ rest

unfoldable pub take_codes : ℕ → List ℕ → List ℕ
take_codes zero cs = []
take_codes (suc n) [] = []
take_codes (suc n) (c ∷ cs) = c ∷ take_codes n cs

unfoldable pub drop_codes : ℕ → List ℕ → List ℕ
drop_codes zero cs = cs
drop_codes (suc n) [] = []
drop_codes (suc n) (c ∷ cs) = drop_codes n cs

-- `int(digit_str)`, as the loop over the characters extends it: a letter stands for two digits.
-- None for a character that is no digit and no letter.
unfoldable pub iban_value : ℕ → List ℕ → Option ℕ
iban_value v [] = some v
iban_value v (c ∷ cs) =
    let with_digit = iban_value (10 * v + (c - 48)) cs in
    let with_letter = iban_value (100 * v + (c - 55)) cs in
    if is_digit c then with_digit else if leb 65 c && leb c 90 then with_letter else none

abbrev is_one : Option ℕ → Bool
is_one none = false
is_one (some v) = v % 97 == 1

-- `iban_checksum`
unfoldable pub iban_checksum : String → Bool
unfolding compact take_codes drop_codes iban_value
iban_checksum s =
    let cs = compact s in
    if ltb (length cs) 15 then false else is_one (iban_value 0 (drop_codes 4 cs ++ take_codes 4 cs))

-- `run`: an unknown validator accepts everything.
unfoldable pub run : String → String → Bool
unfolding luhn aba_checksum iban_checksum
run name match =
    if str_eq name "luhn"
    then luhn match
    else if str_eq name "aba_checksum"
    then aba_checksum match
    else if str_eq name "iban_checksum"
    then iban_checksum match
    else true
