-- ===== src/Common/Text.antt =====
-- Texts: concatenation, decimal printing, and the string methods that the program calls.
use Prim.Native.Nat.{ℕ, zero, suc, ◌+◌, ◌/◌, ◌%◌, ◌-◌, Ordering}
use Prim.Native.Char.{Char, code}
use Prim.Native.String.{String, [], ◌∷◌}
use Prim.Native.String
use mathlib.Core.Bool.{Bool, true, false, ◌||◌, ◌&&◌}
use mathlib.Core.Option
use mathlib.Core.Option.{Option, none, some}
use mathlib.Core.List.{List}
use guard_x.Common.Tests.{ltb, leb, ◌==◌, if◌then◌else◌, or_else, is_some}

-- `s + t`
infixr 65 ◌<>◌
abbrev pub ◌<>◌ : String → String → String
s <> t = String.◌++◌ s t

-- `", ".join(parts)`, for any separator.
unfoldable pub join : String → List String → String
join sep List.[] = ""
join sep (List.◌∷◌ s List.[]) = s
join sep (List.◌∷◌ s (List.◌∷◌ t ts)) = s <> sep <> join sep (List.◌∷◌ t ts)

abbrev pub digit : ℕ → String
digit d =
    if d == 0
    then "0"
    else if d == 1
    then "1"
    else if d == 2
    then "2"
    else if d == 3
    then "3"
    else if d == 4
    then "4"
    else if d == 5
    then "5"
    else if d == 6
    then "6"
    else if d == 7
    then "7"
    else if d == 8
    then "8"
    else "9"

-- The fuel bounds the number of digits.
dec_from : ℕ → ℕ → String
dec_from zero n = ""
dec_from (suc f) n =
    let rest = dec_from f (n / 10) in if ltb n 10 then digit n else rest <> digit (n % 10)

-- `str(n)`
unfoldable pub dec : ℕ → String
unfolding dec_from
dec n = dec_from (suc n) n

-- `a < b` on texts, by code points.
abbrev pub text_lt : String → String → Bool
text_lt s t = elim (String.compare s t) [ Ordering.lt ↦ true | _ ↦ false ]

-- The rest of a text behind a prefix.
unfoldable pub strip_prefix : String → String → Option String
strip_prefix [] s = some s
strip_prefix (c ∷ p) [] = none
strip_prefix (c ∷ p) (d ∷ s) =
    let rest = strip_prefix p s in if code c == code d then rest else none

-- `s.removeprefix(p)`
abbrev pub remove_prefix : String → String → String
remove_prefix p s = or_else (strip_prefix p s) s

-- `s.startswith(p)`
abbrev pub begins_with : String → String → Bool
begins_with p s = is_some (strip_prefix p s)

-- `p in s`
unfoldable pub contains : String → String → Bool
unfolding strip_prefix
contains p [] = begins_with p []
contains p (c ∷ s) = begins_with p (c ∷ s) || contains p s

-- The first occurrence of a character: what stands before it and what stands behind it.
unfoldable pub split_at : ℕ → String → Option (String × String)
split_at c [] = none
split_at c (d ∷ s) =
    let rest = split_at c s in
    if code d == c then some ([], s) else Option.map (λ p. (d ∷ p.0, p.1)) rest

abbrev on_head : Char → List String → List String
on_head d List.[] = List.◌∷◌ (d ∷ []) List.[]
on_head d (List.◌∷◌ w ws) = List.◌∷◌ (d ∷ w) ws

-- `s.split(sep)` for a separator of one character.
unfoldable pub split_all : ℕ → String → List String
split_all c [] = List.◌∷◌ [] List.[]
split_all c (d ∷ s) =
    let rest = split_all c s in if code d == c then List.◌∷◌ [] rest else on_head d rest

-- `len(s)`
abbrev pub text_len : String → ℕ
text_len = String.count

-- The n-th lower-case letter.
abbrev lower_letter : ℕ → String
lower_letter n = String.slice "abcdefghijklmnopqrstuvwxyz" n (n + 1)

abbrev lower_text : Char → String
lower_text c = let n = code c in if leb 65 n && leb n 90 then lower_letter (n - 65) else c ∷ []

-- `s.lower()`, on the letters of ASCII.
unfoldable pub lower : String → String
lower [] = []
lower (c ∷ s) = lower_text c <> lower s

-- The characters of a text, each as a text.
unfoldable pub chars : String → List String
chars [] = List.[]
chars (c ∷ s) = List.◌∷◌ (c ∷ []) (chars s)

-- A character that `str.strip` and `str.split` take for white space, among the first 128.
abbrev pub is_space : Char → Bool
is_space c = let n = code c in (leb 9 n && leb n 13) || (leb 28 n && leb n 32)

-- `s.lstrip()`
unfoldable pub lstrip : String → String
lstrip [] = []
lstrip (c ∷ s) = let rest = lstrip s in if is_space c then rest else c ∷ s

-- A character in front of a text whose end is stripped.
abbrev cons_stripped : Char → String → String
cons_stripped c [] = if is_space c then [] else c ∷ []
cons_stripped c (d ∷ s) = c ∷ (d ∷ s)

-- `s.rstrip()`
unfoldable pub rstrip : String → String
rstrip [] = []
rstrip (c ∷ s) = cons_stripped c (rstrip s)

-- `s.strip()`
unfoldable pub strip : String → String
unfolding lstrip rstrip
strip s = rstrip (lstrip s)

-- The first word of a text that begins with none, and what follows it.
unfoldable pub take_word : String → String × String
take_word [] = ([], [])
take_word (c ∷ s) = let (w, rest) = take_word s in if is_space c then ([], s) else (c ∷ w, rest)

-- A character in front of a text whose words are given.
abbrev glue : Char → String → List String → List String
glue c [] ws = List.◌∷◌ (c ∷ []) ws
glue c (d ∷ s) ws = if is_space d then List.◌∷◌ (c ∷ []) ws else on_head c ws

-- `s.split()`
unfoldable pub words : String → List String
words [] = List.[]
words (c ∷ s) = let ws = words s in if is_space c then ws else glue c s ws

-- The first place of a text in another that is not among the places to skip.
unfoldable pub find_in : String → ℕ → ℕ → String → Option ℕ
unfolding strip_prefix
find_in needle skip at [] = if skip == 0 && begins_with needle [] then some at else none
find_in needle skip at (c ∷ s) =
    let later = find_in needle (skip - 1) (at + 1) s in
    if skip == 0 && begins_with needle (c ∷ s) then some at else later

abbrev upper_text : Char → String
upper_text c =
    let n = code c in
    if leb 97 n && leb n 122
    then String.slice "ABCDEFGHIJKLMNOPQRSTUVWXYZ" (n - 97) (n - 97 + 1)
    else c ∷ []

-- `s.upper()`, on the letters of ASCII.
unfoldable pub upper : String → String
upper [] = []
upper (c ∷ s) = upper_text c <> upper s

-- A character at which `str.splitlines` ends a line.
abbrev is_line_end : Char → Bool
is_line_end c =
    let n = code c in
    (leb 10 n && leb n 13) || (leb 28 n && leb n 30) || n == 133 || n == 8232 || n == 8233

-- `s.splitlines()`, but for empty lines: there is one more between a carriage return and its newline,
-- and one at the end.
unfoldable pub lines_of : String → List String
lines_of [] = List.◌∷◌ [] List.[]
lines_of (c ∷ s) =
    let rest = lines_of s in if is_line_end c then List.◌∷◌ [] rest else on_head c rest
