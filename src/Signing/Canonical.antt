-- ===== src/Signing/Canonical.antt =====
-- control/guardx_control/signing/canonical.py: `_canon`, and `canonical_json` with the part of
-- `json.dumps` that it calls for. The text of a float is a parameter, and so is SHA-256. UTF-8
-- encoding is left out: the bytes are the text.
use Prim.Native.Char.{Char, code}
use Prim.Native.String.{String}
use guard_x.Common.{ℕ, ◌+◌, ◌-◌, Bool, true, false, ◌&&◌, ltb, ◌==◌, if◌then◌else◌, not}
use guard_x.Common.Int.{ℤ, pos, negsuc}
use guard_x.Common.Float
use guard_x.Common.Float.{Float, finite, inf, neg_inf, nan}
use guard_x.Common.Text.{◌<>◌, dec, digit, text_lt}
use guard_x.Common.Sort.{sort_by}
use guard_x.Common.Json.{
  Json, null, bool, int, float, str, arr, obj, Items, nil, cons, Fields, end, field, entries,
  of_entries,
}
use guard_x.Common.Result.{Result, ok, err, value_error, ◌>>=◌}

abbrev pub key_lt : String × Json → String × Json → Bool
key_lt a b = text_lt a.0 b.0

-- `{k: … for k in sorted(d.keys())}`
unfoldable pub sort_fields : Fields → Fields
unfolding sort_by
sort_fields fs = of_entries (sort_by key_lt (entries fs))

-- 10^15, as a float.
abbrev bound : ℤ
bound = pos 1000000000000000

-- The branch for floats: no NaN and no infinity, and an integral value becomes an int.
unfoldable pub canon_float : Float → Result Json
canon_float nan = err value_error
canon_float inf = err value_error
canon_float neg_inf = err value_error
canon_float (finite n k) =
    let x = finite n k in
    if Float.is_integer x
      && not (Float.lt x (Float.of_int (negsuc 999999999999999)))
      && not (Float.lt (Float.of_int bound) x)
    then ok (int (Float.to_int x))
    else ok (float x)

unfoldable mutual
  unfolding canon_float sort_fields

  pub canon : Json → Result Json
  canon null = ok null
  canon (bool b) = ok (bool b)
  canon (int n) = ok (int n)
  canon (float x) = canon_float x
  canon (str s) = ok (str s)
  canon (arr xs) = canon_items xs >>= λ ys. ok (arr ys)
  canon (obj fs) = canon_fields fs >>= λ gs. ok (obj (sort_fields gs))

  pub canon_items : Items → Result Items
  canon_items nil = ok nil
  canon_items (cons x xs) = canon x >>= λ y. canon_items xs >>= λ ys. ok (cons y ys)

  -- The values of the dict; the keys are sorted afterwards.
  pub canon_fields : Fields → Result Fields
  canon_fields end = ok end
  canon_fields (field k v fs) = canon v >>= λ w. canon_fields fs >>= λ gs. ok (field k w gs)

abbrev hex_digit : ℕ → String
hex_digit d =
    if ltb d 10
    then digit d
    else if d == 10
    then "a"
    else if d == 11
    then "b"
    else if d == 12
    then "c"
    else if d == 13
    then "d"
    else if d == 14
    then "e"
    else "f"

-- One character inside a JSON text, with `ensure_ascii=False`.
unfoldable pub escape_char : Char → String
escape_char c =
    let n = code c in
    if n == 34
    then "\\\""
    else if n == 92
    then "\\\\"
    else if n == 10
    then "\\n"
    else if n == 13
    then "\\r"
    else if n == 9
    then "\\t"
    else if n == 12
    then "\\f"
    else if n == 8
    then "\\b"
    else if ltb n 16
    then "\\u000" <> hex_digit n
    else if ltb n 32
    then "\\u001" <> hex_digit (n - 16)
    else String.◌∷◌ c String.[]

unfoldable pub escape : String → String
unfolding escape_char
escape String.[] = ""
escape (String.◌∷◌ c s) = escape_char c <> escape s

unfoldable pub dump_str : String → String
unfolding escape
dump_str s = "\"" <> escape s <> "\""

unfoldable pub dump_int : ℤ → String
unfolding dec
dump_int (pos n) = dec n
dump_int (negsuc n) = "-" <> dec (n + 1)

module _ (float_repr : Float → String) where
  unfoldable pub dump_float : Float → Result String
  dump_float nan = err value_error
  dump_float inf = err value_error
  dump_float neg_inf = err value_error
  dump_float (finite n k) = ok (float_repr (finite n k))

  -- `json.dumps(value, ensure_ascii=False, separators=(",", ":"), allow_nan=False)`; the text
  -- that stands before each further element is an argument.
  unfoldable mutual
    unfolding dump_str dump_int dump_float

    pub dumps : Json → Result String
    dumps null = ok "null"
    dumps (bool true) = ok "true"
    dumps (bool false) = ok "false"
    dumps (int n) = ok (dump_int n)
    dumps (float x) = dump_float x
    dumps (str s) = ok (dump_str s)
    dumps (arr xs) = dump_items xs "" >>= λ t. ok ("[" <> t <> "]")
    dumps (obj fs) = dump_fields fs "" >>= λ t. ok ("{" <> t <> "}")

    pub dump_items : Items → String → Result String
    dump_items nil sep = ok ""
    dump_items (cons x xs) sep = dumps x >>= λ s. dump_items xs "," >>= λ t. ok (sep <> s <> t)

    pub dump_fields : Fields → String → Result String
    dump_fields end sep = ok ""
    dump_fields (field k v fs) sep =
        dumps v >>= λ s. dump_fields fs "," >>= λ t. ok (sep <> dump_str k <> ":" <> s <> t)

  unfoldable pub canonical_json : Json → Result String
  unfolding canon dumps
  canonical_json document = canon document >>= dumps
