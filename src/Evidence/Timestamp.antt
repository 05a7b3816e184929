-- ===== src/Evidence/Timestamp.antt =====
-- api/evidence.py: `_parse_ts`, and the timestamp that `_row_to_event` prints.
use Prim.Native.Char.{code}
use Prim.Native.String.{String}
use guard_x.Common.{ℕ, zero, suc, Bool, ◌==◌, if◌then◌else◌}
use guard_x.Common.Int.{ℤ}
use guard_x.Common.Text.{◌<>◌, begins_with}
use guard_x.Common.Result.{Result, value_error, or_raise}
use guard_x.Platform.{Platform}

-- `iso[:-1] + "+00:00"` where the text ends in "Z".
unfoldable pub z_to_offset : String → String
z_to_offset String.[] = ""
z_to_offset (String.◌∷◌ c String.[]) = if code c == b'Z' then "+00:00" else String.◌∷◌ c String.[]
z_to_offset (String.◌∷◌ c (String.◌∷◌ d s)) = String.◌∷◌ c (z_to_offset (String.◌∷◌ d s))

-- The number counts the characters of a replaced "+00:00" that are still to be dropped.
replace_from : ℕ → String → String
replace_from n String.[] = ""
replace_from (suc n) (String.◌∷◌ c s) = replace_from n s
replace_from zero (String.◌∷◌ c s) = elim (begins_with "+00:00" (String.◌∷◌ c s)) [
  | Bool.true ↦ "Z" <> replace_from 5 s
  | Bool.false ↦ String.◌∷◌ c (replace_from 0 s)
]

-- `s.replace("+00:00", "Z")`
unfoldable pub offset_to_z : String → String
unfolding replace_from
offset_to_z s = replace_from 0 s

module _ (py : Platform) where
  unfoldable pub parse_ts : String → Result ℤ
  unfolding z_to_offset
  parse_ts iso = or_raise (py.fromisoformat (z_to_offset iso)) value_error

  unfoldable pub print_ts : ℤ → String
  unfolding offset_to_z
  print_ts t = offset_to_z (py.isoformat_utc t)
