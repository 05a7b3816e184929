-- ===== src/Linter/Document.antt =====
-- How the control plane reads a policy document: Python's operations on its values, and the
-- accessors of linter.py.
use guard_x.Common.{String, Bool, true, false, Option, none, some, List, map, any, is_some}
use guard_x.Common.Text.{chars, contains}
use guard_x.Common.Json.{
  Json, null, bool, int, float, str, arr, obj, nil, end, find, get, or_json, items, entries, is_str,
}
use guard_x.Common.Result.{Result, ok, err, attribute_error, type_error, key_error, or_raise, ◌>>=◌}
use guard_x.Platform.{Platform}
use guard_x.Signing.Canonical.{dump_int}

abbrev pub or_default : Option Json → Json → Json
or_default none d = d
or_default (some v) d = v

-- `v.get(k, d)`
abbrev pub get_default : String → Json → Json → Result Json
get_default k d (obj fs) = ok (or_default (find k fs) d)
get_default k d _ = err attribute_error

-- `v[k]`
abbrev pub get_key : String → Json → Result Json
get_key k (obj fs) = or_raise (find k fs) key_error
get_key k _ = err type_error

-- A value where the code, or a text column, asks for a text.
abbrev pub as_text : Json → Result String
as_text (str s) = ok s
as_text _ = err type_error

-- `for x in v`: a dict gives its keys, a text its characters.
abbrev pub iterate : Json → Result (List Json)
iterate (arr xs) = ok (items xs)
iterate (obj fs) = ok (map (λ e. str e.0) (entries fs))
iterate (str s) = ok (map str (chars s))
iterate _ = err type_error

-- `k in v`, for a text `k`.
abbrev pub is_in : String → Json → Result Bool
is_in k (arr xs) = ok (any (λ x. is_str x k) (items xs))
is_in k (obj fs) = ok (is_some (find k fs))
is_in k (str s) = ok (contains k s)
is_in k _ = err type_error

-- `_guards`
unfoldable pub guards : Json → Result (List Json)
guards spec = do g ← get_default "guards" (arr nil) spec; iterate (or_json g (arr nil))

-- `(spec.get(k) or {})`
abbrev pub section : String → Json → Result Json
section k spec = get k spec >>= λ v. ok (or_json v (obj end))

-- `_default_fail_mode`
unfoldable pub default_fail_mode : Json → Result Json
default_fail_mode spec = do d ← section "defaults" spec; get "fail_mode" d

-- `_envs`
unfoldable pub envs : Json → Result Json
envs spec = do
  a ← section "applies_to" spec
  e ← get_default "environments" (arr nil) a
  ok (or_json e (arr nil))

-- `str(v)`
unfoldable pub text_of : Platform → Json → String
unfolding dump_int
text_of py null = "None"
text_of py (bool true) = "True"
text_of py (bool false) = "False"
text_of py (int n) = dump_int n
text_of py (float x) = py.float_repr x
text_of py (str s) = s
text_of py (arr xs) = py.repr (arr xs)
text_of py (obj fs) = py.repr (obj fs)
