-- ===== src/Common/Json.antt =====
-- The values of a JSON or YAML document, as Python holds them, with `==`, truth and `d.get(k)`.
-- A `dict` keeps its insertion order.
use mathlib.Core.Path.{◌≡◌, refl}
use mathlib.Core.Bool.{Bool, true, false, not, ◌&&◌}
use mathlib.Core.Option.{Option, none, some}
use mathlib.Core.List.{List, [], ◌∷◌}
use Prim.Native.String.{String}
use native.Mathlib.Omega.{arith}
use text.Mathlib.TextEquality.{eq_iff}
use guard_x.Common.Tests.{str_eq, if◌then◌else◌}
use guard_x.Common.Int.{ℤ, pos, eqb_ℤ}
use guard_x.Common.Float
use guard_x.Common.Float.{Float}
use guard_x.Common.Result.{Result, ok, err, attribute_error}

mutual
  pub data Json : Type 0 where
    null : Json
    bool : Bool → Json
    int : ℤ → Json
    float : Float → Json
    str : String → Json
    arr : Items → Json
    obj : Fields → Json

  pub data Items : Type 0 where
    nil : Items
    cons : Json → Items → Items

  pub data Fields : Type 0 where
    end : Fields
    field : String → Json → Fields → Fields

-- The elements of a list.
abbrev pub items : Items → List Json
items nil = []
items (cons x xs) = x ∷ items xs

abbrev pub of_list : List Json → Items
of_list [] = nil
of_list (x ∷ xs) = cons x (of_list xs)

-- The entries of a dict.
abbrev pub entries : Fields → List (String × Json)
entries end = []
entries (field k v fs) = (k, v) ∷ entries fs

abbrev pub of_entries : List (String × Json) → Fields
of_entries [] = end
of_entries ((k, v) ∷ d) = field k v (of_entries d)

abbrev pub find : String → Fields → Option Json
find k end = none
find k (field j v fs) = if str_eq k j then some v else find k fs

-- `d[k] = v`
abbrev pub put : String → Json → Fields → Fields
put k v end = field k v end
put k v (field j w fs) = if str_eq k j then field j v fs else field j w (put k v fs)

-- `d.pop(k, None)`
abbrev pub pop : String → Fields → Fields
pop k end = end
pop k (field j w fs) = if str_eq k j then fs else field j w (pop k fs)

abbrev pub or_null : Option Json → Json
or_null none = null
or_null (some v) = v

-- `v.get(k)`: an absent key gives None, a value that is no dict has no `get`.
abbrev pub get : String → Json → Result Json
get k (obj fs) = ok (or_null (find k fs))
get k _ = err attribute_error

-- `v or d`
abbrev pub truthy : Json → Bool
truthy null = false
truthy (bool b) = b
truthy (int n) = not (eqb_ℤ n (pos 0))
truthy (float x) = not (Float.eq x (Float.of_int (pos 0)))
truthy (str s) = not (str_eq s "")
truthy (arr nil) = false
truthy (arr (cons x xs)) = true
truthy (obj end) = false
truthy (obj (field k v fs)) = true

abbrev pub or_json : Json → Json → Json
or_json v d = if truthy v then v else d

abbrev pub is_null : Json → Bool
is_null null = true
is_null _ = false

abbrev pub is_obj : Json → Bool
is_obj (obj fs) = true
is_obj _ = false

-- `v == "text"`
abbrev pub is_str : Json → String → Bool
is_str (str s) t = str_eq s t
is_str _ t = false

-- The value as a number: `True == 1 == 1.0`.
abbrev pub numeric : Json → Option Float
numeric (bool true) = some (Float.of_int (pos 1))
numeric (bool false) = some (Float.of_int (pos 0))
numeric (int n) = some (Float.of_int n)
numeric (float x) = some x
numeric _ = none

abbrev pub eq_numeric : Option Float → Option Float → Bool
eq_numeric (some x) (some y) = Float.eq x y
eq_numeric _ _ = false

abbrev pub same_size : Fields → Fields → Bool
same_size end end = true
same_size (field k v fs) (field j w gs) = same_size fs gs
same_size _ _ = false

-- `a == b`; two dicts are equal whatever the order of their keys.
unfoldable mutual
  pub eq_json : Json → Json → Bool
  eq_json null b = is_null b
  eq_json (bool x) b = eq_numeric (numeric (bool x)) (numeric b)
  eq_json (int x) b = eq_numeric (numeric (int x)) (numeric b)
  eq_json (float x) b = eq_numeric (numeric (float x)) (numeric b)
  eq_json (str s) b = is_str b s
  eq_json (arr xs) (arr ys) = eq_items xs ys
  eq_json (arr xs) _ = false
  eq_json (obj fs) (obj gs) = same_size fs gs && sub_fields fs gs
  eq_json (obj fs) _ = false

  pub eq_items : Items → Items → Bool
  eq_items nil nil = true
  eq_items (cons x xs) (cons y ys) = eq_json x y && eq_items xs ys
  eq_items nil (cons y ys) = false
  eq_items (cons x xs) nil = false

  -- Every key of the first has an equal value in the second.
  pub sub_fields : Fields → Fields → Bool
  sub_fields end gs = true
  sub_fields (field k v fs) gs =
      elim (find k gs) [ none ↦ false | some w ↦ eq_json v w ] && sub_fields fs gs

pub find-put :
    (k j : String) (v : Json) (d : Fields)
    → find j (put k v d) ≡ (if str_eq k j then some v else find j d)
find-put k j v end = ground (arith, eq_iff k j, eq_iff j k)
find-put k j v (field i w d) =
    ground (arith, eq_iff k j, eq_iff j k, eq_iff k i, eq_iff j i, find-put k j v d)

pub find-put_ne :
    (k j : String) (v : Json) (d : Fields) → str_eq k j ≡ false → find j (put k v d) ≡ find j d
find-put_ne k j v d h = ground (arith, find-put k j v d)

pub find-pop_ne : (k j : String) (d : Fields) → str_eq k j ≡ false → find j (pop k d) ≡ find j d
find-pop_ne k j end h = refl
find-pop_ne k j (field i w d) h =
    ground (arith, eq_iff k j, eq_iff j k, eq_iff k i, eq_iff j i, find-pop_ne k j d h)
