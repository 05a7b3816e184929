-- ===== src/Profiles/Chain.antt =====
-- inheritance.py: the packs on disk and the chain of their parents. The files are given by their
-- specs, each with the document that `yaml.safe_load` makes of its text, if it makes one; they do
-- not change during a call, so that the cache of `load_pack` is not seen.
use guard_x.Common.{
  ℕ, zero, suc, String, not, Option, none, some, List, [], ◌∷◌, length, str_eq, elem, lookup,
  if◌then◌else◌,
}
use guard_x.Common.Text.{◌<>◌, contains, strip, text_lt}
use guard_x.Common.Sort.{sort_by}
use guard_x.Common.Json.{Json, str, obj, end, field, get, or_json}
use guard_x.Common.Result.{
  Result, ok, err, value_error, attribute_error, file_not_found, yaml_error, or_raise, raise_if,
  ◌>>=◌, ◌>>◌,
}
use guard_x.Platform.{Platform}
use guard_x.Linter.Document.{get_default, section, text_of}

-- `PackRef`
pub record PackRef : Type 0 where
  pub id : Json
  pub version : String
  pub document : Json

abbrev pub Packs : Type 0
Packs = List (String × Option Json)

-- `v.strip()`
abbrev pub strip_json : Json → Result String
strip_json (str s) = ok (strip s)
strip_json _ = err attribute_error

-- `((document.get("metadata") or {}).get("parent") or "").strip()`
unfoldable pub parent_of : Json → Result String
unfolding strip
parent_of document = section "metadata" document >>= λ meta.
    get "parent" meta >>= λ p. strip_json (or_json p (str ""))

module _ (py : Platform) (packs : Packs) where
  abbrev pub pack_ref : Json → Result PackRef
  pack_ref doc = section "metadata" doc >>= λ meta. get_default "id" (str "") meta >>= λ i.
      get_default "version" (str "") meta >>= λ v.
      ok (record { id = i; version = text_of py v; document = doc })

  -- `load_pack`
  unfoldable pub load_pack : String → Result PackRef
  unfolding contains text_of
  load_pack spec =
      raise_if (not (contains "@" spec)) value_error
      >> (or_raise (lookup spec packs) file_not_found >>= λ file.
          or_raise file yaml_error >>= λ doc. pack_ref doc)

  -- One turn of the loop of `resolve_chain`: the pack, and the next value of `cur`.
  unfoldable pub turn : List String → String → Result (PackRef × String)
  unfolding load_pack parent_of
  turn seen cur =
      raise_if (elem cur seen) value_error
      >> (load_pack cur >>= λ pack. parent_of pack.document >>= λ next. ok (pack, next))

  abbrev pub follow :
      Result (PackRef × String)
      → (PackRef × String → Option (Result (List PackRef)))
      → Option (Result (List PackRef))
  follow (err e) go = some (err e)
  follow (ok x) go = go x

  -- The loop, for at most so many turns, and None beyond them. `chain` has the newest pack in
  -- front, which is its order after the `reverse` behind the loop.
  unfoldable pub resolve_loop :
      ℕ → List String → List PackRef → String → Option (Result (List PackRef))
  unfolding turn
  resolve_loop zero seen chain cur = if str_eq cur "" then some (ok chain) else none
  resolve_loop (suc n) seen chain cur =
      if str_eq cur ""
      then some (ok chain)
      else follow (turn seen cur) (λ (pack, next). resolve_loop n (cur ∷ seen) (pack ∷ chain) next)

  -- `resolve_chain`
  unfoldable pub resolve_chain : String → Option (Result (List PackRef))
  unfolding resolve_loop
  resolve_chain spec = resolve_loop (suc (length packs)) [] [] spec

  -- The entry that `list_available_packs` makes for a file; none where an exception skips it.
  unfoldable pub pack_entry : String → Option Json → Result Json
  unfolding text_of
  pack_entry spec file = or_raise file yaml_error >>= λ doc. section "metadata" doc >>= λ meta.
      get_default "id" (str "") meta >>= λ i. get_default "version" (str "") meta >>= λ v.
      get "parent" meta >>= λ p. get "labels" meta >>= λ l. ok (
        obj (
          field "id" i (
            field "version" (str (text_of py v)) (
              field "parent" p (
                field "labels" (or_json l (obj end)) (field "path" (str (spec <> ".yaml")) end))))))

  abbrev pub keep_ok : Result Json → List Json → List Json
  keep_ok (ok j) js = j ∷ js
  keep_ok (err e) js = js

  unfoldable pub list_files : Packs → List Json
  unfolding pack_entry
  list_files [] = []
  list_files ((spec, file) ∷ files) = keep_ok (pack_entry spec file) (list_files files)

  -- `list_available_packs`, in the order of the file names.
  unfoldable pub list_available_packs : List Json
  unfolding list_files sort_by
  list_available_packs =
      list_files (sort_by (λ a b. text_lt (a.0 <> ".yaml") (b.0 <> ".yaml")) packs)
