-- ===== src/Profiles/Merge.antt =====
-- inheritance.py: `merge` and `_merge_guards`, with the trace of what overrides what. The trace is
-- returned beside the document, in the order in which the code appends to it.
use Prim.Native.String.{String}
use guard_x.Common.{
  Bool, true, false, ◌&&◌, ◌||◌, Option, none, some, List, [], ◌∷◌, ◌++◌, str_eq, if◌then◌else◌,
  is_some,
}
use guard_x.Common.Text.{◌<>◌}
use guard_x.Common.Json.{
  Json, Items, Fields, null, arr, obj, nil, cons, end, field, find, get, truthy, eq_json, is_obj,
  items, of_list,
}
use guard_x.Common.Result.{Result, ok, err, type_error, ◌>>=◌}
use guard_x.Platform.{Platform}
use guard_x.Linter.Document.{text_of}

-- An entry of `OverrideTrace`.
pub record Override : Type 0 where
  pub path : String
  pub layer : String
  pub replaced : Option String

abbrev non_empty_layer : Option String → Option String
non_empty_layer none = none
non_empty_layer (some s) = if str_eq s "" then none else some s

-- `OverrideTrace.add`
abbrev pub add_entry : String → String → Option String → List Override
add_entry path layer replaced =
    record { path = path; layer = layer; replaced = non_empty_layer replaced } ∷ []

-- `s.endswith(t)`
unfoldable pub ends_with : String → String → Bool
ends_with t String.[] = str_eq t ""
ends_with t (String.◌∷◌ c s) = if str_eq (String.◌∷◌ c s) t then true else ends_with t s

-- f"{path}.{k}" if path else k
abbrev pub here : String → String → String
here path k = if str_eq path "" then k else path <> "." <> k

-- A key of a dict must be hashable.
abbrev pub check_hashable : Json → Result (Unit {0})
check_hashable (arr xs) = err type_error
check_hashable (obj fs) = err type_error
check_hashable _ = ok tt

-- `{g.get("id"): g for g in guards if isinstance(g, dict)}`, as far as it can raise.
unfoldable pub check_ids : List Json → Result (Unit {0})
check_ids [] = ok tt
check_ids (g ∷ gs) =
    if is_obj g then (get "id" g >>= λ i. check_hashable i >>= λ u. check_ids gs) else check_ids gs

abbrev has_id : Json → Json → Bool
has_id gid (obj fs) = elim (find "id" fs) [ none ↦ eq_json gid null | some i ↦ eq_json gid i ]
has_id gid _ = false

abbrev last_or : Option Json → Bool → Json → Option Json
last_or (some g) b h = some g
last_or none true h = some h
last_or none false h = none

-- The guard of that id in such a dict: the last one wins.
unfoldable pub by_id : Json → List Json → Option Json
by_id gid [] = none
by_id gid (g ∷ gs) = last_or (by_id gid gs) (has_id gid g) g

abbrev pub append_fields : Fields → Fields → Fields
append_fields end gs = gs
append_fields (field k v fs) gs = field k v (append_fields fs gs)

abbrev pub Merged : Type 0
Merged = Json × List Override

module _ (py : Platform) (parent_layer child_layer : String) where
  -- The keys of the child that the parent has not.
  unfoldable pub new_fields : Fields → String → Fields → Fields × List Override
  new_fields ps path end = (end, [])
  new_fields ps path (field k v cs) =
      let (fs, trace) = new_fields ps path cs in
      if is_some (find k ps)
      then (fs, trace)
      else (field k v fs, add_entry (here path k) child_layer none ++ trace)

  -- f"{path}[{gid}]"
  abbrev guard_at : String → Json → String
  guard_at path gid = path <> "[" <> text_of py gid <> "]"

  -- The guards of the child that the parent has not.
  unfoldable pub new_guards : List Json → String → List Json → Result (List Json × List Override)
  unfolding by_id
  new_guards ps path [] = ok ([], [])
  new_guards ps path (cg ∷ cs) = get "id" cg >>= λ gid. get "__remove__" cg >>= λ removed.
      new_guards ps path cs >>= λ (gs, trace). ok (
        if is_some (by_id gid ps) || truthy removed
        then (gs, trace)
        else (cg ∷ gs, add_entry (guard_at path gid) child_layer none ++ trace))

  -- A value that the child replaces.
  abbrev pub replace : Json → Json → String → Merged
  replace pv cv path =
      (cv, if eq_json pv cv then [] else add_entry path child_layer (some parent_layer))

  abbrev pub is_guard_list : String → String → Bool
  is_guard_list k path = str_eq k "guards" && ends_with "spec.guards" path

  -- A key of the parent, given the merge with the child's value.
  abbrev pub merge_key : Json → Option Json → (Json → Result Merged) → Result Merged
  merge_key pv none merge_with = ok (pv, [])
  merge_key pv (some cv) merge_with = merge_with cv

  -- A guard of the parent, given the merge with the child's guard of its id.
  abbrev pub merge_guard :
      Json → Option Json → String → (Json → Result Merged) → Result (List Json × List Override)
  merge_guard pg none path merge_with = ok (pg ∷ [], [])
  merge_guard pg (some cg) path merge_with = get "__remove__" cg >>= λ removed.
      if truthy removed
      then ok ([], add_entry path child_layer (some parent_layer))
      else (merge_with cg >>= λ (g, trace). ok (g ∷ [], trace))

  unfoldable mutual
    unfolding check_ids by_id new_fields new_guards

    -- The loop of `merge` over the keys of the parent.
    pub merge_fields : Fields → Fields → String → Result (Fields × List Override)
    merge_fields end cs path = ok (end, [])
    merge_fields (field k pv ps) cs path =
        merge_key pv (find k cs)
          (λ cv. merge_pair (is_guard_list k (here path k)) pv cv (here path k))
        >>= λ (v, trace). merge_fields ps cs path >>= λ (fs, more). ok (field k v fs, trace ++ more)

    -- Two values of one key; the flag tells the list of guards.
    pub merge_pair : Bool → Json → Json → String → Result Merged
    merge_pair is_guards (obj ps) (obj cs) path = merge_fields ps cs path >>= λ (fs, trace).
        let (ns, more) = new_fields ps path cs in ok (obj (append_fields fs ns), trace ++ more)
    merge_pair true (arr ps) (arr cs) path = check_ids (items ps) >>= λ u.
        check_ids (items cs) >>= λ w. merge_guards ps (items cs) path >>= λ (gs, trace).
        new_guards (items ps) path (items cs) >>= λ (ns, more).
        ok (arr (of_list (gs ++ ns)), trace ++ more)
    merge_pair is_guards pv cv path = ok (replace pv cv path)

    -- The loop of `_merge_guards` over the guards of the parent.
    pub merge_guards : Items → List Json → String → Result (List Json × List Override)
    merge_guards nil cs path = ok ([], [])
    merge_guards (cons pg ps) cs path = get "id" pg >>= λ gid.
        merge_guard pg (by_id gid cs) (guard_at path gid)
          (λ cg. merge_pair false pg cg (guard_at path gid))
        >>= λ (kept, trace).
            merge_guards ps cs path >>= λ (gs, more). ok (kept ++ gs, trace ++ more)

  -- `merge`
  unfoldable pub merge : Json → Json → String → Result Merged
  unfolding merge_pair
  merge (obj ps) (obj cs) path = merge_pair false (obj ps) (obj cs) path
  merge parent child path =
      ok (child, add_entry (if str_eq path "" then "/" else path) child_layer (some parent_layer))
