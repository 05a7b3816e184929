-- ===== src/Tests/Profiles.antt =====
-- A profile merged into the baseline.
use guard_x.Common.{◌≡◌, refl, true, List, [], All}
use guard_x.Common.Json.{
  Json, Items, Fields, bool, str, arr, obj, nil, cons, end, field, get, items, of_list, eq_json,
}
use guard_x.Common.Result.{ok}
use guard_x.Profiles.Merge.{Merged, merge, merge_pair, new_fields, check_ids, new_guards, by_id}
use guard_x.Profiles.Guards.{IsKept, merge_pair-IsKept}
use guard_x.Profiles.Keys.{get-merge_parent}
use guard_x.Tests.Setup.{py, value_or}

abbrev baseline : Fields
baseline = field "kind" (str "Profile") (field "spec" (obj (field "mode" (str "enforce") end)) end)

abbrev profile : Fields
profile = field "spec" (obj (field "mode" (str "shadow") end)) (field "note" (str "n") end)

unfoldable merged : Merged
unfolding merge
merged = value_or (str "", []) (merge py "baseline" "profile" (obj baseline) (obj profile) "")

merged_lem : merge py "baseline" "profile" (obj baseline) (obj profile) "" ≡ ok merged
unfolding merge merged new_fields
merged_lem = refl

get-merge_parent_example : get "kind" merged.0 ≡ ok (str "Profile")
get-merge_parent_example =
    get-merge_parent py "baseline" "profile" "kind" baseline profile "" merged merged_lem refl

abbrev guard : Json → Json → Fields → Json
guard i mode rest = obj (field "id" i (field "mode" mode rest))

abbrev parent_guards : Items
parent_guards =
    cons (guard (str "g1") (str "a") end)
      (cons (guard (str "g2") (str "a") end) (cons (guard (str "g3") (str "a") end) nil))

abbrev child_guards : Items
child_guards =
    cons (guard (str "g2") (str "b") end)
      (cons (guard (str "g3") (str "a") (field "__remove__" (bool true) end)) nil)

unfoldable guards_merged : Merged
unfolding merge_pair
guards_merged =
    value_or (str "", [])
      (merge_pair py "baseline" "profile" true (arr parent_guards) (arr child_guards) "spec.guards")

guards_merged_lem :
    merge_pair py "baseline" "profile" true (arr parent_guards) (arr child_guards) "spec.guards"
    ≡ ok guards_merged
unfolding merge_pair guards_merged check_ids new_guards by_id eq_json
guards_merged_lem = refl

merge_pair-IsKept_example :
    (gs : List Json) × (guards_merged.0 ≡ arr (of_list gs))
    × All (IsKept py "baseline" "profile" (items child_guards) gs) (items parent_guards)
merge_pair-IsKept_example =
    merge_pair-IsKept py "baseline" "profile" parent_guards child_guards "spec.guards" guards_merged
      guards_merged_lem
