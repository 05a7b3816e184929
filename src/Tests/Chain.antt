-- ===== src/Tests/Chain.antt =====
-- A chain of two packs, and the policy compiled from it.
use guard_x.Common.{String, ◌≡◌, refl, Option, some, List, [], ◌∷◌, arith}
use guard_x.Common.Json.{Json, Fields, null, str, obj, end, field}
use guard_x.Common.Result.{Result, ok, err, value_error, type_error}
use guard_x.Profiles.Merge.{Merged}
use guard_x.Profiles.Chain.{PackRef, Packs, resolve_loop, resolve_chain}
use guard_x.Profiles.Total.{resolve_chain_total}
use guard_x.Profiles.Lineage.{IsLineage, resolve_chain-IsLineage}
use guard_x.Profiles.Compile.{compile_policy}
use guard_x.Profiles.Compiled.{IsPolicyOf, compile_policy-IsPolicyOf}
use guard_x.Tests.Setup.{py, value_or}

abbrev pack : String → String → String → Json
pack i v parent = obj (
    field "metadata"
      (obj (field "id" (str i) (field "version" (str v) (field "parent" (str parent) end)))) end)

abbrev root : Json
root = pack "baseline" "1" ""

abbrev leaf : Json
leaf = pack "bank" "2" "baseline@1 "

abbrev files : Packs
files = ("baseline@1", some root) ∷ ("bank@2", some leaf) ∷ []

abbrev packs_found : List PackRef
packs_found =
    record { id = str "baseline"; version = "1"; document = root }
    ∷ record { id = str "bank"; version = "2"; document = leaf }
    ∷ []

found_lem : resolve_chain py files "bank@2" ≡ some (ok packs_found)
unfolding resolve_chain
found_lem = refl

-- Two packs that are each other's parents.
cycle_test :
    resolve_chain py
      (("a@1", some (pack "a" "1" "b@1")) ∷ ("b@1", some (pack "b" "1" "a@1")) ∷ [])
      "a@1"
    ≡ some (err value_error)
unfolding resolve_chain
cycle_test = refl

resolve_chain_total_example :
    (r : Result (List PackRef)) × (resolve_chain py files "bank@2" ≡ some r)
    × (resolve_loop py files 7 [] [] "bank@2" ≡ some r)
resolve_chain_total_example = resolve_chain_total py files "bank@2" 7 (omega arith)

resolve_chain-IsLineage_example :
    (specs : List String) × IsLineage py files "bank@2" "" specs packs_found
resolve_chain-IsLineage_example = resolve_chain-IsLineage py files "bank@2" packs_found found_lem

abbrev no_dict : Json → Result Fields
no_dict v = err type_error

abbrev or_failed : Option (Result Merged) → Merged
or_failed o = elim o [ Option.none ↦ (null, []) | some r ↦ value_or (null, []) r ]

unfoldable compiled : Merged
unfolding compile_policy
compiled = or_failed (compile_policy py no_dict files "acme" "bank@2" null "baseline@1")

compiled_lem :
    compile_policy py no_dict files "acme" "bank@2" null "baseline@1" ≡ some (ok compiled)
unfolding compile_policy compiled
compiled_lem = refl

compile_policy-IsPolicyOf_example : IsPolicyOf "acme" "bank@2" compiled.0
compile_policy-IsPolicyOf_example =
    compile_policy-IsPolicyOf py no_dict files "acme" "bank@2" null "baseline@1" compiled.0
      compiled.1 compiled_lem
