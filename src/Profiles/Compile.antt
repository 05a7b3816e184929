-- ===== src/Profiles/Compile.antt =====
-- inheritance.py: `compile_policy`, and the routes of api/profiles.py. A spec that is None is "" here:
-- the code tests its truth only. `dict_other` is `dict(v)` of a value that is no dict.
use guard_x.Common.{
  String, not, ◌&&◌, Option, none, some, List, [], ◌∷◌, ◌++◌, str_eq, if◌then◌else◌,
}
use guard_x.Common.Text.{◌<>◌}
use guard_x.Common.Json.{Json, Fields, str, obj, find, put, pop, truthy}
use guard_x.Common.Result.{Result, ok, err, http, value_error, file_not_found, ◌>>=◌}
use guard_x.Platform.{Platform}
use guard_x.Linter.Document.{or_default, section, text_of}
use guard_x.Profiles.Merge.{Merged, merge}
use guard_x.Profiles.Chain.{PackRef, Packs, load_pack, resolve_chain}

-- An entry of `layers`.
abbrev pub Layer : Type 0
Layer = String × Json

-- A computation behind one that may run out of turns.
abbrev pub after_turns : {X Y : Type 0} → Option (Result X) → (X → Result Y) → Option (Result Y)
after_turns none next = none
after_turns (some r) next = some (r >>= next)

module _ (py : Platform) (dict_other : Json → Result Fields) (packs : Packs) where
  -- `dict(v)`
  abbrev pub dict : Json → Result Fields
  dict (obj fs) = ok fs
  dict v = dict_other v

  -- The packs of the chain, but for the baseline.
  unfoldable pub chain_layers : String → List PackRef → List Layer
  unfolding text_of
  chain_layers baseline_spec [] = []
  chain_layers baseline_spec (pack ∷ chain) =
      let key = text_of py pack.id <> "@" <> pack.version in
      let rest = chain_layers baseline_spec chain in
      if str_eq key baseline_spec then rest else (key, pack.document) ∷ rest

  abbrev pub app_layer : Json → List Layer
  app_layer app_policy = if truthy app_policy then ("app-policy", app_policy) ∷ [] else []

  -- The layers behind the baseline, without that of the application.
  unfoldable pub profile_layers : String → String → Option (Result (List Layer))
  unfolding resolve_chain chain_layers
  profile_layers profile_spec baseline_spec =
      let resolved = resolve_chain py packs profile_spec in
      if not (str_eq profile_spec "") && not (str_eq profile_spec baseline_spec)
      then after_turns resolved (λ chain. ok (chain_layers baseline_spec chain))
      else some (ok [])

  -- The loop over the layers, with the document and the layer so far.
  unfoldable pub merge_layers : String → Json → List Layer → Result Merged
  unfolding merge
  merge_layers acc_layer acc [] = ok (acc, [])
  merge_layers acc_layer acc ((name, doc) ∷ layers) =
      merge py acc_layer name acc doc "" >>= λ (merged, trace).
      merge_layers name merged layers >>= λ (final, more). ok (final, trace ++ more)

  -- The metadata of the compiled document.
  abbrev pub compiled_metadata : String → String → Fields → Fields
  compiled_metadata tenant_slug profile_spec md0 =
      let md1 = put "tenant" (str tenant_slug) md0 in
      let md2 = pop "parent" md1 in
      let md3 = put "profile" (str profile_spec) md2 in
      put "status" (or_default (find "status" md3) (str "draft")) md3

  -- What follows the merge.
  unfoldable pub shape_policy : String → String → Json → Result Json
  shape_policy tenant_slug profile_spec acc = dict acc >>= λ fs0.
      let fs = put "kind" (str "Policy") fs0 in
      section "metadata" (obj fs) >>= λ meta. dict meta >>= λ md.
      ok (obj (put "metadata" (obj (compiled_metadata tenant_slug profile_spec md)) fs))

  unfoldable pub compile_layers : String → String → String → Json → List Layer → Result Merged
  unfolding merge_layers shape_policy
  compile_layers tenant_slug profile_spec baseline_spec baseline layers =
      merge_layers baseline_spec baseline layers >>= λ (acc, trace).
      shape_policy tenant_slug profile_spec acc >>= λ doc. ok (doc, trace)

  abbrev pub from_baseline :
      Result PackRef → (PackRef → Option (Result Merged)) → Option (Result Merged)
  from_baseline (err e) next = some (err e)
  from_baseline (ok pack) next = next pack

  -- `compile_policy`
  unfoldable pub compile_policy : String → String → Json → String → Option (Result Merged)
  unfolding load_pack profile_layers compile_layers
  compile_policy tenant_slug profile_spec app_policy baseline_spec =
      from_baseline (load_pack py packs baseline_spec) (λ baseline.
        after_turns (profile_layers profile_spec baseline_spec) (λ layers.
          compile_layers tenant_slug profile_spec baseline_spec baseline.document
            (layers ++ app_layer app_policy)))

  -- `get_pack`
  unfoldable pub get_pack : String → Result Json
  unfolding load_pack
  get_pack spec = elim (load_pack py packs spec) [
    | ok pack ↦ ok pack.document
    | err file_not_found ↦ err (http 404)
    | err e ↦ err e
  ]

  -- The exceptions that `compile_from_profile` turns into answers.
  abbrev pub answer : {X : Type 0} → Result X → Result X
  answer (err file_not_found) = err (http 404)
  answer (err value_error) = err (http 422)
  answer r = r

  -- `compile_from_profile`
  unfoldable pub compile_from_profile : String → String → Json → Option (Result Merged)
  unfolding compile_policy
  compile_from_profile tenant profile app_policy =
      elim (compile_policy tenant profile app_policy "baseline@1.0.0") [
        | none ↦ none
        | some r ↦ some (answer r)
      ]
