-- ===== src/Profiles/Compiled.antt =====
-- inheritance.py: what `compile_policy` returns.
use mathlib.Core.Option.{some-injective}
use guard_x.Common.{
  suc, ◌≡◌, refl, ap, ◌∙◌, String, not, ◌&&◌, Option, none, some, List, [], ◌++◌, arith, length,
  inl, inr, Bool-cases, str_eq,
}
use guard_x.Common.Json.{
  Json, Fields, str, obj, end, find, or_null, or_json, find-pop_ne, get, put, pop, find-put,
  find-put_ne,
}
use guard_x.Common.Result.{Result, ok, err, ◌>>=◌, >>=-eq-ok, subst_ok}
use guard_x.Platform.{Platform}
use guard_x.Linter.Document.{or_default}
use guard_x.Profiles.Merge.{Merged, Override}
use guard_x.Profiles.Chain.{PackRef, Packs, load_pack, resolve_chain}
use guard_x.Profiles.Total.{resolve_chain_total}
use guard_x.Profiles.Compile.{
  Layer, after_turns, chain_layers, dict, app_layer, profile_layers, merge_layers,
  compiled_metadata, shape_policy, compile_layers, from_baseline, compile_policy,
}

-- The document is a policy of the tenant and the profile.
abbrev pub IsPolicyOf : String → String → Json → Type 0
IsPolicyOf tenant_slug profile_spec doc =
    (get "kind" doc ≡ ok (str "Policy"))
    × (md : Fields) × (get "metadata" doc ≡ ok (obj md))
    × (find "tenant" md ≡ some (str tenant_slug))
    × (find "profile" md ≡ some (str profile_spec))

module _ (py : Platform) (dict_other : Json → Result Fields) (packs : Packs)
    (tenant_slug profile_spec : String) where
  find-compiled_profile :
      (md : Fields)
      → find "profile" (compiled_metadata py dict_other packs tenant_slug profile_spec md)
        ≡ some (str profile_spec)
  find-compiled_profile md =
      let md2 = pop "parent" (put "tenant" (str tenant_slug) md) in
      let md3 = put "profile" (str profile_spec) md2 in
      find-put_ne "status" "profile" (or_default (find "status" md3) (str "draft")) md3 refl
      ∙ find-put "profile" "profile" (str profile_spec) md2

  find-compiled_tenant :
      (md : Fields)
      → find "tenant" (compiled_metadata py dict_other packs tenant_slug profile_spec md)
        ≡ some (str tenant_slug)
  find-compiled_tenant md =
      let md1 = put "tenant" (str tenant_slug) md in
      let md3 = put "profile" (str profile_spec) (pop "parent" md1) in
      find-put_ne "status" "tenant" (or_default (find "status" md3) (str "draft")) md3 refl
      ∙ find-put_ne "profile" "tenant" (str profile_spec) (pop "parent" md1) refl
      ∙ find-pop_ne "parent" "tenant" md1 refl
      ∙ find-put "tenant" "tenant" (str tenant_slug) md

  shape_policy-IsPolicyOf :
      (acc doc : Json)
      → shape_policy py dict_other packs tenant_slug profile_spec acc ≡ ok doc
      → IsPolicyOf tenant_slug profile_spec doc
  unfolding shape_policy
  shape_policy-IsPolicyOf acc doc e =
      let (fs, e1, e2) = >>=-eq-ok (dict py dict_other packs acc) _ e in
      let fs1 = put "kind" (str "Policy") fs in
      let (md, e3, e4) =
        >>=-eq-ok (dict py dict_other packs (or_json (or_null (find "metadata" fs1)) (obj end))) _
          e2 in
      let md' = compiled_metadata py dict_other packs tenant_slug profile_spec md in
      subst_ok (IsPolicyOf tenant_slug profile_spec) e4 (
        ap (λ o. ok (or_null o))
            (find-put_ne "metadata" "kind" (obj md') fs1 refl
              ∙ find-put "kind" "kind" (str "Policy") fs),
        md',
        ap (λ o. ok (or_null o)) (find-put "metadata" "metadata" (obj md') fs1),
        find-compiled_tenant md,
        find-compiled_profile md,
      )

  compile_layers-IsPolicyOf :
      (baseline_spec : String) (baseline : Json) (layers : List Layer) (doc : Json)
      (trace : List Override)
      → compile_layers py dict_other packs tenant_slug profile_spec baseline_spec baseline layers
        ≡ ok (doc, trace)
      → IsPolicyOf tenant_slug profile_spec doc
  unfolding compile_layers
  compile_layers-IsPolicyOf baseline_spec baseline layers doc trace e =
      let ((acc, t), e1, e2) =
        >>=-eq-ok (merge_layers py dict_other packs baseline_spec baseline layers) _ e in
      let (d, e3, e4) =
        >>=-eq-ok (shape_policy py dict_other packs tenant_slug profile_spec acc) _ e2 in
      subst_ok (λ x. IsPolicyOf tenant_slug profile_spec x.0) e4 (shape_policy-IsPolicyOf acc d e3)

after_turns_total :
    {X Y : Type 0} (o : Option (Result X)) (next : X → Result Y) (r : Result X)
    → o ≡ some r
    → (s : Result Y) × (after_turns o next ≡ some s)
after_turns_total none next r e = cc
after_turns_total (some q) next r e = (q >>= next, refl)

after_turns-eq-some :
    {X Y : Type 0} (o : Option (Result X)) (next : X → Result Y) (y : Y)
    → after_turns o next ≡ some (ok y)
    → (x : X) × (o ≡ some (ok x)) × (next x ≡ ok y)
after_turns-eq-some none next y e = cc
after_turns-eq-some (some (err exc)) next y e = cc
after_turns-eq-some (some (ok x)) next y e = (x, refl, some-injective _ _ e)

module _ (py : Platform) (dict_other : Json → Result Fields) (packs : Packs) where
  from_baseline_total :
      (r : Result PackRef) (next : PackRef → Option (Result Merged))
      → ((p : PackRef) → (s : Result Merged) × (next p ≡ some s))
      → (s : Result Merged) × (from_baseline py dict_other packs r next ≡ some s)
  from_baseline_total (err e) next h = (err e, refl)
  from_baseline_total (ok p) next h = h p

  from_baseline-eq-some :
      (r : Result PackRef) (next : PackRef → Option (Result Merged)) (y : Merged)
      → from_baseline py dict_other packs r next ≡ some (ok y)
      → (p : PackRef) × (r ≡ ok p) × (next p ≡ some (ok y))
  from_baseline-eq-some (err exc) next y e = cc
  from_baseline-eq-some (ok p) next y e = (p, refl, e)

  profile_layers_total :
      (profile_spec baseline_spec : String)
      → (r : Result (List Layer)) × (profile_layers py dict_other packs profile_spec baseline_spec
          ≡ some r)
  unfolding profile_layers
  profile_layers_total profile_spec baseline_spec =
      let (q, e, more) =
        resolve_chain_total py packs profile_spec (suc (length packs)) (omega arith) in
      let (r, e') =
        after_turns_total (resolve_chain py packs profile_spec)
          (λ chain. ok (chain_layers py dict_other packs baseline_spec chain)) q e in
      elim (Bool-cases (not (str_eq profile_spec "") && not (str_eq profile_spec baseline_spec))) [
        | inl profiled ↦ (r, rw profiled e')
        | inr plain ↦ (ok [], rw plain)
      ]

-- A compilation always has a result, a document with its trace or an exception.
compile_policy_total :
    (py : Platform) (dict_other : Json → Result Fields) (packs : Packs)
    (tenant_slug profile_spec : String) (app_policy : Json) (baseline_spec : String)
    → (r : Result Merged) × (compile_policy py dict_other packs tenant_slug profile_spec app_policy
          baseline_spec
        ≡ some r)
unfolding compile_policy
compile_policy_total py dict_other packs tenant_slug profile_spec app_policy baseline_spec =
    let (r, e) = profile_layers_total py dict_other packs profile_spec baseline_spec in
    from_baseline_total py dict_other packs (load_pack py packs baseline_spec) _
      (λ p. after_turns_total (profile_layers py dict_other packs profile_spec baseline_spec) _ r e)

-- A document that is compiled is of kind "Policy", and its metadata has the tenant and the profile
-- that were asked for.
pub compile_policy-IsPolicyOf :
    (py : Platform) (dict_other : Json → Result Fields) (packs : Packs)
    (tenant_slug profile_spec : String) (app_policy : Json) (baseline_spec : String) (doc : Json)
    (trace : List Override)
    → compile_policy py dict_other packs tenant_slug profile_spec app_policy baseline_spec
      ≡ some (ok (doc, trace))
    → IsPolicyOf tenant_slug profile_spec doc
unfolding compile_policy
compile_policy-IsPolicyOf py dict_other packs tenant profile app base doc trace e =
    let (p, loaded, e1) =
      from_baseline-eq-some py dict_other packs (load_pack py packs base) _ (doc, trace) e in
    let (layers, found, e2) =
      after_turns-eq-some (profile_layers py dict_other packs profile base) _ (doc, trace) e1 in
    compile_layers-IsPolicyOf py dict_other packs tenant profile base p.document
      (layers ++ app_layer py dict_other packs app) doc trace e2
