-- ===== src/Bundles/Builder.antt =====
-- builder.py and api/bundles.py: the composition of a bundle, and the routes that build and pull
-- one. SQL leaves the order of the selected policies open; it is a parameter.
use guard_x.Common.{
  ℕ, ◌+◌, String, Bool, true, false, ◌&&◌, ◌||◌, Option, none, some, List, [], ◌∷◌, ◌++◌, map,
  filter, str_eq, leb, ltb, if◌then◌else◌,
}
use guard_x.Common.Int.{ℤ, ltb_ℤ, eqb_ℤ, pos}
use guard_x.Common.Text.{◌<>◌, split_at, text_lt}
use guard_x.Common.Sort.{sort_by}
use guard_x.Common.Json.{
  Json, int, str, arr, obj, nil, end, get, or_json, truthy, of_list, of_entries,
}
use guard_x.Common.Result.{Result, ok, err, http, attribute_error, type_error, ◌>>=◌, or_raise}
use guard_x.Platform.{Platform}
use guard_x.Auth.Role.{Role, Principal, require_role}
use guard_x.Signing.Canonical.{canonical_json}
use guard_x.Linter.Document.{get_default, is_in, guards, section}
use guard_x.Policy.Registry.{PolicyStatus, Tenant, PolicyRow, Registry, get_tenant}
use guard_x.Policy.Lifecycle.{is_status}
use guard_x.Bundles.Catalog.{Detector, find_detector}

-- `Bundle`
pub record Bundle : Type 0 where
  pub tenant_id : String
  pub environment : String
  pub bundle_seq : ℕ
  pub manifest : Json
  pub manifest_hash : String
  pub signature : String
  pub signing_key_id : String
  pub created_at : ℤ

abbrev pub is_approved : String → PolicyRow → Bool
is_approved tid r = str_eq r.tenant_id tid && is_status r.status PolicyStatus.approved

-- `func.max` on two values, where NULL is passed over.
abbrev pub max_at : Option ℤ → Option ℤ → Option ℤ
max_at none t = t
max_at (some s) none = some s
max_at (some s) (some t) = if ltb_ℤ s t then some t else some s

-- `max(approved_at)` of the group of a policy id.
unfoldable pub last_approval : String → List PolicyRow → Option ℤ
last_approval pid [] = none
last_approval pid (r ∷ rs) =
    let rest = last_approval pid rs in
    if str_eq r.policy_id pid then max_at r.approved_at rest else rest

-- The SQL `=` on two times; NULL equals nothing.
abbrev pub same_time : Option ℤ → Option ℤ → Bool
same_time (some s) (some t) = eqb_ℤ s t
same_time _ _ = false

abbrev pub is_latest : List PolicyRow → PolicyRow → Bool
is_latest rs r = same_time r.approved_at (last_approval r.policy_id rs)

-- `_latest_approved_versions`, in the order of the table.
unfoldable pub latest_approved_versions : String → List PolicyRow → List PolicyRow
unfolding last_approval
latest_approved_versions tid rows =
    let approved = filter (is_approved tid) rows in filter (is_latest approved) approved

-- One entry of the manifest's "detectors".
pub record DetectorRef : Type 0 where
  pub detector_id : String
  pub version : String
  pub image_digest : String

abbrev pub digest_of : Option Detector → String
digest_of none = ""
digest_of (some d) = d.image_digest

abbrev pub is_seen : String → String → List DetectorRef → Bool
is_seen i v [] = false
is_seen i v (r ∷ rs) = if str_eq r.detector_id i && str_eq r.version v then true else is_seen i v rs

abbrev pub see : List Detector → String → String → List DetectorRef → List DetectorRef
see ds i v seen =
    if is_seen i v seen
    then seen
    else seen
      ++ record { detector_id = i; version = v; image_digest = digest_of (find_detector i v ds) }
        ∷ []

-- `det.split("@", 1)`, which only a text has.
abbrev pub split_ref : Json → Result (String × String)
split_ref (str s) = or_raise (split_at b'@' s) type_error
split_ref _ = err attribute_error

-- The loop over the guards of one policy.
unfoldable pub see_guards : List Detector → List Json → List DetectorRef → Result (List DetectorRef)
unfolding find_detector split_at
see_guards ds [] seen = ok seen
see_guards ds (g ∷ gs) seen = do
  det ← get "detector" g
  named ← if truthy det then is_in "@" det else ok false
  next ← if named then (split_ref det >>= λ (i, v). ok (see ds i v seen)) else ok seen
  see_guards ds gs next

unfoldable pub see_policies :
    List Detector → List PolicyRow → List DetectorRef → Result (List DetectorRef)
unfolding see_guards guards
see_policies ds [] seen = ok seen
see_policies ds (p ∷ ps) seen = do
  spec ← section "spec" p.document
  gs ← guards spec
  next ← see_guards ds gs seen
  see_policies ds ps next

abbrev pub ref_lt : DetectorRef → DetectorRef → Bool
ref_lt r s =
    text_lt r.detector_id s.detector_id
    || (str_eq r.detector_id s.detector_id && text_lt r.version s.version)

-- `_detector_refs`
unfoldable pub detector_refs : List Detector → List PolicyRow → Result (List DetectorRef)
unfolding see_policies
detector_refs ds ps = see_policies ds ps [] >>= λ seen. ok (sort_by ref_lt seen)

-- `environment in envs`
unfoldable pub targets : String → PolicyRow → Result Bool
targets environment p = do
  spec ← section "spec" p.document
  a ← get_default "applies_to" (obj end) spec
  es ← get_default "environments" (arr nil) a
  is_in environment (or_json es (arr nil))

-- `scoped`
unfoldable pub scope : String → List PolicyRow → Result (List PolicyRow)
unfolding targets
scope environment [] = ok []
scope environment (p ∷ ps) = targets environment p >>= λ hit.
    scope environment ps >>= λ rest. ok (if hit then p ∷ rest else rest)

abbrev pub is_bundle_of : String → String → Bundle → Bool
is_bundle_of tid environment b = str_eq b.tenant_id tid && str_eq b.environment environment

-- `coalesce(max(bundle_seq), 0)`
unfoldable pub last_seq : String → String → List Bundle → ℕ
last_seq tid environment [] = 0
last_seq tid environment (b ∷ bs) =
    let rest = last_seq tid environment bs in
    if is_bundle_of tid environment b && ltb rest b.bundle_seq then b.bundle_seq else rest

abbrev pub policy_entry : PolicyRow → Json
policy_entry p = obj (
    of_entries (
      ("policy_id", str p.policy_id)
      ∷ ("version", str p.version)
      ∷ ("document_hash", str ("sha256:" <> p.document_hash))
      ∷ ("document", p.document)
      ∷ []))

abbrev pub detector_entry : DetectorRef → Json
detector_entry r = obj (
    of_entries (
      ("detector_id", str r.detector_id)
      ∷ ("version", str r.version)
      ∷ ("image_digest", str r.image_digest)
      ∷ []))

module _ (py : Platform) (max_age_hours : ℤ) (row_order : List PolicyRow → List PolicyRow) where
  abbrev pub manifest_of : Tenant → String → ℤ → ℕ → List PolicyRow → List DetectorRef → Json
  manifest_of t environment now seq scoped refs = obj (
      of_entries (
        ("tenant", str t.slug)
        ∷ ("environment", str environment)
        ∷ ("bundle_seq", int (pos seq))
        ∷ ("created_at", str (py.isoformat_utc now))
        ∷ ("max_age_hours", int max_age_hours)
        ∷ ("policies", arr (of_list (map policy_entry scoped)))
        ∷ ("detectors", arr (of_list (map detector_entry refs)))
        ∷ []))

  -- `build_bundle`
  unfoldable pub build_bundle :
      Tenant → String → ℤ → List Detector → List PolicyRow → List Bundle → Result Bundle
  unfolding scope detector_refs latest_approved_versions last_seq
  build_bundle t environment now detectors policies bundles = do
    scoped ← scope environment (row_order (latest_approved_versions t.id policies))
    refs ← detector_refs detectors scoped
    let seq = last_seq t.id environment bundles + 1
    let manifest = manifest_of t environment now seq scoped refs
    bytes ← canonical_json py.float_repr manifest
    ok (record {
      tenant_id = t.id;
      environment = environment;
      bundle_seq = seq;
      manifest = manifest;
      manifest_hash = py.sha256_hex bytes;
      signature = py.sign bytes;
      signing_key_id = py.key_id;
      created_at = now;
    })

  -- `build`
  unfoldable pub build :
      Principal
      → String
      → String
      → ℤ
      → List Detector
      → Registry
      → List Bundle
      → Result (List Bundle × Bundle)
  unfolding require_role get_tenant build_bundle
  build p environment slug now detectors reg bundles = do
    caller ← require_role (Role.approver ∷ Role.admin ∷ []) p
    t ← get_tenant slug reg
    b ← build_bundle t environment now detectors reg.policies bundles
    ok (bundles ++ b ∷ [], b)

-- `order_by(bundle_seq.desc()).limit(1)`
abbrev pub higher : Bundle → Option Bundle → Bundle
higher b none = b
higher b (some c) = if ltb b.bundle_seq c.bundle_seq then c else b

unfoldable pub newest : String → String → List Bundle → Option Bundle
newest tid environment [] = none
newest tid environment (b ∷ bs) =
    let rest = newest tid environment bs in
    if is_bundle_of tid environment b then some (higher b rest) else rest

-- `pull`; none for the status 204.
unfoldable pub pull : String → String → ℕ → Registry → List Bundle → Result (Option Bundle)
unfolding get_tenant newest
pull environment slug since reg bundles = do
  t ← get_tenant slug reg
  b ← or_raise (newest t.id environment bundles) (http 404)
  ok (if leb b.bundle_seq since then none else some b)
