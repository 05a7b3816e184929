-- ===== src/Bundles/Sequence.antt =====
-- The sequence numbers of the bundles of a tenant and an environment, and what a gateway pulls.
use guard_x.Common.{
  ℕ, ◌+◌, ◌<◌, ◌≡◌, refl, String, true, false, ◌&&◌, some, List, [], ◌∷◌, ◌++◌, arith, All, eq_refl,
  leb,
}
use guard_x.Common.Int.{ℤ}
use guard_x.Common.Result.{ok, >>=-eq-ok, subst_ok}
use guard_x.Platform.{Platform}
use guard_x.Auth.Role.{Role, Principal, require_role}
use guard_x.Signing.Canonical.{canonical_json}
use guard_x.Policy.Registry.{Tenant, PolicyRow, Registry, get_tenant}
use guard_x.Bundles.Catalog.{Detector}
use guard_x.Bundles.Builder.{
  Bundle, is_bundle_of, last_seq, newest, build_bundle, build, pull, scope, detector_refs,
  latest_approved_versions, manifest_of, DetectorRef,
}

-- The bundle is of another tenant or environment, or has a smaller number than `n`.
abbrev pub IsBelow : String → String → ℕ → Bundle → Type 0
IsBelow tid environment n c = (is_bundle_of tid environment c && leb n c.bundle_seq) ≡ false

-- `n` is above the largest number.
last_seq-IsBelow :
    (tid environment : String) (bs : List Bundle) (n : ℕ)
    → last_seq tid environment bs < n
    → All (IsBelow tid environment n) bs
unfolding last_seq
last_seq-IsBelow tid environment [] n l = tt
last_seq-IsBelow tid environment (b ∷ bs) n l =
    (ground arith, last_seq-IsBelow tid environment bs n (ground arith))

newest-snoc :
    (tid environment : String) (bs : List Bundle) (b : Bundle)
    → is_bundle_of tid environment b ≡ true
    → All (IsBelow tid environment b.bundle_seq) bs
    → newest tid environment (bs ++ b ∷ []) ≡ some b
unfolding newest
newest-snoc tid environment [] b i h = rw i
newest-snoc tid environment (c ∷ bs) b i h =
    ground (arith, newest-snoc tid environment bs b i h.1, h.0)

module _ (py : Platform) (max_age : ℤ) (row_order : List PolicyRow → List PolicyRow) where
  -- A bundle that is built: what it is composed of, its number, and the signature over its
  -- manifest.
  abbrev pub Composed :
      Tenant → String → ℤ → List Detector → List PolicyRow → List Bundle → Bundle → Type 0
  Composed t environment now ds policies bundles b =
      (scoped : List PolicyRow) × (scope environment
          (row_order (latest_approved_versions t.id policies))
        ≡ ok scoped)
      × (b.tenant_id ≡ t.id)
      × (b.environment ≡ environment)
      × (b.bundle_seq ≡ last_seq t.id environment bundles + 1)
      × ((refs : List DetectorRef) × (bytes : String) × (detector_refs ds scoped ≡ ok refs)
          × (b.manifest
              ≡ manifest_of py max_age row_order t environment now b.bundle_seq scoped refs)
          × (canonical_json py.float_repr b.manifest ≡ ok bytes)
          × (b.signature ≡ py.sign bytes)
          × (b.manifest_hash ≡ py.sha256_hex bytes))

  build_bundle-Composed :
      (t : Tenant) (environment : String) (now : ℤ) (ds : List Detector) (policies : List PolicyRow)
      (bundles : List Bundle) (b : Bundle)
      → build_bundle py max_age row_order t environment now ds policies bundles ≡ ok b
      → Composed t environment now ds policies bundles b
  unfolding build_bundle
  build_bundle-Composed t environment now ds policies bundles b e =
      let (scoped, es, e1) =
        >>=-eq-ok (scope environment (row_order (latest_approved_versions t.id policies))) _ e in
      let (refs, er, e2) = >>=-eq-ok (detector_refs ds scoped) _ e1 in
      let seq = last_seq t.id environment bundles + 1 in
      let (bytes, eb, e3) =
        >>=-eq-ok
          (canonical_json py.float_repr
            (manifest_of py max_age row_order t environment now seq scoped refs))
          _ e2 in
      subst_ok (Composed t environment now ds policies bundles) e3
        (scoped, es, refl, refl, refl, (refs, bytes, er, refl, eb, refl, refl))

  -- A build that returns adds one bundle, of the tenant of that slug.
  pub build-Composed :
      (p : Principal) (environment slug : String) (now : ℤ) (ds : List Detector) (reg : Registry)
      (bundles : List Bundle) (out : List Bundle × Bundle)
      → build py max_age row_order p environment slug now ds reg bundles ≡ ok out
      → (t : Tenant) × (get_tenant slug reg ≡ ok t)
        × (out.0 ≡ bundles ++ out.1 ∷ [])
        × Composed t environment now ds reg.policies bundles out.1
  unfolding build
  build-Composed p environment slug now ds reg bundles out e =
      let (caller, _, e1) = >>=-eq-ok (require_role (Role.approver ∷ Role.admin ∷ []) p) _ e in
      let (t, et, e2) = >>=-eq-ok (get_tenant slug reg) _ e1 in
      let (b, eb, e3) =
        >>=-eq-ok (build_bundle py max_age row_order t environment now ds reg.policies bundles) _
          e2 in
      subst_ok
        (λ q.
          (u : Tenant) × (get_tenant slug reg ≡ ok u)
          × (q.0 ≡ bundles ++ q.1 ∷ [])
          × Composed u environment now ds reg.policies bundles q.1)
        e3 (t, et, refl, build_bundle-Composed t environment now ds reg.policies bundles b eb)

  -- After a build that returns, the number of the new bundle is above that of every earlier bundle
  -- of the tenant and the environment, and a pull of a caller that is behind that number returns
  -- the new bundle.
  pub pull-build :
      (p : Principal) (environment slug : String) (now : ℤ) (ds : List Detector) (reg : Registry)
      (bundles : List Bundle) (out : List Bundle × Bundle) (since : ℕ)
      → build py max_age row_order p environment slug now ds reg bundles ≡ ok out
      → since < out.1.bundle_seq
      → All (IsBelow out.1.tenant_id environment out.1.bundle_seq) bundles
        × (pull environment slug since reg out.0 ≡ ok (some out.1))
  unfolding pull
  pull-build p environment slug now ds reg bundles out since e l =
      let (t, et, grown, c) = build-Composed p environment slug now ds reg bundles out e in
      let (scoped, _, tid, env, seq, _) = c in
      let below : All (IsBelow t.id environment out.1.bundle_seq) bundles =
        last_seq-IsBelow t.id environment bundles out.1.bundle_seq (omega (arith, seq)) in
      let new : is_bundle_of t.id environment out.1 ≡ true =
        rw (tid, env, eq_refl t.id, eq_refl environment) in
      (
        rw tid below,
        rw (et, grown, newest-snoc t.id environment bundles out.1 new below) (ground arith),
      )
