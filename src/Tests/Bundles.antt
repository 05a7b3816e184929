-- ===== src/Tests/Bundles.antt =====
-- A detector registered, and a bundle built and pulled.
use guard_x.Common.{◌≡◌, refl, String, none, some, List, [], ◌∷◌, All, arith, map}
use guard_x.Common.Int.{pos}
use guard_x.Common.Json.{str, arr, obj, of_list, of_entries, get, end}
use guard_x.Common.Text.{contains}
use guard_x.Common.Result.{ok}
use guard_x.Signing.Canonical.{canonical_json}
use guard_x.Auth.Role.{Role, Principal}
use guard_x.Policy.Registry.{PolicyStatus, PolicyOrigin, Tenant, PolicyRow, Registry, get_tenant}
use guard_x.Bundles.Catalog.{
  Detector, find_detector, register_detector, find_detector-register_detector,
}
use guard_x.Bundles.Builder.{Bundle, build, pull, policy_entry}
use guard_x.Bundles.Sequence.{IsBelow, pull-build}
use guard_x.Bundles.Scope.{InScope, ReturnsSelected, build-InScope}
use guard_x.Tests.Setup.{py, value_or, bob}

abbrev root : Principal
root = record { subject = "root"; role = Role.admin }

abbrev detector : String → Detector
detector v = record {
  detector_id = "pii";
  version = v;
  scenario = "pii";
  image_digest = "sha256:d1";
  config_schema = obj end;
  benchmark = none;
}

abbrev old : List Detector
old = detector "1.0.0" ∷ []

abbrev catalog : List Detector × Detector
catalog = (detector "1.0.0" ∷ detector "1.1.0" ∷ [], detector "1.1.0")

registered : register_detector root (detector "1.1.0") old ≡ ok catalog
unfolding register_detector
registered = refl

find_detector-register_detector_example :
    (find_detector "pii" "1.1.0" old ≡ none)
    × (find_detector "pii" "1.1.0" catalog.0 ≡ some (detector "1.1.0"))
find_detector-register_detector_example =
    find_detector-register_detector root (detector "1.1.0") old catalog registered

abbrev row : PolicyRow
row = record {
  tenant_id = "t1";
  policy_id = "p1";
  version = "1.0.0";
  status = PolicyStatus.approved;
  document = obj (
      of_entries (
        (
          "spec",
          obj (
              of_entries (
                (
                  "applies_to",
                  obj (of_entries (("environments", arr (of_list (str "prod" ∷ []))) ∷ [])),
                )
                ∷ (
                  "guards",
                  arr (of_list (obj (of_entries (("detector", str "pii@1.0.0") ∷ [])) ∷ [])),
                )
                ∷ [])),
        )
        ∷ []));
  document_hash = "a1";
  origin = PolicyOrigin.manual;
  origin_ref = none;
  created_by = "alice";
  created_at = pos 0;
  approved_by = some "bob";
  approved_at = some (pos 0);
  change_class = none;
  auto_approval_rule = none;
}

abbrev registry : Registry
registry = record {
  tenants = record { id = "t1"; slug = "acme" } ∷ [];
  policies = row ∷ [];
  audits = [];
}

abbrev in_order : List PolicyRow → List PolicyRow
in_order rs = rs

in_order-ReturnsSelected : ReturnsSelected in_order
in_order-ReturnsSelected P rs h = h

abbrev no_bundle : Bundle
no_bundle = record {
  tenant_id = "";
  environment = "";
  bundle_seq = 0;
  manifest = obj end;
  manifest_hash = "";
  signature = "";
  signing_key_id = "";
  created_at = pos 0;
}

unfoldable built : List Bundle × Bundle
unfolding build
built =
    value_or ([], no_bundle) (build py (pos 24) in_order bob "prod" "acme" (pos 0) old registry [])

built_lem : build py (pos 24) in_order bob "prod" "acme" (pos 0) old registry [] ≡ ok built
unfolding build built canonical_json contains
built_lem = refl

first_number : built.1.bundle_seq ≡ 1
unfolding built build canonical_json contains
first_number = refl

build-InScope_example :
    (t : Tenant) × (scoped : List PolicyRow) × (get_tenant "acme" registry ≡ ok t)
    × (get "policies" built.1.manifest ≡ ok (arr (of_list (map policy_entry scoped))))
    × All (InScope t.id "prod" (row ∷ [])) scoped
build-InScope_example =
    build-InScope py (pos 24) in_order bob "prod" "acme" (pos 0) old registry [] built
      in_order-ReturnsSelected built_lem

pull-build_example :
    All (IsBelow built.1.tenant_id "prod" built.1.bundle_seq) []
    × (pull "prod" "acme" 0 registry built.0 ≡ ok (some built.1))
pull-build_example =
    pull-build py (pos 24) in_order bob "prod" "acme" (pos 0) old registry [] built 0 built_lem
      (omega (arith, first_number))
