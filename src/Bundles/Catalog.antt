-- ===== src/Bundles/Catalog.antt =====
-- models/detector.py and api/detectors.py: the catalog of detectors.
use guard_x.Common.{
  ◌≡◌, refl, arith, eq_refl, String, Bool, false, ◌&&◌, ◌||◌, Option, none, some, List, [], ◌∷◌,
  ◌++◌, is_some, str_eq, if◌then◌else◌,
}
use guard_x.Common.Text.{text_lt}
use guard_x.Common.Sort.{sort_by}
use guard_x.Common.Json.{Json}
use guard_x.Common.Result.{
  Result, ok, http, raise_if, ◌>>=◌, ◌>>◌, >>=-eq-ok, raise_if-eq-ok, subst_ok,
}
use guard_x.Auth.Role.{Role, Principal, require_role}

-- `Detector`
pub record Detector : Type 0 where
  pub detector_id : String
  pub version : String
  pub scenario : String
  pub image_digest : String
  pub config_schema : Json
  pub benchmark : Option Json

-- `DetectorIn` and `DetectorOut` have the fields of the row.
abbrev pub DetectorIn : Type 0
DetectorIn = Detector

-- `db.get(Detector, (id, version))`
unfoldable pub find_detector : String → String → List Detector → Option Detector
find_detector i v [] = none
find_detector i v (d ∷ ds) =
    if str_eq d.detector_id i && str_eq d.version v then some d else find_detector i v ds

-- `order_by(detector_id, version)`
abbrev pub before : Detector → Detector → Bool
before c d =
    text_lt c.detector_id d.detector_id
    || (str_eq c.detector_id d.detector_id && text_lt c.version d.version)

-- `list_detectors`
unfoldable pub list_detectors : List Detector → List Detector
list_detectors ds = sort_by before ds

-- `register_detector`
unfoldable pub register_detector :
    Principal → DetectorIn → List Detector → Result (List Detector × Detector)
unfolding require_role find_detector
register_detector p body ds = do
  caller ← require_role (Role.admin ∷ []) p
  raise_if (is_some (find_detector body.detector_id body.version ds)) (http 409)
  ok (ds ++ body ∷ [], body)

find_detector-snoc :
    (d : Detector) (ds : List Detector)
    → find_detector d.detector_id d.version ds ≡ none
    → find_detector d.detector_id d.version (ds ++ d ∷ []) ≡ some d
unfolding find_detector
find_detector-snoc d [] h = ground (arith, eq_refl d.detector_id, eq_refl d.version)
find_detector-snoc d (c ∷ ds) h = ground (arith, find_detector-snoc d ds)

is_some-false : (o : Option Detector) → is_some o ≡ false → o ≡ none
is_some-false none h = refl
is_some-false (some d) h = cc

-- A registration that returns has put the detector under a key that was free, where it is found.
pub find_detector-register_detector :
    (p : Principal) (body : Detector) (ds : List Detector) (out : List Detector × Detector)
    → register_detector p body ds ≡ ok out
    → (find_detector body.detector_id body.version ds ≡ none)
      × (find_detector body.detector_id body.version out.0 ≡ some body)
unfolding register_detector
find_detector-register_detector p body ds out e =
    let (caller, _, e1) = >>=-eq-ok (require_role (Role.admin ∷ []) p) _ e in
    let (f, e2) =
      raise_if-eq-ok (is_some (find_detector body.detector_id body.version ds)) (http 409) _ e1 in
    let free = is_some-false (find_detector body.detector_id body.version ds) f in
    subst_ok
      (λ q.
        (find_detector body.detector_id body.version ds ≡ none)
        × (find_detector body.detector_id body.version q.0 ≡ some body))
      e2 (free, find_detector-snoc body ds free)
