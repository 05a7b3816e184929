-- ===== src/Automation/Ingestor.antt =====
-- feeds/gitleaks.py: the run of the ingestor. A ruleset that cannot be read or parsed is an error of
-- `fetched`; `submit` is the control plane's answer to a document with its class of change, its origin
-- and its note.
use Prim.Native.String
use guard_x.Common.{
  String, Bool, true, false, Option, none, some, List, [], ◌∷◌, any, length, ◌==◌, if◌then◌else◌,
}
use guard_x.Common.Int.{ℤ, pos, ◌+ℤ◌}
use guard_x.Common.Json.{
  Json, Fields, int, str, arr, obj, nil, end, field, get, put, pop, of_list, or_json, truthy,
  is_str,
}
use guard_x.Common.Result.{Result, ok, err, attribute_error, type_error, ◌>>=◌}
use guard_x.Common.Text.{◌<>◌, dec, split_all}
use guard_x.Platform.{Platform}
use guard_x.Linter.Document.{get_key, section, iterate}
use guard_x.Signing.Canonical.{dump_int}
use guard_x.Automation.Gitleaks.{ruleset_of, is_secrets, check_guards, extend_guards}

-- `GitleaksProposal`
pub record GitleaksProposal : Type 0 where
  pub added_rule_ids : List Json
  pub submitted : Bool
  pub proposal : Option Json
  pub reason : String

abbrev not_submitted : String → GitleaksProposal
not_submitted reason = record {
  added_rule_ids = [];
  submitted = false;
  proposal = none;
  reason = reason;
}

-- `_bump_patch`
unfoldable pub bump_patch : Platform → String → String
unfolding split_all dump_int ◌+ℤ◌
bump_patch py semver = elim (split_all 46 semver) [
  | major ∷ minor ∷ patch ∷ [] ↦ elim (py.int_of_text patch) [
    | some n ↦ major <> "." <> minor <> "." <> dump_int (n +ℤ pos 1)
    | none ↦ semver <> ".1"
  ]
  | _ ↦ semver <> ".1"
]

-- The first approved version.
unfoldable pub first_approved : List Json → Result (Option Json)
first_approved [] = ok none
first_approved (v ∷ vs) =
    get_key "status" v >>= λ s. if is_str s "approved" then ok (some v) else first_approved vs

-- A document of the registry is a dict.
abbrev pub as_document : Json → Result Fields
as_document (obj fs) = ok fs
as_document _ = err attribute_error

-- The document with such guards.
abbrev pub with_guards : Fields → List Json → Result Fields
with_guards doc guards = get "spec" (obj doc) >>= λ spec. elim spec [
  | obj fs ↦ ok (put "spec" (obj (put "guards" (arr (of_list guards)) fs)) doc)
  | _ ↦ err attribute_error
]

-- The metadata of the new version.
abbrev pub draft_metadata : Platform → String → Json → Json → Result Json
draft_metadata py origin parent (obj md) = get_key "version" (obj md) >>= λ v. elim v [
  | str version ↦
      let md1 = put "version" (str (bump_patch py version)) md in
      let md2 = put "parent_version" parent md1 in
      let md3 = put "origin" (str origin) (put "status" (str "draft") md2) in
      ok (obj (pop "auto_approval_rule" (pop "approved_at" (pop "approved_by" md3))))
  | _ ↦ err attribute_error
]
draft_metadata py origin parent md = err type_error

module _ (py : Platform) (json_dumps : Json → Result String) where
  abbrev hash16 : Json → Result String
  hash16 v = json_dumps v >>= λ text. ok (String.slice (py.sha256_hex text) 0 16)

  -- `_rule_signature`
  abbrev pub rule_signature : Json → Result String
  rule_signature rule = get "id" rule >>= λ i.
      get "regex" rule >>= λ x. hash16 (obj (field "id" i (field "regex" x end)))

  unfoldable pub rule_signatures : List Json → Result (List Json)
  rule_signatures [] = ok []
  rule_signatures (r ∷ rs) = rule_signature r >>= λ s. rule_signatures rs >>= λ ss. ok (str s ∷ ss)

  -- `_hash_source`
  unfoldable pub hash_source : List Json → Result String
  unfolding rule_signatures
  hash_source rules = rule_signatures rules >>= λ ss. hash16 (arr (of_list ss))

  module _ (submit : Json → String → Json → String → Result Json) (source : String) (now : ℤ) where
    abbrev pub change_class_of : Bool → String
    change_class_of scope = if scope then "scope_change" else "monotonic_add"

    -- The document that is proposed.
    unfoldable pub proposed : Fields → Json → List Json → Result Json
    unfolding bump_patch
    proposed doc approved guards = with_guards doc guards >>= λ fs.
        get_key "metadata" (obj fs) >>= λ md. get_key "version" approved >>= λ parent.
        draft_metadata py "feed" parent md >>= λ md'. ok (obj (put "metadata" md' fs))

    -- What follows the loop over the guards.
    unfoldable pub propose :
        Fields → Json → List Json → List Json → List Json → Bool → Result GitleaksProposal
    unfolding proposed hash_source
    propose doc approved rules guards added scope = proposed doc approved guards >>= λ document.
        hash_source rules >>= λ h.
        let change_class = change_class_of scope in
        let count = dec (length added) in
        let origin_ref = obj (
          field "feed" (str "gitleaks") (
            field "source" (str source) (
              field "ruleset_hash" (str h)
                (field "added_rule_ids" (arr (of_list added)) (field "ts" (int now) end))))) in
        submit document change_class origin_ref
          ("gitleaks: +" <> count <> " rules (" <> change_class <> ")")
        >>= λ result. get "auto_approved" result >>= λ auto. ok (record {
          added_rule_ids = added;
          submitted = true;
          proposal = some result;
          reason =
              "submitted "
              <> change_class
              <> " proposal with "
              <> count
              <> " new rules; "
              <> (if truthy auto then "auto-approved" else "awaiting human review");
        })

    unfoldable pub extend_policy : List Json → Fields → Json → Result GitleaksProposal
    unfolding extend_guards propose check_guards
    extend_policy rules doc approved = section "spec" (obj doc) >>= λ spec.
        get "guards" spec >>= λ found. iterate (or_json found (arr nil)) >>= λ guards.
        check_guards guards >>= λ u.
        if any is_secrets guards
        then (extend_guards rules guards >>= λ (extended, added, scope).
            if length added == 0
            then ok (not_submitted "ruleset offers no new rule ids for this tenant")
            else propose doc approved rules extended added scope)
        else ok (not_submitted "policy has no secrets guard — nothing to extend")

    -- `run_gitleaks_ingestor`, with the versions that the registry has of the policy.
    unfoldable pub run_gitleaks_ingestor :
        Result Json → List Json → String → Result GitleaksProposal
    unfolding first_approved extend_policy
    run_gitleaks_ingestor fetched versions policy_id = fetched >>= ruleset_of >>= λ rules.
        first_approved versions >>= λ approved. elim approved [
          | none ↦ ok (
              not_submitted
                ("no approved version of " <> py.repr (str policy_id) <> " — nothing to extend"))
          | some v ↦ get_key "document" v >>= as_document >>= λ doc. extend_policy rules doc v
        ]
