-- ===== src/Policy/Lifecycle.antt =====
-- api/policies.py: the routes that create, submit, approve, reject and revoke a policy version,
-- the proposals of the automation plane, and the bootstrap of tenants. A call that raises leaves
-- the registry as it was.
use guard_x.Linter.Document.{as_text}
use guard_x.Common.{
  String, Bool, true, false, not, ◌&&◌, ◌||◌, Option, none, some, List, [], ◌∷◌, ◌++◌, filter,
  is_some, or_else, str_eq, if◌then◌else◌,
}
use guard_x.Common.Int.{ℤ, ltb_ℤ}
use guard_x.Common.Sort.{sort_by}
use guard_x.Common.Text.{◌<>◌}
use guard_x.Common.Json.{Json, str, get, truthy}
use guard_x.Common.Result.{Result, ok, err, http, raise_if, or_raise, ◌>>=◌, ◌>>◌}
use guard_x.Platform.{Platform}
use guard_x.Auth.Role.{Role, Principal, is_role, require_role}
use guard_x.Linter.Document.{get_key}
use guard_x.Linter.Rules.{LinterIssue, has_error, lint_policy}
use guard_x.Policy.Registry.{
  PolicyStatus, PolicyOrigin, AuditAction, Tenant, PolicyRow, PolicyAudit, Registry, status_value,
  find_tenant, get_tenant, get_policy, update_row,
}
use guard_x.Policy.Insert.{set_item, audit_entry, insert_policy, add_row}

-- `a == b` on statuses.
abbrev pub is_status : PolicyStatus → PolicyStatus → Bool
is_status PolicyStatus.draft PolicyStatus.draft = true
is_status PolicyStatus.in_review PolicyStatus.in_review = true
is_status PolicyStatus.approved PolicyStatus.approved = true
is_status PolicyStatus.deprecated PolicyStatus.deprecated = true
is_status PolicyStatus.revoked PolicyStatus.revoked = true
is_status _ _ = false

-- `document["metadata"][k] = v`
unfoldable pub set_meta : String → Json → Json → Result Json
set_meta k v document = do
  m ← get_key "metadata" document
  m' ← set_item k v m
  set_item "metadata" m' document

-- The row with its changed document and its audit entry, in the registry.
abbrev pub commit_row : PolicyRow → PolicyAudit → Registry → Registry
commit_row row entry reg = record reg {
  policies = update_row row reg.policies;
  audits = reg.audits ++ entry ∷ [];
}

-- `PolicyOrigin(body.origin)`
abbrev pub parse_origin : String → Option PolicyOrigin
parse_origin s =
    if str_eq s "manual"
    then some PolicyOrigin.manual
    else if str_eq s "feed"
    then some PolicyOrigin.feed
    else if str_eq s "synthesizer"
    then some PolicyOrigin.synthesizer
    else if str_eq s "autotuner"
    then some PolicyOrigin.autotuner
    else none

abbrev pub is_manual : PolicyOrigin → Bool
is_manual PolicyOrigin.manual = true
is_manual _ = false

-- The only rule of `_AUTO_APPROVAL_RULES`.
abbrev pub rule_aa1 : String
rule_aa1 = "AA-1: origin=feed AND change_class=monotonic_add"

-- `_AUTO_APPROVAL_RULES.get((origin.value, change_class))`
abbrev pub auto_approval_rule_of : PolicyOrigin → String → Option String
auto_approval_rule_of PolicyOrigin.feed change_class =
    if str_eq change_class "monotonic_add" then some rule_aa1 else none
auto_approval_rule_of _ change_class = none

-- f"system:{rule_id.split(':', 1)[0]}", for that rule.
abbrev pub system_approver : String
system_approver = "system:AA-1"

-- `ProposalIn`
pub record ProposalIn : Type 0 where
  pub document : Json
  pub origin : String
  pub origin_ref : Json
  pub change_class : Option String

-- Where a route has an optional query parameter `version`.
abbrev pub version_matches : Option String → PolicyRow → Bool
version_matches none r = true
version_matches (some v) r = if str_eq v "" then true else str_eq r.version v

abbrev pub newer : PolicyRow → PolicyRow → Bool
newer r s = ltb_ℤ s.created_at r.created_at

-- `list_versions`
unfoldable pub list_versions : String → Option String → String → Registry → Result (List PolicyRow)
unfolding get_tenant
list_versions pid version slug reg = do
  t ← get_tenant slug reg
  let rows = sort_by newer (
      filter (λ r. str_eq r.tenant_id t.id && str_eq r.policy_id pid && version_matches version r)
        reg.policies)
  elim rows [ [] ↦ err (http 404) | r ∷ rs ↦ ok (r ∷ rs) ]

-- `create_tenant`; the id is fresh.
unfoldable pub create_tenant : Principal → String → Json → Registry → Result (Registry × Tenant)
unfolding require_role find_tenant
create_tenant p id body reg = do
  caller ← require_role (Role.admin ∷ []) p
  v ← get "slug" body
  raise_if (not (truthy v)) (http 422)
  slug ← as_text v
  raise_if (is_some (find_tenant slug reg.tenants)) (http 409)
  let t : Tenant = record { id = id; slug = slug }
  ok (record reg { tenants = reg.tenants ++ t ∷ [] }, t)

module _ (py : Platform) where
  -- `create_policy`
  unfoldable pub create_policy :
      Principal → String → Json → ℤ → Registry → Result (Registry × (PolicyRow × List LinterIssue))
  unfolding require_role get_tenant insert_policy
  create_policy p slug document now reg = do
    caller ← require_role (Role.author ∷ Role.admin ∷ []) p
    issues ← lint_policy py document
    raise_if (has_error issues) (http 422)
    t ← get_tenant slug reg
    s ← insert_policy py t document p.subject PolicyOrigin.manual none now reg
    ok (add_row s.0 s.1, (s.0, issues))

  -- `submit_policy`
  unfoldable pub submit_policy :
      Principal
      → String
      → String
      → String
      → Option String
      → Registry
      → Result (Registry × PolicyRow)
  unfolding require_role get_tenant get_policy set_meta
  submit_policy p slug pid ver note reg = do
    caller ← require_role (Role.author ∷ Role.admin ∷ []) p
    t ← get_tenant slug reg
    row ← get_policy t pid ver reg
    raise_if (not (is_status row.status PolicyStatus.draft)) (http 409)
    d ← set_meta "status" (str (status_value PolicyStatus.in_review)) row.document
    let row' = record row {
      status = PolicyStatus.in_review;
      document = py.commit_in_place row.document d;
    }
    ok (commit_row row' (audit_entry row' AuditAction.submitted p.subject note) reg, row')

  -- `approve_policy`
  unfoldable pub approve_policy :
      Principal
      → String
      → String
      → String
      → Option String
      → ℤ
      → Registry
      → Result (Registry × PolicyRow)
  unfolding require_role get_tenant get_policy set_meta
  approve_policy p slug pid ver note now reg = do
    caller ← require_role (Role.approver ∷ Role.admin ∷ []) p
    t ← get_tenant slug reg
    row ← get_policy t pid ver reg
    raise_if (not (is_status row.status PolicyStatus.in_review)) (http 409)
    raise_if (str_eq row.created_by p.subject && not (is_role p.role Role.admin)) (http 403)
    d1 ← set_meta "status" (str (status_value PolicyStatus.approved)) row.document
    d2 ← set_meta "approved_by" (str p.subject) d1
    d3 ← set_meta "approved_at" (str (py.isoformat_utc now)) d2
    let row' = record row {
      status = PolicyStatus.approved;
      approved_by = some p.subject;
      approved_at = some now;
      document = py.commit_in_place row.document d3;
    }
    ok (commit_row row' (audit_entry row' AuditAction.approved p.subject note) reg, row')

  -- `reject_policy`
  unfoldable pub reject_policy :
      Principal
      → String
      → String
      → String
      → Option String
      → Registry
      → Result (Registry × PolicyRow)
  unfolding require_role get_tenant get_policy set_meta
  reject_policy p slug pid ver note reg = do
    caller ← require_role (Role.reviewer ∷ Role.approver ∷ Role.admin ∷ []) p
    t ← get_tenant slug reg
    row ← get_policy t pid ver reg
    raise_if (not (is_status row.status PolicyStatus.in_review)) (http 409)
    d ← set_meta "status" (str (status_value PolicyStatus.draft)) row.document
    let row' = record row {
      status = PolicyStatus.draft;
      document = py.commit_in_place row.document d;
    }
    ok (commit_row row' (audit_entry row' AuditAction.rejected p.subject note) reg, row')

  -- `revoke_policy`
  unfoldable pub revoke_policy :
      Principal
      → String
      → String
      → String
      → Option String
      → Registry
      → Result (Registry × PolicyRow)
  unfolding require_role get_tenant get_policy set_meta
  revoke_policy p slug pid ver note reg = do
    caller ← require_role (Role.approver ∷ Role.admin ∷ []) p
    t ← get_tenant slug reg
    row ← get_policy t pid ver reg
    raise_if
        (not (
          is_status row.status PolicyStatus.approved
          || is_status row.status PolicyStatus.deprecated))
        (http 409)
    d ← set_meta "status" (str (status_value PolicyStatus.revoked)) row.document
    let row' = record row {
      status = PolicyStatus.revoked;
      document = py.commit_in_place row.document d;
    }
    ok (commit_row row' (audit_entry row' AuditAction.revoked p.subject note) reg, row')

  -- What `submit_proposal` does to a row that a rule approves. The row is new, so the INSERT takes
  -- its document as it is at commit.
  unfoldable pub auto_approve : String → ℤ → PolicyRow → Result PolicyRow
  unfolding set_meta
  auto_approve rule now row = do
    d1 ← set_meta "status" (str (status_value PolicyStatus.approved)) row.document
    d2 ← set_meta "approved_by" (str system_approver) d1
    d3 ← set_meta "approved_at" (str (py.isoformat_utc now)) d2
    d4 ← set_meta "auto_approval_rule" (str rule) d3
    ok (record row {
      status = PolicyStatus.approved;
      approved_by = some system_approver;
      approved_at = some now;
      auto_approval_rule = some rule;
      document = d4;
    })

  unfoldable pub land :
      Option String → ℤ → PolicyRow → Registry → Result (Registry × (PolicyRow × Bool))
  unfolding auto_approve
  land none now row reg = ok (add_row row reg, (row, false))
  land (some rule) now row reg = do
    row' ← auto_approve rule now row
    let entry =
        audit_entry row' AuditAction.approved system_approver (some ("auto-approved: " <> rule))
    ok (record (add_row row' reg) { audits = reg.audits ++ entry ∷ [] }, (row', true))

  -- `submit_proposal`
  unfoldable pub submit_proposal :
      Principal → String → ProposalIn → ℤ → Registry → Result (Registry × (PolicyRow × Bool))
  unfolding require_role get_tenant insert_policy land
  submit_proposal p slug body now reg = do
    caller ← require_role (Role.service ∷ Role.admin ∷ []) p
    origin ← or_raise (parse_origin body.origin) (http 422)
    raise_if (is_manual origin) (http 422)
    issues ← lint_policy py body.document
    raise_if (has_error issues) (http 422)
    t ← get_tenant slug reg
    s ← insert_policy py t body.document p.subject origin (some body.origin_ref) now reg
    let row = record s.0 { change_class = body.change_class }
    land (auto_approval_rule_of origin (or_else body.change_class "")) now row s.1
