-- ===== src/Policy/Registry.antt =====
-- models/policy.py, models/tenant.py: the rows of the registry; and the queries of
-- api/policies.py. A table is the list of its rows in the order of insertion.
use guard_x.Common.{String, Bool, ◌&&◌, Option, none, some, List, [], ◌∷◌, str_eq, if◌then◌else◌}
use guard_x.Common.Int.{ℤ}
use guard_x.Common.Json.{Json}
use guard_x.Common.Result.{Result, http, or_raise}

-- `PolicyStatus`
pub data PolicyStatus : Type 0 where
  draft in_review approved deprecated revoked : PolicyStatus

-- `PolicyOrigin`
pub data PolicyOrigin : Type 0 where
  manual feed synthesizer autotuner : PolicyOrigin

-- `AuditAction`
pub data AuditAction : Type 0 where
  created submitted approved rejected promoted revoked deprecated : AuditAction

-- The `value` of a status.
abbrev pub status_value : PolicyStatus → String
status_value PolicyStatus.draft = "draft"
status_value PolicyStatus.in_review = "in_review"
status_value PolicyStatus.approved = "approved"
status_value PolicyStatus.deprecated = "deprecated"
status_value PolicyStatus.revoked = "revoked"

-- The `value` of an origin.
abbrev pub origin_value : PolicyOrigin → String
origin_value PolicyOrigin.manual = "manual"
origin_value PolicyOrigin.feed = "feed"
origin_value PolicyOrigin.synthesizer = "synthesizer"
origin_value PolicyOrigin.autotuner = "autotuner"

-- `Tenant`
pub record Tenant : Type 0 where
  pub id : String
  pub slug : String

-- `Policy`; `parent_version` is never written.
pub record PolicyRow : Type 0 where
  pub tenant_id : String
  pub policy_id : String
  pub version : String
  pub status : PolicyStatus
  pub document : Json
  pub document_hash : String
  pub origin : PolicyOrigin
  pub origin_ref : Option Json
  pub created_by : String
  pub created_at : ℤ
  pub approved_by : Option String
  pub approved_at : Option ℤ
  pub change_class : Option String
  pub auto_approval_rule : Option String

-- `PolicyAudit`, without its time.
pub record PolicyAudit : Type 0 where
  pub tenant_id : String
  pub policy_id : String
  pub version : String
  pub action : AuditAction
  pub actor : String
  pub note : Option String

pub record Registry : Type 0 where
  pub tenants : List Tenant
  pub policies : List PolicyRow
  pub audits : List PolicyAudit

-- The primary key of a policy.
abbrev pub has_key : String → String → String → PolicyRow → Bool
has_key tid pid ver r = str_eq r.tenant_id tid && str_eq r.policy_id pid && str_eq r.version ver

unfoldable pub find_tenant : String → List Tenant → Option Tenant
find_tenant slug [] = none
find_tenant slug (t ∷ ts) = if str_eq t.slug slug then some t else find_tenant slug ts

unfoldable pub find_policy : String → String → String → List PolicyRow → Option PolicyRow
find_policy tid pid ver [] = none
find_policy tid pid ver (r ∷ rs) =
    if has_key tid pid ver r then some r else find_policy tid pid ver rs

-- `_get_tenant`
unfoldable pub get_tenant : String → Registry → Result Tenant
unfolding find_tenant
get_tenant slug reg = or_raise (find_tenant slug reg.tenants) (http 404)

-- `_get_policy`
unfoldable pub get_policy : Tenant → String → String → Registry → Result PolicyRow
get_policy t pid ver reg = or_raise (find_policy t.id pid ver reg.policies) (http 404)

-- The UPDATE of a loaded row at commit.
unfoldable pub update_row : PolicyRow → List PolicyRow → List PolicyRow
update_row n [] = []
update_row n (r ∷ rs) =
    if has_key n.tenant_id n.policy_id n.version r then n ∷ rs else r ∷ update_row n rs
