-- ===== src/Policy/Insert.antt =====
-- api/policies.py: `_insert_policy` and `_audit`.
use guard_x.Linter.Document.{as_text}
use guard_x.Common.{String, not, ◌||◌, Option, none, [], ◌∷◌, ◌++◌, is_some}
use guard_x.Common.Int.{ℤ}
use guard_x.Common.Json.{Json, str, obj, end, get, put, or_json, truthy, is_null, is_str}
use guard_x.Common.Result.{Result, ok, err, http, type_error, raise_if, ◌>>=◌, ◌>>◌}
use guard_x.Platform.{Platform}
use guard_x.Signing.Canonical.{canonical_json}
use guard_x.Policy.Registry.{
  PolicyStatus, PolicyOrigin, AuditAction, Tenant, PolicyRow, PolicyAudit, Registry, status_value,
  origin_value, find_policy,
}

-- `v[k] = w`
abbrev pub set_item : String → Json → Json → Result Json
set_item k w (obj fs) = ok (obj (put k w fs))
set_item k w _ = err type_error

-- `_audit`
abbrev pub audit_entry : PolicyRow → AuditAction → String → Option String → PolicyAudit
audit_entry r action actor note = record {
  tenant_id = r.tenant_id;
  policy_id = r.policy_id;
  version = r.version;
  action = action;
  actor = actor;
  note = note;
}

-- The document with the metadata that the registry fills in.
unfoldable pub stamp : Tenant → String → PolicyOrigin → Json → Json → Result Json
stamp t created_by origin meta document = do
  m1 ← set_item "tenant" (str t.slug) meta
  m2 ← set_item "status" (str (status_value PolicyStatus.draft)) m1
  m3 ← set_item "created_by" (str created_by) m2
  m4 ← set_item "origin" (str (origin_value origin)) m3
  set_item "metadata" m4 document

module _ (py : Platform) where
  -- The hash of a document's canonical bytes.
  unfoldable pub document_hash : Json → Result String
  document_hash document = do
    bytes ← canonical_json py.float_repr document
    ok (py.sha256_hex bytes)

  abbrev pub new_row :
      Tenant → String → String → Json → String → String → PolicyOrigin → Option Json → ℤ → PolicyRow
  new_row t pid ver document hash created_by origin origin_ref now = record {
    tenant_id = t.id;
    policy_id = pid;
    version = ver;
    status = PolicyStatus.draft;
    document = document;
    document_hash = hash;
    origin = origin;
    origin_ref = origin_ref;
    created_by = created_by;
    created_at = now;
    approved_by = none;
    approved_at = none;
    change_class = none;
    auto_approval_rule = none;
  }

  -- `_insert_policy`: the new row, and the registry with its CREATED audit entry. The row itself is
  -- added by `add_row` when the caller has finished with it, as the session flushes it at commit.
  unfoldable pub insert_policy :
      Tenant
      → Json
      → String
      → PolicyOrigin
      → Option Json
      → ℤ
      → Registry
      → Result (PolicyRow × Registry)
  unfolding stamp document_hash find_policy
  insert_policy t document created_by origin origin_ref now reg = do
    m ← get "metadata" document
    let meta = or_json m (obj end)
    pid ← get "id" meta
    ver ← get "version" meta
    raise_if (not (truthy pid) || not (truthy ver)) (http 422)
    owner ← get "tenant" meta
    raise_if (not (is_null owner || is_str owner t.slug)) (http 422)
    stamped ← stamp t created_by origin meta document
    hash ← document_hash stamped
    pid' ← as_text pid
    ver' ← as_text ver
    raise_if (is_some (find_policy t.id pid' ver' reg.policies)) (http 409)
    let row = new_row t pid' ver' stamped hash created_by origin origin_ref now
    ok (
      row,
      record reg {
        audits = reg.audits ++ audit_entry row AuditAction.created created_by none ∷ [];
      },
    )

-- The INSERT of the new row at commit.
abbrev pub add_row : PolicyRow → Registry → Registry
add_row r reg = record reg { policies = reg.policies ++ r ∷ [] }
