-- ===== src/Policy/Creation.antt =====
-- api/policies.py: `_insert_policy` and `create_policy` keep the registry lawful.
use guard_x.Linter.Document.{as_text}
use guard_x.Common.{
  All-snoc, ◌≡◌, refl, ap, inl, String, false, not, ◌||◌, Option, none, some, List, [], ◌∷◌, ◌++◌,
  is_some,
}
use guard_x.Common.Int.{ℤ}
use guard_x.Common.Json.{Json, obj, end, get, or_json, truthy, is_null, is_str}
use guard_x.Common.Result.{ok, http, >>=-eq-ok, subst_ok, raise_if-eq-ok}
use guard_x.Platform.{Platform}
use guard_x.Auth.Role.{Role, Principal, require_role}
use guard_x.Linter.Rules.{LinterIssue, has_error, lint_policy}
use guard_x.Policy.Registry.{
  PolicyStatus, PolicyOrigin, AuditAction, Tenant, PolicyRow, PolicyAudit, Registry, find_policy,
  get_tenant,
}
use guard_x.Policy.Insert.{audit_entry, insert_policy, stamp, document_hash}
use guard_x.Policy.Lifecycle.{create_policy}
use guard_x.Policy.Rows.{IsUnique-snoc}
use guard_x.Policy.Lawful.{IsLawful, RowLaw, rows-append}

-- What `insert_policy` returns: a draft under a free key, and a registry that differs in one
-- audit entry.
pub record Inserted (t : Tenant) (by : String) (origin : PolicyOrigin) (reg : Registry)
    (out : PolicyRow × Registry) : Type 0 where
  pub status : out.0.status ≡ PolicyStatus.draft
  pub tenant : out.0.tenant_id ≡ t.id
  pub author : out.0.created_by ≡ by
  pub origin_kept : out.0.origin ≡ origin
  pub rule : out.0.auto_approval_rule ≡ none
  pub approver : out.0.approved_by ≡ none
  pub free : find_policy out.0.tenant_id out.0.policy_id out.0.version reg.policies ≡ none
  pub policies : out.1.policies ≡ reg.policies
  pub tenants : out.1.tenants ≡ reg.tenants
  pub audits : out.1.audits ≡ reg.audits ++ audit_entry out.0 AuditAction.created by none ∷ []

is_some-false : (o : Option PolicyRow) → is_some o ≡ false → o ≡ none
is_some-false none h = refl
is_some-false (some r) h = cc

-- The insertion of a row that is lawful with the audit entries of the call.
pub inserted-IsLawful :
    (row : PolicyRow) (reg : Registry) (more : List PolicyAudit) (ps : List PolicyRow)
    (log : List PolicyAudit) (ts : List Tenant)
    → ps ≡ reg.policies
    → log ≡ reg.audits ++ more
    → find_policy row.tenant_id row.policy_id row.version reg.policies ≡ none
    → RowLaw log row
    → IsLawful reg
    → IsLawful (record { tenants = ts; policies = ps ++ row ∷ []; audits = log })
inserted-IsLawful row reg more ps log ts ep el f l h = record {
  unique = rw ep (IsUnique-snoc reg.policies row h.unique f);
  rows = rw ep (
      All-snoc (RowLaw log) reg.policies row
        (rw el (rows-append reg.policies reg.audits more h.rows)) l);
}

module _ (py : Platform) where
  pub insert_policy-Inserted :
      (t : Tenant) (document : Json) (by : String) (origin : PolicyOrigin) (ref : Option Json)
      (now : ℤ) (reg : Registry) (out : PolicyRow × Registry)
      → insert_policy py t document by origin ref now reg ≡ ok out
      → Inserted t by origin reg out
  unfolding insert_policy
  insert_policy-Inserted t document by origin ref now reg out e =
      let (m, _, e1) = >>=-eq-ok (get "metadata" document) _ e in
      let meta = or_json m (obj end) in
      let (pid, _, e2) = >>=-eq-ok (get "id" meta) _ e1 in
      let (ver, _, e3) = >>=-eq-ok (get "version" meta) _ e2 in
      let (_, e4) = raise_if-eq-ok (not (truthy pid) || not (truthy ver)) (http 422) _ e3 in
      let (owner, _, e5) = >>=-eq-ok (get "tenant" meta) _ e4 in
      let (_, e6) = raise_if-eq-ok (not (is_null owner || is_str owner t.slug)) (http 422) _ e5 in
      let (stamped, _, e7) = >>=-eq-ok (stamp t by origin meta document) _ e6 in
      let (hash, _, e8) = >>=-eq-ok (document_hash py stamped) _ e7 in
      let (pid', _, e9) = >>=-eq-ok (as_text pid) _ e8 in
      let (ver', _, e10) = >>=-eq-ok (as_text ver) _ e9 in
      let (f, e11) =
        raise_if-eq-ok (is_some (find_policy t.id pid' ver' reg.policies)) (http 409) _ e10 in
      subst_ok (Inserted t by origin reg) e11 (record {
        status = refl;
        tenant = refl;
        author = refl;
        origin_kept = refl;
        rule = refl;
        approver = refl;
        free = is_some-false (find_policy t.id pid' ver' reg.policies) f;
        policies = refl;
        tenants = refl;
        audits = refl;
      })

  -- A creation that returns keeps a lawful registry lawful, and adds one draft by the caller, of manual
  -- origin, that linting found no error in.
  pub create_policy-IsLawful :
      (p : Principal) (slug : String) (document : Json) (now : ℤ) (reg : Registry)
      (out : Registry × (PolicyRow × List LinterIssue))
      → create_policy py p slug document now reg ≡ ok out
      → IsLawful reg
      → IsLawful out.0
        × (out.0.policies ≡ reg.policies ++ out.1.0 ∷ [])
        × (out.1.0.status ≡ PolicyStatus.draft)
        × (out.1.0.created_by ≡ p.subject)
        × (out.1.0.origin ≡ PolicyOrigin.manual)
        × (lint_policy py document ≡ ok out.1.1)
        × (has_error out.1.1 ≡ false)
  unfolding create_policy
  create_policy-IsLawful p slug document now reg out e h =
      let (_, _, e1) = >>=-eq-ok (require_role (Role.author ∷ Role.admin ∷ []) p) _ e in
      let (issues, ei, e2) = >>=-eq-ok (lint_policy py document) _ e1 in
      let (c, e3) = raise_if-eq-ok (has_error issues) (http 422) _ e2 in
      let (t, _, e4) = >>=-eq-ok (get_tenant slug reg) _ e3 in
      let (s, es, e5) =
        >>=-eq-ok (insert_policy py t document p.subject PolicyOrigin.manual none now reg) _ e4 in
      let i = insert_policy-Inserted t document p.subject PolicyOrigin.manual none now reg s es in
      subst_ok
        (λ q.
          IsLawful q.0
          × (q.0.policies ≡ reg.policies ++ q.1.0 ∷ [])
          × (q.1.0.status ≡ PolicyStatus.draft)
          × (q.1.0.created_by ≡ p.subject)
          × (q.1.0.origin ≡ PolicyOrigin.manual)
          × (lint_policy py document ≡ ok q.1.1)
          × (has_error q.1.1 ≡ false))
        e5
        (
          inserted-IsLawful s.0 reg _ s.1.policies s.1.audits s.1.tenants i.policies i.audits i.free
              (rw i.status tt, inl i.rule) h,
          ap (λ ps. ps ++ s.0 ∷ []) i.policies,
          i.status,
          i.author,
          i.origin_kept,
          ei,
          c,
        )
