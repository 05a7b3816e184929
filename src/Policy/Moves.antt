-- ===== src/Policy/Moves.antt =====
-- api/policies.py: what the routes that move a stored version from one status to another have in
-- common. They load a row, check its status, and commit the row and an audit entry.
use guard_x.Common.{
  ◌≡◌, ◌≢◌, refl, ◌⊎◌, inl, inr, String, false, not, ◌&&◌, ◌||◌, some, Option, List, [], ◌∷◌, ◌++◌,
  arith, str_eq, eq_iff, All, Bool-cases, if◌then◌else◌,
}
use guard_x.Common.Result.{ok, http, or_raise-eq-ok}
use guard_x.Auth.Role.{Role, Principal, is_role, require_role}
use guard_x.Policy.Registry.{
  PolicyStatus, AuditAction, Tenant, PolicyRow, PolicyAudit, Registry, has_key, find_policy,
  update_row, get_tenant, get_policy,
}
use guard_x.Policy.Insert.{audit_entry}
use guard_x.Policy.Lifecycle.{is_status}
use guard_x.Policy.Rows.{find_policy_sound}
use guard_x.Policy.Lawful.{IsLawful, RowLaw, StatusLaw, IsVouched}

-- An update of a row that is there is found under its key, and every other key finds what it found.
find_policy-update_row :
    (n r : PolicyRow) (rs : List PolicyRow) (tid pid ver : String)
    → find_policy n.tenant_id n.policy_id n.version rs ≡ some r
    → find_policy tid pid ver (update_row n rs)
      ≡ (if has_key tid pid ver n then some n else find_policy tid pid ver rs)
unfolding find_policy update_row
find_policy-update_row n r [] tid pid ver e = cc
find_policy-update_row n r (x ∷ rs) tid pid ver e =
    elim (Bool-cases (has_key n.tenant_id n.policy_id n.version x)) [
      | inl same ↦
          let et : x.tenant_id ≡ n.tenant_id = ground (arith, eq_iff x.tenant_id n.tenant_id) in
          let ep : x.policy_id ≡ n.policy_id = ground (arith, eq_iff x.policy_id n.policy_id) in
          let ev : x.version ≡ n.version = ground (arith, eq_iff x.version n.version) in
          rw (same, et, ep, ev) (ground arith)
      | inr other ↦ rw other (
          ground (
            arith,
            other,
            find_policy-update_row n r rs tid pid ver (rw other at e),
            eq_iff x.tenant_id n.tenant_id,
            eq_iff x.policy_id n.policy_id,
            eq_iff x.version n.version,
            eq_iff x.tenant_id tid,
            eq_iff x.policy_id pid,
            eq_iff x.version ver,
            eq_iff n.tenant_id tid,
            eq_iff n.policy_id pid,
            eq_iff n.version ver,
          ))
    ]

-- The new rows have the row under its key, and under every other key what the old ones have.
abbrev pub Stores : PolicyRow → List PolicyRow → List PolicyRow → Type 0
Stores row rows rows' =
    (tid pid ver : String)
    → find_policy tid pid ver rows'
      ≡ (if has_key tid pid ver row then some row else find_policy tid pid ver rows)

all_unit : (rs : List PolicyRow) → All (λ r. Unit {0}) rs
all_unit [] = tt
all_unit (r ∷ rs) = (tt, all_unit rs)

-- A row with the key of a stored one is stored by an update.
pub update_row-Stores :
    (t : Tenant) (pid ver : String) (reg : Registry) (row n : PolicyRow)
    → get_policy t pid ver reg ≡ ok row
    → n.tenant_id ≡ row.tenant_id
    → n.policy_id ≡ row.policy_id
    → n.version ≡ row.version
    → Stores n reg.policies (update_row n reg.policies)
unfolding get_policy
update_row-Stores t pid ver reg row n e et ep ev =
    let found = or_raise-eq-ok (find_policy t.id pid ver reg.policies) (http 404) e in
    let (_, ft, fp, fv) =
      find_policy_sound (λ r. Unit {0}) t.id pid ver reg.policies row found
        (all_unit reg.policies) in
    λ i j k. find_policy-update_row n row reg.policies i j k (simp (et, ep, ev, ft, fp, fv) found)

-- What a route that moves a version has done: the version that is stored under that key had the
-- status `before`, the version that is returned has the status `after` and the contents of the old
-- one but for its document, it is what the registry now finds under its key, while every other key
-- finds what it found, and the audit log has grown by one entry, of that action by the caller.
abbrev pub Moves :
    Principal
    → String
    → String
    → String
    → Option String
    → PolicyStatus
    → PolicyStatus
    → AuditAction
    → Registry
    → Registry × PolicyRow
    → Type 0
Moves p slug pid ver remark before after action reg out =
    (t : Tenant) × (row : PolicyRow) × (get_tenant slug reg ≡ ok t)
    × (get_policy t pid ver reg ≡ ok row)
    × (row.status ≡ before)
    × (out.1 ≡ record row { status = after; document = out.1.document })
    × Stores out.1 reg.policies out.0.policies
    × (out.0.audits ≡ reg.audits ++ audit_entry row action p.subject remark ∷ [])

pub author_or_admin :
    (p : Principal) {q : Principal}
    → require_role (Role.author ∷ Role.admin ∷ []) p ≡ ok q
    → (p.role ≡ Role.author) ⊎ (p.role ≡ Role.admin)
unfolding require_role
author_or_admin p e = ground arith

pub approver_or_admin :
    (p : Principal) {q : Principal}
    → require_role (Role.approver ∷ Role.admin ∷ []) p ≡ ok q
    → (p.role ≡ Role.approver) ⊎ (p.role ≡ Role.admin)
unfolding require_role
approver_or_admin p e = ground arith

pub reviewer_approver_or_admin :
    (p : Principal) {q : Principal}
    → require_role (Role.reviewer ∷ Role.approver ∷ Role.admin ∷ []) p ≡ ok q
    → (p.role ≡ Role.reviewer) ⊎ ((p.role ≡ Role.approver) ⊎ (p.role ≡ Role.admin))
unfolding require_role
reviewer_approver_or_admin p e = ground arith

-- A row that is found is lawful.
pub get_policy-RowLaw :
    (t : Tenant) (pid ver : String) (reg : Registry) (row : PolicyRow)
    → get_policy t pid ver reg ≡ ok row
    → IsLawful reg
    → RowLaw reg.audits row
unfolding get_policy
get_policy-RowLaw t pid ver reg row e h =
    (find_policy_sound (RowLaw reg.audits) t.id pid ver reg.policies row
      (or_raise-eq-ok (find_policy t.id pid ver reg.policies) (http 404) e) h.rows).0

pub is_status_sound : (s u : PolicyStatus) → not (is_status s u) ≡ false → s ≡ u
is_status_sound s u h = ground arith

pub other_author :
    (by : String) (p : Principal)
    → (str_eq by p.subject && not (is_role p.role Role.admin)) ≡ false
    → (by ≢ p.subject) ⊎ (p.role ≡ Role.admin)
other_author by p h = elim (Bool-cases (str_eq by p.subject)) [
  | inl same ↦ inr (ground arith)
  | inr other ↦ inl (λ q. ground (arith, eq_iff by p.subject))
]

-- A lawful version that may be revoked has been approved.
pub revocable :
    (s : PolicyStatus) (log : List PolicyAudit) (r : PolicyRow)
    → not (is_status s PolicyStatus.approved || is_status s PolicyStatus.deprecated) ≡ false
    → StatusLaw s log r
    → (s ≡ PolicyStatus.approved) × IsVouched log r
revocable PolicyStatus.draft log r h l = cc
revocable PolicyStatus.in_review log r h l = cc
revocable PolicyStatus.approved log r h l = (refl, l)
revocable PolicyStatus.deprecated log r h l = absurd l
revocable PolicyStatus.revoked log r h l = cc
