-- ===== src/Policy/Review.antt =====
-- api/policies.py: the routes that move a stored version keep the registry lawful.
use guard_x.Common.{◌≡◌, ◌≢◌, refl, ◌⊎◌, String, not, ◌&&◌, ◌||◌, Option, some, [], ◌∷◌, str_eq}
use guard_x.Common.Int.{ℤ}
use guard_x.Common.Json.{str}
use guard_x.Common.Result.{ok, http, >>=-eq-ok, subst_ok, raise_if-eq-ok}
use guard_x.Platform.{Platform}
use guard_x.Auth.Role.{Role, Principal, is_role, require_role}
use guard_x.Policy.Registry.{
  PolicyStatus, AuditAction, Tenant, PolicyRow, Registry, status_value, get_tenant, get_policy,
}
use guard_x.Policy.Lifecycle.{
  is_status, set_meta, submit_policy, approve_policy, reject_policy, revoke_policy,
}
use guard_x.Policy.Moves.{
  Stores, Moves, update_row-Stores, author_or_admin, approver_or_admin, reviewer_approver_or_admin,
  get_policy-RowLaw, is_status_sound, other_author, revocable,
}
use guard_x.Policy.Lawful.{IsLawful, ApprovedBy-append, ApprovedBy-last, commit_row-IsLawful}

module _ (py : Platform) where
  -- A submission that returns is by an author or an admin and keeps a lawful registry lawful. It has
  -- moved a stored draft into review and changed nothing else of it but its document; the registry
  -- finds the version under its key, every other key finds what it found, and the audit log has
  -- grown by the caller's SUBMITTED entry.
  pub submit_policy-IsLawful :
      (p : Principal) (slug pid ver : String) (remark : Option String) (reg : Registry)
      (out : Registry × PolicyRow)
      → submit_policy py p slug pid ver remark reg ≡ ok out
      → IsLawful reg
      → IsLawful out.0
        × ((p.role ≡ Role.author) ⊎ (p.role ≡ Role.admin))
        × Moves p slug pid ver remark PolicyStatus.draft PolicyStatus.in_review
            AuditAction.submitted reg out
  unfolding submit_policy
  submit_policy-IsLawful p slug pid ver remark reg out e h =
      let (_, ea, e1) = >>=-eq-ok (require_role (Role.author ∷ Role.admin ∷ []) p) _ e in
      let (t, et, e2) = >>=-eq-ok (get_tenant slug reg) _ e1 in
      let (row, er, e3) = >>=-eq-ok (get_policy t pid ver reg) _ e2 in
      let (s, e4) =
        raise_if-eq-ok (not (is_status row.status PolicyStatus.draft)) (http 409) _ e3 in
      let (d, _, e5) =
        >>=-eq-ok (set_meta "status" (str (status_value PolicyStatus.in_review)) row.document) _
          e4 in
      let row' : PolicyRow = record row {
        status = PolicyStatus.in_review;
        document = py.commit_in_place row.document d;
      } in
      subst_ok
        (λ q.
          IsLawful q.0
          × ((p.role ≡ Role.author) ⊎ (p.role ≡ Role.admin))
          × Moves p slug pid ver remark PolicyStatus.draft PolicyStatus.in_review
              AuditAction.submitted reg q)
        e5
        (
          commit_row-IsLawful row' _ reg (tt, (get_policy-RowLaw t pid ver reg row er h).1) h,
          author_or_admin p ea,
          (
            t,
            row,
            et,
            er,
            is_status_sound row.status PolicyStatus.draft s,
            refl,
            update_row-Stores t pid ver reg row row' er refl refl refl,
            refl,
          ),
        )

  -- What an approval that returns has done: the caller is an approver or an admin, the version was
  -- in review, its author is another one unless the caller is an admin, and it is now approved by
  -- the caller, at that time, with its hash, author and origin as they were. The registry finds it
  -- under its key, and every other key finds what it found.
  abbrev pub Approves :
      Principal → String → String → String → ℤ → Registry → Registry × PolicyRow → Type 0
  Approves p slug pid ver now reg out =
      (t : Tenant) × (row : PolicyRow) × (get_tenant slug reg ≡ ok t)
      × (get_policy t pid ver reg ≡ ok row)
      × (row.status ≡ PolicyStatus.in_review)
      × ((row.created_by ≢ p.subject) ⊎ (p.role ≡ Role.admin))
      × ((p.role ≡ Role.approver) ⊎ (p.role ≡ Role.admin))
      × Stores out.1 reg.policies out.0.policies
      × (out.1.status ≡ PolicyStatus.approved)
      × (out.1.approved_by ≡ some p.subject)
      × (out.1.approved_at ≡ some now)
      × (out.1.document_hash ≡ row.document_hash)
      × (out.1.created_by ≡ row.created_by)
      × (out.1.origin ≡ row.origin)

  -- An approval that returns keeps a lawful registry lawful, and it has been of a version in review,
  -- by an approver or admin who is not its author unless an admin; the version is then approved by
  -- the caller at that time, with its hash, author and origin as they were. The registry finds it
  -- under its key, and every other key finds what it found.
  pub approve_policy-IsLawful :
      (p : Principal) (slug pid ver : String) (remark : Option String) (now : ℤ) (reg : Registry)
      (out : Registry × PolicyRow)
      → approve_policy py p slug pid ver remark now reg ≡ ok out
      → IsLawful reg
      → IsLawful out.0 × Approves p slug pid ver now reg out
  unfolding approve_policy
  approve_policy-IsLawful p slug pid ver remark now reg out e h =
      let (_, er0, e1) = >>=-eq-ok (require_role (Role.approver ∷ Role.admin ∷ []) p) _ e in
      let (t, et, e2) = >>=-eq-ok (get_tenant slug reg) _ e1 in
      let (row, er, e3) = >>=-eq-ok (get_policy t pid ver reg) _ e2 in
      let (s, e4) =
        raise_if-eq-ok (not (is_status row.status PolicyStatus.in_review)) (http 409) _ e3 in
      let (d, e5) =
        raise_if-eq-ok (str_eq row.created_by p.subject && not (is_role p.role Role.admin))
          (http 403) _ e4 in
      let (d1, _, e6) =
        >>=-eq-ok (set_meta "status" (str (status_value PolicyStatus.approved)) row.document) _
          e5 in
      let (d2, _, e7) = >>=-eq-ok (set_meta "approved_by" (str p.subject) d1) _ e6 in
      let (d3, _, e8) = >>=-eq-ok (set_meta "approved_at" (str (py.isoformat_utc now)) d2) _ e7 in
      let row' : PolicyRow = record row {
        status = PolicyStatus.approved;
        approved_by = some p.subject;
        approved_at = some now;
        document = py.commit_in_place row.document d3;
      } in
      subst_ok (λ q. IsLawful q.0 × Approves p slug pid ver now reg q) e8
        (
          commit_row-IsLawful row' _ reg
              (
                (p.subject, refl, ApprovedBy-last row' p.subject remark reg.audits),
                (get_policy-RowLaw t pid ver reg row er h).1,
              )
              h,
          (
            t,
            row,
            et,
            er,
            is_status_sound row.status PolicyStatus.in_review s,
            other_author row.created_by p d,
            approver_or_admin p er0,
            update_row-Stores t pid ver reg row row' er refl refl refl,
            refl,
            refl,
            refl,
            refl,
            refl,
            refl,
          ),
        )

  -- A rejection that returns is by a reviewer, an approver or an admin and keeps a lawful registry
  -- lawful. It has moved a stored version from review back to draft and changed nothing else of it
  -- but its document; the registry finds the version under its key, every other key finds what it
  -- found, and the audit log has grown by the caller's REJECTED entry.
  pub reject_policy-IsLawful :
      (p : Principal) (slug pid ver : String) (remark : Option String) (reg : Registry)
      (out : Registry × PolicyRow)
      → reject_policy py p slug pid ver remark reg ≡ ok out
      → IsLawful reg
      → IsLawful out.0
        × ((p.role ≡ Role.reviewer) ⊎ ((p.role ≡ Role.approver) ⊎ (p.role ≡ Role.admin)))
        × Moves p slug pid ver remark PolicyStatus.in_review PolicyStatus.draft AuditAction.rejected
            reg out
  unfolding reject_policy
  reject_policy-IsLawful p slug pid ver remark reg out e h =
      let (_, ea, e1) =
        >>=-eq-ok (require_role (Role.reviewer ∷ Role.approver ∷ Role.admin ∷ []) p) _ e in
      let (t, et, e2) = >>=-eq-ok (get_tenant slug reg) _ e1 in
      let (row, er, e3) = >>=-eq-ok (get_policy t pid ver reg) _ e2 in
      let (s, e4) =
        raise_if-eq-ok (not (is_status row.status PolicyStatus.in_review)) (http 409) _ e3 in
      let (d, _, e5) =
        >>=-eq-ok (set_meta "status" (str (status_value PolicyStatus.draft)) row.document) _ e4 in
      let row' : PolicyRow = record row {
        status = PolicyStatus.draft;
        document = py.commit_in_place row.document d;
      } in
      subst_ok
        (λ q.
          IsLawful q.0
          × ((p.role ≡ Role.reviewer) ⊎ ((p.role ≡ Role.approver) ⊎ (p.role ≡ Role.admin)))
          × Moves p slug pid ver remark PolicyStatus.in_review PolicyStatus.draft
              AuditAction.rejected reg q)
        e5
        (
          commit_row-IsLawful row' _ reg (tt, (get_policy-RowLaw t pid ver reg row er h).1) h,
          reviewer_approver_or_admin p ea,
          (
            t,
            row,
            et,
            er,
            is_status_sound row.status PolicyStatus.in_review s,
            refl,
            update_row-Stores t pid ver reg row row' er refl refl refl,
            refl,
          ),
        )

  -- A revocation that returns, from a lawful registry, is by an approver or an admin and keeps the
  -- registry lawful. It has moved a stored version from approved to revoked and changed nothing else
  -- of it but its document; the registry finds the version under its key, every other key finds what
  -- it found, and the audit log has grown by the caller's REVOKED entry.
  pub revoke_policy-IsLawful :
      (p : Principal) (slug pid ver : String) (remark : Option String) (reg : Registry)
      (out : Registry × PolicyRow)
      → revoke_policy py p slug pid ver remark reg ≡ ok out
      → IsLawful reg
      → IsLawful out.0
        × ((p.role ≡ Role.approver) ⊎ (p.role ≡ Role.admin))
        × Moves p slug pid ver remark PolicyStatus.approved PolicyStatus.revoked AuditAction.revoked
            reg out
  unfolding revoke_policy
  revoke_policy-IsLawful p slug pid ver remark reg out e h =
      let (_, ea, e1) = >>=-eq-ok (require_role (Role.approver ∷ Role.admin ∷ []) p) _ e in
      let (t, et, e2) = >>=-eq-ok (get_tenant slug reg) _ e1 in
      let (row, er, e3) = >>=-eq-ok (get_policy t pid ver reg) _ e2 in
      let (s, e4) =
        raise_if-eq-ok
          (not (
            is_status row.status PolicyStatus.approved
            || is_status row.status PolicyStatus.deprecated))
          (http 409) _ e3 in
      let (d, _, e5) =
        >>=-eq-ok (set_meta "status" (str (status_value PolicyStatus.revoked)) row.document) _ e4 in
      let law = get_policy-RowLaw t pid ver reg row er h in
      let (was, (who, b, a)) = revocable row.status reg.audits row s law.0 in
      let row' : PolicyRow = record row {
        status = PolicyStatus.revoked;
        document = py.commit_in_place row.document d;
      } in
      subst_ok
        (λ q.
          IsLawful q.0
          × ((p.role ≡ Role.approver) ⊎ (p.role ≡ Role.admin))
          × Moves p slug pid ver remark PolicyStatus.approved PolicyStatus.revoked
              AuditAction.revoked reg q)
        e5
        (
          commit_row-IsLawful row' _ reg ((who, b, ApprovedBy-append who row reg.audits _ a), law.1)
              h,
          approver_or_admin p ea,
          (
            t,
            row,
            et,
            er,
            was,
            refl,
            update_row-Stores t pid ver reg row row' er refl refl refl,
            refl,
          ),
        )
