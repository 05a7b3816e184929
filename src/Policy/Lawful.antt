-- ===== src/Policy/Lawful.antt =====
-- The invariant of the registry: keys are unique, no version is ever deprecated, every version
-- that is or was approved names its approver and has an APPROVED audit entry by that approver, and
-- only rule AA-1 approves without a human.
use guard_x.Common.{◌≡◌, refl, ◌⊎◌, inl, inr, String, Option, none, some, List, [], ◌∷◌, ◌++◌, All}
use guard_x.Policy.Registry.{
  PolicyStatus, PolicyOrigin, AuditAction, PolicyRow, PolicyAudit, Registry,
}
use guard_x.Policy.Insert.{audit_entry}
use guard_x.Policy.Lifecycle.{commit_row, rule_aa1}
use guard_x.Policy.Rows.{All-update_row, All-map, IsUnique, IsUnique-update_row}

-- The audit log has an APPROVED entry for the version of `r`, by `who`.
abbrev pub ApprovedBy : String → PolicyRow → List PolicyAudit → Type 0
ApprovedBy who r [] = ⊥
ApprovedBy who r (a ∷ log) =
    ((a.action ≡ AuditAction.approved)
      × (a.actor ≡ who)
      × (a.tenant_id ≡ r.tenant_id)
      × (a.policy_id ≡ r.policy_id)
      × (a.version ≡ r.version))
    ⊎ ApprovedBy who r log

-- The row names an approver, and the audit log knows of the approval.
abbrev pub IsVouched : List PolicyAudit → PolicyRow → Type 0
IsVouched log r = (who : String) × (r.approved_by ≡ some who) × ApprovedBy who r log

-- What holds of a row by its status.
abbrev pub StatusLaw : PolicyStatus → List PolicyAudit → PolicyRow → Type 0
StatusLaw PolicyStatus.draft log r = Unit
StatusLaw PolicyStatus.in_review log r = Unit
StatusLaw PolicyStatus.approved log r = IsVouched log r
StatusLaw PolicyStatus.deprecated log r = ⊥
StatusLaw PolicyStatus.revoked log r = IsVouched log r

-- A row that a rule has approved comes from a feed, as a monotonic addition.
abbrev pub RuleLaw : PolicyRow → Type 0
RuleLaw r =
    (r.auto_approval_rule ≡ none)
    ⊎ ((r.auto_approval_rule ≡ some rule_aa1)
        × (r.origin ≡ PolicyOrigin.feed)
        × (r.change_class ≡ some "monotonic_add"))

abbrev pub RowLaw : List PolicyAudit → PolicyRow → Type 0
RowLaw log r = StatusLaw r.status log r × RuleLaw r

pub record IsLawful (reg : Registry) : Type 0 where
  pub unique : IsUnique reg.policies
  pub rows : All (RowLaw reg.audits) reg.policies

pub ApprovedBy-append :
    (who : String) (r : PolicyRow) (log more : List PolicyAudit)
    → ApprovedBy who r log
    → ApprovedBy who r (log ++ more)
ApprovedBy-append who r [] more h = absurd h
ApprovedBy-append who r (a ∷ log) more (inl h) = inl h
ApprovedBy-append who r (a ∷ log) more (inr h) = inr (ApprovedBy-append who r log more h)

pub ApprovedBy-last :
    (r : PolicyRow) (who : String) (remark : Option String) (log : List PolicyAudit)
    → ApprovedBy who r (log ++ audit_entry r AuditAction.approved who remark ∷ [])
ApprovedBy-last r who remark [] = inl (refl, refl, refl, refl, refl)
ApprovedBy-last r who remark (a ∷ log) = inr (ApprovedBy-last r who remark log)

StatusLaw-append :
    (s : PolicyStatus) (r : PolicyRow) (log more : List PolicyAudit)
    → StatusLaw s log r
    → StatusLaw s (log ++ more) r
StatusLaw-append PolicyStatus.draft r log more h = tt
StatusLaw-append PolicyStatus.in_review r log more h = tt
StatusLaw-append PolicyStatus.approved r log more h =
    (h.0, h.1, ApprovedBy-append h.0 r log more h.2)
StatusLaw-append PolicyStatus.deprecated r log more h = h
StatusLaw-append PolicyStatus.revoked r log more h =
    (h.0, h.1, ApprovedBy-append h.0 r log more h.2)

-- New audit entries leave the rows lawful.
pub rows-append :
    (rs : List PolicyRow) (log more : List PolicyAudit)
    → All (RowLaw log) rs
    → All (RowLaw (log ++ more)) rs
rows-append rs log more h =
    All-map (RowLaw log) (RowLaw (log ++ more)) rs
      (λ r l. (StatusLaw-append r.status r log more l.0, l.1)) h

-- A committed row that is lawful with its own audit entry leaves the registry lawful.
pub commit_row-IsLawful :
    (row : PolicyRow) (entry : PolicyAudit) (reg : Registry)
    → RowLaw (reg.audits ++ entry ∷ []) row
    → IsLawful reg
    → IsLawful (commit_row row entry reg)
commit_row-IsLawful row entry reg l h = record {
  unique = IsUnique-update_row row reg.policies h.unique;
  rows =
      All-update_row (RowLaw (reg.audits ++ entry ∷ [])) row reg.policies l
        (rows-append reg.policies reg.audits (entry ∷ []) h.rows);
}
