-- ===== src/Policy/Proposal.antt =====
-- api/policies.py: a proposal of the automation plane keeps the registry lawful.
use mathlib.Core.Path.{subst}
use guard_x.Common.Text.{◌<>◌}
use guard_x.Common.{
  ◌≡◌, ◌≢◌, refl, sym, ap, ◌∙◌, ◌⊎◌, inl, inr, String, Bool, true, false, Option, none, some, [],
  ◌∷◌, ◌++◌, str_eq, eq_iff, some_inj, append_assoc, or_else, Bool-cases,
}
use guard_x.Common.Int.{ℤ}
use guard_x.Common.Json.{Json, str}
use guard_x.Common.Result.{
  ok, http, >>=-eq-ok, subst_ok, raise_if-eq-ok, or_raise, or_raise-eq-ok, ok-injective,
}
use guard_x.Platform.{Platform}
use guard_x.Auth.Role.{Role, Principal, require_role}
use guard_x.Linter.Rules.{has_error, lint_policy}
use guard_x.Policy.Registry.{
  PolicyStatus, PolicyOrigin, AuditAction, Tenant, PolicyRow, PolicyAudit, Registry, status_value,
  get_tenant,
}
use guard_x.Policy.Insert.{audit_entry, add_row, insert_policy}
use guard_x.Policy.Lifecycle.{
  ProposalIn, set_meta, rule_aa1, system_approver, auto_approval_rule_of, submit_proposal, land,
  auto_approve, parse_origin, is_manual,
}
use guard_x.Policy.Lawful.{IsLawful, ApprovedBy-last}
use guard_x.Policy.Creation.{Inserted, insert_policy-Inserted, inserted-IsLawful}

not_manual : (o : PolicyOrigin) → is_manual o ≡ false → o ≢ PolicyOrigin.manual
not_manual o h e = cc (rw e at h)

no_rule :
    (o : PolicyOrigin) (c : Option String)
    → auto_approval_rule_of o (or_else c "") ≡ none
    → (o ≢ PolicyOrigin.feed) ⊎ (c ≢ some "monotonic_add")
no_rule PolicyOrigin.manual c h = inl (λ e. cc)
no_rule PolicyOrigin.feed c h = inr (λ e. cc (rw e at h))
no_rule PolicyOrigin.synthesizer c h = inl (λ e. cc)
no_rule PolicyOrigin.autotuner c h = inl (λ e. cc)

-- The rule applies to a feed's monotonic addition only.
the_rule :
    (o : PolicyOrigin) (c : Option String) (rule : String)
    → auto_approval_rule_of o (or_else c "") ≡ some rule
    → (rule_aa1 ≡ rule) × (o ≡ PolicyOrigin.feed) × (c ≡ some "monotonic_add")
the_rule PolicyOrigin.manual c rule h = cc
the_rule PolicyOrigin.synthesizer c rule h = cc
the_rule PolicyOrigin.autotuner c rule h = cc
the_rule PolicyOrigin.feed none rule h = cc
the_rule PolicyOrigin.feed (some c) rule h = elim (Bool-cases (str_eq c "monotonic_add")) [
  | inl same ↦ (some_inj (rw same at h), refl, ap some ((eq_iff c "monotonic_add").0 same))
  | inr other ↦ cc (rw other at h)
]

module _ (py : Platform) where
  -- What a row becomes that rule AA-1 approves.
  abbrev pub AutoApproved : ℤ → PolicyRow → PolicyRow → Type 0
  AutoApproved now row row' =
      (d : Json) × (row' ≡ record row {
        status = PolicyStatus.approved;
        approved_by = some system_approver;
        approved_at = some now;
        auto_approval_rule = some rule_aa1;
        document = d;
      })

  auto_approve-AutoApproved :
      (now : ℤ) (row row' : PolicyRow)
      → auto_approve py rule_aa1 now row ≡ ok row'
      → AutoApproved now row row'
  unfolding auto_approve
  auto_approve-AutoApproved now row row' e =
      let (d1, _, e1) =
        >>=-eq-ok (set_meta "status" (str (status_value PolicyStatus.approved)) row.document) _ e in
      let (d2, _, e2) = >>=-eq-ok (set_meta "approved_by" (str system_approver) d1) _ e1 in
      let (d3, _, e3) = >>=-eq-ok (set_meta "approved_at" (str (py.isoformat_utc now)) d2) _ e2 in
      let (d4, _, e4) = >>=-eq-ok (set_meta "auto_approval_rule" (str rule_aa1) d3) _ e3 in
      (d4, sym (ok-injective e4))

  -- How a proposal lands: as a draft for human approval, or, only if it is a feed's monotonic
  -- addition, approved by rule AA-1.
  abbrev pub Lands : PolicyOrigin → Option String → PolicyRow × Bool → Type 0
  Lands origin change_class (row, auto) =
      ((auto ≡ false)
        × (row.status ≡ PolicyStatus.draft)
        × ((origin ≢ PolicyOrigin.feed) ⊎ (change_class ≢ some "monotonic_add")))
      ⊎ ((auto ≡ true)
          × (row.status ≡ PolicyStatus.approved)
          × (row.approved_by ≡ some system_approver)
          × (origin ≡ PolicyOrigin.feed)
          × (change_class ≡ some "monotonic_add"))

  -- The registry after a row is added that rule AA-1 has approved.
  abbrev with_approval : PolicyRow → Registry → Registry
  with_approval row reg = record (add_row row reg) {
    audits =
        reg.audits
        ++ audit_entry row AuditAction.approved system_approver
            (some ("auto-approved: " <> rule_aa1))
          ∷ [];
  }

  approved-IsLawful :
      (origin : PolicyOrigin) (t : Tenant) (by : String) (change_class : Option String) (now : ℤ)
      (reg : Registry) (s : PolicyRow × Registry) (d : Json)
      → Inserted t by origin reg s
      → origin ≡ PolicyOrigin.feed
      → change_class ≡ some "monotonic_add"
      → IsLawful reg
      → IsLawful (
          with_approval
            (record s.0 {
              change_class = change_class;
              status = PolicyStatus.approved;
              approved_by = some system_approver;
              approved_at = some now;
              auto_approval_rule = some rule_aa1;
              document = d;
            })
            s.1)
  approved-IsLawful origin t by change_class now reg s d i from_feed added h =
      let row : PolicyRow = record s.0 {
        change_class = change_class;
        status = PolicyStatus.approved;
        approved_by = some system_approver;
        approved_at = some now;
        auto_approval_rule = some rule_aa1;
        document = d;
      } in
      let remark : Option String = some ("auto-approved: " <> rule_aa1) in
      let entry : PolicyAudit = audit_entry row AuditAction.approved system_approver remark in
      let first : PolicyAudit = audit_entry s.0 AuditAction.created by none in
      inserted-IsLawful row reg (first ∷ entry ∷ []) s.1.policies (s.1.audits ++ entry ∷ [])
        s.1.tenants i.policies
        (ap (λ l. l ++ entry ∷ []) i.audits ∙ append_assoc reg.audits (first ∷ []) (entry ∷ []))
        i.free
        (
          (system_approver, refl, ApprovedBy-last row system_approver remark s.1.audits),
          inr (refl, i.origin_kept ∙ from_feed, added),
        )
        h

  land-IsLawful :
      (origin : PolicyOrigin) (t : Tenant) (by : String) (change_class : Option String) (now : ℤ)
      (reg : Registry) (s : PolicyRow × Registry) (rule : Option String)
      (out : Registry × (PolicyRow × Bool))
      → Inserted t by origin reg s
      → auto_approval_rule_of origin (or_else change_class "") ≡ rule
      → land py rule now (record s.0 { change_class = change_class }) s.1 ≡ ok out
      → IsLawful reg
      → IsLawful out.0 × Lands origin change_class out.1
  unfolding land
  land-IsLawful origin t by change_class now reg s none out i r e h =
      subst_ok (λ q. IsLawful q.0 × Lands origin change_class q.1) e
        (
          inserted-IsLawful _ reg _ s.1.policies s.1.audits s.1.tenants i.policies i.audits i.free
              (rw i.status tt, inl i.rule) h,
          inl (refl, i.status, no_rule origin change_class r),
        )
  land-IsLawful origin t by change_class now reg s (some rule) out i r e h =
      let (q, from_feed, added) = the_rule origin change_class rule r in
      let row : PolicyRow = record s.0 { change_class = change_class } in
      let e0 : land py (some rule_aa1) now row s.1 ≡ ok out =
        subst (λ x. land py (some x) now row s.1 ≡ ok out) (sym q) e in
      let (row', er, e1) = >>=-eq-ok (auto_approve py rule_aa1 now row) _ e0 in
      let (d, eq) = auto_approve-AutoApproved now row row' er in
      subst_ok (λ z. IsLawful z.0 × Lands origin change_class z.1) e1
        (subst
          (λ (x : PolicyRow). IsLawful (with_approval x s.1) × Lands origin change_class (x, true))
          (sym eq)
          (
            approved-IsLawful origin t by change_class now reg s d i from_feed added h,
            inr (refl, refl, refl, from_feed, added),
          ))

  -- A proposal that returns keeps a lawful registry lawful, its origin is not manual, and it lands as a
  -- draft, or approved by rule AA-1 exactly if it is a feed's monotonic addition.
  pub submit_proposal-IsLawful :
      (p : Principal) (slug : String) (body : ProposalIn) (now : ℤ) (reg : Registry)
      (out : Registry × (PolicyRow × Bool))
      → submit_proposal py p slug body now reg ≡ ok out
      → IsLawful reg
      → IsLawful out.0
        × ((origin : PolicyOrigin) × (parse_origin body.origin ≡ some origin)
            × (origin ≢ PolicyOrigin.manual)
            × Lands origin body.change_class out.1)
  unfolding submit_proposal
  submit_proposal-IsLawful p slug body now reg out e h =
      let (_, _, e1) = >>=-eq-ok (require_role (Role.service ∷ Role.admin ∷ []) p) _ e in
      let (origin, eo, e2) = >>=-eq-ok (or_raise (parse_origin body.origin) (http 422)) _ e1 in
      let (m, e3) = raise_if-eq-ok (is_manual origin) (http 422) _ e2 in
      let (issues, _, e4) = >>=-eq-ok (lint_policy py body.document) _ e3 in
      let (_, e5) = raise_if-eq-ok (has_error issues) (http 422) _ e4 in
      let (t, _, e6) = >>=-eq-ok (get_tenant slug reg) _ e5 in
      let (s, es, e7) =
        >>=-eq-ok (insert_policy py t body.document p.subject origin (some body.origin_ref) now reg)
          _ e6 in
      let i =
        insert_policy-Inserted py t body.document p.subject origin (some body.origin_ref) now reg s
          es in
      let (l, d) =
        land-IsLawful origin t p.subject body.change_class now reg s
          (auto_approval_rule_of origin (or_else body.change_class "")) out i refl e7 h in
      (l, (origin, or_raise-eq-ok (parse_origin body.origin) (http 422) eo, not_manual origin m, d))
