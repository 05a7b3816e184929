-- ===== src/Tests/Policy.antt =====
-- The life of one policy version, and a proposal of a feed.
use guard_x.Common.{◌≡◌, ◌≢◌, refl, Bool, false, none, some, List, [], ◌∷◌, inl, ◌++◌, ◌⊎◌}
use guard_x.Common.Int.{pos}
use guard_x.Common.Json.{Json, str, obj, of_entries, null}
use guard_x.Common.Result.{ok}
use guard_x.Signing.Canonical.{canonical_json}
use guard_x.Linter.Rules.{
  LinterIssue, lint_policy, has_error, lint_spec, rule_missing_fail_mode, collect,
  rule_verify_live_in_prod, rule_full_text_evidence_under_pii, rule_streaming_incompatible_actions,
  is_streaming, rule_contradictory_guards, by_key,
}
use guard_x.Linter.Document.{default_fail_mode, guards, envs, text_of}
use guard_x.Common.Text.{lower, contains, strip_prefix}
use guard_x.Policy.Registry.{
  find_policy, update_row, AuditAction, PolicyStatus, PolicyOrigin, Tenant, PolicyRow, Registry,
}
use guard_x.Policy.Insert.{new_row}
use guard_x.Policy.Lifecycle.{
  ProposalIn, submit_policy, approve_policy, reject_policy, revoke_policy, create_policy,
  submit_proposal, parse_origin,
}
use guard_x.Policy.Lawful.{IsLawful}
use guard_x.Policy.Moves.{Moves}
use guard_x.Auth.Role.{Role}
use guard_x.Policy.Creation.{create_policy-IsLawful}
use guard_x.Policy.Review.{
  Approves, submit_policy-IsLawful, approve_policy-IsLawful, reject_policy-IsLawful,
  revoke_policy-IsLawful,
}
use guard_x.Policy.Proposal.{Lands, submit_proposal-IsLawful}
use guard_x.Tests.Setup.{py, value_or, service, alice, bob}

abbrev acme : Tenant
acme = record { id = "t1"; slug = "acme" }

abbrev metadata : Json
metadata = obj (of_entries (("id", str "p1") ∷ ("version", str "1.0.0") ∷ []))

abbrev document : Json
document = obj (of_entries (("metadata", metadata) ∷ []))

abbrev draft_row : PolicyRow
draft_row = new_row py acme "p1" "1.0.0" document "a1" "alice" PolicyOrigin.manual none (pos 0)

abbrev row_in : PolicyStatus → PolicyRow
row_in s = record draft_row { status = s }

abbrev registry_in : PolicyStatus → Registry
registry_in s = record { tenants = acme ∷ []; policies = row_in s ∷ []; audits = [] }

abbrev fresh : Registry
fresh = record { tenants = acme ∷ []; policies = []; audits = [] }

fresh-IsLawful : IsLawful fresh
fresh-IsLawful = record { unique = tt; rows = tt }

draft-IsLawful : IsLawful (registry_in PolicyStatus.draft)
draft-IsLawful = record { unique = (tt, tt); rows = ((tt, inl refl), tt) }

review-IsLawful : IsLawful (registry_in PolicyStatus.in_review)
review-IsLawful = record { unique = (tt, tt); rows = ((tt, inl refl), tt) }

abbrev unchanged : Registry × PolicyRow
unchanged = (registry_in PolicyStatus.in_review, draft_row)

unfoldable submitted : Registry × PolicyRow
unfolding submit_policy
submitted =
    value_or unchanged
      (submit_policy py alice "acme" "p1" "1.0.0" none (registry_in PolicyStatus.draft))

submitted_lem :
    submit_policy py alice "acme" "p1" "1.0.0" none (registry_in PolicyStatus.draft) ≡ ok submitted
unfolding submit_policy submitted find_policy
submitted_lem = refl

submit_policy-IsLawful_example :
    IsLawful submitted.0
    × ((Role.author ≡ Role.author) ⊎ (Role.author ≡ Role.admin))
    × Moves alice "acme" "p1" "1.0.0" none PolicyStatus.draft PolicyStatus.in_review
        AuditAction.submitted
        (registry_in PolicyStatus.draft)
        submitted
submit_policy-IsLawful_example =
    submit_policy-IsLawful py alice "acme" "p1" "1.0.0" none (registry_in PolicyStatus.draft)
      submitted submitted_lem draft-IsLawful

unfoldable approved : Registry × PolicyRow
unfolding approve_policy
approved =
    value_or unchanged
      (approve_policy py bob "acme" "p1" "1.0.0" none (pos 0) (registry_in PolicyStatus.in_review))

approved_lem :
    approve_policy py bob "acme" "p1" "1.0.0" none (pos 0) (registry_in PolicyStatus.in_review)
    ≡ ok approved
unfolding approve_policy approved find_policy
approved_lem = refl

approve_policy-IsLawful_example :
    IsLawful approved.0
    × Approves py bob "acme" "p1" "1.0.0" (pos 0) (registry_in PolicyStatus.in_review) approved
approve_policy-IsLawful_example =
    approve_policy-IsLawful py bob "acme" "p1" "1.0.0" none (pos 0)
      (registry_in PolicyStatus.in_review) approved approved_lem review-IsLawful

unfoldable rejected : Registry × PolicyRow
unfolding reject_policy
rejected =
    value_or unchanged
      (reject_policy py bob "acme" "p1" "1.0.0" none (registry_in PolicyStatus.in_review))

rejected_lem :
    reject_policy py bob "acme" "p1" "1.0.0" none (registry_in PolicyStatus.in_review) ≡ ok rejected
unfolding reject_policy rejected find_policy
rejected_lem = refl

reject_policy-IsLawful_example :
    IsLawful rejected.0
    × ((Role.approver ≡ Role.reviewer)
        ⊎ ((Role.approver ≡ Role.approver) ⊎ (Role.approver ≡ Role.admin)))
    × Moves bob "acme" "p1" "1.0.0" none PolicyStatus.in_review PolicyStatus.draft
        AuditAction.rejected
        (registry_in PolicyStatus.in_review)
        rejected
reject_policy-IsLawful_example =
    reject_policy-IsLawful py bob "acme" "p1" "1.0.0" none (registry_in PolicyStatus.in_review)
      rejected rejected_lem review-IsLawful

unfoldable revoked : Registry × PolicyRow
unfolding revoke_policy approved
revoked = value_or unchanged (revoke_policy py bob "acme" "p1" "1.0.0" none approved.0)

revoked_lem : revoke_policy py bob "acme" "p1" "1.0.0" none approved.0 ≡ ok revoked
unfolding revoke_policy approved revoked find_policy update_row
revoked_lem = refl

approved-IsLawful : IsLawful approved.0
approved-IsLawful =
    (approve_policy-IsLawful py bob "acme" "p1" "1.0.0" none (pos 0)
      (registry_in PolicyStatus.in_review) approved approved_lem review-IsLawful).0

revoke_policy-IsLawful_example :
    IsLawful revoked.0
    × ((Role.approver ≡ Role.approver) ⊎ (Role.approver ≡ Role.admin))
    × Moves bob "acme" "p1" "1.0.0" none PolicyStatus.approved PolicyStatus.revoked
        AuditAction.revoked approved.0 revoked
revoke_policy-IsLawful_example =
    revoke_policy-IsLawful py bob "acme" "p1" "1.0.0" none approved.0 revoked revoked_lem
      approved-IsLawful

unfoldable created : Registry × (PolicyRow × List LinterIssue)
unfolding create_policy
created = value_or (fresh, (draft_row, [])) (create_policy py alice "acme" document (pos 0) fresh)

document_passes : lint_policy py document ≡ ok []
unfolding lint_policy lint_spec rule_missing_fail_mode default_fail_mode guards collect
    rule_verify_live_in_prod envs rule_full_text_evidence_under_pii
    rule_streaming_incompatible_actions is_streaming lower text_of rule_contradictory_guards by_key
    contains strip_prefix
document_passes = refl

created_lem : create_policy py alice "acme" document (pos 0) fresh ≡ ok created
unfolding create_policy created find_policy canonical_json lint_policy lint_spec
    rule_missing_fail_mode default_fail_mode guards collect rule_verify_live_in_prod envs
    rule_full_text_evidence_under_pii rule_streaming_incompatible_actions is_streaming lower text_of
    rule_contradictory_guards by_key contains strip_prefix
created_lem = refl

create_policy-IsLawful_example :
    IsLawful created.0
    × (created.0.policies ≡ [] ++ created.1.0 ∷ [])
    × (created.1.0.status ≡ PolicyStatus.draft)
    × (created.1.0.created_by ≡ "alice")
    × (created.1.0.origin ≡ PolicyOrigin.manual)
    × (lint_policy py document ≡ ok created.1.1)
    × (has_error created.1.1 ≡ false)
create_policy-IsLawful_example =
    create_policy-IsLawful py alice "acme" document (pos 0) fresh created created_lem fresh-IsLawful

abbrev proposal : ProposalIn
proposal = record {
  document = document;
  origin = "feed";
  origin_ref = null;
  change_class = some "monotonic_add";
}

unfoldable landed : Registry × (PolicyRow × Bool)
unfolding submit_proposal
landed =
    value_or (fresh, (draft_row, false)) (submit_proposal py service "acme" proposal (pos 0) fresh)

landed_lem : submit_proposal py service "acme" proposal (pos 0) fresh ≡ ok landed
unfolding submit_proposal landed find_policy canonical_json lint_policy lint_spec
    rule_missing_fail_mode default_fail_mode guards collect rule_verify_live_in_prod envs
    rule_full_text_evidence_under_pii rule_streaming_incompatible_actions is_streaming lower text_of
    rule_contradictory_guards by_key contains strip_prefix
landed_lem = refl

submit_proposal-IsLawful_example :
    IsLawful landed.0
    × ((origin : PolicyOrigin) × (parse_origin "feed" ≡ some origin)
        × (origin ≢ PolicyOrigin.manual)
        × Lands py origin (some "monotonic_add") landed.1)
submit_proposal-IsLawful_example =
    submit_proposal-IsLawful py service "acme" proposal (pos 0) fresh landed landed_lem
      fresh-IsLawful
