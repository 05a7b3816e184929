-- ===== src/Tests/Linter.antt =====
-- The linter on a policy with one guard.
use guard_x.Common.{◌≡◌, refl, [], ◌∷◌}
use guard_x.Common.Json.{Json, str, arr, obj, of_list, of_entries}
use guard_x.Common.Text.{lower}
use guard_x.Common.Result.{ok}
use guard_x.Linter.Document.{section, default_fail_mode, guards, envs, text_of}
use guard_x.Linter.Rules.{
  lint_spec, lint_policy, rule_missing_fail_mode, collect, check_fail_mode,
  rule_verify_live_in_prod, check_verify_live, rule_full_text_evidence_under_pii, check_full_text,
  rule_streaming_incompatible_actions, is_streaming, rule_contradictory_guards, by_key,
}
use guard_x.Linter.Sound.{IsGoverned, lint_policy_sound}
use guard_x.Tests.Setup.{py}

abbrev guard : Json
guard =
    obj (
      of_entries
        (("id", str "g1") ∷ ("scenario", str "secrets") ∷ ("fail_mode", str "closed") ∷ []))

abbrev spec : Json
spec = obj (
    of_entries (
      ("applies_to", obj (of_entries (("environments", arr (of_list (str "prod" ∷ []))) ∷ [])))
      ∷ ("guards", arr (of_list (guard ∷ [])))
      ∷ []))

abbrev document : Json
document = obj (of_entries (("spec", spec) ∷ []))

spec_passes : lint_spec py spec ≡ ok []
unfolding lint_spec rule_missing_fail_mode default_fail_mode guards collect check_fail_mode
    rule_verify_live_in_prod envs check_verify_live rule_full_text_evidence_under_pii
    check_full_text rule_streaming_incompatible_actions is_streaming lower text_of
    rule_contradictory_guards by_key
spec_passes = refl

document_passes : lint_policy py document ≡ ok []
unfolding lint_policy
document_passes = rw spec_passes

lint_policy_sound_example :
    (s : Json) × (py.schema_errors document ≡ [])
    × (section "spec" document ≡ ok s)
    × IsGoverned py s
lint_policy_sound_example = lint_policy_sound py document [] document_passes refl
