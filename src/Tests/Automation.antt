-- ===== src/Tests/Automation.antt =====
-- A feed for one secrets guard, and guards from three candidates.
use mathlib.Core.List.{Perm}
use guard_x.Common.{String, ◌≡◌, refl, false, List, [], ◌∷◌, All, filter}
use guard_x.Common.Json.{eq_json, Json, null, str, arr, obj, end, field, of_list}
use guard_x.Common.Result.{ok}
use guard_x.Automation.Gitleaks.{extend_guards}
use guard_x.Automation.Additive.{AreExtended, extend_guards-AreExtended}
use guard_x.Automation.Synth.{Candidate, SynthGuard, is_mapped, compile_guards}
use guard_x.Automation.Provenance.{provenances, IsSound, compile_guards-IsSound}
use guard_x.Tests.Setup.{value_or}

abbrev rule : String → String → Json
rule i regex = obj (field "id" (str i) (field "regex" (str regex) end))

abbrev secrets_guard : List Json → Json
secrets_guard rules = obj (
    field "scenario" (str "secrets")
      (field "config" (obj (field "extra_rules" (arr (of_list rules)) end)) end))

abbrev pii_guard : Json
pii_guard = obj (field "scenario" (str "pii") end)

abbrev feed : List Json
feed = rule "aws" "AKIA" ∷ rule "slack" "xox" ∷ []

abbrev guards_before : List Json
guards_before = pii_guard ∷ secrets_guard (rule "aws" "AKIA" ∷ []) ∷ []

abbrev guards_after : List Json
guards_after = pii_guard ∷ secrets_guard (rule "aws" "AKIA" ∷ rule "slack" "xox" ∷ []) ∷ []

extended_lem : extend_guards feed guards_before ≡ ok (guards_after, str "slack" ∷ [], false)
unfolding extend_guards eq_json
extended_lem = refl

extend_guards-AreExtended_example : AreExtended guards_before guards_after (str "slack" ∷ [])
extend_guards-AreExtended_example =
    extend_guards-AreExtended feed guards_before guards_after (str "slack" ∷ []) false extended_lem

abbrev candidate : Json → String → Candidate
candidate scenario severity = record {
  rule_text = "Mask card numbers.";
  source_anchor = null;
  scenario = scenario;
  direction = "output" ∷ [];
  on_fail = "redact";
  severity_hint = severity;
  notes = "";
}

abbrev some_candidates : List Candidate
some_candidates =
    candidate (str "pii") "low" ∷ candidate null "low" ∷ candidate (str "pii") "high" ∷ []

unfoldable guards_found : List SynthGuard
unfolding compile_guards
guards_found = value_or [] (compile_guards some_candidates)

guards_lem : compile_guards some_candidates ≡ ok guards_found
unfolding compile_guards guards_found
guards_lem = refl

compile_guards-IsSound_example :
    Perm (provenances guards_found) (filter is_mapped some_candidates) × All IsSound guards_found
compile_guards-IsSound_example = compile_guards-IsSound some_candidates guards_found guards_lem
