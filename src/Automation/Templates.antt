-- ===== src/Automation/Templates.antt =====
-- synthesizer/synth.py: the tables of severities and of detector templates.
use guard_x.Common.{String, true, Option, none, some, List, [], ◌∷◌}
use guard_x.Common.Int.{pos}
use guard_x.Common.Float.{Float, finite}
use guard_x.Common.Json.{Json, Fields, bool, str, obj, end, field}

-- A row of `_SEVERITY_TABLE`.
pub record SeverityRow : Type 0 where
  pub threshold : Float
  pub on_fail_override : Option String

-- The thresholds are the doubles nearest to 0.85, 0.75 and 0.65.
abbrev pub severity_table : List (String × SeverityRow)
severity_table =
    ("low", record { threshold = finite (pos 7656119366529843) 53; on_fail_override = none })
    ∷ ("medium", record { threshold = finite (pos 3) 2; on_fail_override = none })
    ∷ (
      "high",
      record { threshold = finite (pos 5854679515581645) 53; on_fail_override = some "block" },
    )
    ∷ []

-- An entry of `_TEMPLATES`.
pub record Template : Type 0 where
  pub detector : String
  pub config : Json
  pub evidence : String

abbrev spans_template : String → Fields → Template
spans_template detector config = record {
  detector = detector;
  config = obj config;
  evidence = "spans";
}

abbrev pub templates : List (String × Template)
templates =
    (
      "pii",
      spans_template "presidio-ensemble@1.4.0"
          (field "entity_pack" (str "financial-us@2.1") (field "language" (str "en") end)),
    )
    ∷ ("secrets", spans_template "secretscan@0.1.0" end)
    ∷ (
      "content_safety",
      spans_template "safety-ensemble@1.3.0" (field "rubric" (str "safety_llamaguard@1.0.0") end),
    )
    ∷ (
      "hallucination",
      spans_template "nli-groundedness@2.1.0" (
          field "rubric" (str "nli_groundedness@1.0.0") (field "requires_context" (bool true) end)),
    )
    ∷ []
