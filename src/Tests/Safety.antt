-- ===== src/Tests/Safety.antt =====
-- A text on which the judge scores two categories: one below the threshold of the config, and one below
-- the default.
use guard_x.Common.{[]}
use guard_x.Common.Int.{pos}
use guard_x.Common.Float.{Float, finite, of_int}
use guard_x.Common.Json.{Json, float, str, obj, end, field}
use guard_x.Common.Result.{Result, ok, err, type_error}
use guard_x.Safety.Check.{Rubric, JudgeOutcome, answered, SafetyResponse, check_safety}
use guard_x.Tests.Setup.{py, value_or}

abbrev num : Json → Result Float
num (float x) = ok x
num _ = err type_error

abbrev rubric : Rubric
rubric = record { model = obj (field "response_format" (str "JSON_object") end); extras = obj end }

abbrev config : Json
config =
    obj (field "category_thresholds" (obj (field "violence" (float (finite (pos 3) 2)) end)) end)

abbrev judged : JudgeOutcome
judged =
    answered "{}"
      (obj (
        field "categories"
          (obj (
            field "violence" (float (finite (pos 1) 1))
              (field "hate" (float (finite (pos 1) 2)) end)))
          (field "score" (float (finite (pos 1) 1)) end)))
      "together"

unfoldable safe_response : SafetyResponse
unfolding check_safety
safe_response =
    value_or
      (record {
        score = of_int (pos 0);
        verdict = "";
        spans = [];
        explanation = "";
        categories = [];
        provider = "";
      })
      (check_safety py num "hello" config rubric judged)
