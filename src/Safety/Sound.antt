-- ===== src/Safety/Sound.antt =====
-- service.py: what a text that passes has passed.
use guard_x.Common.{◌≡◌, ◌≢◌, String, false, some, List, [], ◌∷◌, All}
use guard_x.Common.Int.{pos}
use guard_x.Common.Float.{Float, finite, geq}
use guard_x.Common.Json.{Json, obj, end, float, str, get, numeric, or_json}
use guard_x.Common.Result.{Result, ok}
use guard_x.Platform.{Platform}
use guard_x.Common.Text.{lower, upper}
use guard_x.Linter.Document.{text_of, get_default}
use guard_x.Safety.Signals.{HasNoSignal}
use guard_x.Safety.Check.{
  Rubric, JudgeOutcome, answered, SafetyResponse, dict_entries, parse_by_format,
}

-- The score of the category does not reach the number that the thresholds have for it, or 0.5 where
-- they have none.
abbrev pub IsBelowThreshold : Json → String × Float → Type 0
IsBelowThreshold thresholds (cat, v) =
    (set : Json) × (t : Float) × (get_default cat (float (finite (pos 1) 1)) thresholds ≡ ok set)
    × (numeric set ≡ some t)
    × (geq v t ≡ false)

-- The judge's own verdict, in capitals, is none of the three that stop a text.
abbrev pub IsNoAlarm : String → Type 0
IsNoAlarm v = (v ≢ "FAIL") × (v ≢ "ERROR") × (v ≢ "NEEDS_ESCALATION")

module _ (py : Platform) (float_of : Json → Result Float) where
  -- The categories of the response are those of the answer, with their values as floats.
  abbrev pub AreScores : List (String × Json) → List (String × Float) → Type 0
  AreScores [] [] = Unit
  AreScores ((k, v) ∷ es) ((c, x) ∷ cs) = (c ≡ k) × (float_of v ≡ ok x) × AreScores es cs
  AreScores _ _ = ⊥

  -- The answer of the judge, in the form that the rubric asks for, and what is read of it: it has
  -- categories, whose scores the response repeats and which are all below their thresholds, and a
  -- verdict of its own, "PASS" by default, which is no alarm.
  abbrev pub IsPassed : Json → Json → SafetyResponse → Type 0
  IsPassed thresholds answer r =
      (cats : Json) × (found : List (String × Json)) × (own : Json) × (get "categories" answer
        ≡ ok cats)
      × (dict_entries (or_json cats (obj end)) ≡ ok found)
      × AreScores found r.categories
      × All (IsBelowThreshold thresholds) r.categories
      × (get_default "verdict" (str "PASS") answer ≡ ok own)
      × IsNoAlarm (upper (text_of py own))
      × (r.spans ≡ [])

  -- The text has no hard signal, the judge has answered on it, and the answer has passed.
  abbrev pub HasPassed : String → Json → String → JudgeOutcome → SafetyResponse → Type 0
  HasPassed text config response_format outcome r =
      (raw : String) × (parsed : Json) × (provider : String) × (thresholds : Json) × HasNoSignal
        text
      × (outcome ≡ answered raw parsed provider)
      × (get_default "category_thresholds" (obj end) config ≡ ok thresholds)
      × IsPassed (or_json thresholds (obj end)) (parse_by_format response_format raw parsed) r

  -- The format of the answer that the rubric's model names, or else its extras, or else
  -- "json_object", in small letters.
  abbrev pub HasFormat : Rubric → String → Type 0
  HasFormat rubric response_format =
      (f : Json) × (g : Json) × (get "response_format" rubric.model ≡ ok f)
      × (get_default "response_format" (str "json_object") rubric.extras ≡ ok g)
      × (response_format ≡ lower (text_of py (or_json f g)))
