-- ===== src/Safety/Check.antt =====
-- service.py: the check of a text. What the judge gives is an argument; `float` is a parameter.
use guard_x.Common.{
  ℕ, String, not, Option, none, some, List, [], ◌∷◌, any, elem, filter, map, str_eq, if◌then◌else◌,
}
use guard_x.Common.Int.{pos}
use guard_x.Common.Float.{Float, of_int, finite, geq}
use guard_x.Common.Json.{
  Json, Fields, float, str, obj, end, field, get, put, entries, or_json, numeric,
}
use guard_x.Common.Result.{Result, ok, err, attribute_error, type_error, or_raise, ◌>>=◌}
use guard_x.Common.Sort.{sort_by}
use guard_x.Common.Text.{
  ◌<>◌, begins_with, contains, join, lines_of, lower, split_all, strip, text_len, text_lt, upper,
}
use guard_x.Platform.{Platform}
use guard_x.Linter.Document.{as_text, get_default, text_of}
use guard_x.Nli.Check.{first_200}

-- What the check reads of a rubric.
pub record Rubric : Type 0 where
  pub model : Json
  pub extras : Json

-- What the call of the judge ends in.
pub data JudgeOutcome : Type 0 where
  timed_out : JudgeOutcome
  raised : String → JudgeOutcome
  answered : String → Json → String → JudgeOutcome

-- `SpanOut`
pub record SafetySpan : Type 0 where
  pub start : ℕ
  pub stop : ℕ
  pub label : String
  pub confidence : Float

-- `CheckResponse` without its version and its latency.
pub record SafetyResponse : Type 0 where
  pub score : Float
  pub verdict : String
  pub spans : List SafetySpan
  pub explanation : String
  pub categories : List (String × Float)
  pub provider : String

-- `_HARD_SIGNALS`
abbrev pub hard_signals : List (String × List String)
hard_signals =
    ("self_harm", "how to end my life" ∷ "kill myself" ∷ [])
    ∷ ("weapons", "how to build a pipe bomb" ∷ "how to make a bomb" ∷ [])
    ∷ ("illegal", "how to launder money" ∷ "how to commit fraud" ∷ [])
    ∷ []

unfoldable pub first_signal : String → List (String × List String) → Option String
unfolding contains
first_signal lo [] = none
first_signal lo ((cat, needles) ∷ signals) =
    let rest = first_signal lo signals in
    if any (λ n. contains n lo) needles then some cat else rest

-- `layer1_predict`; its score is 0.95 where it finds a category.
unfoldable pub layer1_predict : String → Option String
unfolding first_signal lower
layer1_predict text = first_signal (lower text) hard_signals

-- The double nearest to 0.95.
abbrev pub hard_score : Float
hard_score = finite (pos 4278419646001971) 52

abbrev pub guard_answer : String → Float → Fields → String → Json
guard_answer verdict score categories reason = obj (
    field "verdict" (str verdict) (
      field "score" (float score)
        (field "categories" (obj categories) (field "reason" (str reason) end))))

-- The loop over the categories of the second line.
unfoldable pub add_categories : List String → Fields → Fields
unfolding strip upper
add_categories [] cats = cats
add_categories (tok ∷ toks) cats =
    let name = upper (strip tok) in
    add_categories toks (if str_eq name "" then cats else put name (float (of_int (pos 1))) cats)

abbrev second_line : List String → String
second_line [] = ""
second_line (l ∷ ls) = l

abbrev unsafe_answer : Fields → Json
unsafe_answer end = guard_answer "FAIL" (finite (pos 1) 1) end "unsafe (no categories)"
unsafe_answer (field k v cats) = guard_answer "FAIL" (of_int (pos 1)) (field k v cats) (
    "unsafe categories: "
    <> join ", " (sort_by text_lt (map (λ e. e.0) (entries (field k v cats)))))

-- The answer's lines, stripped and not empty.
abbrev answer_lines : String → List String
answer_lines raw = filter (λ l. not (str_eq l "")) (map strip (lines_of (strip raw)))

-- `_parse_llamaguard`
unfoldable pub parse_llamaguard : String → Json
unfolding add_categories lines_of lower strip split_all sort_by join
parse_llamaguard raw = elim (answer_lines raw) [
  | [] ↦ guard_answer "PASS" (of_int (pos 0)) end "empty"
  | l ∷ ls ↦
      if begins_with "safe" (lower l)
      then guard_answer "PASS" (of_int (pos 0)) end "safe"
      else unsafe_answer (add_categories (split_all 44 (second_line ls)) end)
]

-- `_parse_by_format`
unfoldable pub parse_by_format : String → String → Json → Json
unfolding parse_llamaguard
parse_by_format response_format raw parsed =
    if str_eq response_format "llamaguard" then parse_llamaguard raw else or_json parsed (obj end)

-- A verdict of the contract, or "PASS".
abbrev pub known_verdict : String → String
known_verdict v = if elem v ("PASS" ∷ "FAIL" ∷ "ERROR" ∷ "NEEDS_ESCALATION" ∷ []) then v else "PASS"

-- The threshold of a category.
abbrev pub threshold_of : Json → String → Result Float
threshold_of thresholds cat =
    get_default cat (float (finite (pos 1) 1)) thresholds >>= λ t. or_raise (numeric t) type_error

-- The categories that reach their thresholds.
unfoldable pub failing : Json → List (String × Float) → Result (List (String × Float))
failing thresholds [] = ok []
failing thresholds ((c, v) ∷ cats) = threshold_of thresholds c >>= λ t.
    failing thresholds cats >>= λ rest. ok (if geq v t then (c, v) ∷ rest else rest)

abbrev pub dict_entries : Json → Result (List (String × Json))
dict_entries (obj fs) = ok (entries fs)
dict_entries _ = err attribute_error

abbrev pub span_of : ℕ → String × Float → SafetySpan
span_of size (cat, v) = record { start = 0; stop = size; label = cat; confidence = v }

abbrev error_response : String → SafetyResponse
error_response explanation = record {
  score = of_int (pos 0);
  verdict = "ERROR";
  spans = [];
  explanation = explanation;
  categories = [];
  provider = "";
}

module _ (py : Platform) (float_of : Json → Result Float) where
  unfoldable pub category_scores : List (String × Json) → Result (List (String × Float))
  category_scores [] = ok []
  category_scores ((k, v) ∷ entries) =
      float_of v >>= λ x. category_scores entries >>= λ rest. ok ((k, x) ∷ rest)

  abbrev pub verdict_for : List (String × Float) → Json → String
  verdict_for [] own = known_verdict (upper (text_of py own))
  verdict_for (f ∷ fs) own = "FAIL"

  -- What follows the call of the judge.
  unfoldable pub judge_response :
      String → String → Json → String → String → Json → Result SafetyResponse
  unfolding parse_by_format category_scores failing upper text_of
  judge_response text response_format thresholds provider raw parsed0 =
      let parsed = parse_by_format response_format raw parsed0 in
      get "categories" parsed >>= λ cats. dict_entries (or_json cats (obj end)) >>= λ found.
      category_scores found >>= λ categories.
      get_default "score" (float (of_int (pos 0))) parsed >>= float_of >>= λ score.
      failing thresholds categories >>= λ fails.
      get_default "verdict" (str "PASS") parsed >>= λ own.
      get_default "reason" (str "") parsed >>= first_200 >>= as_text >>= λ reason. ok (record {
        score = score;
        verdict = verdict_for fails own;
        spans = map (span_of (text_len text)) fails;
        explanation = reason;
        categories = categories;
        provider = provider;
      })

  abbrev pub hard_response : String → String → SafetyResponse
  hard_response text cat = record {
    score = hard_score;
    verdict = "FAIL";
    spans = span_of (text_len text) (cat, hard_score) ∷ [];
    explanation = "layer1 heuristic matched category " <> py.repr (str cat);
    categories = (cat, hard_score) ∷ [];
    provider = "layer1";
  }

  abbrev pub outcome_response : String → String → Json → JudgeOutcome → Result SafetyResponse
  outcome_response text response_format thresholds timed_out = ok (error_response "judge timeout")
  outcome_response text response_format thresholds (raised e) =
      ok (error_response ("judge error: " <> e))
  outcome_response text response_format thresholds (answered raw parsed provider) =
      judge_response text response_format thresholds provider raw parsed

  -- The first layer's answer, or the judge's.
  abbrev pub signal_or : String → Option String → Result SafetyResponse → Result SafetyResponse
  signal_or text (some cat) judged = ok (hard_response text cat)
  signal_or text none judged = judged

  -- `check`, on the loaded rubric.
  unfoldable pub check_safety : String → Json → Rubric → JudgeOutcome → Result SafetyResponse
  unfolding layer1_predict judge_response lower text_of
  check_safety text config rubric outcome = get "response_format" rubric.model >>= λ f.
      get_default "response_format" (str "json_object") rubric.extras >>= λ g.
      get_default "category_thresholds" (obj end) config >>= λ thresholds.
      let response_format = lower (text_of py (or_json f g)) in
      let judged = outcome_response text response_format (or_json thresholds (obj end)) outcome in
      signal_or text (layer1_predict text) judged
