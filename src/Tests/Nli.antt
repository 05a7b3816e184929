-- ===== src/Tests/Nli.antt =====
-- One claim that the judge supports.
use guard_x.Common.{str_eq, String, ◌≡◌, refl, true, false, none, List, [], ◌∷◌, All, map}
use guard_x.Common.Int.{pos}
use guard_x.Common.Float.{Float, finite, of_int}
use guard_x.Common.Float.Order.{IsFinite}
use guard_x.Common.Json.{Json, bool, float, obj, end, field}
use guard_x.Common.Result.{Result, ok, err, type_error}
use guard_x.Common.Text.{strip, join}
use guard_x.Nli.Segmenter.{Patterns, claims}
use guard_x.Nli.Check.{ContextDoc, NliResponse, score_claim, context_text, check_answer}
use guard_x.Nli.Sound.{IsGrounded, check_answer-IsGrounded}
use guard_x.Tests.Setup.{value_or}

abbrev patterns : Patterns
patterns = record {
  split_sentences = λ s. s ∷ [];
  split_conjunctions = λ s. none;
  looks_propositional = λ s. true;
}

abbrev as_float : Json → Result Float
as_float (float x) = ok x
as_float _ = err type_error

abbrev keep_sub : Float → Float → Float
keep_sub a b = b

abbrev judge_answer : String → String → Result Json
judge_answer context claim = ok (
    obj (
      field "supported" (bool true) (
        field "score" (float (finite (pos 3) 2))
          (field "confidence" (float (finite (pos 1) 1)) end))))

abbrev docs : List ContextDoc
docs = record { id = "d1"; text = "The rate is 5 percent." } ∷ []

abbrev reply : String
reply = "The rate is 5 percent."

unfoldable nli_response : NliResponse
unfolding check_answer
nli_response =
    value_or
      (record {
        score = of_int (pos 0);
        verdict = "";
        spans = [];
        explanation = "";
        per_claim = [];
      })
      (check_answer patterns as_float keep_sub (λ x. "") reply (obj end) docs judge_answer)

nli_response_lem :
    check_answer patterns as_float keep_sub (λ x. "") reply (obj end) docs judge_answer
    ≡ ok nli_response
unfolding check_answer nli_response
nli_response_lem = refl

passes : nli_response.verdict ≡ "PASS"
unfolding nli_response
passes = refl

context_given : str_eq (context_text docs) "" ≡ false
unfolding strip join
context_given = refl

scores-IsFinite :
    All
      (λ c. IsFinite c.score)
      (map
        (score_claim patterns as_float keep_sub (λ x. "") (judge_answer (context_text docs)))
        (claims patterns reply))
unfolding claims
scores-IsFinite = ((pos 3, 2, refl), tt)

check_answer-IsGrounded_example :
    All
      (IsGrounded patterns as_float keep_sub
        (λ x. "")
        (judge_answer (context_text docs))
        (finite (pos 1) 1))
      (claims patterns reply)
check_answer-IsGrounded_example =
    check_answer-IsGrounded patterns as_float keep_sub (λ x. "") reply (obj end) docs judge_answer
      (finite (pos 1) 1) nli_response context_given refl (pos 1, 1, refl) scores-IsFinite
      nli_response_lem passes
