-- ===== src/Nli/Check.antt =====
-- service.py: the check of an answer. The judge's answer on a claim, `float` and the rounding of a
-- difference are parameters; an exception of the judge, its timeout included, is an error of `evaluate`.
use Prim.Native.String
use guard_x.Common.{
  ℕ, zero, suc, ◌+◌, String, Bool, true, false, not, ◌||◌, Option, none, some, List, [], ◌∷◌, any,
  map, filter, length, str_eq, if◌then◌else◌,
}
use guard_x.Common.Int.{pos}
use guard_x.Common.Float
use guard_x.Common.Float.{Float, of_int, finite}
use guard_x.Common.Json.{Json, Items, bool, float, str, arr, nil, cons, truthy}
use guard_x.Common.Result.{Result, ok, err, type_error, ◌>>=◌}
use guard_x.Common.Text.{◌<>◌, dec, find_in, join, strip, text_len}
use guard_x.Linter.Document.{get_default}
use guard_x.Nli.Segmenter.{Patterns, claims}

-- `ContextDoc`
pub record ContextDoc : Type 0 where
  pub id : String
  pub text : String

-- An entry of `per_claim`; `failed` stands for an error that is not None.
pub record ClaimScore : Type 0 where
  pub claim : String
  pub supported : Bool
  pub score : Float
  pub evidence : Json
  pub confidence : Float
  pub failed : Bool

-- `SpanOut`
pub record ClaimSpan : Type 0 where
  pub start : ℕ
  pub stop : ℕ
  pub label : String
  pub confidence : Float

-- `CheckResponse` without its version and its latency.
pub record NliResponse : Type 0 where
  pub score : Float
  pub verdict : String
  pub spans : List ClaimSpan
  pub explanation : String
  pub per_claim : List ClaimScore

-- f"[{c.id or 'doc'}] {c.text}"
abbrev pub doc_text : ContextDoc → String
doc_text c = "[" <> (if str_eq c.id "" then "doc" else c.id) <> "] " <> c.text

abbrev pub context_text : List ContextDoc → String
context_text docs = strip (join "\n\n" (map doc_text docs))

unfoldable pub take_items : ℕ → Items → Items
take_items zero xs = nil
take_items (suc n) nil = nil
take_items (suc n) (cons x xs) = cons x (take_items n xs)

-- `v[:200]`
abbrev pub first_200 : Json → Result Json
first_200 (str s) = ok (str (String.slice s 0 200))
first_200 (arr xs) = ok (arr (take_items 200 xs))
first_200 _ = err type_error

abbrev zero_float : Float
zero_float = of_int (pos 0)

abbrev response : Float → String → String → NliResponse
response score verdict explanation = record {
  score = score;
  verdict = verdict;
  spans = [];
  explanation = explanation;
  per_claim = [];
}

-- `min(per_claim, key=...)`, from its first element on.
unfoldable pub weakest_from : ClaimScore → List ClaimScore → ClaimScore
weakest_from m [] = m
weakest_from m (c ∷ cs) = weakest_from (if Float.lt c.score m.score then c else m) cs

-- `text.find(claim, cursor)`, and from the start if it is not found.
abbrev pub find_claim : String → String → ℕ → Option ℕ
find_claim text claim cursor = elim (find_in claim cursor 0 text) [
  | some at ↦ some at
  | none ↦ find_in claim 0 0 text
]

module _ (patterns : Patterns) (float_of : Json → Result Float) (sub : Float → Float → Float)
    (fixed2 : Float → String) where
  -- What `_score` reads off the judge's answer.
  abbrev pub read_answer : String → Json → Result ClaimScore
  read_answer claim p = get_default "supported" (bool false) p >>= λ supported.
      get_default "score" (float zero_float) p >>= float_of >>= λ score.
      get_default "evidence" (str "") p >>= first_200 >>= λ evidence.
      get_default "confidence" (float zero_float) p >>= float_of >>= λ confidence. ok (record {
        claim = claim;
        supported = truthy supported;
        score = score;
        evidence = evidence;
        confidence = confidence;
        failed = false;
      })

  abbrev pub or_unsupported : String → Result ClaimScore → ClaimScore
  or_unsupported claim (ok c) = c
  or_unsupported claim (err e) = record {
    claim = claim;
    supported = false;
    score = zero_float;
    evidence = str "";
    confidence = zero_float;
    failed = true;
  }

  -- `_score`
  abbrev pub score_claim : (String → Result Json) → String → ClaimScore
  score_claim evaluate claim = or_unsupported claim (evaluate claim >>= read_answer claim)

  -- The loop that makes the spans.
  unfoldable pub claim_spans : String → ℕ → List ClaimScore → List ClaimSpan
  unfolding find_in
  claim_spans text cursor [] = []
  claim_spans text cursor (pc ∷ pcs) = elim (find_claim text pc.claim cursor) [
    | none ↦ claim_spans text cursor pcs
    | some idx ↦
        let stop = idx + text_len pc.claim in
        let rest = claim_spans text stop pcs in
        if pc.supported
        then rest
        else record {
          start = idx;
          stop = stop;
          label = "ungrounded";
          confidence = sub (of_int (pos 1)) pc.score;
        }
          ∷ rest
  ]

  abbrev pub is_unsupported : ClaimScore → Bool
  is_unsupported pc = not pc.supported

  -- The answer for claims that are scored.
  unfoldable pub judged : String → Float → ClaimScore → List ClaimScore → NliResponse
  unfolding claim_spans weakest_from dec
  judged text threshold first others =
      let per_claim = first ∷ others in
      let weakest = weakest_from first others in
      let strict = any is_unsupported per_claim in
      record {
        score = weakest.score;
        verdict = if strict || Float.lt weakest.score threshold then "FAIL" else "PASS";
        spans = claim_spans text 0 per_claim;
        explanation =
            dec (length (filter is_unsupported per_claim))
            <> "/"
            <> dec (length per_claim)
            <> " unsupported; weakest claim scored "
            <> fixed2 weakest.score;
        per_claim = per_claim;
      }

  abbrev pub check_claims :
      String → Json → (String → Result Json) → List String → Result NliResponse
  check_claims text config evaluate [] =
      ok (response (of_int (pos 1)) "PASS" "no verifiable claims found")
  check_claims text config evaluate (c ∷ cs) =
      get_default "threshold" (float (finite (pos 1) 1)) config >>= float_of >>= λ threshold.
      ok (judged text threshold (score_claim evaluate c) (map (score_claim evaluate) cs))

  -- `check`, with the judge's answers given the context and a claim.
  unfoldable pub check_answer :
      String → Json → List ContextDoc → (String → String → Result Json) → Result NliResponse
  unfolding judged claims strip join
  check_answer text config context evaluate =
      get_default "requires_context" (bool true) config >>= λ requires_context.
      let given = context_text context in
      let checked = check_claims text config (evaluate given) (claims patterns text) in
      if str_eq given ""
      then ok (
          if truthy requires_context
          then response zero_float "NEEDS_ESCALATION" "ungroundable: no context supplied"
          else response zero_float "PASS" "no context; requires_context=false")
      else checked
