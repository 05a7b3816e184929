-- ===== src/Nli/Sound.antt =====
-- service.py: an answer that passes is supported claim by claim.
use mathlib.Core.Path.{subst}
use guard_x.Common.{
  ◌≡◌, refl, sym, ap, ◌∙◌, inl, inr, String, Bool, true, false, ◌||◌, List, [], ◌∷◌, arith, All,
  Bool-cases, any, map, str_eq, if◌then◌else◌,
}
use guard_x.Common.Int.{pos}
use guard_x.Common.Float
use guard_x.Common.Float.{Float, finite}
use guard_x.Common.Float.Order.{IsFinite, not_lt_trans, lt_asym, lt_irrefl}
use guard_x.Common.Json.{Json, bool, float}
use guard_x.Common.Result.{Result, ok, Result-cases, ◌>>=◌, >>=-eq-ok, ok-injective}
use guard_x.Linter.Document.{get_default}
use guard_x.Nli.Segmenter.{Patterns, claims}
use guard_x.Nli.Check.{
  ContextDoc, ClaimScore, NliResponse, context_text, weakest_from, read_answer, score_claim,
  is_unsupported, judged, check_claims, check_answer,
}

-- `v` is a number that no score is below.
abbrev IsLower : Float → ClaimScore → List ClaimScore → Type 0
IsLower v m cs =
    IsFinite v × ((Float.lt m.score v ≡ false) × All (λ c. Float.lt c.score v ≡ false) cs)

weakest_from-IsLower :
    (m : ClaimScore) (cs : List ClaimScore)
    → IsFinite m.score
    → All (λ c. IsFinite c.score) cs
    → IsLower (weakest_from m cs).score m cs
unfolding weakest_from
weakest_from-IsLower m [] f h = (f, (lt_irrefl m.score f, tt))
weakest_from-IsLower m (c ∷ cs) f h = elim (Bool-cases (Float.lt c.score m.score)) [
  | inl less ↦
      let e : weakest_from m (c ∷ cs) ≡ weakest_from c cs = rw less in
      let (a, (b, d)) = weakest_from-IsLower c cs h.0 h.1 in
      subst (λ w. IsLower w.score m (c ∷ cs)) (sym e)
        (
          a,
          (
            not_lt_trans (weakest_from c cs).score c.score m.score a h.0 f b
                (lt_asym c.score m.score h.0 f less),
            (b, d),
          ),
        )
  | inr more ↦
      let e : weakest_from m (c ∷ cs) ≡ weakest_from m cs = rw more in
      let (a, (b, d)) = weakest_from-IsLower m cs f h.1 in
      subst (λ w. IsLower w.score m (c ∷ cs)) (sym e)
        (a, (b, (not_lt_trans (weakest_from m cs).score m.score c.score a f h.0 b more, d)))
]

abbrev verdict_of : Bool → String
verdict_of t = if t then "FAIL" else "PASS"

verdict_test : (t : Bool) → verdict_of t ≡ "PASS" → t ≡ false
verdict_test true h = sym (ap (λ s. str_eq s "PASS") h)
verdict_test false h = refl

or_false : (a b : Bool) → (a || b) ≡ false → (a ≡ false) × (b ≡ false)
or_false a b h = ground arith

module _ (patterns : Patterns) (float_of : Json → Result Float) (sub : Float → Float → Float)
    (fixed2 : Float → String) where
  -- The judge has answered on the claim, and its answer supports it with no score below the threshold.
  abbrev pub IsGrounded : (String → Result Json) → Float → String → Type 0
  IsGrounded evaluate threshold claim =
      (p : Json) × (answer : ClaimScore) × (evaluate claim ≡ ok p)
      × (read_answer patterns float_of sub fixed2 claim p ≡ ok answer)
      × (answer.supported ≡ true)
      × (Float.lt answer.score threshold ≡ false)

  abbrev scored : (String → Result Json) → String → ClaimScore
  scored evaluate claim = score_claim patterns float_of sub fixed2 evaluate claim

  IsGrounded-of_scored :
      (evaluate : String → Result Json) (threshold : Float) (claim : String)
      → (scored evaluate claim).supported ≡ true
      → Float.lt (scored evaluate claim).score threshold ≡ false
      → IsGrounded evaluate threshold claim
  IsGrounded-of_scored evaluate threshold claim s l =
      elim (Result-cases (evaluate claim >>= read_answer patterns float_of sub fixed2 claim)) [
        | inl (answer, e) ↦
            let (p, e1, e2) =
              >>=-eq-ok (evaluate claim) (read_answer patterns float_of sub fixed2 claim) e in
            (p, answer, e1, e2, (rw e at s), (rw e at l))
        | inr (exc, e) ↦ cc (rw e at s)
      ]

  all-IsGrounded :
      (evaluate : String → Result Json) (threshold low : Float) (cs : List String)
      → IsFinite threshold
      → IsFinite low
      → Float.lt low threshold ≡ false
      → All (λ c. IsFinite c.score) (map (scored evaluate) cs)
      → All (λ c. Float.lt c.score low ≡ false) (map (scored evaluate) cs)
      → any (is_unsupported patterns float_of sub fixed2) (map (scored evaluate) cs) ≡ false
      → All (IsGrounded evaluate threshold) cs
  all-IsGrounded evaluate threshold low [] f g l h b u = tt
  all-IsGrounded evaluate threshold low (c ∷ cs) f g l h b u =
      elim (Bool-cases (scored evaluate c).supported) [
        | inl yes_c ↦ (
          IsGrounded-of_scored evaluate threshold c yes_c
              (not_lt_trans threshold low (scored evaluate c).score f g h.0 l b.0),
          all-IsGrounded evaluate threshold low cs f g l h.1 b.1 (rw yes_c at u),
        )
        | inr no_c ↦ cc (rw no_c at u)
      ]

  judged-IsGrounded :
      (text : String) (evaluate : String → Result Json) (threshold : Float) (c : String)
      (cs : List String)
      → IsFinite threshold
      → All (λ x. IsFinite x.score) (map (scored evaluate) (c ∷ cs))
      → (judged patterns float_of sub fixed2 text threshold
          (scored evaluate c)
          (map (scored evaluate) cs)).verdict
        ≡ "PASS"
      → All (IsGrounded evaluate threshold) (c ∷ cs)
  unfolding judged
  judged-IsGrounded text evaluate threshold c cs f h passes =
      let first = scored evaluate c in
      let others = map (scored evaluate) cs in
      let weakest = weakest_from first others in
      let (g, (b, d)) = weakest_from-IsLower first others h.0 h.1 in
      let (all_supported, above) =
        or_false (any (is_unsupported patterns float_of sub fixed2) (first ∷ others))
          (Float.lt weakest.score threshold) (verdict_test _ passes) in
      all-IsGrounded evaluate threshold weakest.score (c ∷ cs) f g above h (b, d) all_supported

  check_claims-IsGrounded :
      (text : String) (config : Json) (evaluate : String → Result Json) (threshold : Float)
      (r : NliResponse) (cs : List String)
      → (get_default "threshold" (float (finite (pos 1) 1)) config >>= float_of) ≡ ok threshold
      → IsFinite threshold
      → All (λ x. IsFinite x.score) (map (scored evaluate) cs)
      → check_claims patterns float_of sub fixed2 text config evaluate cs ≡ ok r
      → r.verdict ≡ "PASS"
      → All (IsGrounded evaluate threshold) cs
  check_claims-IsGrounded text config evaluate threshold r [] read f h e passes = tt
  check_claims-IsGrounded text config evaluate threshold r (c ∷ cs) read f h e passes =
      let (u, e1, e2) =
        >>=-eq-ok (get_default "threshold" (float (finite (pos 1) 1)) config >>= float_of) _ e in
      let same : u ≡ threshold = ok-injective (sym e1 ∙ read) in
      judged-IsGrounded text evaluate threshold c cs f h (
        ap
          (λ x.
            (judged patterns float_of sub fixed2 text x (scored evaluate c)
              (map (scored evaluate) cs)).verdict)
          (sym same)
        ∙ ap (λ q. q.verdict) (ok-injective e2)
        ∙ passes)

-- An answer with a context that passes is grounded claim by claim: on each of its claims the judge has
-- answered that the context supports it, with a score that is not below the threshold, where the scores
-- and the threshold are numbers.
pub check_answer-IsGrounded :
    (patterns : Patterns) (float_of : Json → Result Float) (sub : Float → Float → Float)
    (fixed2 : Float → String) (text : String) (config : Json) (context : List ContextDoc)
    (evaluate : String → String → Result Json) (threshold : Float) (r : NliResponse)
    → str_eq (context_text context) "" ≡ false
    → (get_default "threshold" (float (finite (pos 1) 1)) config >>= float_of) ≡ ok threshold
    → IsFinite threshold
    → All
        (λ c. IsFinite c.score)
        (map
          (score_claim patterns float_of sub fixed2 (evaluate (context_text context)))
          (claims patterns text))
    → check_answer patterns float_of sub fixed2 text config context evaluate ≡ ok r
    → r.verdict ≡ "PASS"
    → All
        (IsGrounded patterns float_of sub fixed2 (evaluate (context_text context)) threshold)
        (claims patterns text)
unfolding check_answer
check_answer-IsGrounded patterns float_of sub fixed2 text config context evaluate threshold r given
      read f h e passes =
    let (requires, e1, e2) = >>=-eq-ok (get_default "requires_context" (bool true) config) _ e in
    check_claims-IsGrounded patterns float_of sub fixed2 text config
      (evaluate (context_text context)) threshold r (claims patterns text) read f h (rw given at e2)
      passes
