-- ===== src/Automation/Grid.antt =====
-- autotuner/tuner.py: the loop over the grid of thresholds keeps the best recommendation.
use mathlib.Core.Option.{some-injective}
use mathlib.Core.Path.{subst}
use guard_x.Common.{
  ℕ, zero, suc, ◌≤◌, ◌≡◌, refl, sym, ◌∙◌, ◌⊎◌, inl, inr, true, false, Option, none, some, List, [],
  ◌∷◌, arith, All, Bool-cases, if◌then◌else◌,
}
use guard_x.Common.Float
use guard_x.Common.Float.{geq, Float}
use guard_x.Common.Float.Order.{lt_trans, not_lt_self}
use guard_x.Automation.Threshold.{
  FloatOps, Sample, ThresholdRecommendation, recommend, fn_ceiling, improves, is_better, better,
  search_loop,
}

-- The value is one of the list.
abbrev pub IsOn : Float → List Float → Type 0
IsOn t [] = ⊥
IsOn t (x ∷ xs) = (t ≡ x) ⊎ IsOn t xs

module _ (ops : FloatOps) where
  -- The values from `t` in steps, in at most so many turns, up to the first one that is beyond `hi`.
  unfoldable pub grid : Float → Float → ℕ → Float → List Float
  grid hi step zero t = []
  grid hi step (suc n) t =
      let rest = grid hi step n (ops.add t step) in if geq hi t then t ∷ rest else []

  -- The value of `t` after so many turns.
  unfoldable pub advanced : Float → ℕ → Float → Float
  advanced step zero t = t
  advanced step (suc n) t = advanced step n (ops.add t step)

  -- The rate of false positives falls, also at the upper end of its interval, and the rate of false
  -- negatives is within the ceiling.
  abbrev pub Improves : ThresholdRecommendation → Type 0
  Improves r =
      (Float.lt r.fp_rate_after r.fp_rate_before ≡ true)
      × (geq (fn_ceiling ops) r.fn_rate_after ≡ true)
      × (Float.lt r.fp_ci_after.1 r.fp_rate_before ≡ true)

  Improves-of_improves : (r : ThresholdRecommendation) → improves ops r ≡ true → Improves r
  Improves-of_improves r h = ground arith

  not_improves : (r : ThresholdRecommendation) → improves ops r ≡ false → ¬ Improves r
  not_improves r h (a, b, c) = ground arith

  module _ (samples : List Sample) (current : Float) where
    -- The recommendation of the threshold `t` is no improvement, or has no lower rate of false
    -- positives than the best one.
    abbrev pub IsNoBetter : Option ThresholdRecommendation → Float → Type 0
    IsNoBetter none t = ¬ Improves (recommend ops samples current t)
    IsNoBetter (some b) t = ¬ (
        Improves (recommend ops samples current t)
        × (Float.lt (recommend ops samples current t).fp_rate_after b.fp_rate_after ≡ true))

    -- A recommendation is that of one of the thresholds, and improves.
    abbrev pub IsFound : List Float → Option ThresholdRecommendation → Type 0
    IsFound ts none = Unit
    IsFound ts (some r) =
        (t : Float) × IsOn t ts × (r ≡ recommend ops samples current t) × Improves r

    abbrev Keeps : Option ThresholdRecommendation → Option ThresholdRecommendation → Type 0
    Keeps best best' = (x : Float) → IsNoBetter best x → IsNoBetter best' x

    Keeps-some :
        (r : ThresholdRecommendation) (best : Option ThresholdRecommendation)
        → is_better ops r best ≡ true
        → Keeps best (some r)
    Keeps-some r none m x h (a, b) = h a
    Keeps-some r (some b) m x h (a, l) = h (
      a,
      lt_trans (recommend ops samples current x).fp_rate_after r.fp_rate_after b.fp_rate_after l m,
    )

    IsNoBetter-of_not_better :
        (best : Option ThresholdRecommendation) (t : Float)
        → is_better ops (recommend ops samples current t) best ≡ false
        → IsNoBetter best t
    IsNoBetter-of_not_better none t m = cc
    IsNoBetter-of_not_better (some b) t m = λ p. cc (p.1)

    IsNoBetter-of_not_improves :
        (best : Option ThresholdRecommendation) (t : Float)
        → improves ops (recommend ops samples current t) ≡ false
        → IsNoBetter best t
    IsNoBetter-of_not_improves none t m = not_improves (recommend ops samples current t) m
    IsNoBetter-of_not_improves (some b) t m =
        λ p. not_improves (recommend ops samples current t) m p.0

    -- One turn: the best one is kept or is that of this turn, it is no worse than before, and the
    -- recommendation of this turn is no better.
    better_lem :
        (t : Float) (best : Option ThresholdRecommendation)
        → let best' = better ops (recommend ops samples current t) best in
          ((best' ≡ best) ⊎ IsFound (t ∷ []) best') × Keeps best best' × IsNoBetter best' t
    better_lem t best =
        let r = recommend ops samples current t in
        elim (Bool-cases (improves ops r)) [
          | inl good ↦ elim (Bool-cases (is_better ops r best)) [
            | inl more ↦
                rw (good, more)
                  (
                    inr (t, inl refl, refl, Improves-of_improves r good),
                    Keeps-some r best more,
                    λ p. cc (p.1, not_lt_self r.fp_rate_after),
                  )
            | inr less ↦ rw (good, less) (inl refl, λ x h. h, IsNoBetter-of_not_better best t less)
          ]
          | inr bad ↦ rw bad (inl refl, λ x h. h, IsNoBetter-of_not_improves best t bad)
        ]

    -- What the loop has found: what it had, or the recommendation of a value of its grid that
    -- improves; and no value of the grid has a better one.
    abbrev pub IsBest :
        List Float → Option ThresholdRecommendation → Option ThresholdRecommendation → Type 0
    IsBest ts best found =
        ((found ≡ best) ⊎ IsFound ts found) × Keeps best found × All (IsNoBetter found) ts

    IsFound-cons :
        (t : Float) (ts : List Float) (o : Option ThresholdRecommendation)
        → IsFound ts o
        → IsFound (t ∷ ts) o
    IsFound-cons t ts none h = tt
    IsFound-cons t ts (some r) (x, on, e, i) = (x, inr on, e, i)

    IsFound-head :
        (t : Float) (ts : List Float) (o : Option ThresholdRecommendation)
        → IsFound (t ∷ []) o
        → IsFound (t ∷ ts) o
    IsFound-head t ts none h = tt
    IsFound-head t ts (some r) (x, inl e', e, i) = (x, inl e', e, i)
    IsFound-head t ts (some r) (x, inr on, e, i) = absurd on

    IsFound-step :
        (t : Float) (ts : List Float) (best best' found : Option ThresholdRecommendation)
        → (best' ≡ best) ⊎ IsFound (t ∷ []) best'
        → (found ≡ best') ⊎ IsFound ts found
        → (found ≡ best) ⊎ IsFound (t ∷ ts) found
    IsFound-step t ts best best' found s (inr f) = inr (IsFound-cons t ts found f)
    IsFound-step t ts best best' found (inl e) (inl e') = inl (e' ∙ e)
    IsFound-step t ts best best' found (inr f) (inl e) =
        inr (subst (IsFound (t ∷ ts)) (sym e) (IsFound-head t ts best' f))

    stopped-IsBest :
        (best found : Option ThresholdRecommendation)
        → some best ≡ some found
        → IsBest [] best found
    stopped-IsBest best found e =
        subst (IsBest [] best) (some-injective _ _ e) (inl refl, λ x h. h, tt)

    pub search_loop-IsBest :
        (hi step : Float) (n : ℕ) (t : Float) (best found : Option ThresholdRecommendation)
        → search_loop ops samples current hi step n t best ≡ some found
        → IsBest (grid hi step n t) best found
    unfolding search_loop grid
    search_loop-IsBest hi step zero t best found e = elim (Bool-cases (geq hi t)) [
      | inl more ↦ cc (rw more at e)
      | inr stop ↦ stopped-IsBest best found (rw stop at e)
    ]
    search_loop-IsBest hi step (suc n) t best found e = elim (Bool-cases (geq hi t)) [
      | inl more ↦
          let best' = better ops (recommend ops samples current t) best in
          let (s, k, nb) = better_lem t best in
          let (s', k', all) =
            search_loop-IsBest hi step n (ops.add t step) best' found (rw more at e) in
          rw more (
            IsFound-step t (grid hi step n (ops.add t step)) best best' found s s',
            λ x h. k' x (k x h),
            (k' t nb, all),
          )
      | inr stop ↦ rw stop (stopped-IsBest best found (rw stop at e))
    ]

    pub search_loop_total :
        (hi step : Float) (turns n : ℕ) (t : Float) (best : Option ThresholdRecommendation)
        → n ≤ turns
        → geq hi (advanced step n t) ≡ false
        → (found : Option ThresholdRecommendation) × (search_loop ops samples current hi step turns
              t best
            ≡ some found)
    unfolding search_loop advanced
    search_loop_total hi step zero zero t best l h = (best, rw h)
    search_loop_total hi step zero (suc n) t best l h = ground arith
    search_loop_total hi step (suc turns) zero t best l h = (best, rw h)
    search_loop_total hi step (suc turns) (suc n) t best l h = elim (Bool-cases (geq hi t)) [
      | inl more ↦
          let (found, e) =
            search_loop_total hi step turns n (ops.add t step)
              (better ops (recommend ops samples current t) best) (omega (arith, l)) h in
          (found, rw more e)
      | inr stop ↦ (best, rw stop)
    ]
