-- ===== src/Automation/Improved.antt =====
-- autotuner/tuner.py: what the search for a threshold recommends.
use mathlib.Core.Path.{subst}
use guard_x.Common.{
  ℕ, ◌+◌, ◌≤◌, ◌≡◌, refl, sym, ◌⊎◌, inl, inr, Bool, true, false, not, Option, none, some, List, [],
  ◌∷◌, arith, All, Bool-cases, filter, length,
}
use guard_x.Common.Float
use guard_x.Common.Float.{geq, Float}
use guard_x.Automation.Threshold.{
  FloatOps, Sample, ThresholdRecommendation, rates, recommend, low_end, high_end, step_of, if_moved,
  has_samples, search_threshold, least_move,
}
use guard_x.Automation.Grid.{
  IsOn, grid, advanced, Improves, IsNoBetter, IsFound, IsBest, search_loop-IsBest,
  search_loop_total,
}

-- The samples of the label "positive", and the others.
abbrev pub positives : List Sample → List Sample
positives ss = filter (λ s. s.1) ss

abbrev pub negatives : List Sample → List Sample
negatives ss = filter (λ s. not s.1) ss

-- The negatives whose score reaches the threshold, and the positives whose score does not.
abbrev pub false_positives : Float → List Sample → ℕ
false_positives t ss = length (filter (λ s. geq s.0 t) (negatives ss))

abbrev pub false_negatives : Float → List Sample → ℕ
false_negatives t ss = length (filter (λ s. not (geq s.0 t)) (positives ss))

-- The four counts are those of the samples.
rates_lem :
    (samples : List Sample) (t : Float)
    → let r = rates samples t in
      (r.fp ≡ false_positives t samples)
      × (r.fn ≡ false_negatives t samples)
      × (r.tp + r.fn ≡ length (positives samples))
      × (r.fp + r.tn ≡ length (negatives samples))
unfolding rates
rates_lem [] t = (refl, refl, refl, refl)
rates_lem ((score, true) ∷ samples) t =
    let (a, b, c, d) = rates_lem samples t in
    elim (Bool-cases (geq score t)) [
      | inl fired ↦ rw fired (a, b, omega (arith, c), d)
      | inr passed ↦ rw passed (a, omega (arith, b), omega (arith, c), d)
    ]
rates_lem ((score, false) ∷ samples) t =
    let (a, b, c, d) = rates_lem samples t in
    elim (Bool-cases (geq score t)) [
      | inl fired ↦ rw fired (omega (arith, a), b, c, omega (arith, d))
      | inr passed ↦ rw passed (a, b, c, omega (arith, d))
    ]

-- There are 20 samples, with 10 of each label.
abbrev pub HasSamples : List Sample → Type 0
HasSamples samples =
    (20 ≤ length samples) × (10 ≤ length (positives samples)) × (10 ≤ length (negatives samples))

module _ (ops : FloatOps) where
  has_samples-HasSamples :
      (samples : List Sample) (current : Float)
      → has_samples ops samples (rates samples current) ≡ true
      → HasSamples samples
  has_samples-HasSamples samples current h =
      let (_, _, c, d) = rates_lem samples current in ground (arith, h, c, d)

  not_has_samples :
      (samples : List Sample) (current : Float)
      → has_samples ops samples (rates samples current) ≡ false
      → ¬ HasSamples samples
  not_has_samples samples current h (l, p, n) =
      let (_, _, c, d) = rates_lem samples current in ground (arith, h, c, d, l, p, n)

  -- The values of the loop `while t <= hi`.
  abbrev pub candidates : ℕ → Float → List Float
  candidates turns current =
      grid ops (high_end ops current) (step_of ops (low_end ops current) (high_end ops current))
        turns (low_end ops current)

  -- The proposed threshold is nearer to the current one than 0.005.
  abbrev pub is_near : Float → ThresholdRecommendation → Bool
  is_near current r = Float.lt (ops.abs (ops.sub r.proposed_threshold current)) (least_move ops)

  -- The recommendation counts the errors of its own threshold and of the current one.
  abbrev pub IsCounted : List Sample → Float → Float → ThresholdRecommendation → Type 0
  IsCounted samples current t r =
      (r.proposed_threshold ≡ ops.round3 t)
      × (r.current_threshold ≡ current)
      × (r.fp_before ≡ false_positives current samples)
      × (r.fn_before ≡ false_negatives current samples)
      × (r.fp_after ≡ false_positives t samples)
      × (r.fn_after ≡ false_negatives t samples)

  recommend-IsCounted :
      (samples : List Sample) (current t : Float)
      → IsCounted samples current t (recommend ops samples current t)
  unfolding recommend
  recommend-IsCounted samples current t =
      let (a, b, _, _) = rates_lem samples current in
      let (c, d, _, _) = rates_lem samples t in (refl, refl, a, b, c, d)

  -- With a recommendation there are samples enough. It is that of one of the candidates, improves,
  -- counts the errors of both thresholds, is not near the current one, and no candidate has a better.
  -- Without one there are too few samples, or no candidate improves, or the best one is near.
  abbrev pub IsSafe : ℕ → List Sample → Float → Option ThresholdRecommendation → Type 0
  IsSafe turns samples current none =
      (¬ HasSamples samples)
      ⊎ (All (IsNoBetter ops samples current none) (candidates turns current)
          ⊎ ((r : ThresholdRecommendation) × IsFound ops samples current (candidates turns current)
                (some r)
              × All (IsNoBetter ops samples current (some r)) (candidates turns current)
              × (is_near current r ≡ true)))
  IsSafe turns samples current (some r) =
      (t : Float) × HasSamples samples
      × IsOn t (candidates turns current)
      × (r ≡ recommend ops samples current t)
      × Improves ops r
      × IsCounted samples current t r
      × All (IsNoBetter ops samples current (some r)) (candidates turns current)
      × (is_near current r ≡ false)

  IsFound-of_IsBest :
      (samples : List Sample) (current : Float) (ts : List Float) (r : ThresholdRecommendation)
      → IsBest ops samples current ts none (some r)
      → IsFound ops samples current ts (some r) × All (IsNoBetter ops samples current (some r)) ts
  IsFound-of_IsBest samples current ts r (inl e, k, all) = cc
  IsFound-of_IsBest samples current ts r (inr f, k, all) = (f, all)

  if_moved-IsSafe :
      (turns : ℕ) (samples : List Sample) (current : Float) (best : Option ThresholdRecommendation)
      → HasSamples samples
      → IsBest ops samples current (candidates turns current) none best
      → IsSafe turns samples current (if_moved ops current best)
  if_moved-IsSafe turns samples current none s (f, k, all) = inr (inl all)
  if_moved-IsSafe turns samples current (some r) s b =
      let (f, all) = IsFound-of_IsBest samples current (candidates turns current) r b in
      let (t, on, e, i) = f in
      elim (Bool-cases (is_near current r)) [
        | inl still ↦ rw still (inr (inr (r, f, all, still)))
        | inr moved ↦ rw moved (
          t,
          s,
          on,
          e,
          i,
          subst (IsCounted samples current t) (sym e) (recommend-IsCounted samples current t),
          all,
          moved,
        )
      ]

-- Where the grid is left after at most as many turns as the loop is allowed, the search has a result.
-- A recommendation needs 20 samples, with 10 of each label. It is that of a candidate of the grid; its
-- rate of false positives is below the current one, also at the upper end of its interval, and its
-- rate of false negatives is within the ceiling; no candidate with these properties has a lower rate
-- of false positives; its counts are those of the samples that the candidate and the current threshold
-- get wrong; and what it proposes, the candidate rounded, is not nearer to the current threshold than
-- 0.005. There is none only if the samples are too few, no candidate has these properties, or the
-- best one is nearer than 0.005.
pub search_threshold-IsSafe :
    (ops : FloatOps) (samples : List Sample) (current : Float) (turns n : ℕ)
    → n ≤ turns
    → geq (high_end ops current) (
        advanced ops
          (step_of ops (low_end ops current) (high_end ops current))
          n
          (low_end ops current))
      ≡ false
    → (found : Option ThresholdRecommendation) × (search_threshold ops turns samples current
        ≡ some found)
      × IsSafe ops turns samples current found
unfolding search_threshold
search_threshold-IsSafe ops samples current turns n l h =
    let lo = low_end ops current in
    let hi = high_end ops current in
    elim (Bool-cases (has_samples ops samples (rates samples current))) [
      | inl enough ↦
          let (found, e) =
            search_loop_total ops samples current hi (step_of ops lo hi) turns n lo none l h in
          let best =
            search_loop-IsBest ops samples current hi (step_of ops lo hi) turns lo none found e in
          (
            if_moved ops current found,
            rw (enough, e),
            if_moved-IsSafe ops turns samples current found
                (has_samples-HasSamples ops samples current enough) best,
          )
      | inr few ↦ (none, rw few, inl (not_has_samples ops samples current few))
    ]
