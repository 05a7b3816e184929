-- ===== src/Automation/Threshold.antt =====
-- autotuner/tuner.py: the statistics, and the search for a threshold. The arithmetic on floats rounds:
-- it is a record of parameters. A literal is the double nearest to it.
use guard_x.Common.{
  ℕ, zero, suc, ◌+◌, ◌*◌, String, Bool, true, false, not, ◌&&◌, Option, none, some, List, [], ◌∷◌,
  length, ltb, ◌==◌, if◌then◌else◌,
}
use guard_x.Common.Int.{pos}
use guard_x.Common.Float
use guard_x.Common.Float.{geq, Float, finite, of_int}
use guard_x.Common.Text.{◌<>◌}

-- Python's operations on floats.
pub record FloatOps : Type 0 where
  pub add : Float → Float → Float
  pub sub : Float → Float → Float
  pub mul : Float → Float → Float
  pub div : Float → Float → Float
  pub sqrt : Float → Float
  pub abs : Float → Float
  -- `round(x, 3)`
  pub round3 : Float → Float
  -- `f"{x:.3f}"`
  pub fixed3 : Float → String
  -- `str(x)`
  pub repr : Float → String

abbrev pub of_ℕ : ℕ → Float
of_ℕ n = of_int (pos n)

-- `max(a, b)` and `min(a, b)`
abbrev pub max_of : Float → Float → Float
max_of a b = if Float.lt a b then b else a

abbrev pub min_of : Float → Float → Float
min_of a b = if Float.lt b a then b else a

-- A score, and whether its label is "positive".
abbrev pub Sample : Type 0
Sample = Float × Bool

-- The four counts of `_rates`.
pub record Rates : Type 0 where
  pub tp : ℕ
  pub fn : ℕ
  pub fp : ℕ
  pub tn : ℕ

abbrev pub count_sample : Bool → Bool → Rates → Rates
count_sample true true r = record r { tp = r.tp + 1 }
count_sample true false r = record r { fn = r.fn + 1 }
count_sample false true r = record r { fp = r.fp + 1 }
count_sample false false r = record r { tn = r.tn + 1 }

-- `_rates`
unfoldable pub rates : List Sample → Float → Rates
rates [] t = record { tp = 0; fn = 0; fp = 0; tn = 0 }
rates ((score, positive) ∷ samples) t = count_sample positive (geq score t) (rates samples t)

-- `ThresholdRecommendation`
pub record ThresholdRecommendation : Type 0 where
  pub guard_id : String
  pub current_threshold : Float
  pub proposed_threshold : Float
  pub n_labeled : ℕ
  pub fp_before : ℕ
  pub fn_before : ℕ
  pub fp_after : ℕ
  pub fn_after : ℕ
  pub fp_rate_before : Float
  pub fp_rate_after : Float
  pub fp_ci_after : Float × Float
  pub fn_rate_after : Float
  pub fn_ci_after : Float × Float
  pub reason : String

module _ (ops : FloatOps) where
  -- `_fp_rate` and `_fn_rate`
  abbrev pub rate_of : ℕ → ℕ → Float
  rate_of k m = if k + m == 0 then of_ℕ 0 else ops.div (of_ℕ k) (of_ℕ (k + m))

  -- `wilson_interval`
  unfoldable pub wilson_interval : ℕ → ℕ → Float × Float
  wilson_interval k n =
      let z = finite (pos 2206763817411543) 50 in
      let zz = ops.mul z z in
      let m = of_ℕ n in
      let p = ops.div (of_ℕ k) m in
      let denom = ops.add (of_ℕ 1) (ops.div zz m) in
      let center = ops.div (ops.add p (ops.div zz (of_ℕ (2 * n)))) denom in
      let spread = ops.div (ops.mul p (ops.sub (of_ℕ 1) p)) m in
      let root = ops.sqrt (ops.add spread (ops.div zz (of_ℕ (4 * n * n)))) in
      let half = ops.div (ops.mul z root) denom in
      if n == 0
      then (of_ℕ 0, of_ℕ 1)
      else (max_of (of_ℕ 0) (ops.sub center half), min_of (of_ℕ 1) (ops.add center half))

  -- `objective_fn_ceiling`
  abbrev pub fn_ceiling : Float
  fn_ceiling = finite (pos 5764607523034235) 60

  -- The recommendation of a threshold of the grid.
  unfoldable pub recommend : List Sample → Float → Float → ThresholdRecommendation
  unfolding rates wilson_interval
  recommend samples current t =
      let before = rates samples current in
      let r = rates samples t in
      let fp_rate_before = rate_of before.fp before.tn in
      let fp_r = rate_of r.fp r.tn in
      let fn_r = rate_of r.fn r.tp in
      let fp_ci = wilson_interval r.fp (r.fp + r.tn) in
      let fn_ci = wilson_interval r.fn (r.fn + r.tp) in
      record {
        guard_id = "";
        current_threshold = current;
        proposed_threshold = ops.round3 t;
        n_labeled = length samples;
        fp_before = before.fp;
        fn_before = before.fn;
        fp_after = r.fp;
        fn_after = r.fn;
        fp_rate_before = fp_rate_before;
        fp_rate_after = fp_r;
        fp_ci_after = fp_ci;
        fn_rate_after = fn_r;
        fn_ci_after = fn_ci;
        reason =
            "FP rate "
            <> ops.fixed3 fp_rate_before
            <> " → "
            <> ops.fixed3 fp_r
            <> " (95% CI ["
            <> ops.fixed3 fp_ci.0
            <> ", "
            <> ops.fixed3 fp_ci.1
            <> "]); FN rate "
            <> ops.fixed3 fn_r
            <> " within ceiling "
            <> ops.repr fn_ceiling;
      }

  -- The improvement rule.
  abbrev pub improves : ThresholdRecommendation → Bool
  improves r =
      Float.lt r.fp_rate_after r.fp_rate_before
      && geq fn_ceiling r.fn_rate_after
      && Float.lt r.fp_ci_after.1 r.fp_rate_before

  -- `best is None or fp_r < best.fp_rate_after`
  abbrev pub is_better : ThresholdRecommendation → Option ThresholdRecommendation → Bool
  is_better r none = true
  is_better r (some best) = Float.lt r.fp_rate_after best.fp_rate_after

  abbrev pub better :
      ThresholdRecommendation → Option ThresholdRecommendation → Option ThresholdRecommendation
  better r best = if improves r && is_better r best then some r else best

  -- The loop `while t <= hi`, for at most so many turns, and None beyond them.
  unfoldable pub search_loop :
      List Sample
      → Float
      → Float
      → Float
      → ℕ
      → Float
      → Option ThresholdRecommendation
      → Option (Option ThresholdRecommendation)
  unfolding recommend
  search_loop samples current hi step zero t best = if geq hi t then none else some best
  search_loop samples current hi step (suc n) t best =
      let rest =
        search_loop samples current hi step n (ops.add t step)
          (better (recommend samples current t) best) in
      if geq hi t then rest else some best

  abbrev pub low_end : Float → Float
  low_end current =
      max_of (finite (pos 3602879701896397) 56) (ops.sub current (finite (pos 3602879701896397) 54))

  abbrev pub high_end : Float → Float
  high_end current =
      min_of (finite (pos 4458563631096791) 52) (ops.add current (finite (pos 5404319552844595) 55))

  abbrev pub step_of : Float → Float → Float
  step_of lo hi =
      if Float.lt lo hi then ops.div (ops.sub hi lo) (of_ℕ 40) else finite (pos 5764607523034235) 59

  abbrev pub least_move : Float
  least_move = finite (pos 5764607523034235) 60

  -- Not enough movement to matter.
  abbrev pub if_moved : Float → Option ThresholdRecommendation → Option ThresholdRecommendation
  if_moved current none = none
  if_moved current (some best) =
      if Float.lt (ops.abs (ops.sub best.proposed_threshold current)) least_move
      then none
      else some best

  abbrev pub has_samples : List Sample → Rates → Bool
  has_samples samples r =
      not (ltb (length samples) 20) && not (ltb (r.tp + r.fn) 10) && not (ltb (r.fp + r.tn) 10)

  abbrev pub map_moved :
      Float → Option (Option ThresholdRecommendation) → Option (Option ThresholdRecommendation)
  map_moved current none = none
  map_moved current (some best) = some (if_moved current best)

  -- `_search_threshold`
  unfoldable pub search_threshold :
      ℕ → List Sample → Float → Option (Option ThresholdRecommendation)
  unfolding search_loop rates
  search_threshold turns samples current =
      let lo = low_end current in
      let hi = high_end current in
      let found = search_loop samples current hi (step_of lo hi) turns lo none in
      if has_samples samples (rates samples current) then map_moved current found else some none
