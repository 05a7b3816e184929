-- ===== src/Tests/Tuner.antt =====
-- The grid of the tuner over exact sums and cut-off quotients.
use mathlib.Core.Option
use guard_x.Common.{
  ℕ, ◌+◌, ◌*◌, ◌/◌, ◌^◌, ◌≡◌, refl, Bool, true, false, Option, some, List, [], ◌∷◌, arith,
}
use guard_x.Common.Int.{pos, pos_part, scale, ◌+ℤ◌, ◌-ℤ◌}
use guard_x.Common.Float.{geq, Float, finite, nan}
use guard_x.Automation.Threshold.{
  FloatOps, Sample, ThresholdRecommendation, low_end, high_end, step_of, search_threshold,
}
use guard_x.Automation.Grid.{advanced}
use guard_x.Automation.Improved.{IsSafe, search_threshold-IsSafe}

unfoldable add : Float → Float → Float
unfolding ◌+ℤ◌
add (finite m j) (finite n k) = finite (scale m (2 ^ k) +ℤ scale n (2 ^ j)) (j + k)
add _ _ = nan

unfoldable sub : Float → Float → Float
unfolding ◌-ℤ◌
sub (finite m j) (finite n k) = finite (scale m (2 ^ k) -ℤ scale n (2 ^ j)) (j + k)
sub _ _ = nan

unfoldable mul : Float → Float → Float
mul (finite m j) (finite n k) = finite (pos (pos_part m * pos_part n)) (j + k)
mul _ _ = nan

unfoldable div : Float → Float → Float
div (finite m j) (finite n k) = finite (pos (pos_part m * 2 ^ (k + 30) / (pos_part n * 2 ^ j))) 30
div _ _ = nan

abbrev ops : FloatOps
ops = record {
  add = add;
  sub = sub;
  mul = mul;
  div = div;
  sqrt = λ x. x;
  abs = λ x. x;
  round3 = λ x. x;
  fixed3 = λ x. "";
  repr = λ x. "";
}

abbrev half : Float
half = finite (pos 1) 1

-- The samples of one score and one label, five times.
abbrev five : Float → Bool → List Sample → List Sample
five x b ss = (x, b) ∷ (x, b) ∷ (x, b) ∷ (x, b) ∷ (x, b) ∷ ss

-- The negatives score a little more than the current threshold, and the positives much more.
abbrev samples : List Sample
samples = five (finite (pos 17) 5) false (
    five (finite (pos 17) 5) false (five (finite (pos 3) 2) true (five (finite (pos 3) 2) true [])))

grid_left :
    geq
      (high_end ops half)
      (advanced ops (step_of ops (low_end ops half) (high_end ops half)) 42 (low_end ops half))
    ≡ false
unfolding advanced add sub div
grid_left = refl

abbrev errors : ThresholdRecommendation → ℕ × ℕ × ℕ
errors r = (r.fp_before, r.fp_after, r.fn_after)

-- The search recommends a threshold with no false positives, where there were ten.
recommended :
    Option.map (λ o. Option.map errors o) (search_threshold ops 42 samples half)
    ≡ some (some (10, 0, 0))
unfolding search_threshold add sub mul div
recommended = refl

search_threshold-IsSafe_example :
    (found : Option ThresholdRecommendation) × (search_threshold ops 42 samples half ≡ some found)
    × IsSafe ops 42 samples half found
search_threshold-IsSafe_example =
    search_threshold-IsSafe ops samples half 42 42 (omega arith) grid_left
