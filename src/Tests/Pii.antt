-- ===== src/Tests/Pii.antt =====
-- Card numbers and overlapping matches.
use guard_x.Common.{ℕ, ◌≡◌, ◌≢◌, refl, true, false, any, if◌then◌else◌, List, [], ◌∷◌, ◌++◌, arith}
use guard_x.Common.Int.{pos}
use guard_x.Common.Float.{finite}
use guard_x.Pii.Validators.{digits_of, luhn}
use guard_x.Pii.Luhn.{luhn_one_digit}
use guard_x.Pii.Detector.{Span, Entity, EntityPack, dedup_overlaps, all_spans, check}
use guard_x.Pii.Overlap.{IsDisjoint, dedup_overlaps-IsDisjoint}
use guard_x.Pii.Score.{AllFinite, is_positive, check-verdict}

abbrev prefix : List ℕ
prefix = 4 ∷ 1 ∷ 1 ∷ 1 ∷ 1 ∷ 1 ∷ 1 ∷ 1 ∷ 1 ∷ 1 ∷ 1 ∷ 1 ∷ 1 ∷ 1 ∷ 1 ∷ []

card_digits : digits_of "4111 1111 1111 1111" ≡ prefix ++ 1 ∷ []
unfolding digits_of
card_digits = refl

typo_digits : digits_of "4111 1111 1111 1117" ≡ prefix ++ 7 ∷ []
unfolding digits_of
typo_digits = refl

card_passes : luhn "4111 1111 1111 1111" ≡ true
unfolding luhn
card_passes = refl

one_not_seven : ◌≢◌ {A = ℕ} 1 7
one_not_seven h = omega (arith, h)

luhn_one_digit_example : luhn "4111 1111 1111 1117" ≡ false
luhn_one_digit_example =
    luhn_one_digit "4111 1111 1111 1111" "4111 1111 1111 1117" prefix [] 1 7 card_digits typo_digits
      one_not_seven card_passes

abbrev span : ℕ → ℕ → ℕ → Span
span a b n = record { start = a; stop = b; label = "CARD"; confidence = finite (pos n) 2 }

dedup_overlaps-IsDisjoint_example :
    IsDisjoint (dedup_overlaps (span 4 9 2 ∷ span 0 6 1 ∷ span 12 14 3 ∷ []))
dedup_overlaps-IsDisjoint_example =
    dedup_overlaps-IsDisjoint (span 4 9 2 ∷ span 0 6 1 ∷ span 12 14 3 ∷ [])

abbrev card : Entity
card = record {
  label = "CARD";
  find_all = λ text. (0, 4) ∷ (2, 6) ∷ [];
  context_words = "card" ∷ [];
  base_confidence = finite (pos 1) 1;
  validators = [];
  requires_context = true;
}

abbrev cards : EntityPack
cards = record { pack_id = "cards"; version = "1"; entities = card ∷ [] }

abbrev found : List Span
found =
    record { start = 0; stop = 4; label = "CARD"; confidence = finite (pos 1) 1 }
    ∷ record { start = 2; stop = 6; label = "CARD"; confidence = finite (pos 1) 1 }
    ∷ []

found_lem : all_spans (λ c. c) (λ c. c) "card 1" (card ∷ []) ≡ found
unfolding all_spans
found_lem = refl

found_finite : AllFinite (all_spans (λ c. c) (λ c. c) "card 1" (card ∷ []))
found_finite = rw found_lem ((pos 1, 1, refl), ((pos 1, 1, refl), tt))

check-verdict_example : (check (λ c. c) (λ c. c) "card 1" cards).verdict ≡ (
    if any is_positive (all_spans (λ c. c) (λ c. c) "card 1" cards.entities)
    then "FAIL"
    else "PASS")
check-verdict_example = check-verdict (λ c. c) (λ c. c) "card 1" cards found_finite
