-- ===== src/Pii/Score.antt =====
-- detector.py and service.py: the removal of overlaps leaves the score as it is, and the verdict says
-- whether any match has a positive confidence.
use mathlib.Core.Path.{subst}
use guard_x.Common.{
  ◌≡◌, refl, sym, ◌∙◌, String, Bool, false, List, [], ◌∷◌, arith, All, Bool-cases, inl, inr, any,
  ltb, if◌then◌else◌,
}
use guard_x.Common.Int.{pos}
use guard_x.Common.Float
use guard_x.Common.Float.{Float, of_int}
use guard_x.Common.Float.Order.{IsFinite, not_lt_trans, lt_asym, lt_irrefl}
use guard_x.Common.Sort.{sort_by, All-sort_by, All-of_sort_by}
use guard_x.Pii.Detector.{
  Span, EntityPack, key_less, place, place_all, dedup_overlaps, max_from, score, all_spans, scan,
  check,
}
use guard_x.Pii.Overlap.{dedup_overlaps_many}

-- Every confidence is a number.
abbrev pub AllFinite : List Span → Type 0
AllFinite ss = All (λ s. IsFinite s.confidence) ss

-- No confidence is above `m`.
abbrev Bounds : Float → List Span → Type 0
Bounds m ss = All (λ s. Float.lt m s.confidence ≡ false) ss

zero-IsFinite : IsFinite (of_int (pos 0))
zero-IsFinite = (pos 0, 0, refl)

All-place :
    (P : Span → Type 0) (last : Span) (ss : List Span) → P last → All P ss → All P (place last ss)
unfolding place
All-place P last [] p h = (p, tt)
All-place P last (s ∷ ss) p h = elim (Bool-cases (ltb s.start last.stop)) [
  | inl overlap ↦ elim (Bool-cases (Float.lt last.confidence s.confidence)) [
    | inl better ↦ rw (overlap, better) (All-place P s ss h.0 h.1)
    | inr worse ↦ rw (overlap, worse) (All-place P last ss p h.1)
  ]
  | inr apart ↦ rw apart (p, All-place P s ss h.0 h.1)
]

-- What bounds the spans that are kept bounds all.
Bounds-of_place :
    (m : Float) (last : Span) (ss : List Span)
    → IsFinite m
    → IsFinite last.confidence
    → AllFinite ss
    → Bounds m (place last ss)
    → (Float.lt m last.confidence ≡ false) × Bounds m ss
unfolding place
Bounds-of_place m last [] f g h b = (b.0, tt)
Bounds-of_place m last (s ∷ ss) f g h b = elim (Bool-cases (ltb s.start last.stop)) [
  | inl overlap ↦ elim (Bool-cases (Float.lt last.confidence s.confidence)) [
    | inl better ↦
        let (k, l) = Bounds-of_place m s ss f h.0 h.1 (rw (overlap, better) at b) in
        (
          not_lt_trans last.confidence s.confidence m g h.0 f
              (lt_asym last.confidence s.confidence g h.0 better) k,
          (k, l),
        )
    | inr worse ↦
        let (k, l) = Bounds-of_place m last ss f g h.1 (rw (overlap, worse) at b) in
        (k, (not_lt_trans s.confidence last.confidence m h.0 g f worse k, l))
  ]
  | inr apart ↦
      let b' : Bounds m (last ∷ place s ss) = rw apart at b in
      (b'.0, Bounds-of_place m s ss f h.0 h.1 b'.1)
]

Bounds-of_place_all :
    (m : Float) (ss : List Span) → IsFinite m → AllFinite ss → Bounds m (place_all ss) → Bounds m ss
Bounds-of_place_all m [] f h b = tt
Bounds-of_place_all m (s ∷ ss) f h b = Bounds-of_place m s ss f h.0 h.1 b

All-place_all : (P : Span → Type 0) (ss : List Span) → All P ss → All P (place_all ss)
All-place_all P [] h = tt
All-place_all P (s ∷ ss) h = All-place P s ss h.0 h.1

All-dedup_overlaps : (P : Span → Type 0) (ss : List Span) → All P ss → All P (dedup_overlaps ss)
unfolding dedup_overlaps
All-dedup_overlaps P [] h = h
All-dedup_overlaps P (s ∷ []) h = h
All-dedup_overlaps P (s ∷ r ∷ ss) h =
    rw (dedup_overlaps_many s r ss)
      (All-place_all P (sort_by key_less (s ∷ r ∷ ss)) (All-sort_by key_less P (s ∷ r ∷ ss) h))

-- What bounds the spans that are left bounds all.
Bounds-of_dedup_overlaps :
    (m : Float) (ss : List Span)
    → IsFinite m
    → AllFinite ss
    → Bounds m (dedup_overlaps ss)
    → Bounds m ss
unfolding dedup_overlaps
Bounds-of_dedup_overlaps m [] f h b = tt
Bounds-of_dedup_overlaps m (s ∷ []) f h b = b
Bounds-of_dedup_overlaps m (s ∷ r ∷ ss) f h b =
    All-of_sort_by key_less (λ x. Float.lt m x.confidence ≡ false) (s ∷ r ∷ ss)
      (Bounds-of_place_all m (sort_by key_less (s ∷ r ∷ ss)) f
        (All-sort_by key_less (λ x. IsFinite x.confidence) (s ∷ r ∷ ss) h)
        (rw (dedup_overlaps_many s r ss) at b))

-- A number that neither `m` nor a confidence is above.
abbrev IsUpper : Float → List Span → Float → Type 0
IsUpper m ss v = IsFinite v × ((Float.lt v m ≡ false) × Bounds v ss)

IsUpper-max_from :
    (m : Float) (ss : List Span) → IsFinite m → AllFinite ss → IsUpper m ss (max_from m ss)
unfolding max_from
IsUpper-max_from m [] f h = (f, (lt_irrefl m f, tt))
IsUpper-max_from m (s ∷ ss) f h = elim (Bool-cases (Float.lt m s.confidence)) [
  | inl more ↦
      let e : max_from m (s ∷ ss) ≡ max_from s.confidence ss = rw more in
      let (a, (b, c)) = IsUpper-max_from s.confidence ss h.0 h.1 in
      subst (IsUpper m (s ∷ ss)) (sym e) (
        a,
        (
          not_lt_trans m s.confidence (max_from s.confidence ss) f h.0 a
              (lt_asym m s.confidence f h.0 more) b,
          (b, c),
        ),
      )
  | inr less ↦
      let e : max_from m (s ∷ ss) ≡ max_from m ss = rw less in
      let (a, (b, c)) = IsUpper-max_from m ss f h.1 in
      subst (IsUpper m (s ∷ ss)) (sym e)
        (a, (b, (not_lt_trans s.confidence m (max_from m ss) h.0 f a less b, c)))
]

-- What no confidence is above is not below the score.
max_from_least :
    (v m : Float) (ss : List Span)
    → Float.lt v m ≡ false
    → Bounds v ss
    → Float.lt v (max_from m ss) ≡ false
unfolding max_from
max_from_least v m [] l b = l
max_from_least v m (s ∷ ss) l b = elim (Bool-cases (Float.lt m s.confidence)) [
  | inl more ↦ rw more (max_from_least v s.confidence ss b.0 b.1)
  | inr less ↦ rw less (max_from_least v m ss l b.1)
]

Bounds-score : (ss : List Span) → AllFinite ss → IsFinite (score ss) × Bounds (score ss) ss
unfolding score
Bounds-score [] h = (zero-IsFinite, tt)
Bounds-score (s ∷ ss) h = let (a, (b, c)) = IsUpper-max_from s.confidence ss h.0 h.1 in (a, (b, c))

score_not_positive :
    (ss : List Span) → Bounds (of_int (pos 0)) ss → Float.lt (of_int (pos 0)) (score ss) ≡ false
unfolding score
score_not_positive [] b = lt_irrefl (of_int (pos 0)) zero-IsFinite
score_not_positive (s ∷ ss) b = max_from_least (of_int (pos 0)) s.confidence ss b.0 b.1

-- The confidence of the span is positive.
abbrev pub is_positive : Span → Bool
is_positive s = Float.lt (of_int (pos 0)) s.confidence

Bounds-of_any : (ss : List Span) → any is_positive ss ≡ false → Bounds (of_int (pos 0)) ss
Bounds-of_any [] e = tt
Bounds-of_any (s ∷ ss) e = elim (Bool-cases (is_positive s)) [
  | inl yes_s ↦ ground arith
  | inr no_s ↦ (no_s, Bounds-of_any ss (rw no_s at e))
]

any-false-of_Bounds : (ss : List Span) → Bounds (of_int (pos 0)) ss → any is_positive ss ≡ false
any-false-of_Bounds [] b = refl
any-false-of_Bounds (s ∷ ss) b = rw (b.0, any-false-of_Bounds ss b.1)

Bounds-trans :
    (v m : Float) (ss : List Span)
    → IsFinite v
    → IsFinite m
    → AllFinite ss
    → Float.lt v m ≡ false
    → Bounds m ss
    → Bounds v ss
Bounds-trans v m [] f g h l b = tt
Bounds-trans v m (s ∷ ss) f g h l b =
    (not_lt_trans s.confidence m v h.0 g f b.0 l, Bounds-trans v m ss f g h.1 l b.1)

-- The score is positive exactly where a confidence is.
score-positive :
    (ss : List Span)
    → AllFinite ss
    → Float.lt (of_int (pos 0)) (score (dedup_overlaps ss)) ≡ any is_positive ss
score-positive ss h = elim (Bool-cases (any is_positive ss)) [
  | inl some_positive ↦ elim (Bool-cases (Float.lt (of_int (pos 0)) (score (dedup_overlaps ss)))) [
    | inl p ↦ p ∙ sym some_positive
    | inr n ↦
        let (f, b) =
          Bounds-score (dedup_overlaps ss) (All-dedup_overlaps (λ s. IsFinite s.confidence) ss h) in
        let b' = Bounds-of_dedup_overlaps (score (dedup_overlaps ss)) ss f h b in
        n
        ∙ sym (
            any-false-of_Bounds ss
              (Bounds-trans (of_int (pos 0)) (score (dedup_overlaps ss)) ss zero-IsFinite f h n b'))
  ]
  | inr none_positive ↦
      score_not_positive (dedup_overlaps ss) (
        All-dedup_overlaps (λ s. Float.lt (of_int (pos 0)) s.confidence ≡ false) ss
          (Bounds-of_any ss none_positive))
      ∙ sym none_positive
]

-- Where every confidence is a number, the verdict of the check is "FAIL" if some match of the pack's
-- entities has a positive confidence, and "PASS" if none has: the removal of overlapping matches
-- does not change it.
pub check-verdict :
    (add_boost : Float → Float) (round3 : Float → Float) (text : String) (pack : EntityPack)
    → AllFinite (all_spans add_boost round3 text pack.entities)
    → (check add_boost round3 text pack).verdict
      ≡ (if any is_positive (all_spans add_boost round3 text pack.entities) then "FAIL" else "PASS")
unfolding check scan
check-verdict add_boost round3 text pack h =
    let ss = all_spans add_boost round3 text pack.entities in rw (score-positive ss h)
