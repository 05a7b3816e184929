-- ===== src/Pii/Overlap.antt =====
-- detector.py: the spans that `_dedup_overlaps` returns follow one another in the text.
use guard_x.Common.{
  ℕ, ◌≤◌, ◌≡◌, true, false, List, [], ◌∷◌, arith, All, Bool-cases, inl, inr, length, ltb,
}
use guard_x.Common.Float
use guard_x.Common.Sort.{insert_sorted, sort_by}
use guard_x.Pii.Detector.{Span, key_less, place, place_all, dedup_overlaps}

-- Every span starts at `low` or behind it.
abbrev pub IsFrom : ℕ → List Span → Type 0
IsFrom low ss = All (λ s. low ≤ s.start) ss

abbrev IsByStart : List Span → Type 0
IsByStart [] = Unit
IsByStart (s ∷ ss) = IsFrom s.start ss × IsByStart ss

-- Each span ends before the later ones start.
abbrev pub IsDisjoint : List Span → Type 0
IsDisjoint [] = Unit
IsDisjoint (s ∷ ss) = IsFrom s.stop ss × IsDisjoint ss

key_less-le : (r s : Span) → key_less r s ≡ true → r.start ≤ s.start
key_less-le r s h = ground arith

not_key_less-le : (r s : Span) → key_less r s ≡ false → s.start ≤ r.start
not_key_less-le r s h = ground arith

IsFrom-le : (low high : ℕ) (ss : List Span) → low ≤ high → IsFrom high ss → IsFrom low ss
IsFrom-le low high [] l h = tt
IsFrom-le low high (s ∷ ss) l h = (omega (arith, h.0), IsFrom-le low high ss l h.1)

IsFrom-insert_sorted :
    (low : ℕ) (s : Span) (ss : List Span)
    → low ≤ s.start
    → IsFrom low ss
    → IsFrom low (insert_sorted key_less s ss)
unfolding insert_sorted
IsFrom-insert_sorted low s [] l h = (l, tt)
IsFrom-insert_sorted low s (r ∷ ss) l h = elim (Bool-cases (key_less r s)) [
  | inl later ↦ rw later (h.0, IsFrom-insert_sorted low s ss l h.1)
  | inr here ↦ rw here (l, h)
]

IsByStart-insert_sorted :
    (s : Span) (ss : List Span) → IsByStart ss → IsByStart (insert_sorted key_less s ss)
unfolding insert_sorted
IsByStart-insert_sorted s [] h = (tt, tt)
IsByStart-insert_sorted s (r ∷ ss) h = elim (Bool-cases (key_less r s)) [
  | inl later ↦ rw later (
    IsFrom-insert_sorted r.start s ss (key_less-le r s later) h.0,
    IsByStart-insert_sorted s ss h.1,
  )
  | inr here ↦
      let l = not_key_less-le r s here in rw here ((l, IsFrom-le s.start r.start ss l h.0), h)
]

IsByStart-sort_by : (ss : List Span) → IsByStart (sort_by key_less ss)
unfolding sort_by
IsByStart-sort_by [] = tt
IsByStart-sort_by (s ∷ ss) = IsByStart-insert_sorted s (sort_by key_less ss) (IsByStart-sort_by ss)

IsFrom-place :
    (low : ℕ) (last : Span) (ss : List Span)
    → low ≤ last.start
    → IsFrom low ss
    → IsFrom low (place last ss)
unfolding place
IsFrom-place low last [] l h = (l, tt)
IsFrom-place low last (s ∷ ss) l h = elim (Bool-cases (ltb s.start last.stop)) [
  | inl overlap ↦ elim (Bool-cases (Float.lt last.confidence s.confidence)) [
    | inl better ↦ rw (overlap, better) (IsFrom-place low s ss h.0 h.1)
    | inr worse ↦ rw (overlap, worse) (IsFrom-place low last ss l h.1)
  ]
  | inr apart ↦ rw apart (l, IsFrom-place low s ss h.0 h.1)
]

IsDisjoint-place :
    (last : Span) (ss : List Span)
    → IsFrom last.start ss
    → IsByStart ss
    → IsDisjoint (place last ss)
unfolding place
IsDisjoint-place last [] f h = (tt, tt)
IsDisjoint-place last (s ∷ ss) f h = elim (Bool-cases (ltb s.start last.stop)) [
  | inl overlap ↦ elim (Bool-cases (Float.lt last.confidence s.confidence)) [
    | inl better ↦ rw (overlap, better) (IsDisjoint-place s ss h.0 h.1)
    | inr worse ↦ rw (overlap, worse) (IsDisjoint-place last ss f.1 h.1)
  ]
  | inr apart ↦
      let l : last.stop ≤ s.start = ground arith in
      rw apart (
        IsFrom-place last.stop s ss l (IsFrom-le last.stop s.start ss l h.0),
        IsDisjoint-place s ss h.0 h.1,
      )
]

place_all-IsDisjoint : (ss : List Span) → IsByStart ss → IsDisjoint (place_all ss)
place_all-IsDisjoint [] h = tt
place_all-IsDisjoint (s ∷ ss) h = IsDisjoint-place s ss h.0 h.1

pub dedup_overlaps_many :
    (s r : Span) (ss : List Span)
    → dedup_overlaps (s ∷ r ∷ ss) ≡ place_all (sort_by key_less (s ∷ r ∷ ss))
unfolding dedup_overlaps
dedup_overlaps_many s r ss = let e : ltb (length (s ∷ r ∷ ss)) 2 ≡ false = ground arith in rw e

-- In the result of the removal of overlaps, each span ends before every later one starts.
pub dedup_overlaps-IsDisjoint : (spans : List Span) → IsDisjoint (dedup_overlaps spans)
unfolding dedup_overlaps
dedup_overlaps-IsDisjoint [] = tt
dedup_overlaps-IsDisjoint (s ∷ []) = (tt, tt)
dedup_overlaps-IsDisjoint (s ∷ r ∷ ss) =
    rw (dedup_overlaps_many s r ss)
      (place_all-IsDisjoint (sort_by key_less (s ∷ r ∷ ss)) (IsByStart-sort_by (s ∷ r ∷ ss)))
