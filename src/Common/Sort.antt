-- ===== src/Common/Sort.antt =====
-- `sorted` and `list.sort`: a stable sort by a strict test on the elements.
use mathlib.Core.Path.{◌≡◌, refl, sym, ap, ◌∙◌}
use mathlib.Core.Bool.{Bool, true, false}
use mathlib.Core.List.{List, [], ◌∷◌, Perm}
use mathlib.Core.List.Perm
use guard_x.Common.Tests.{if◌then◌else◌, Bool-cases}
use guard_x.Common.Lists.{All, filter}
use mathlib.Core.Logic.{inl, inr}

module _ {ℓ} {A : Type ℓ} (less : A → A → Bool) where
  -- An element goes before the first one that is not less than it.
  unfoldable pub insert_sorted : A → List A → List A
  insert_sorted x [] = x ∷ []
  insert_sorted x (y ∷ ys) = if less y x then y ∷ insert_sorted x ys else x ∷ y ∷ ys

  unfoldable pub sort_by : List A → List A
  unfolding insert_sorted
  sort_by [] = []
  sort_by (x ∷ xs) = insert_sorted x (sort_by xs)

  -- No later element is less than an earlier one.
  abbrev pub IsSorted : List A → Type 0
  IsSorted [] = Unit
  IsSorted (x ∷ xs) = All (λ y. less y x ≡ false) xs × IsSorted xs

  pub insert_sorted-perm : (x : A) (ys : List A) → Perm (insert_sorted x ys) (x ∷ ys)
  unfolding insert_sorted
  insert_sorted-perm x [] = Perm.refl (x ∷ [])
  insert_sorted-perm x (y ∷ ys) = elim (Bool-cases (less y x)) [
    | inl later ↦ rw later (Perm.trans (Perm.cons y (insert_sorted-perm x ys)) (Perm.swap x y ys))
    | inr here ↦ rw here (Perm.refl (x ∷ y ∷ ys))
  ]

  pub sort_by-perm : (xs : List A) → Perm (sort_by xs) xs
  unfolding sort_by
  sort_by-perm [] = Perm.refl []
  sort_by-perm (x ∷ xs) =
      Perm.trans (insert_sorted-perm x (sort_by xs)) (Perm.cons x (sort_by-perm xs))

  -- Sorting a sorted list changes nothing.
  insert_sorted-head :
      (x : A) (ys : List A) → All (λ y. less y x ≡ false) ys → insert_sorted x ys ≡ x ∷ ys
  unfolding insert_sorted
  insert_sorted-head x [] h = refl
  insert_sorted-head x (y ∷ ys) h = rw h.0

  pub sort_by-of_IsSorted : (xs : List A) → IsSorted xs → sort_by xs ≡ xs
  unfolding sort_by
  sort_by-of_IsSorted [] h = refl
  sort_by-of_IsSorted (x ∷ xs) h =
      ap (insert_sorted x) (sort_by-of_IsSorted xs h.1) ∙ insert_sorted-head x xs h.0

  All-insert_sorted :
      (P : A → Type 0) (x : A) (ys : List A) → P x → All P ys → All P (insert_sorted x ys)
  unfolding insert_sorted
  All-insert_sorted P x [] p h = (p, tt)
  All-insert_sorted P x (y ∷ ys) p h = elim (Bool-cases (less y x)) [
    | inl later ↦ rw later (h.0, All-insert_sorted P x ys p h.1)
    | inr here ↦ rw here (p, h)
  ]

  pub All-sort_by : (P : A → Type 0) (xs : List A) → All P xs → All P (sort_by xs)
  unfolding sort_by
  All-sort_by P [] h = tt
  All-sort_by P (x ∷ xs) h = All-insert_sorted P x (sort_by xs) h.0 (All-sort_by P xs h.1)

  All-of_insert_sorted :
      (P : A → Type 0) (x : A) (ys : List A) → All P (insert_sorted x ys) → P x × All P ys
  unfolding insert_sorted
  All-of_insert_sorted P x [] h = h
  All-of_insert_sorted P x (y ∷ ys) h = elim (Bool-cases (less y x)) [
    | inl later ↦
        let h' : All P (y ∷ insert_sorted x ys) = rw later at h in
        let (p, k) = All-of_insert_sorted P x ys h'.1 in (p, (h'.0, k))
    | inr here ↦ rw here at h
  ]

  All-filter : (P : A → Type 0) (p : A → Bool) (xs : List A) → All P xs → All P (filter p xs)
  All-filter P p [] h = tt
  All-filter P p (x ∷ xs) h = elim (Bool-cases (p x)) [
    | inl hit ↦ rw hit (h.0, All-filter P p xs h.1)
    | inr miss ↦ rw miss (All-filter P p xs h.1)
  ]

  filter-insert_sorted_miss :
      (p : A → Bool) (x : A) (ys : List A)
      → p x ≡ false
      → filter p (insert_sorted x ys) ≡ filter p ys
  unfolding insert_sorted
  filter-insert_sorted_miss p x [] m = rw m
  filter-insert_sorted_miss p x (y ∷ ys) m = elim (Bool-cases (less y x)) [
    | inl later ↦ rw (later, filter-insert_sorted_miss p x ys m)
    | inr here ↦ rw (here, m)
  ]

  pub All-of_sort_by : (P : A → Type 0) (xs : List A) → All P (sort_by xs) → All P xs
  unfolding sort_by
  All-of_sort_by P [] h = tt
  All-of_sort_by P (x ∷ xs) h =
      let (p, k) = All-of_insert_sorted P x (sort_by xs) h in (p, All-of_sort_by P xs k)

  -- Where the test is asymmetric, and "not less" is transitive, the result is sorted.
  module _ (asym : (a b : A) → less a b ≡ true → less b a ≡ false)
      (trans : (a b c : A) → less b a ≡ false → less c b ≡ false → less c a ≡ false) where
    below_all :
        (x y : A) (ys : List A)
        → less y x ≡ false
        → All (λ z. less z y ≡ false) ys
        → All (λ z. less z x ≡ false) ys
    below_all x y [] p h = tt
    below_all x y (z ∷ ys) p h = (trans x y z p h.0, below_all x y ys p h.1)

    insert_sorted-IsSorted : (x : A) (ys : List A) → IsSorted ys → IsSorted (insert_sorted x ys)
    unfolding insert_sorted
    insert_sorted-IsSorted x [] h = (tt, tt)
    insert_sorted-IsSorted x (y ∷ ys) h = elim (Bool-cases (less y x)) [
      | inl later ↦ rw later (
        All-insert_sorted (λ z. less z y ≡ false) x ys (asym y x later) h.0,
        insert_sorted-IsSorted x ys h.1,
      )
      | inr here ↦ rw here ((here, below_all x y ys here h.0), h)
    ]

    pub sort_by-IsSorted : (xs : List A) → IsSorted (sort_by xs)
    unfolding sort_by
    sort_by-IsSorted [] = tt
    sort_by-IsSorted (x ∷ xs) = insert_sorted-IsSorted x (sort_by xs) (sort_by-IsSorted xs)

    filter-insert_sorted_hit :
        (p : A → Bool) (x : A) (ys : List A)
        → IsSorted ys
        → p x ≡ true
        → filter p (insert_sorted x ys) ≡ insert_sorted x (filter p ys)
    unfolding insert_sorted
    filter-insert_sorted_hit p x [] s h = rw h
    filter-insert_sorted_hit p x (y ∷ ys) s h = elim (Bool-cases (less y x)) [
      | inl later ↦ elim (Bool-cases (p y)) [
        | inl kept ↦ rw (later, kept, later, filter-insert_sorted_hit p x ys s.1 h)
        | inr gone ↦ rw (later, gone) (filter-insert_sorted_hit p x ys s.1 h)
      ]
      | inr here ↦
          rw (here, h)
            (sym (
              insert_sorted-head x (filter p (y ∷ ys))
                (All-filter (λ z. less z x ≡ false) p (y ∷ ys) (here, below_all x y ys here s.0))))
    ]

    -- A filter may be applied before a sort or after it.
    pub filter-sort_by :
        (p : A → Bool) (xs : List A) → filter p (sort_by xs) ≡ sort_by (filter p xs)
    unfolding sort_by
    filter-sort_by p [] = refl
    filter-sort_by p (x ∷ xs) = elim (Bool-cases (p x)) [
      | inl hit ↦
          filter-insert_sorted_hit p x (sort_by xs) (sort_by-IsSorted xs) hit
          ∙ ap (insert_sorted x) (filter-sort_by p xs)
          ∙ rw hit
      | inr miss ↦ filter-insert_sorted_miss p x (sort_by xs) miss ∙ filter-sort_by p xs ∙ rw miss
    ]
