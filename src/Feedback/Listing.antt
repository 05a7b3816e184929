-- ===== src/Feedback/Listing.antt =====
-- api/feedback.py: what `list_feedback` lists.
use mathlib.Core.List.{Perm, perm_middle}
use mathlib.Core.List.Perm
use mathlib.Core.Path.{subst}
use guard_x.Common.{
  ℕ, zero, suc, ◌≡◌, ◌≤◌, refl, sym, ◌⊎◌, inl, inr, String, true, false, not, ◌||◌, Option, none,
  some, List, [], ◌∷◌, ◌++◌, All, arith, Bool-cases, filter, ltb, length, eq_iff,
}
use guard_x.Common.Int.{ℤ, ltb_ℤ}
use guard_x.Common.Sort.{sort_by, All-sort_by, IsSorted, sort_by-IsSorted, sort_by-perm}
use guard_x.Common.Result.{ok, http, >>=-eq-ok, raise_if-eq-ok, subst_ok}
use guard_x.Platform.{Platform}
use guard_x.Auth.Role.{Role, Principal, require_role}
use guard_x.Feedback.{
  FeedbackEvent, matches, is_since, at_before, first_rows, is_asked, since_bound, list_feedback,
}

-- A filter that is not given, or is empty, lets every value pass; any other lets only its own pass.
abbrev pub Fits : Option String → Option String → Type 0
Fits none v = Unit
Fits (some s) v = (s ≡ "") ⊎ (v ≡ some s)

abbrev pub IsSince : Option ℤ → FeedbackEvent → Type 0
IsSince none r = Unit
IsSince (some t) r = ltb_ℤ r.at t ≡ false

-- The label is of the tenant, and of the app and the guard if these are given, and not older than
-- the bound if there is one.
abbrev pub IsAsked : String → Option String → Option String → Option ℤ → FeedbackEvent → Type 0
IsAsked tenant app guard_id since r =
    (r.tenant ≡ tenant) × Fits app (some r.app) × Fits guard_id r.guard_id × IsSince since r

Fits-of_matches : (o v : Option String) → matches o v ≡ true → Fits o v
Fits-of_matches none v h = tt
Fits-of_matches (some s) none h = inl (ground (arith, eq_iff s ""))
Fits-of_matches (some s) (some t) h = ground (arith, eq_iff s "", eq_iff t s)

not_matches : (o v : Option String) → matches o v ≡ false → ¬ Fits o v
not_matches none v h f = cc
not_matches (some s) none h (inl e) = ground (arith, eq_iff s "")
not_matches (some s) none h (inr e) = cc
not_matches (some s) (some t) h f = ground (arith, eq_iff s "", eq_iff t s)

IsSince-of_is_since : (o : Option ℤ) (r : FeedbackEvent) → is_since o r ≡ true → IsSince o r
IsSince-of_is_since none r h = tt
IsSince-of_is_since (some t) r h = ground arith

not_is_since : (o : Option ℤ) (r : FeedbackEvent) → is_since o r ≡ false → ¬ IsSince o r
not_is_since none r h f = cc
not_is_since (some t) r h f = ground arith

module _ (tenant : String) (app guard_id : Option String) (since : Option ℤ) where
  IsAsked-of_is_asked :
      (r : FeedbackEvent)
      → is_asked tenant app guard_id since r ≡ true
      → IsAsked tenant app guard_id since r
  IsAsked-of_is_asked r h = (
    ground (arith, eq_iff r.tenant tenant),
    Fits-of_matches app (some r.app) (ground arith),
    Fits-of_matches guard_id r.guard_id (ground arith),
    IsSince-of_is_since since r (ground arith),
  )

  not_is_asked :
      (r : FeedbackEvent)
      → is_asked tenant app guard_id since r ≡ false
      → ¬ IsAsked tenant app guard_id since r
  not_is_asked r h (et, fa, fg, fs) = elim (Bool-cases (matches app (some r.app))) [
    | inr miss ↦ not_matches app (some r.app) miss fa
    | inl hit ↦ elim (Bool-cases (matches guard_id r.guard_id)) [
      | inr other ↦ not_matches guard_id r.guard_id other fg
      | inl own ↦ not_is_since since r (ground (arith, eq_iff r.tenant tenant)) fs
    ]
  ]

  -- The rows that a filter drops.
  others : List FeedbackEvent → List FeedbackEvent
  others rs = filter (λ r. not (is_asked tenant app guard_id since r)) rs

  filter-others :
      (rs : List FeedbackEvent)
      → let asked = filter (is_asked tenant app guard_id since) rs in
        Perm (asked ++ others rs) rs
        × All (IsAsked tenant app guard_id since) asked
        × All (λ r. ¬ IsAsked tenant app guard_id since r) (others rs)
  unfolding others
  filter-others [] = (Perm.refl [], tt, tt)
  filter-others (r ∷ rs) =
      let (p, a, n) = filter-others rs in
      elim (Bool-cases (is_asked tenant app guard_id since r)) [
        | inl hit ↦ rw hit (Perm.cons r p, (IsAsked-of_is_asked r hit, a), n)
        | inr miss ↦ rw miss (
          Perm.trans
              (perm_middle {a = r} (filter (is_asked tenant app guard_id since) rs) (others rs))
              (Perm.cons r p),
          a,
          (not_is_asked r miss, n),
        )
      ]

-- The first rows, and the rest: either all places are taken, or nothing is left.
first_rows-rest :
    (n : ℕ) (rs : List FeedbackEvent)
    → (rest : List FeedbackEvent) × (first_rows n rs ++ rest ≡ rs)
      × (length (first_rows n rs) ≤ n)
      × ((length (first_rows n rs) ≡ n) ⊎ (rest ≡ []))
unfolding first_rows
first_rows-rest zero rs = (rs, refl, omega arith, inl refl)
first_rows-rest (suc n) [] = ([], refl, omega arith, inr refl)
first_rows-rest (suc n) (r ∷ rs) =
    let (rest, e, l, f) = first_rows-rest n rs in
    (rest, ground arith, omega (arith, l), ground (arith, f))

-- The rows are the listed ones, the `rest` that is asked for too, and the `dropped`, which are not
-- asked for. Listed and rest are in the order of time, and there is a rest only behind a listing
-- of `n` labels.
abbrev pub IsListing :
    String
    → Option String
    → Option String
    → Option ℤ
    → ℕ
    → List FeedbackEvent
    → List FeedbackEvent
    → Type 0
IsListing tenant app guard_id since n rows out =
    (rest : List FeedbackEvent) × (dropped : List FeedbackEvent) × Perm ((out ++ rest) ++ dropped)
      rows
    × All (IsAsked tenant app guard_id since) (out ++ rest)
    × All (λ r. ¬ IsAsked tenant app guard_id since r) dropped
    × IsSorted at_before (out ++ rest)
    × (length out ≤ n)
    × ((length out ≡ n) ⊎ (rest ≡ []))

first_rows-IsListing :
    (tenant : String) (app guard_id : Option String) (since : Option ℤ) (n : ℕ)
    (rows : List FeedbackEvent)
    → IsListing tenant app guard_id since n rows
        (first_rows n (sort_by at_before (filter (is_asked tenant app guard_id since) rows)))
first_rows-IsListing tenant app guard_id since n rows =
    let asked = filter (is_asked tenant app guard_id since) rows in
    let sorted = sort_by at_before asked in
    let dropped = others tenant app guard_id since rows in
    let (p, a, d) = filter-others tenant app guard_id since rows in
    let (rest, e, l, f) = first_rows-rest n sorted in
    (
      rest,
      dropped,
      subst (λ xs. Perm (xs ++ dropped) rows) (sym e)
          (Perm.trans (Perm.append_right dropped (sort_by-perm at_before asked)) p),
      subst (All (IsAsked tenant app guard_id since)) (sym e)
          (All-sort_by at_before (IsAsked tenant app guard_id since) asked a),
      d,
      subst (IsSorted at_before) (sym e)
          (sort_by-IsSorted at_before (λ r s h. ground arith) (λ r s t h k. ground arith) asked),
      l,
      f,
    )

module _ (py : Platform) where
  -- A listing that returns, for a number from 1 to 5000, has at most that many labels, in the order of
  -- time, and all of them are stored and asked for. It leaves out a stored label only if that is not
  -- asked for, or if the listing is full and the label is not older than those listed.
  pub list_feedback-IsListing :
      (p : Principal) (tenant : String) (app guard_id since : Option String) (n : ℕ)
      (rows out : List FeedbackEvent)
      → list_feedback py p tenant app guard_id since n rows ≡ ok out
      → (t : Option ℤ) × (since_bound py since ≡ ok t)
        × (1 ≤ n)
        × (n ≤ 5000)
        × IsListing tenant app guard_id t n rows out
  unfolding list_feedback
  list_feedback-IsListing p tenant app guard_id since n rows out e =
      let (_, _, e1) =
        >>=-eq-ok (require_role (Role.reviewer ∷ Role.approver ∷ Role.service ∷ Role.admin ∷ []) p)
          _ e in
      let (l, e2) = raise_if-eq-ok (ltb n 1 || ltb 5000 n) (http 422) _ e1 in
      let (t, et, e3) = >>=-eq-ok (since_bound py since) _ e2 in
      subst_ok
        (λ q.
          (u : Option ℤ) × (since_bound py since ≡ ok u)
          × (1 ≤ n)
          × (n ≤ 5000)
          × IsListing tenant app guard_id u n rows q)
        e3 (t, et, ground arith, ground arith, first_rows-IsListing tenant app guard_id t n rows)
