-- ===== src/Automation/Groups.antt =====
-- synthesizer/synth.py: the groups hold the mapped candidates, each under its scenario and directions.
use mathlib.Core.Path.{subst}
use mathlib.Core.List.{Perm, perm_middle}
use mathlib.Core.List.Perm
use guard_x.Common.{
  All-snoc, ◌≡◌, refl, sym, inl, inr, String, Bool, true, false, ◌&&◌, List, [], ◌∷◌, ◌++◌,
  append_assoc, append-nil, arith, eq_iff, All, Bool-cases, is_some, keep_if, filter, lookup,
  str_eq,
}
use guard_x.Common.Json.{Json, null, bool, int, float, str, arr, obj}
use guard_x.Common.Result.{ok, >>=-eq-ok, subst_ok}
use guard_x.Common.Sort.{sort_by}
use guard_x.Common.Text.{text_lt}
use guard_x.Profiles.Merge.{check_hashable}
use guard_x.Automation.Templates.{templates}
use guard_x.Automation.Synth.{
  Candidate, template_of, is_mapped, GuardGroup, texts_eq, add_to_group, group_candidate,
  group_candidates,
}

-- The candidates of the groups, and of the guards.
abbrev pub members_of : List GuardGroup → List Candidate
members_of [] = []
members_of (g ∷ gs) = g.members ++ members_of gs

add_to_group-perm :
    (s : String) (d : List String) (c : Candidate) (gs : List GuardGroup)
    → Perm (members_of (add_to_group s d c gs)) (c ∷ members_of gs)
unfolding add_to_group
add_to_group-perm s d c [] = Perm.refl (c ∷ [])
add_to_group-perm s d c (g ∷ gs) =
    elim (Bool-cases (str_eq s g.scenario && texts_eq d g.direction)) [
      | inl same ↦ rw same (
          subst (λ xs. Perm xs (c ∷ (g.members ++ members_of gs)))
            (sym (append_assoc g.members (c ∷ []) (members_of gs)))
            (perm_middle g.members (members_of gs)))
      | inr other ↦ rw other (
          Perm.trans (Perm.append_left g.members (add_to_group-perm s d c gs))
            (perm_middle g.members (members_of gs)))
    ]

group_candidate-perm :
    (c : Candidate) (v : Json) (gs : List GuardGroup)
    → Perm
        (members_of (group_candidate c v gs))
        (keep_if (is_some (template_of v)) c (members_of gs))
group_candidate-perm c (str s) gs = elim (Bool-cases (is_some (lookup s templates))) [
  | inl mapped ↦ rw mapped (add_to_group-perm s (sort_by text_lt c.direction) c gs)
  | inr unknown ↦ rw unknown (Perm.refl (members_of gs))
]
group_candidate-perm c null gs = Perm.refl (members_of gs)
group_candidate-perm c (bool b) gs = Perm.refl (members_of gs)
group_candidate-perm c (int n) gs = Perm.refl (members_of gs)
group_candidate-perm c (float f) gs = Perm.refl (members_of gs)
group_candidate-perm c (arr xs) gs = Perm.refl (members_of gs)
group_candidate-perm c (obj fs) gs = Perm.refl (members_of gs)

keep_if-move :
    (b : Bool) (c : Candidate) (xs ys : List Candidate)
    → Perm (keep_if b c xs ++ ys) (xs ++ keep_if b c ys)
keep_if-move true c xs ys = Perm.symm (perm_middle xs ys)
keep_if-move false c xs ys = Perm.refl (xs ++ ys)

pub group_candidates-perm :
    (cs : List Candidate) (gs out : List GuardGroup)
    → group_candidates cs gs ≡ ok out
    → Perm (members_of out) (members_of gs ++ filter is_mapped cs)
unfolding group_candidates
group_candidates-perm [] gs out e =
    subst_ok (λ o. Perm (members_of o) (members_of gs ++ [])) e
      (subst (λ xs. Perm (members_of gs) xs) (sym (append-nil (members_of gs)))
        (Perm.refl (members_of gs)))
group_candidates-perm (c ∷ cs) gs out e =
    let (u, e1, e2) = >>=-eq-ok (check_hashable c.scenario) _ e in
    Perm.trans (group_candidates-perm cs (group_candidate c c.scenario gs) out e2) (
      Perm.trans (Perm.append_right (filter is_mapped cs) (group_candidate-perm c c.scenario gs))
        (keep_if-move (is_mapped c) c (members_of gs) (filter is_mapped cs)))

-- The candidate is of the scenario and the directions.
abbrev pub IsOf : String → List String → Candidate → Type 0
IsOf s d c = (c.scenario ≡ str s) × (sort_by text_lt c.direction ≡ d)

abbrev pub IsGroup : GuardGroup → Type 0
IsGroup g = All (IsOf g.scenario g.direction) g.members

texts_eq_sound : (ss ts : List String) → texts_eq ss ts ≡ true → ss ≡ ts
texts_eq_sound [] [] h = refl
texts_eq_sound [] (t ∷ ts) h = cc
texts_eq_sound (s ∷ ss) [] h = cc
texts_eq_sound (s ∷ ss) (t ∷ ts) h = ground (arith, eq_iff s t, texts_eq_sound ss ts)

add_to_group-IsGroup :
    (s : String) (d : List String) (c : Candidate) (gs : List GuardGroup)
    → IsOf s d c
    → All IsGroup gs
    → All IsGroup (add_to_group s d c gs)
unfolding add_to_group
add_to_group-IsGroup s d c [] i h = ((i, tt), tt)
add_to_group-IsGroup s d c (g ∷ gs) i h =
    elim (Bool-cases (str_eq s g.scenario && texts_eq d g.direction)) [
      | inl same ↦
          let e : s ≡ g.scenario = ground (arith, eq_iff s g.scenario) in
          let t : texts_eq d g.direction ≡ true = ground arith in
          let j : IsOf g.scenario g.direction c =
            subst (λ x. IsOf x g.direction c) e
              (subst (λ x. IsOf s x c) (texts_eq_sound d g.direction t) i) in
          rw same (All-snoc (IsOf g.scenario g.direction) g.members c h.0 j, h.1)
      | inr other ↦ rw other (h.0, add_to_group-IsGroup s d c gs i h.1)
    ]

group_candidate-IsGroup :
    (c : Candidate) (v : Json) (gs : List GuardGroup)
    → c.scenario ≡ v
    → All IsGroup gs
    → All IsGroup (group_candidate c v gs)
group_candidate-IsGroup c (str s) gs e h = elim (Bool-cases (is_some (lookup s templates))) [
  | inl mapped ↦ rw mapped (add_to_group-IsGroup s (sort_by text_lt c.direction) c gs (e, refl) h)
  | inr unknown ↦ rw unknown h
]
group_candidate-IsGroup c null gs e h = h
group_candidate-IsGroup c (bool b) gs e h = h
group_candidate-IsGroup c (int n) gs e h = h
group_candidate-IsGroup c (float f) gs e h = h
group_candidate-IsGroup c (arr xs) gs e h = h
group_candidate-IsGroup c (obj fs) gs e h = h

pub group_candidates-IsGroup :
    (cs : List Candidate) (gs out : List GuardGroup)
    → group_candidates cs gs ≡ ok out
    → All IsGroup gs
    → All IsGroup out
unfolding group_candidates
group_candidates-IsGroup [] gs out e h = subst_ok (All IsGroup) e h
group_candidates-IsGroup (c ∷ cs) gs out e h =
    let (u, e1, e2) = >>=-eq-ok (check_hashable c.scenario) _ e in
    group_candidates-IsGroup cs (group_candidate c c.scenario gs) out e2
      (group_candidate-IsGroup c c.scenario gs refl h)
