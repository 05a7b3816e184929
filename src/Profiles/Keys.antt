-- ===== src/Profiles/Keys.antt =====
-- inheritance.py: what `merge` makes of a key that only one of the two documents has.
use mathlib.Core.Path.{subst}
use guard_x.Common.{
  ◌≡◌, refl, sym, ap, ◌∙◌, inl, inr, String, Option, none, some, List, arith, str_eq, eq_iff,
  Bool-cases, is_some,
}
use guard_x.Common.Json.{Json, Fields, obj, end, field, find, get, or_null}
use guard_x.Common.Result.{ok, >>=-eq-ok, subst_ok, ok-injective}
use guard_x.Platform.{Platform}
use guard_x.Profiles.Merge.{
  Override, Merged, append_fields, new_fields, merge_fields, merge_key, merge,
}

abbrev first_of : Option Json → Option Json → Option Json
first_of none o = o
first_of (some v) o = some v

first_of-none : (o p : Option Json) → p ≡ none → first_of o p ≡ o
first_of-none none p h = h
first_of-none (some v) p h = refl

find-append_fields :
    (k : String) (fs gs : Fields) → find k (append_fields fs gs) ≡ first_of (find k fs) (find k gs)
find-append_fields k end gs = refl
find-append_fields k (field q v fs) gs = ground (arith, find-append_fields k fs gs)

module _ (py : Platform) (parent_layer child_layer : String) where
  find-new_fields :
      (k : String) (ps : Fields) (path : String) (cs : Fields)
      → find k ps ≡ none
      → find k (new_fields py parent_layer child_layer ps path cs).0 ≡ find k cs
  unfolding new_fields
  find-new_fields k ps path end h = refl
  find-new_fields k ps path (field q v cs) h =
      let ih = find-new_fields k ps path cs h in
      elim (Bool-cases (str_eq k q)) [
        | inl same ↦
            let fresh : find q ps ≡ none = subst (λ x. find x ps ≡ none) ((eq_iff k q).0 same) h in
            rw (fresh, same) refl
        | inr other ↦ elim (Bool-cases (is_some (find q ps))) [
          | inl seen ↦ rw (seen, other) ih
          | inr fresh ↦ rw (fresh, other) ih
        ]
      ]

  find-new_fields_absent :
      (k : String) (ps : Fields) (path : String) (cs : Fields)
      → find k cs ≡ none
      → find k (new_fields py parent_layer child_layer ps path cs).0 ≡ none
  unfolding new_fields
  find-new_fields_absent k ps path end h = refl
  find-new_fields_absent k ps path (field q v cs) h = elim (Bool-cases (str_eq k q)) [
    | inl same ↦ cc (rw same at h)
    | inr other ↦
        let ih = find-new_fields_absent k ps path cs (rw other at h) in
        elim (Bool-cases (is_some (find q ps))) [
          | inl seen ↦ rw seen ih
          | inr fresh ↦ rw (fresh, other) ih
        ]
  ]

  find-merge_fields :
      (k : String) (ps cs : Fields) (path : String) (out : Fields × List Override)
      → merge_fields py parent_layer child_layer ps cs path ≡ ok out
      → find k cs ≡ none
      → find k out.0 ≡ find k ps
  unfolding merge_fields
  find-merge_fields k end cs path out e h = subst_ok (λ q. find k q.0 ≡ none) e refl
  find-merge_fields k (field q pv ps) cs path out e h =
      let (m, em, e1) = >>=-eq-ok (merge_key py parent_layer child_layer pv (find q cs) _) _ e in
      let (r, er, e2) = >>=-eq-ok (merge_fields py parent_layer child_layer ps cs path) _ e1 in
      let ih = find-merge_fields k ps cs path r er h in
      subst_ok (λ w. find k w.0 ≡ find k (field q pv ps)) e2
        (elim (Bool-cases (str_eq k q)) [
          | inl same ↦
              let absent : find q cs ≡ none =
                subst (λ x. find x cs ≡ none) ((eq_iff k q).0 same) h in
              rw same (ap some (sym (ap (λ x. x.0) (ok-injective (rw absent at em)))))
          | inr other ↦ rw other ih
        ])

  find-merge_fields_absent :
      (k : String) (ps cs : Fields) (path : String) (out : Fields × List Override)
      → merge_fields py parent_layer child_layer ps cs path ≡ ok out
      → find k ps ≡ none
      → find k out.0 ≡ none
  unfolding merge_fields
  find-merge_fields_absent k end cs path out e h = subst_ok (λ q. find k q.0 ≡ none) e refl
  find-merge_fields_absent k (field q pv ps) cs path out e h =
      let (m, em, e1) = >>=-eq-ok (merge_key py parent_layer child_layer pv (find q cs) _) _ e in
      let (r, er, e2) = >>=-eq-ok (merge_fields py parent_layer child_layer ps cs path) _ e1 in
      subst_ok (λ w. find k w.0 ≡ none) e2
        (elim (Bool-cases (str_eq k q)) [
          | inl same ↦ cc (rw same at h)
          | inr other ↦ rw other (find-merge_fields_absent k ps cs path r er (rw other at h))
        ])

  -- A key that the child does not have keeps the value of the parent.
  pub get-merge_parent :
      (k : String) (ps cs : Fields) (path : String) (out : Merged)
      → merge py parent_layer child_layer (obj ps) (obj cs) path ≡ ok out
      → find k cs ≡ none
      → get k out.0 ≡ get k (obj ps)
  unfolding merge
  get-merge_parent k ps cs path out e h =
      let new = (new_fields py parent_layer child_layer ps path cs).0 in
      let (r, er, e1) = >>=-eq-ok (merge_fields py parent_layer child_layer ps cs path) _ e in
      subst_ok (λ w. get k w.0 ≡ get k (obj ps)) e1
        (ap (λ o. ok (or_null o))
          (find-append_fields k r.0 new
            ∙ first_of-none (find k r.0) (find k new) (find-new_fields_absent k ps path cs h)
            ∙ find-merge_fields k ps cs path r er h))

  -- A key that the parent does not have takes the value of the child.
  get-merge_child :
      (k : String) (ps cs : Fields) (path : String) (out : Merged)
      → merge py parent_layer child_layer (obj ps) (obj cs) path ≡ ok out
      → find k ps ≡ none
      → get k out.0 ≡ get k (obj cs)
  unfolding merge
  get-merge_child k ps cs path out e h =
      let new = (new_fields py parent_layer child_layer ps path cs).0 in
      let (r, er, e1) = >>=-eq-ok (merge_fields py parent_layer child_layer ps cs path) _ e in
      subst_ok (λ w. get k w.0 ≡ get k (obj cs)) e1
        (ap (λ o. ok (or_null o))
          (find-append_fields k r.0 new
            ∙ ap (λ o. first_of o (find k new)) (find-merge_fields_absent k ps cs path r er h)
            ∙ find-new_fields k ps path cs h))
