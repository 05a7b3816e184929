-- ===== src/Profiles/Guards.antt =====
-- inheritance.py: what becomes of the guards of the parent.
use guard_x.Common.{
  ◌≡◌, refl, ◌⊎◌, inl, inr, String, true, false, Option, none, some, List, [], ◌∷◌, ◌++◌, All,
  Bool-cases,
}
use guard_x.Common.Json.{Json, Items, nil, cons, arr, items, of_list, get, truthy}
use guard_x.Common.Result.{ok, >>=-eq-ok, subst_ok}
use guard_x.Platform.{Platform}
use guard_x.Profiles.Merge.{
  Override, Merged, merge_pair, merge_guards, merge_guard, new_guards, by_id, check_ids,
}

-- The list has the guard.
abbrev pub Has : Json → List Json → Type 0
Has g [] = ⊥
Has g (h ∷ hs) = (g ≡ h) ⊎ Has g hs

Has-append_left : (g : Json) (xs ys : List Json) → Has g xs → Has g (xs ++ ys)
Has-append_left g [] ys h = absurd h
Has-append_left g (x ∷ xs) ys (inl e) = inl e
Has-append_left g (x ∷ xs) ys (inr h) = inr (Has-append_left g xs ys h)

Has-append_right : (g : Json) (xs ys : List Json) → Has g ys → Has g (xs ++ ys)
Has-append_right g [] ys h = h
Has-append_right g (x ∷ xs) ys h = inr (Has-append_right g xs ys h)

module _ (py : Platform) (parent_layer child_layer : String) where
  -- The result of merging the child's guard into the one of the parent.
  abbrev pub IsMergeOf : Json → Json → Json → Type 0
  IsMergeOf pg cg g =
      (path : String) × (trace : List Override) × (merge_pair py parent_layer child_layer false pg
          cg path
        ≡ ok (g, trace))

  -- A guard of the parent is in the result as it was, if the child has none of its id; otherwise it
  -- is there merged with that one, unless that one asks for its removal.
  abbrev pub IsKept : List Json → List Json → Json → Type 0
  IsKept cs gs pg =
      (gid : Json) × (get "id" pg ≡ ok gid)
      × (((by_id gid cs ≡ none) × Has pg gs)
          ⊎ ((cg : Json) × (removed : Json) × (by_id gid cs ≡ some cg)
              × (get "__remove__" cg ≡ ok removed)
              × ((truthy removed ≡ true) ⊎ ((g : Json) × IsMergeOf pg cg g × Has g gs))))

  IsKept-append_left :
      (cs xs ys : List Json) (pg : Json) → IsKept cs xs pg → IsKept cs (xs ++ ys) pg
  IsKept-append_left cs xs ys pg (gid, i, inl (n, h)) =
      (gid, i, inl (n, Has-append_left pg xs ys h))
  IsKept-append_left cs xs ys pg (gid, i, inr (cg, r, b, e, inl t)) =
      (gid, i, inr (cg, r, b, e, inl t))
  IsKept-append_left cs xs ys pg (gid, i, inr (cg, r, b, e, inr (g, m, h))) =
      (gid, i, inr (cg, r, b, e, inr (g, m, Has-append_left g xs ys h)))

  IsKept-append_right :
      (cs xs ys : List Json) (pg : Json) → IsKept cs ys pg → IsKept cs (xs ++ ys) pg
  IsKept-append_right cs xs ys pg (gid, i, inl (n, h)) =
      (gid, i, inl (n, Has-append_right pg xs ys h))
  IsKept-append_right cs xs ys pg (gid, i, inr (cg, r, b, e, inl t)) =
      (gid, i, inr (cg, r, b, e, inl t))
  IsKept-append_right cs xs ys pg (gid, i, inr (cg, r, b, e, inr (g, m, h))) =
      (gid, i, inr (cg, r, b, e, inr (g, m, Has-append_right g xs ys h)))

  All-append_left : (cs xs ys l : List Json) → All (IsKept cs xs) l → All (IsKept cs (xs ++ ys)) l
  All-append_left cs xs ys [] h = tt
  All-append_left cs xs ys (p ∷ l) h =
      (IsKept-append_left cs xs ys p h.0, All-append_left cs xs ys l h.1)

  All-append_right : (cs xs ys l : List Json) → All (IsKept cs ys) l → All (IsKept cs (xs ++ ys)) l
  All-append_right cs xs ys [] h = tt
  All-append_right cs xs ys (p ∷ l) h =
      (IsKept-append_right cs xs ys p h.0, All-append_right cs xs ys l h.1)

  merge_guard-IsKept :
      (pg gid : Json) (cs : List Json) (path : String) (o : Option Json)
      (out : List Json × List Override)
      → get "id" pg ≡ ok gid
      → by_id gid cs ≡ o
      → merge_guard py parent_layer child_layer pg o path
          (λ cg. merge_pair py parent_layer child_layer false pg cg path)
        ≡ ok out
      → IsKept cs out.0 pg
  merge_guard-IsKept pg gid cs path none out i b e =
      subst_ok (λ q. IsKept cs q.0 pg) e (gid, i, inl (b, inl refl))
  merge_guard-IsKept pg gid cs path (some cg) out i b e =
      let (removed, er, e1) = >>=-eq-ok (get "__remove__" cg) _ e in
      elim (Bool-cases (truthy removed)) [
        | inl drop ↦ (gid, i, inr (cg, removed, b, er, inl drop))
        | inr keep ↦
            let (m, em, e2) =
              >>=-eq-ok (merge_pair py parent_layer child_layer false pg cg path) _
                (rw keep at e1) in
            subst_ok (λ q. IsKept cs q.0 pg) e2
              (gid, i, inr (cg, removed, b, er, inr (m.0, (path, m.1, em), inl refl)))
      ]

  merge_guards-IsKept :
      (ps : Items) (cs : List Json) (path : String) (out : List Json × List Override)
      → merge_guards py parent_layer child_layer ps cs path ≡ ok out
      → All (IsKept cs out.0) (items ps)
  unfolding merge_guards
  merge_guards-IsKept nil cs path out e = tt
  merge_guards-IsKept (cons pg ps) cs path out e =
      let (gid, i, e1) = >>=-eq-ok (get "id" pg) _ e in
      let (k, ek, e2) =
        >>=-eq-ok (merge_guard py parent_layer child_layer pg (by_id gid cs) _ _) _ e1 in
      let (r, er, e3) = >>=-eq-ok (merge_guards py parent_layer child_layer ps cs path) _ e2 in
      subst_ok (λ q. All (IsKept cs q.0) (pg ∷ items ps)) e3
        (
          IsKept-append_left cs k.0 r.0 pg
              (merge_guard-IsKept pg gid cs _ (by_id gid cs) k i refl ek),
          All-append_right cs k.0 r.0 (items ps) (merge_guards-IsKept ps cs path r er),
        )

  -- In a merge of two lists of guards that returns, every guard of the parent is in the result: as
  -- it was if the child has none of its id, and otherwise merged with that one, unless that one
  -- asks for its removal.
  pub merge_pair-IsKept :
      (ps cs : Items) (path : String) (out : Merged)
      → merge_pair py parent_layer child_layer true (arr ps) (arr cs) path ≡ ok out
      → (gs : List Json) × (out.0 ≡ arr (of_list gs)) × All (IsKept (items cs) gs) (items ps)
  unfolding merge_pair
  merge_pair-IsKept ps cs path out e =
      let (_, _, e1) = >>=-eq-ok (check_ids (items ps)) _ e in
      let (_, _, e2) = >>=-eq-ok (check_ids (items cs)) _ e1 in
      let (k, ek, e3) =
        >>=-eq-ok (merge_guards py parent_layer child_layer ps (items cs) path) _ e2 in
      let (n, _, e4) =
        >>=-eq-ok (new_guards py parent_layer child_layer (items ps) path (items cs)) _ e3 in
      subst_ok
        (λ q. (gs : List Json) × (q.0 ≡ arr (of_list gs)) × All (IsKept (items cs) gs) (items ps))
        e4
        (
          k.0 ++ n.0,
          refl,
          All-append_left (items cs) k.0 n.0 (items ps)
              (merge_guards-IsKept ps (items cs) path k ek),
        )
