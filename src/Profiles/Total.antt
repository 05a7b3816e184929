-- ===== src/Profiles/Total.antt =====
-- inheritance.py: the loop of `resolve_chain` ends, whatever the parents of the packs are.
use guard_x.Common.{
  ℕ, zero, suc, ◌+◌, ◌≤◌, ◌<◌, ◌≡◌, refl, String, false, not, Option, some, List, [], ◌∷◌, arith,
  eq_iff, inl, inr, Bool-cases, length, str_eq, elem, lookup, if◌then◌else◌,
}
use guard_x.Common.Text.{contains}
use guard_x.Common.Json.{Json}
use guard_x.Common.Result.{
  Result, ok, err, Result-cases, subst_ok, value_error, file_not_found, or_raise, >>=-eq-ok,
  raise_if-eq-ok, or_raise-eq-ok,
}
use guard_x.Platform.{Platform}
use guard_x.Profiles.Chain.{PackRef, Packs, load_pack, parent_of, turn, resolve_loop, resolve_chain}

-- The number of files whose spec the loop has not had.
abbrev pub remaining : List String → Packs → ℕ
remaining seen [] = 0
remaining seen ((k, v) ∷ d) = (if elem k seen then 0 else 1) + remaining seen d

remaining-le :
    (cur : String) (seen : List String) (d : Packs) → remaining (cur ∷ seen) d ≤ remaining seen d
remaining-le cur seen [] = omega arith
remaining-le cur seen ((k, v) ∷ d) = ground (arith, remaining-le cur seen d)

-- A file that the loop has now is one less.
remaining-lt :
    (cur : String) (seen : List String) (d : Packs) (file : Option Json)
    → elem cur seen ≡ false
    → lookup cur d ≡ some file
    → remaining (cur ∷ seen) d < remaining seen d
remaining-lt cur seen [] file h l = cc
remaining-lt cur seen ((k, v) ∷ d) file h l = elim (Bool-cases (str_eq cur k)) [
  | inl found ↦ ground (arith, eq_iff cur k, eq_iff k cur, remaining-le cur seen d)
  | inr other ↦
      ground (arith, eq_iff cur k, eq_iff k cur, remaining-lt cur seen d file h (rw other at l))
]

remaining-none : (d : Packs) → remaining [] d ≡ length d
remaining-none [] = refl
remaining-none ((k, v) ∷ d) = ground (arith, remaining-none d)

module _ (py : Platform) (packs : Packs) where
  pub load_pack_found :
      (spec : String) (p : PackRef)
      → load_pack py packs spec ≡ ok p
      → (file : Option Json) × (lookup spec packs ≡ some file)
  unfolding load_pack
  load_pack_found spec p e =
      let (named, e1) = raise_if-eq-ok (not (contains "@" spec)) value_error _ e in
      let (file, efile, e2) = >>=-eq-ok (or_raise (lookup spec packs) file_not_found) _ e1 in
      (file, or_raise-eq-ok (lookup spec packs) file_not_found efile)

  -- What a turn that returns has seen.
  pub turn-eq-ok :
      (seen : List String) (cur : String) (p : PackRef) (next : String)
      → turn py packs seen cur ≡ ok (p, next)
      → (elem cur seen ≡ false)
        × ((load_pack py packs cur ≡ ok p) × (parent_of p.document ≡ ok next))
  unfolding turn
  turn-eq-ok seen cur p next e =
      let (fresh, e1) = raise_if-eq-ok (elem cur seen) value_error _ e in
      let (q, eq, e2) = >>=-eq-ok (load_pack py packs cur) _ e1 in
      let (s, es, e3) = >>=-eq-ok (parent_of q.document) _ e2 in
      (
        fresh,
        subst_ok (λ x. (load_pack py packs cur ≡ ok x.0) × (parent_of x.0.document ≡ ok x.1)) e3
            (eq, es),
      )

  -- With more turns than files that are left, the loop ends.
  resolve_loop_total :
      (n : ℕ) (seen : List String) (chain : List PackRef) (cur : String)
      → remaining seen packs < n
      → (r : Result (List PackRef)) × (resolve_loop py packs n seen chain cur ≡ some r)
  unfolding resolve_loop
  resolve_loop_total zero seen chain cur l = ground arith
  resolve_loop_total (suc n) seen chain cur l = elim (Bool-cases (str_eq cur "")) [
    | inl stop ↦ (ok chain, rw stop)
    | inr more ↦ elim (Result-cases (turn py packs seen cur)) [
      | inr (exc, raises) ↦ (err exc, rw (more, raises))
      | inl ((p, next), returns) ↦
          let (fresh, (loads, named)) = turn-eq-ok seen cur p next returns in
          let (file, found) = load_pack_found cur p loads in
          let (r, e) =
            resolve_loop_total n (cur ∷ seen) (p ∷ chain) next
              (omega (arith, remaining-lt cur seen packs file fresh found)) in
          (r, rw (more, returns) e)
    ]
  ]

  -- More turns than it takes change nothing.
  resolve_loop_more :
      (n k : ℕ) (seen : List String) (chain : List PackRef) (cur : String)
      (r : Result (List PackRef))
      → resolve_loop py packs n seen chain cur ≡ some r
      → n ≤ k
      → resolve_loop py packs k seen chain cur ≡ some r
  unfolding resolve_loop
  resolve_loop_more zero zero seen chain cur r e l = e
  resolve_loop_more zero (suc k) seen chain cur r e l = elim (Bool-cases (str_eq cur "")) [
    | inl stop ↦ rw stop (rw stop at e)
    | inr more ↦ ground arith
  ]
  resolve_loop_more (suc n) zero seen chain cur r e l = ground arith
  resolve_loop_more (suc n) (suc k) seen chain cur r e l = elim (Bool-cases (str_eq cur "")) [
    | inl stop ↦ rw stop (rw stop at e)
    | inr more ↦ elim (Result-cases (turn py packs seen cur)) [
      | inr (exc, raises) ↦ rw (more, raises) (rw (more, raises) at e)
      | inl ((p, next), returns) ↦
          rw (more, returns)
            (resolve_loop_more n k (cur ∷ seen) (p ∷ chain) next r (rw (more, returns) at e)
              (omega (arith, l)))
    ]
  ]

-- The chain of every spec over every set of files is computed: the loop has a result, a list of packs
-- or an exception, and no higher number of turns gives another one.
pub resolve_chain_total :
    (py : Platform) (packs : Packs) (spec : String) (n : ℕ)
    → length packs < n
    → (r : Result (List PackRef)) × (resolve_chain py packs spec ≡ some r)
      × (resolve_loop py packs n [] [] spec ≡ some r)
unfolding resolve_chain
resolve_chain_total py packs spec n l =
    let (r, e) =
      resolve_loop_total py packs (suc (length packs)) [] [] spec
        (omega (arith, remaining-none packs)) in
    (r, e, resolve_loop_more py packs (suc (length packs)) n [] [] spec r e (omega (arith, l)))
