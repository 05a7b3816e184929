-- ===== src/Profiles/Lineage.antt =====
-- inheritance.py: what the list of packs is that `resolve_chain` returns.
use mathlib.Core.Path.{subst}
use mathlib.Core.Option.{some-injective}
use guard_x.Common.{
  ℕ, zero, suc, ◌≡◌, refl, String, true, false, some, List, [], ◌∷◌, arith, eq_iff, inl, inr,
  Bool-cases, length, str_eq, elem,
}
use guard_x.Common.Result.{ok, Result-cases, ok-injective}
use guard_x.Platform.{Platform}
use guard_x.Profiles.Chain.{PackRef, Packs, load_pack, parent_of, turn, resolve_loop, resolve_chain}
use guard_x.Profiles.Total.{turn-eq-ok}

module _ (py : Platform) (packs : Packs) (spec : String) where
  -- The packs from the one whose parent is `cur` down to that of `spec`: each is loaded under its
  -- spec, which is not that of a pack below it, and its parent is the spec of the pack in front.
  abbrev pub IsLineage : String → List String → List PackRef → Type 0
  IsLineage cur [] [] = cur ≡ spec
  IsLineage cur (s ∷ seen) (p ∷ chain) =
      (parent_of p.document ≡ ok cur)
      × (load_pack py packs s ≡ ok p)
      × (elem s seen ≡ false)
      × IsLineage s seen chain
  IsLineage cur seen chain = ⊥

  IsLineage-end :
      (cur : String) (seen : List String) (chain found : List PackRef)
      → str_eq cur "" ≡ true
      → IsLineage cur seen chain
      → some (ok chain) ≡ some (ok found)
      → IsLineage "" seen found
  IsLineage-end cur seen chain found stop h e =
      let named : cur ≡ "" = ground (arith, eq_iff cur "") in
      subst (λ c. IsLineage "" seen c) (ok-injective (some-injective _ _ e))
        (subst (λ c. IsLineage c seen chain) named h)

  resolve_loop-IsLineage :
      (n : ℕ) (seen : List String) (chain : List PackRef) (cur : String) (found : List PackRef)
      → IsLineage cur seen chain
      → resolve_loop py packs n seen chain cur ≡ some (ok found)
      → (specs : List String) × IsLineage "" specs found
  unfolding resolve_loop
  resolve_loop-IsLineage zero seen chain cur found h e = elim (Bool-cases (str_eq cur "")) [
    | inl stop ↦ (seen, IsLineage-end cur seen chain found stop h (rw stop at e))
    | inr more ↦ ground arith
  ]
  resolve_loop-IsLineage (suc n) seen chain cur found h e = elim (Bool-cases (str_eq cur "")) [
    | inl stop ↦ (seen, IsLineage-end cur seen chain found stop h (rw stop at e))
    | inr more ↦ elim (Result-cases (turn py packs seen cur)) [
      | inr (exc, raises) ↦ ground (arith, (rw (more, raises) at e))
      | inl ((p, next), returns) ↦
          let (fresh, (loads, named)) = turn-eq-ok py packs seen cur p next returns in
          resolve_loop-IsLineage n (cur ∷ seen) (p ∷ chain) next found (named, loads, fresh, h)
            (rw (more, returns) at e)
    ]
  ]

-- A chain that is resolved is a lineage: its first pack has no parent, every other pack has the one in
-- front of it as its parent, the last is the pack of the spec, and no spec is loaded twice.
pub resolve_chain-IsLineage :
    (py : Platform) (packs : Packs) (spec : String) (found : List PackRef)
    → resolve_chain py packs spec ≡ some (ok found)
    → (specs : List String) × IsLineage py packs spec "" specs found
unfolding resolve_chain
resolve_chain-IsLineage py packs spec found e =
    resolve_loop-IsLineage py packs spec (suc (length packs)) [] [] spec found refl e
