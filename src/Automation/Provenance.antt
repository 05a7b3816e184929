-- ===== src/Automation/Provenance.antt =====
-- synthesizer/synth.py: every mapped candidate is in the provenance of one guard, which is of its
-- scenario and its directions and as strict as its severity asks.
use mathlib.Core.Path.{subst}
use mathlib.Core.List.{Perm}
use guard_x.Common.{
  le_of_not-ltb, ℕ, ◌+◌, ◌≤◌, ◌≡◌, refl, sym, ap, ◌∙◌, inl, inr, String, true, false, some, List,
  [], ◌∷◌, ◌++◌, arith, All, Bool-cases, ltb→lt, insert, filter, lookup, ltb,
}
use guard_x.Common.Result.{ok, key_error, or_raise, >>=-eq-ok, or_raise-eq-ok, subst_ok}
use guard_x.Automation.Templates.{SeverityRow, severity_table, templates}
use guard_x.Automation.Synth.{
  Candidate, is_mapped, GuardGroup, group_candidates, sev_rank, highest_from, count_of, SynthGuard,
  compile_group, compile_groups, compile_guards,
}
use guard_x.Automation.Groups.{
  members_of, IsOf, IsGroup, group_candidates-perm, group_candidates-IsGroup,
}

-- The candidates in the provenance of the guards.
abbrev pub provenances : List SynthGuard → List Candidate
provenances [] = []
provenances (g ∷ gs) = g.provenance ++ provenances gs

-- No candidate is more severe than the severity that gave the guard its threshold.
abbrev pub IsStrict : SynthGuard → Type 0
IsStrict g =
    (sev : String) × (row : SeverityRow) × (lookup sev severity_table ≡ some row)
    × (g.threshold ≡ row.threshold)
    × All (λ c. sev_rank c.severity_hint ≤ sev_rank sev) g.provenance

abbrev IsBelow : ℕ → List Candidate → Type 0
IsBelow n cs = All (λ c. sev_rank c.severity_hint ≤ n) cs

-- The test of `max` on two candidates, and the highest one.
below_trans :
    (c d h : Candidate)
    → ltb (sev_rank c.severity_hint) (sev_rank d.severity_hint) ≡ true
    → sev_rank d.severity_hint ≤ sev_rank h.severity_hint
    → sev_rank c.severity_hint ≤ sev_rank h.severity_hint
below_trans c d h e l =
    let lt = ltb→lt (sev_rank c.severity_hint) (sev_rank d.severity_hint) e in omega (arith, lt, l)

not_below_trans :
    (c d h : Candidate)
    → ltb (sev_rank c.severity_hint) (sev_rank d.severity_hint) ≡ false
    → sev_rank c.severity_hint ≤ sev_rank h.severity_hint
    → sev_rank d.severity_hint ≤ sev_rank h.severity_hint
not_below_trans c d h e l =
    let le = le_of_not-ltb (sev_rank c.severity_hint) (sev_rank d.severity_hint) e in
    omega (arith, le, l)

highest_from-IsBelow :
    (c : Candidate) (cs : List Candidate)
    → IsBelow (sev_rank (highest_from c cs).severity_hint) (c ∷ cs)
unfolding highest_from
highest_from-IsBelow c [] = (omega arith, tt)
highest_from-IsBelow c (d ∷ ds) =
    elim (Bool-cases (ltb (sev_rank c.severity_hint) (sev_rank d.severity_hint))) [
      | inl more ↦
          let e : highest_from c (d ∷ ds) ≡ highest_from d ds = rw more in
          let (first, others) = highest_from-IsBelow d ds in
          subst (λ h. IsBelow (sev_rank h.severity_hint) (c ∷ d ∷ ds)) (sym e)
            (below_trans c d (highest_from d ds) more first, (first, others))
      | inr less ↦
          let e : highest_from c (d ∷ ds) ≡ highest_from c ds = rw less in
          let (first, others) = highest_from-IsBelow c ds in
          subst (λ h. IsBelow (sev_rank h.severity_hint) (c ∷ d ∷ ds)) (sym e)
            (first, (not_below_trans c d (highest_from c ds) less first, others))
    ]

-- What one group becomes.
abbrev IsGuardOf : GuardGroup → SynthGuard → Type 0
IsGuardOf g guard =
    (guard.provenance ≡ g.members)
    × (guard.scenario ≡ g.scenario)
    × (guard.direction ≡ g.direction)
    × IsStrict guard

compile_members :
    (g : GuardGroup) (ms : List Candidate) (index : ℕ) (guard : SynthGuard)
    → g.members ≡ ms
    → compile_group g index ≡ ok guard
    → IsGuardOf g guard
unfolding compile_group
compile_members g [] index guard m e = cc (rw m at e)
compile_members g (c ∷ cs) index guard m e =
    let h = highest_from c cs in
    let (tmpl, e1, e2) =
      >>=-eq-ok (or_raise (lookup g.scenario templates) key_error) _ (rw m at e) in
    let (row, e3, e4) =
      >>=-eq-ok (or_raise (lookup h.severity_hint severity_table) key_error) _ e2 in
    subst_ok (IsGuardOf g) e4 (
      sym m,
      refl,
      refl,
      (
        h.severity_hint,
        row,
        or_raise-eq-ok (lookup h.severity_hint severity_table) key_error e3,
        refl,
        highest_from-IsBelow c cs,
      ),
    )

-- A guard that is right for its candidates.
abbrev pub IsSound : SynthGuard → Type 0
IsSound g = All (IsOf g.scenario g.direction) g.provenance × IsStrict g

All-IsOf :
    (g : GuardGroup) (guard : SynthGuard)
    → guard.provenance ≡ g.members
    → guard.scenario ≡ g.scenario
    → guard.direction ≡ g.direction
    → IsGroup g
    → All (IsOf guard.scenario guard.direction) guard.provenance
All-IsOf g guard p s d h = subst (All (IsOf guard.scenario guard.direction)) (sym p) (
    subst (λ y. All (IsOf guard.scenario y) g.members) (sym d)
      (subst (λ x. All (IsOf x g.direction) g.members) (sym s) h))

compile_groups-eq-ok :
    (counter : List (String × ℕ)) (gs : List GuardGroup) (guards : List SynthGuard)
    → All IsGroup gs
    → compile_groups counter gs ≡ ok guards
    → (provenances guards ≡ members_of gs) × All IsSound guards
unfolding compile_groups
compile_groups-eq-ok counter [] guards h e =
    subst_ok (λ o. (provenances o ≡ []) × All IsSound o) e (refl, tt)
compile_groups-eq-ok counter (g ∷ gs) guards h e =
    let index = count_of g.scenario counter + 1 in
    let (guard, e1, e2) = >>=-eq-ok (compile_group g index) _ e in
    let (others, e3, e4) = >>=-eq-ok (compile_groups (insert g.scenario index counter) gs) _ e2 in
    let (p, s, d, strict) = compile_members g g.members index guard refl e1 in
    let (q, sound) = compile_groups-eq-ok (insert g.scenario index counter) gs others h.1 e3 in
    subst_ok (λ o. (provenances o ≡ members_of (g ∷ gs)) × All IsSound o) e4
      (
        ap (λ xs. xs ++ provenances others) p ∙ ap (λ xs. g.members ++ xs) q,
        ((All-IsOf g guard p s d h.0, strict), sound),
      )

-- Guards that are compiled have every candidate of a known scenario in their provenance, each as
-- often as it was given, and no other. The candidates in the provenance of a guard are of its scenario and
-- its directions, and its threshold is that of a severity that none of them exceeds.
pub compile_guards-IsSound :
    (candidates : List Candidate) (guards : List SynthGuard)
    → compile_guards candidates ≡ ok guards
    → Perm (provenances guards) (filter is_mapped candidates) × All IsSound guards
unfolding compile_guards
compile_guards-IsSound candidates guards e =
    let (gs, e1, e2) = >>=-eq-ok (group_candidates candidates []) _ e in
    let (p, sound) =
      compile_groups-eq-ok [] gs guards (group_candidates-IsGroup candidates [] gs e1 tt) e2 in
    (
      subst (λ xs. Perm xs (filter is_mapped candidates)) (sym p)
          (group_candidates-perm candidates [] gs e1),
      sound,
    )
