-- ===== src/Linter/Sound.antt =====
-- What a clean lint run says of the policy.
use guard_x.Common.{
  ◌≡◌, refl, String, Bool, true, false, ◌&&◌, ◌||◌, List, [], ◌∷◌, ◌++◌, All, map, arith,
  if◌then◌else◌, Bool-cases, inl, inr,
}
use guard_x.Common.Json.{Json, get, is_null, is_str, truthy}
use guard_x.Common.Result.{Result, ok, >>=-eq-ok, ok-injective}
use guard_x.Platform.{Platform}
use guard_x.Linter.Document.{guards, section, default_fail_mode, envs, is_in}
use guard_x.Linter.Rules.{
  LinterIssue, Severity, issue, has_error, collect, check_fail_mode, check_verify_live,
  check_full_text, guard_path, rule_missing_fail_mode, rule_verify_live_in_prod,
  rule_full_text_evidence_under_pii, rule_streaming_incompatible_actions, rule_contradictory_guards,
  lint_spec, lint_policy, validate_schema, schema_issue,
}

pub has_error-append :
    (xs ys : List LinterIssue) → has_error (xs ++ ys) ≡ (has_error xs || has_error ys)
has_error-append [] ys = refl
has_error-append (x ∷ xs) ys = ground (arith, has_error-append xs ys)

no_error_left : (xs ys : List LinterIssue) → has_error (xs ++ ys) ≡ false → has_error xs ≡ false
no_error_left xs ys h = ground (arith, has_error-append xs ys)

no_error_right : (xs ys : List LinterIssue) → has_error (xs ++ ys) ≡ false → has_error ys ≡ false
no_error_right xs ys h = ground (arith, has_error-append xs ys)

-- Every round of a loop that yields no error yields none.
collect_clean :
    (f : Json → Result (List LinterIssue)) (P : Json → Type 0)
    → ((g : Json) (xs : List LinterIssue) → f g ≡ ok xs → has_error xs ≡ false → P g)
    → (gs : List Json) (xs : List LinterIssue) → collect f gs ≡ ok xs
    → has_error xs ≡ false
    → All P gs
unfolding collect
collect_clean f P k [] xs e h = tt
collect_clean f P k (g ∷ gs) xs e h =
    let (ys, ey, e1) = >>=-eq-ok (f g) _ e in
    let (zs, ez, e2) = >>=-eq-ok (collect f gs) _ e1 in
    let clean : has_error (ys ++ zs) ≡ false = rw (ok-injective e2) h in
    (
      k g ys ey (no_error_left ys zs clean),
      collect_clean f P k gs zs ez (no_error_right ys zs clean),
    )

-- The guard has a fail mode, or the policy a default one.
abbrev pub HasFailMode : Json → Json → Type 0
HasFailMode default g =
    (mode : Json) × (get "fail_mode" g ≡ ok mode) × ((is_null mode && is_null default) ≡ false)

-- A guard of the scenario "secrets" does not verify live.
abbrev pub IsOffline : Json → Type 0
IsOffline g =
    (scenario : Json) × (get "scenario" g ≡ ok scenario)
    × (is_str scenario "secrets" ≡ true
        → (cfg : Json) × (live : Json) × (section "config" g ≡ ok cfg)
          × (get "verify_live" cfg ≡ ok live)
          × (truthy live ≡ false))

-- A guard of the scenario "pii" does not keep the full text as evidence.
abbrev pub KeepsNoText : Json → Type 0
KeepsNoText g =
    (scenario : Json) × (get "scenario" g ≡ ok scenario)
    × (is_str scenario "pii" ≡ true
        → (evidence : Json) × (get "evidence" g ≡ ok evidence)
          × (is_str evidence "full_text" ≡ false))

issue_if_clean :
    (b : Bool) (c p : String)
    → has_error (if b then issue c Severity.error p else []) ≡ false
    → b ≡ false
issue_if_clean true c p h = cc
issue_if_clean false c p h = refl

module _ (py : Platform) where
  check_fail_mode_clean :
      (default g : Json) (xs : List LinterIssue)
      → check_fail_mode py default g ≡ ok xs
      → has_error xs ≡ false
      → HasFailMode default g
  unfolding check_fail_mode
  check_fail_mode_clean default g xs e h =
      let (mode, em, e1) = >>=-eq-ok (get "fail_mode" g) _ e in
      let (path, _, e2) = >>=-eq-ok (guard_path py g "") _ e1 in
      (mode, em, issue_if_clean _ "fail_mode.missing" path (rw (ok-injective e2) h))

  check_full_text_clean :
      (g : Json) (xs : List LinterIssue)
      → check_full_text py g ≡ ok xs
      → has_error xs ≡ false
      → KeepsNoText g
  unfolding check_full_text
  check_full_text_clean g xs e h =
      let (scenario, es, e1) = >>=-eq-ok (get "scenario" g) _ e in
      (
        scenario,
        es,
        λ pii.
            let (evidence, ev, e2) = >>=-eq-ok (get "evidence" g) _ (rw pii at e1) in
            let (path, _, e3) = >>=-eq-ok (guard_path py g ".evidence") _ e2 in
            (evidence, ev, issue_if_clean _ "pii.full_text_evidence" path (rw (ok-injective e3) h)),
      )

  check_verify_live_clean :
      (g : Json) (xs : List LinterIssue)
      → check_verify_live py g ≡ ok xs
      → has_error xs ≡ false
      → IsOffline g
  unfolding check_verify_live
  check_verify_live_clean g xs e h =
      let (scenario, es, e1) = >>=-eq-ok (get "scenario" g) _ e in
      (
        scenario,
        es,
        λ secrets.
            let (cfg, ec, e2) = >>=-eq-ok (section "config" g) _ (rw secrets at e1) in
            let (live, el, e3) = >>=-eq-ok (get "verify_live" cfg) _ e2 in
            let (path, _, e4) = >>=-eq-ok (guard_path py g ".config.verify_live") _ e3 in
            (
              cfg,
              live,
              ec,
              el,
              issue_if_clean _ "secrets.verify_live_prod" path (rw (ok-injective e4) h),
            ),
      )

  -- What a spec guarantees that the rules pass.
  abbrev pub IsGoverned : Json → Type 0
  IsGoverned spec =
      (gs : List Json) × (default : Json) × (es : Json) × (prod : Bool) × (guards spec ≡ ok gs)
      × (default_fail_mode spec ≡ ok default)
      × (envs spec ≡ ok es)
      × (is_in "prod" es ≡ ok prod)
      × All (HasFailMode default) gs
      × All KeepsNoText gs
      × (prod ≡ true → All IsOffline gs)

  live_rule_clean :
      (spec : Json) (gs : List Json) (xs : List LinterIssue)
      → guards spec ≡ ok gs
      → rule_verify_live_in_prod py spec ≡ ok xs
      → has_error xs ≡ false
      → (es : Json) × (prod : Bool) × (envs spec ≡ ok es)
        × (is_in "prod" es ≡ ok prod)
        × (prod ≡ true → All IsOffline gs)
  unfolding rule_verify_live_in_prod
  live_rule_clean spec gs xs eg e h =
      let (es, ee, e1) = >>=-eq-ok (envs spec) _ e in
      let (prod, ep, e2) = >>=-eq-ok (is_in "prod" es) _ e1 in
      (
        es,
        prod,
        ee,
        ep,
        λ t.
            collect_clean (check_verify_live py) IsOffline check_verify_live_clean gs xs
              (rw eg at (rw t at e2)) h,
      )

  -- If the rules pass a spec without an ERROR, then every guard has a fail mode or the policy has a
  -- default one, no guard of scenario "pii" keeps the full text as evidence, and, where "prod" is
  -- among the environments, no guard of scenario "secrets" verifies live.
  lint_spec_sound :
      (spec : Json) (xs : List LinterIssue)
      → lint_spec py spec ≡ ok xs
      → has_error xs ≡ false
      → IsGoverned spec
  unfolding lint_spec rule_missing_fail_mode rule_full_text_evidence_under_pii
  lint_spec_sound spec xs e h =
      let (a, ea, e1) = >>=-eq-ok (rule_missing_fail_mode py spec) _ e in
      let (b, eb, e2) = >>=-eq-ok (rule_verify_live_in_prod py spec) _ e1 in
      let (c, ec, e3) = >>=-eq-ok (rule_full_text_evidence_under_pii py spec) _ e2 in
      let (d, _, e4) = >>=-eq-ok (rule_streaming_incompatible_actions py spec) _ e3 in
      let (f, _, e5) = >>=-eq-ok (rule_contradictory_guards spec) _ e4 in
      let clean : has_error (a ++ (b ++ (c ++ (d ++ f)))) ≡ false = rw (ok-injective e5) h in
      let clean_b : has_error (b ++ (c ++ (d ++ f))) ≡ false = no_error_right a _ clean in
      let clean_c : has_error (c ++ (d ++ f)) ≡ false = no_error_right b _ clean_b in
      let (default, ed, e6) = >>=-eq-ok (default_fail_mode spec) _ ea in
      let (gs, eg, e7) = >>=-eq-ok (guards spec) _ e6 in
      let (es, prod, ee, ep, live) = live_rule_clean spec gs b eg eb (no_error_left b _ clean_b) in
      (
        gs,
        default,
        es,
        prod,
        eg,
        ed,
        ee,
        ep,
        collect_clean (check_fail_mode py default) (HasFailMode default)
            (check_fail_mode_clean default) gs a e7 (no_error_left a _ clean),
        collect_clean (check_full_text py) KeepsNoText check_full_text_clean gs c (rw eg at ec)
            (no_error_left c _ clean_c),
        live,
      )

  schema_clean : (l : List String) → has_error (map schema_issue l) ≡ false → l ≡ []
  schema_clean [] h = refl
  schema_clean (x ∷ l) h = cc

  -- If linting returns without an ERROR, the schema validator finds no error in the document, and
  -- its spec has the guarantees of the rules.
  pub lint_policy_sound :
      (document : Json) (xs : List LinterIssue)
      → lint_policy py document ≡ ok xs
      → has_error xs ≡ false
      → (spec : Json) × (py.schema_errors document ≡ [])
        × (section "spec" document ≡ ok spec)
        × IsGoverned spec
  unfolding lint_policy validate_schema
  lint_policy_sound document xs e h = elim (Bool-cases (has_error (validate_schema py document))) [
    | inl broken ↦ cc (rw broken at e, broken)
    | inr valid ↦
        let (spec, es, e1) = >>=-eq-ok (section "spec" document) _ (rw valid at e) in
        let (more, em, e2) = >>=-eq-ok (lint_spec py spec) _ e1 in
        let clean : has_error (validate_schema py document ++ more) ≡ false =
          rw (ok-injective e2) h in
        (
          spec,
          schema_clean (py.schema_errors document) valid,
          es,
          lint_spec_sound spec more em (no_error_right (validate_schema py document) more clean),
        )
  ]
