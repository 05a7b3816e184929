-- ===== src/Bundles/Scope.antt =====
-- Which policies a bundle carries.
use mathlib.Core.Path.{subst}
use guard_x.Common.{
  ◌≡◌, refl, ap, ◌∙◌, inl, inr, String, Bool, true, false, ◌&&◌, Option, none, some, List, [], ◌∷◌,
  arith, All, str_eq, eq_iff, filter, map, Bool-cases,
}
use guard_x.Common.Int.{ℤ, ltb_ℤ}
use guard_x.Common.Json.{get, arr, of_list}
use guard_x.Common.Result.{ok, >>=-eq-ok, subst_ok}
use guard_x.Platform.{Platform}
use guard_x.Auth.Role.{Principal}
use guard_x.Policy.Registry.{PolicyStatus, Tenant, PolicyRow, Registry, get_tenant}
use guard_x.Policy.Rows.{All-map}
use guard_x.Bundles.Catalog.{Detector}
use guard_x.Bundles.Builder.{
  Bundle, is_approved, is_latest, same_time, max_at, last_approval, latest_approved_versions,
  targets, scope, policy_entry, build,
}
use guard_x.Bundles.Sequence.{build-Composed}

-- `s` is after `t`, where a missing time is before every other.
abbrev pub is_later : Option ℤ → Option ℤ → Bool
is_later none t = false
is_later (some s) none = true
is_later (some s) (some t) = ltb_ℤ t s

-- `q` is a version of another policy than `pid`, or not approved after `t`.
abbrev pub NotLater : String → Option ℤ → PolicyRow → Type 0
NotLater pid t q = (str_eq q.policy_id pid && is_later q.approved_at t) ≡ false

max_at_right : (q a t : Option ℤ) → is_later q t ≡ false → is_later q (max_at a t) ≡ false
max_at_right none a t h = refl
max_at_right (some s) none t h = h
max_at_right (some s) (some b) none h = cc
max_at_right (some s) (some b) (some c) h = ground arith

max_at_left : (a t : Option ℤ) → is_later a (max_at a t) ≡ false
max_at_left none t = refl
max_at_left (some s) none = ground arith
max_at_left (some s) (some t) = ground arith

NotLater-max_at :
    (pid : String) (a t : Option ℤ) (rs : List PolicyRow)
    → All (NotLater pid t) rs
    → All (NotLater pid (max_at a t)) rs
NotLater-max_at pid a t [] h = tt
NotLater-max_at pid a t (q ∷ rs) h =
    (ground (arith, max_at_right q.approved_at a t, h.0), NotLater-max_at pid a t rs h.1)

last_approval_same :
    (pid : String) (r : PolicyRow) (rs : List PolicyRow)
    → str_eq r.policy_id pid ≡ true
    → max_at r.approved_at (last_approval pid rs) ≡ last_approval pid (r ∷ rs)
unfolding last_approval
last_approval_same pid r rs h = rw h

last_approval_other :
    (pid : String) (r : PolicyRow) (rs : List PolicyRow)
    → str_eq r.policy_id pid ≡ false
    → last_approval pid rs ≡ last_approval pid (r ∷ rs)
unfolding last_approval
last_approval_other pid r rs h = rw h

last_approval-NotLater :
    (pid : String) (rs : List PolicyRow) → All (NotLater pid (last_approval pid rs)) rs
last_approval-NotLater pid [] = tt
last_approval-NotLater pid (r ∷ rs) =
    let rest = last_approval pid rs in
    let h = last_approval-NotLater pid rs in
    elim (Bool-cases (str_eq r.policy_id pid)) [
      | inl same ↦
          subst (λ t. All (NotLater pid t) (r ∷ rs)) (last_approval_same pid r rs same)
            (
              ground (arith, max_at_left r.approved_at rest),
              NotLater-max_at pid r.approved_at rest rs h,
            )
      | inr other ↦
          subst (λ t. All (NotLater pid t) (r ∷ rs)) (last_approval_other pid r rs other)
            (rw other refl, h)
    ]

-- What a bundle's policies are: approved, of the tenant, not superseded by a later approval of the
-- same policy, and targeted at the environment.
pub record InScope (tid environment : String) (rows : List PolicyRow) (p : PolicyRow) : Type 0 where
  pub tenant : p.tenant_id ≡ tid
  pub status : p.status ≡ PolicyStatus.approved
  pub current : All (NotLater p.policy_id p.approved_at) (filter (is_approved tid) rows)
  pub targeted : targets environment p ≡ ok true

abbrev Selected : String → List PolicyRow → PolicyRow → Type 0
Selected tid rows p =
    (p.tenant_id ≡ tid)
    × (p.status ≡ PolicyStatus.approved)
    × All (NotLater p.policy_id p.approved_at) (filter (is_approved tid) rows)

is_later_same :
    (q s t : Option ℤ) → same_time s t ≡ true → is_later q t ≡ false → is_later q s ≡ false
is_later_same q none t e h = cc
is_later_same q (some s) none e h = cc
is_later_same none (some s) (some t) e h = refl
is_later_same (some q) (some s) (some t) e h = ground arith

NotLater-same_time :
    (pid : String) (s t : Option ℤ) (rs : List PolicyRow)
    → same_time s t ≡ true
    → All (NotLater pid t) rs
    → All (NotLater pid s) rs
NotLater-same_time pid s t [] e h = tt
NotLater-same_time pid s t (q ∷ rs) e h =
    (ground (arith, is_later_same q.approved_at s t e, h.0), NotLater-same_time pid s t rs e h.1)

All-filter :
    (f : PolicyRow → Bool) (P : PolicyRow → Type 0) (rs : List PolicyRow)
    → All P rs
    → All (λ r. P r × (f r ≡ true)) (filter f rs)
All-filter f P [] h = tt
All-filter f P (r ∷ rs) h = elim (Bool-cases (f r)) [
  | inl hit ↦ rw hit ((h.0, hit), All-filter f P rs h.1)
  | inr miss ↦ rw miss (All-filter f P rs h.1)
]

All-Unit : (rs : List PolicyRow) → All (λ r. Unit {0}) rs
All-Unit [] = tt
All-Unit (r ∷ rs) = (tt, All-Unit rs)

is_approved_sound :
    (tid : String) (r : PolicyRow)
    → is_approved tid r ≡ true
    → (r.tenant_id ≡ tid) × (r.status ≡ PolicyStatus.approved)
is_approved_sound tid r h = (ground (arith, eq_iff r.tenant_id tid), ground arith)

latest-Selected :
    (tid : String) (rows : List PolicyRow)
    → All (Selected tid rows) (latest_approved_versions tid rows)
unfolding latest_approved_versions
latest-Selected tid rows =
    let approved = filter (is_approved tid) rows in
    let h = All-filter (is_approved tid) (λ r. Unit {0}) rows (All-Unit rows) in
    All-map (λ r. (Unit {0} × (is_approved tid r ≡ true)) × (is_latest approved r ≡ true))
      (Selected tid rows) (filter (is_latest approved) approved)
      (λ r x.
        let (t, a) = is_approved_sound tid r x.0.1 in
        (
          t,
          a,
          NotLater-same_time r.policy_id r.approved_at (last_approval r.policy_id approved) approved
              x.1 (last_approval-NotLater r.policy_id approved),
        ))
      (All-filter (is_latest approved) (λ r. Unit {0} × (is_approved tid r ≡ true)) approved h)

scope-All :
    (environment : String) (P : PolicyRow → Type 0) (ps out : List PolicyRow)
    → scope environment ps ≡ ok out
    → All P ps
    → All (λ p. P p × (targets environment p ≡ ok true)) out
unfolding scope
scope-All environment P [] out e h =
    subst_ok (All (λ p. P p × (targets environment p ≡ ok true))) e tt
scope-All environment P (p ∷ ps) out e h =
    let Q = λ (q : PolicyRow). P q × (targets environment q ≡ ok true) in
    let (hit, et, e1) = >>=-eq-ok (targets environment p) _ e in
    let (rest, er, e2) = >>=-eq-ok (scope environment ps) _ e1 in
    let ih = scope-All environment P ps rest er h.1 in
    subst_ok (All Q) e2 (elim (Bool-cases hit) [
      | inl targeted ↦ rw targeted ((h.0, et ∙ ap ok targeted), ih)
      | inr passed ↦ rw passed ih
    ])

-- The database returns no other rows than those selected.
abbrev pub ReturnsSelected : (List PolicyRow → List PolicyRow) → Type 1
ReturnsSelected row_order =
    (P : PolicyRow → Type 0) (rs : List PolicyRow) → All P rs → All P (row_order rs)

module _ (py : Platform) (max_age : ℤ) (row_order : List PolicyRow → List PolicyRow) where
  -- If the database returns no other rows than those selected, then the policies in the manifest
  -- of a bundle that is built are approved versions of the tenant that target the environment, and
  -- no other approved version of the same policy was approved later.
  pub build-InScope :
      (p : Principal) (environment slug : String) (now : ℤ) (ds : List Detector) (reg : Registry)
      (bundles : List Bundle) (out : List Bundle × Bundle)
      → ReturnsSelected row_order
      → build py max_age row_order p environment slug now ds reg bundles ≡ ok out
      → (t : Tenant) × (scoped : List PolicyRow) × (get_tenant slug reg ≡ ok t)
        × (get "policies" out.1.manifest ≡ ok (arr (of_list (map policy_entry scoped))))
        × All (InScope t.id environment reg.policies) scoped
  build-InScope p environment slug now ds reg bundles out o e =
      let (t, et, grown, c) =
        build-Composed py max_age row_order p environment slug now ds reg bundles out e in
      let (scoped, es, _, _, _, d) = c in
      let (refs, bytes, _, manifest, _, _, _) = d in
      let latest = latest_approved_versions t.id reg.policies in
      let all =
        scope-All environment (Selected t.id reg.policies) (row_order latest) scoped es
          (o (Selected t.id reg.policies) latest (latest-Selected t.id reg.policies)) in
      (
        t,
        scoped,
        et,
        rw manifest refl,
        All-map (λ q. Selected t.id reg.policies q × (targets environment q ≡ ok true))
            (InScope t.id environment reg.policies) scoped
            (λ q x. record { tenant = x.0.0; status = x.0.1; current = x.0.2; targeted = x.1 }) all,
      )
