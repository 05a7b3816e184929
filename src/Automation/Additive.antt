-- ===== src/Automation/Additive.antt =====
-- feeds/gitleaks.py: the loops over the guards and the rules only add rules.
use mathlib.Core.Path.{subst}
use guard_x.Common.{
  ◌≡◌, refl, sym, ap, ◌∙◌, ◌⊎◌, inl, inr, String, Bool, true, false, Option, none, some, List, [],
  ◌∷◌, ◌++◌, arith, eq_iff, Bool-cases, str_eq,
}
use guard_x.Common.Json.{
  Json, Fields, null, bool, int, float, str, arr, obj, nil, end, field, find, put, pop, find-put,
}
use guard_x.Common.Result.{ok, >>=-eq-ok, subst_ok}
use guard_x.Linter.Document.{iterate}
use guard_x.Automation.Gitleaks.{
  set_default, defaulted, check_existing, offer_rules, extend_guard, extend_guards, is_secrets,
}
use guard_x.Automation.Offer.{items_of, AreNew, offer_rules-IsOffer, iterate-items_of}

abbrev pub value_of : String → Json → Json → Json
value_of k d (obj fs) = elim (find k fs) [ none ↦ d | some v ↦ v ]
value_of k d _ = d

-- The config of a guard, and its own rules.
abbrev pub config_of : Json → Json
config_of g = value_of "config" (obj end) g

abbrev pub rules_of : Json → List Json
rules_of g = items_of (value_of "extra_rules" (arr nil) (config_of g))

abbrev pub without : String → Json → Json
without k (obj fs) = obj (pop k fs)
without k v = v

-- The guard with new rules behind its own, and nothing else changed.
abbrev pub IsExtended : List Json → Json → Json → Type 0
IsExtended added g h =
    (new : List Json) × (rules_of h ≡ rules_of g ++ new)
    × AreNew (rules_of g) new added
    × (without "config" h ≡ without "config" g)
    × (without "extra_rules" (config_of h) ≡ without "extra_rules" (config_of g))

-- The secrets guards are extended, by these ids in turn, and the others are as they were.
abbrev pub AreExtended : List Json → List Json → List Json → Type 0
AreExtended [] [] added = added ≡ []
AreExtended (g ∷ gs) (h ∷ hs) added =
    ((is_secrets g ≡ false) × (h ≡ g) × AreExtended gs hs added)
    ⊎ ((is_secrets g ≡ true)
        × (mine : List Json) × (others : List Json) × (added ≡ mine ++ others)
        × IsExtended mine g h
        × AreExtended gs hs others)
AreExtended gs hs added = ⊥

pop-put : (k : String) (v : Json) (d : Fields) → pop k (put k v d) ≡ pop k d
pop-put k v end = ground (arith, eq_iff k k)
pop-put k v (field j w d) = elim (Bool-cases (str_eq k j)) [
  | inl same ↦ rw (same, same) refl
  | inr other ↦ rw (other, other) (ap (λ e. field j w e) (pop-put k v d))
]

defaulted-keeps :
    (o : Option Json) (k : String) (d : Json) (gs : Fields)
    → find k gs ≡ o
    → (value_of k d (obj gs) ≡ (defaulted o k d gs).0)
      × ((x : Json) → pop k (put k x (defaulted o k d gs).1) ≡ pop k gs)
defaulted-keeps none k d gs h = (rw (value_of, h), λ x. pop-put k x (put k d gs) ∙ pop-put k d gs)
defaulted-keeps (some v) k d gs h = (rw (value_of, h), λ x. pop-put k x gs)

-- The value that `setdefault` returns, and the dict without it.
set_default-eq-ok :
    (k : String) (d v w : Json) (fs : Fields)
    → set_default k d v ≡ ok (w, fs)
    → (value_of k d v ≡ w) × ((x : Json) → without k (obj (put k x fs)) ≡ without k v)
set_default-eq-ok k d (obj gs) w fs e =
    let (same, kept) = defaulted-keeps (find k gs) k d gs refl in
    subst_ok
      (λ q.
        (value_of k d (obj gs) ≡ q.0)
        × ((x : Json) → without k (obj (put k x q.1)) ≡ without k (obj gs)))
      e (same, λ x. ap obj (kept x))
set_default-eq-ok k d null w fs e = cc
set_default-eq-ok k d (bool b) w fs e = cc
set_default-eq-ok k d (int n) w fs e = cc
set_default-eq-ok k d (float f) w fs e = cc
set_default-eq-ok k d (str s) w fs e = cc
set_default-eq-ok k d (arr s) w fs e = cc

value_of-put : (k : String) (d v : Json) (fs : Fields) → value_of k d (obj (put k v fs)) ≡ v
value_of-put k d v fs =
    let found : find k (put k v fs) ≡ some v = ground (arith, find-put k k v fs, eq_iff k k) in
    rw (value_of, found)

IsExtended-of :
    (g cfg extra out : Json) (gs cs : Fields) (new ids : List Json)
    → config_of g ≡ cfg
    → value_of "extra_rules" (arr nil) cfg ≡ extra
    → without "config" (obj (put "config" (obj (put "extra_rules" out cs)) gs)) ≡ without "config" g
    → without "extra_rules" (obj (put "extra_rules" out cs)) ≡ without "extra_rules" cfg
    → items_of out ≡ items_of extra ++ new
    → AreNew (items_of extra) new ids
    → IsExtended ids g (obj (put "config" (obj (put "extra_rules" out cs)) gs))
IsExtended-of g cfg extra out gs cs new ids its_config its_rules kept kept_config grown fresh =
    let config' = obj (put "extra_rules" out cs) in
    let now : config_of (obj (put "config" config' gs)) ≡ config' =
      value_of-put "config" (obj end) config' gs in
    let before : rules_of g ≡ items_of extra =
      ap items_of (ap (value_of "extra_rules" (arr nil)) its_config ∙ its_rules) in
    let after : rules_of (obj (put "config" config' gs)) ≡ items_of out =
      ap items_of
        (ap (value_of "extra_rules" (arr nil)) now ∙ value_of-put "extra_rules" (arr nil) out cs) in
    (
      new,
      after ∙ grown ∙ ap (λ xs. xs ++ new) (sym before),
      subst (λ xs. AreNew xs new ids) (sym before) fresh,
      kept,
      ap (without "extra_rules") now ∙ kept_config ∙ ap (without "extra_rules") (sym its_config),
    )

extend_guard-IsExtended :
    (rules : List Json) (g : Json) (h : Json) (added : List Json) (scope : Bool)
    → extend_guard rules g ≡ ok (h, added, scope)
    → IsExtended added g h
unfolding extend_guard
extend_guard-IsExtended rules g h added scope e =
    let ((cfg, gs), e1, e2) = >>=-eq-ok (set_default "config" (obj end) g) _ e in
    let ((extra, cs), e3, e4) = >>=-eq-ok (set_default "extra_rules" (arr nil) cfg) _ e2 in
    let (existing, e5, e6) = >>=-eq-ok (iterate extra) _ e4 in
    let (u, e7, e8) = >>=-eq-ok (check_existing existing) _ e6 in
    let ((out, ids, sc), e9, e10) = >>=-eq-ok (offer_rules existing rules extra) _ e8 in
    let (new, grown, fresh) = offer_rules-IsOffer existing rules extra (out, ids, sc) e9 in
    let (its_config, rest_of_g) = set_default-eq-ok "config" (obj end) g cfg gs e1 in
    let (its_rules, rest_of_config) = set_default-eq-ok "extra_rules" (arr nil) cfg extra cs e3 in
    let listed = iterate-items_of extra existing u e5 e7 in
    subst_ok (λ o. IsExtended o.1 g o.0) e10
      (IsExtended-of g cfg extra out gs cs new ids its_config its_rules
        (rest_of_g (obj (put "extra_rules" out cs))) (rest_of_config out) grown
        (subst (λ xs. AreNew xs new ids) (sym listed) fresh))

-- The loop over the guards only adds rules: a guard that is not a secrets guard stays as it was, and a
-- secrets guard gets new rules behind its own, whose ids are reported and are not among the ids of
-- its own rules, while everything else in it stays as it was.
pub extend_guards-AreExtended :
    (rules gs hs added : List Json) (scope : Bool)
    → extend_guards rules gs ≡ ok (hs, added, scope)
    → AreExtended gs hs added
unfolding extend_guards
extend_guards-AreExtended rules [] hs added scope e = subst_ok (λ o. AreExtended [] o.0 o.1) e refl
extend_guards-AreExtended rules (g ∷ gs) hs added scope e = elim (Bool-cases (is_secrets g)) [
  | inl secret ↦
      let ((h, mine, sc), e1, e2) = >>=-eq-ok (extend_guard rules g) _ (rw secret at e) in
      let ((hs', others, sc'), e3, e4) = >>=-eq-ok (extend_guards rules gs) _ e2 in
      subst_ok (λ o. AreExtended (g ∷ gs) o.0 o.1) e4
        (inr (
          secret,
          mine,
          others,
          refl,
          extend_guard-IsExtended rules g h mine sc e1,
          extend_guards-AreExtended rules gs hs' others sc' e3,
        ))
  | inr other ↦
      let ((hs', others, sc'), e1, e2) = >>=-eq-ok (extend_guards rules gs) _ (rw other at e) in
      subst_ok (λ o. AreExtended (g ∷ gs) o.0 o.1) e2
        (inl (other, refl, extend_guards-AreExtended rules gs hs' others sc' e1))
]
