-- ===== src/Automation/Offer.antt =====
-- feeds/gitleaks.py: the loop over the rules of the feed adds rules of new ids.
use mathlib.Core.Path.{subst}
use guard_x.Common.{
  ◌≡◌, refl, sym, ap, ◌∙◌, inl, inr, String, Option, none, some, List, [], ◌∷◌, ◌++◌, append_assoc,
  append-nil, map, Bool-cases,
}
use guard_x.Common.Json.{
  Json, Fields, null, bool, int, float, str, arr, obj, end, field, get, items, of_list, truthy,
  entries,
}
use guard_x.Common.Result.{Result, ok, >>=-eq-ok, ok-injective, subst_ok}
use guard_x.Common.Text.{chars}
use guard_x.Linter.Document.{iterate}
use guard_x.Profiles.Merge.{by_id, check_hashable}
use guard_x.Automation.Gitleaks.{Offer, append_to, check_existing, offer_rule, offer_rules}

-- The elements of a list; no other value has any.
abbrev pub items_of : Json → List Json
items_of (arr xs) = items xs
items_of _ = []

-- The rules have the ids, which no rule in `existing` has.
abbrev pub AreNew : List Json → List Json → List Json → Type 0
AreNew existing [] [] = Unit
AreNew existing (r ∷ rs) (i ∷ is) =
    (get "id" r ≡ ok i) × (by_id i existing ≡ none) × AreNew existing rs is
AreNew existing rs is = ⊥

items-of_list : (xs : List Json) → items (of_list xs) ≡ xs
items-of_list [] = refl
items-of_list (x ∷ xs) = ap (λ ys. x ∷ ys) (items-of_list xs)

items_of-append_to :
    (extra x out : Json) → append_to extra x ≡ ok out → items_of out ≡ items_of extra ++ x ∷ []
items_of-append_to (arr xs) x out e =
    subst_ok (λ o. items_of o ≡ items xs ++ x ∷ []) e (items-of_list (items xs ++ x ∷ []))
items_of-append_to null x out e = cc
items_of-append_to (bool b) x out e = cc
items_of-append_to (int n) x out e = cc
items_of-append_to (float f) x out e = cc
items_of-append_to (str s) x out e = cc
items_of-append_to (obj fs) x out e = cc

-- What the loop over the rules gives.
abbrev pub IsOffer : List Json → Json → Offer → Type 0
IsOffer existing extra (out, added, scope) =
    (new : List Json) × (items_of out ≡ items_of extra ++ new) × AreNew existing new added

offer_rule-IsOffer :
    (existing : List Json) (found : Option Json) (rid rule extra : Json)
    (rest : Json → Result Offer) (o : Offer)
    → get "id" rule ≡ ok rid
    → by_id rid existing ≡ found
    → ((x : Json) (p : Offer) → rest x ≡ ok p → IsOffer existing x p)
    → offer_rule found rid rule extra rest ≡ ok o
    → IsOffer existing extra o
offer_rule-IsOffer existing (some old) rid rule extra rest o named found sound e =
    let (a, ea, e1) = >>=-eq-ok (get "regex" old) _ e in
    let (b, eb, e2) = >>=-eq-ok (get "regex" rule) _ e1 in
    let ((out, added, scope), e3, e4) = >>=-eq-ok (rest extra) _ e2 in
    subst_ok (IsOffer existing extra) e4 (sound extra (out, added, scope) e3)
offer_rule-IsOffer existing none rid rule extra rest o named found sound e =
    let (extended, e1, e2) = >>=-eq-ok (append_to extra rule) _ e in
    let ((out, added, scope), e3, e4) = >>=-eq-ok (rest extended) _ e2 in
    let (new, grown, fresh) = sound extended (out, added, scope) e3 in
    subst_ok (IsOffer existing extra) e4 (
      rule ∷ new,
      grown
          ∙ ap (λ xs. xs ++ new) (items_of-append_to extra rule extended e1)
          ∙ append_assoc (items_of extra) (rule ∷ []) new,
      (named, found, fresh),
    )

pub offer_rules-IsOffer :
    (existing rules : List Json) (extra : Json) (o : Offer)
    → offer_rules existing rules extra ≡ ok o
    → IsOffer existing extra o
unfolding offer_rules
offer_rules-IsOffer existing [] extra o e =
    subst_ok (IsOffer existing extra) e ([], sym (append-nil (items_of extra)), tt)
offer_rules-IsOffer existing (rule ∷ rules) extra o e =
    let (rid, named, e1) = >>=-eq-ok (get "id" rule) _ e in
    elim (Bool-cases (truthy rid)) [
      | inl has ↦
          let (u, hashable, e2) = >>=-eq-ok (check_hashable rid) _ (rw has at e1) in
          offer_rule-IsOffer existing (by_id rid existing) rid rule extra
            (offer_rules existing rules) o named refl
            (λ x p. offer_rules-IsOffer existing rules x p) e2
      | inr skip ↦ offer_rules-IsOffer existing rules extra o (rw skip at e1)
    ]

check_existing_text :
    (s : String) (u : Unit {0}) → check_existing (map str (chars s)) ≡ ok u → map str (chars s) ≡ []
unfolding check_existing chars
check_existing_text String.[] u e = refl
check_existing_text (String.◌∷◌ c s) u e = cc

check_existing_keys :
    (fs : Fields) (u : Unit {0})
    → check_existing (map (λ f. str f.0) (entries fs)) ≡ ok u
    → map (λ f. str f.0) (entries fs) ≡ []
unfolding check_existing
check_existing_keys end u e = refl
check_existing_keys (field k v fs) u e = cc

-- What the code iterates over, if the check of the ids passes, is a list, or empty.
pub iterate-items_of :
    (extra : Json) (existing : List Json) (u : Unit {0})
    → iterate extra ≡ ok existing
    → check_existing existing ≡ ok u
    → items_of extra ≡ existing
iterate-items_of (arr xs) existing u e c = ok-injective e
iterate-items_of (obj fs) existing u e c =
    sym (check_existing_keys fs u (subst (λ x. check_existing x ≡ ok u) (sym (ok-injective e)) c))
    ∙ ok-injective e
iterate-items_of (str s) existing u e c =
    sym (check_existing_text s u (subst (λ x. check_existing x ≡ ok u) (sym (ok-injective e)) c))
    ∙ ok-injective e
iterate-items_of null existing u e c = cc
iterate-items_of (bool b) existing u e c = cc
iterate-items_of (int n) existing u e c = cc
iterate-items_of (float f) existing u e c = cc
