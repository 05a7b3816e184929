-- ===== src/Automation/Gitleaks.antt =====
-- feeds/gitleaks.py: the rules of a feed that a policy does not have are added to its secrets guards.
-- The answers of the control plane, `json.dumps(x, sort_keys=True)` and the clock are parameters.

use guard_x.Common.{
  String, Bool, false, not, ◌||◌, Option, none, some, List, [], ◌∷◌, ◌++◌, if◌then◌else◌,
}
use guard_x.Common.Json.{
  Json, Fields, arr, obj, nil, end, find, get, put, items, of_list, truthy, is_str, eq_json,
}
use guard_x.Common.Result.{Result, ok, err, attribute_error, feed_error, ◌>>=◌}
use guard_x.Linter.Document.{iterate}
use guard_x.Profiles.Merge.{by_id, check_hashable}

-- The rules of a document that `_load_ruleset` has parsed.
abbrev as_rules : Json → Result (List Json)
as_rules (arr xs) = ok (items xs)
as_rules _ = err feed_error

abbrev pub ruleset_of : Json → Result (List Json)
ruleset_of (obj fs) = get "rules" (obj fs) >>= as_rules
ruleset_of doc = as_rules doc

-- `v.append(x)`
abbrev pub append_to : Json → Json → Result Json
append_to (arr xs) x = ok (arr (of_list (items xs ++ x ∷ [])))
append_to _ x = err attribute_error

abbrev pub defaulted : Option Json → String → Json → Fields → Json × Fields
defaulted none k v fs = (v, put k v fs)
defaulted (some w) k v fs = (w, fs)

-- `d.setdefault(k, v)`: the value, and the dict with it.
abbrev pub set_default : String → Json → Json → Result (Json × Fields)
set_default k v (obj fs) = ok (defaulted (find k fs) k v fs)
set_default k v _ = err attribute_error

-- `{r["id"]: r for r in extra if r.get("id")}`, as far as it can raise.
unfoldable pub check_existing : List Json → Result (Unit {0})
check_existing [] = ok tt
check_existing (r ∷ rs) =
    get "id" r >>= λ i. (if truthy i then check_hashable i else ok tt) >>= λ u. check_existing rs

-- The list with the new rules, their ids, and whether a rule of an old id has another regex.
abbrev pub Offer : Type 0
Offer = Json × List Json × Bool

-- A rule of an id that is there, or a new one.
abbrev pub offer_rule : Option Json → Json → Json → Json → (Json → Result Offer) → Result Offer
offer_rule (some old) rid rule extra rest = get "regex" old >>= λ a. get "regex" rule >>= λ b.
    rest extra >>= λ (out, added, scope). ok (out, added, not (eq_json a b) || scope)
offer_rule none rid rule extra rest = append_to extra rule >>= λ extended.
    rest extended >>= λ (out, added, scope). ok (out, rid ∷ added, scope)

-- The loop over the rules of the feed; `existing` is the list before the loop.
unfoldable pub offer_rules : List Json → List Json → Json → Result Offer
unfolding by_id
offer_rules existing [] extra = ok (extra, [], false)
offer_rules existing (rule ∷ rules) extra =
    let rest = offer_rules existing rules in
    get "id" rule >>= λ rid.
    if truthy rid
    then (check_hashable rid >>= λ u. offer_rule (by_id rid existing) rid rule extra rest)
    else rest extra

-- The loop's body for one guard.
unfoldable pub extend_guard : List Json → Json → Result Offer
unfolding check_existing offer_rules
extend_guard rules g = set_default "config" (obj end) g >>= λ (cfg, gs).
    set_default "extra_rules" (arr nil) cfg >>= λ (extra, cs). iterate extra >>= λ existing.
    check_existing existing >>= λ u. offer_rules existing rules extra >>= λ (out, added, scope).
    ok (obj (put "config" (obj (put "extra_rules" out cs)) gs), added, scope)

-- `g.get("scenario") == "secrets"`
abbrev pub is_secrets : Json → Bool
is_secrets (obj fs) = elim (find "scenario" fs) [ none ↦ false | some v ↦ is_str v "secrets" ]
is_secrets _ = false

unfoldable pub check_guards : List Json → Result (Unit {0})
check_guards [] = ok tt
check_guards (g ∷ gs) = get "scenario" g >>= λ s. check_guards gs

-- The loop over the secrets guards; the others stay as they are.
unfoldable pub extend_guards : List Json → List Json → Result (List Json × List Json × Bool)
unfolding extend_guard
extend_guards rules [] = ok ([], [], false)
extend_guards rules (g ∷ gs) =
    let rest = extend_guards rules gs in
    if is_secrets g
    then (extend_guard rules g >>= λ (h, added, scope).
        rest >>= λ (hs, more, others). ok (h ∷ hs, added ++ more, scope || others))
    else (rest >>= λ (hs, more, others). ok (g ∷ hs, more, others))
