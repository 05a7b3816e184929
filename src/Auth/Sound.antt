-- ===== src/Auth/Sound.antt =====
-- Whom the authentication lets in, and as what.
use Prim.Native.String.{String}
use guard_x.Common.{
  ◌≡◌, ◌≢◌, refl, ap, ◌∙◌, ◌⊎◌, inl, inr, true, false, Option, none, some, List, [], ◌∷◌, arith,
  str_eq, eq_iff, eq_refl, Bool-cases, Option-cases, elem,
}
use guard_x.Common.Json.{Json, str}
use guard_x.Common.Result.{
  Result, ok, err, http, >>=-eq-ok, or_raise, or_raise-eq-ok, subst_ok, ok-injective, Exception,
}
use guard_x.Platform.{Platform}
use guard_x.Auth.Role.{Role, Principal}
use guard_x.Auth.Claims.{OidcConfig, TokenLibrary, resolve_claim, verify_token}
use guard_x.Auth.Principal.{
  Settings, role_value, parse_role, norm, candidates, first_role, map_role, map_role_of, subject_of,
  or_unauthorized, verifier, principal_from_key, principal_from_bearer, header_token, from_key,
  current_principal, by_token,
}

is_value : (s t : String) → str_eq s t ≡ true → s ≡ t
is_value s t h = (eq_iff s t).0 h

-- A text that is read as a role is that role's value.
parse_role_sound : (s : String) (r : Role) → parse_role s ≡ some r → s ≡ role_value r
parse_role_sound s r h = ground (
  arith,
  eq_iff s "viewer",
  eq_iff s "author",
  eq_iff s "reviewer",
  eq_iff s "approver",
  eq_iff s "admin",
  eq_iff s "service",
)

-- One of the texts is, in its normal form, the value of the role.
abbrev pub Names : Role → List String → Type 0
Names r cs = (c : String) × (elem c cs ≡ true) × (norm c ≡ role_value r)

first_role_sound : (cs : List String) (r : Role) → first_role cs ≡ some r → Names r cs
unfolding first_role
first_role_sound [] r h = cc
first_role_sound (c ∷ cs) r h = elim (Option-cases (parse_role (norm c))) [
  | inl miss ↦ let (d, m, n) = first_role_sound cs r (rw miss at h) in (d, ground (arith, m), n)
  | inr (q, hit) ↦ (c, ground (arith, eq_refl c), parse_role_sound (norm c) r (hit ∙ (rw hit at h)))
]

map_role_sound : (raw : Json) (r : Role) → map_role raw ≡ some r → Names r (candidates raw)
unfolding map_role
map_role_sound raw r h = first_role_sound (candidates raw) r h

not_empty : (t : String) → str_eq t "" ≡ false → t ≢ ""
not_empty t h z = cc (rw z at h)

subject_of_sound :
    (o : Option Json) (s : String) → subject_of o ≡ ok s → (o ≡ some (str s)) × (s ≢ "")
subject_of_sound none s h = cc
subject_of_sound (some Json.null) s h = cc
subject_of_sound (some (Json.bool b)) s h = cc
subject_of_sound (some (Json.int n)) s h = cc
subject_of_sound (some (Json.float x)) s h = cc
subject_of_sound (some (Json.arr xs)) s h = cc
subject_of_sound (some (Json.obj fs)) s h = cc
subject_of_sound (some (str t)) s h = elim (Bool-cases (str_eq t "")) [
  | inl empty ↦ cc (rw empty at h)
  | inr full ↦
      let q : t ≡ s = ok-injective (rw full at h) in
      (ap (λ x. some (str x)) q, λ z. not_empty t full (q ∙ z))
]

map_role_of_sound :
    (o : Option Json) (r : Role)
    → map_role_of o ≡ some r
    → (raw : Json) × (o ≡ some raw) × Names r (candidates raw)
map_role_of_sound none r h = cc
map_role_of_sound (some raw) r h = (raw, refl, map_role_sound raw r h)

or_unauthorized_sound : (x : Result Json) (v : Json) → or_unauthorized x ≡ ok v → x ≡ ok v
or_unauthorized_sound (ok w) v h = h
or_unauthorized_sound (err (http n)) v h = cc
or_unauthorized_sound (err Exception.value_error) v h = cc
or_unauthorized_sound (err Exception.attribute_error) v h = cc
or_unauthorized_sound (err Exception.key_error) v h = cc
or_unauthorized_sound (err Exception.type_error) v h = cc
or_unauthorized_sound (err Exception.index_error) v h = cc
or_unauthorized_sound (err Exception.file_not_found) v h = cc
or_unauthorized_sound (err Exception.integrity_error) v h = cc
or_unauthorized_sound (err Exception.oidc_error) v h = cc
or_unauthorized_sound (err Exception.yaml_error) v h = cc
or_unauthorized_sound (err Exception.feed_error) v h = cc

module _ (py : Platform) (lib : TokenLibrary) (s : Settings) where
  -- A verified token says who the principal is, and has a name of its role.
  abbrev pub FromToken : String → Principal → Type 0
  FromToken token p =
      (cfg : OidcConfig) × (claims : Json) × (raw : Json) × (verifier s ≡ some cfg)
      × (verify_token lib cfg token ≡ ok claims)
      × (resolve_claim py claims s.oidc_subject_claim ≡ some (str p.subject))
      × (p.subject ≢ "")
      × (resolve_claim py claims s.oidc_role_claim ≡ some raw)
      × Names p.role (candidates raw)

  -- The key is one of the two that are configured, and not empty.
  abbrev pub FromKey : Option String → Principal → Type 0
  FromKey key p =
      (k : String) × (key ≡ some k)
      × (k ≢ "")
      × (((k ≡ s.api_key_admin) × (p.role ≡ Role.admin))
          ⊎ ((k ≡ s.api_key_service) × (p.role ≡ Role.service)))

  principal_from_bearer-FromToken :
      (token : String) (p : Principal)
      → principal_from_bearer py lib s token ≡ ok p
      → FromToken token p
  unfolding principal_from_bearer
  principal_from_bearer-FromToken token p e =
      let (cfg, ec, e1) = >>=-eq-ok (or_raise (verifier s) (http 401)) _ e in
      let (claims, ev, e2) = >>=-eq-ok (or_unauthorized (verify_token lib cfg token)) _ e1 in
      let (subject, es, e3) =
        >>=-eq-ok (subject_of (resolve_claim py claims s.oidc_subject_claim)) _ e2 in
      let (role, er, e4) =
        >>=-eq-ok (or_raise (map_role_of (resolve_claim py claims s.oidc_role_claim)) (http 403)) _
          e3 in
      let (found, full) = subject_of_sound _ subject es in
      let (raw, given, named) =
        map_role_of_sound (resolve_claim py claims s.oidc_role_claim) role
          (or_raise-eq-ok _ (http 403) er) in
      subst_ok (FromToken token) e4 (
        cfg,
        claims,
        raw,
        or_raise-eq-ok (verifier s) (http 401) ec,
        or_unauthorized_sound (verify_token lib cfg token) claims ev,
        found,
        full,
        given,
        named,
      )

  from_key-FromKey :
      (key : Option String) (p : Principal) → from_key py lib s key ≡ ok p → FromKey key p
  unfolding from_key principal_from_key
  from_key-FromKey none p e = cc
  from_key-FromKey (some k) p e = elim (Bool-cases (str_eq k "")) [
    | inl empty ↦ cc (rw empty at e)
    | inr full ↦ elim (Bool-cases (str_eq k s.api_key_admin)) [
      | inl admin_key ↦
          subst_ok (FromKey (some k)) (rw (full, admin_key) at e)
            (k, refl, not_empty k full, inl (is_value k s.api_key_admin admin_key, refl))
      | inr other ↦ elim (Bool-cases (str_eq k s.api_key_service)) [
        | inl service_key ↦
            subst_ok (FromKey (some k)) (rw (full, other, service_key) at e)
              (k, refl, not_empty k full, inr (is_value k s.api_key_service service_key, refl))
        | inr unknown ↦ cc (rw (full, other, unknown) at e)
      ]
    ]
  ]

  by_token_sound :
      (token key : Option String) (p : Principal)
      → by_token py lib s token key ≡ ok p
      → ((t : String) × (token ≡ some t) × FromToken t p) ⊎ ((token ≡ none) × FromKey key p)
  by_token_sound none key p e = inr (refl, from_key-FromKey key p e)
  by_token_sound (some t) key p e = inl (t, refl, principal_from_bearer-FromToken t p e)

  -- A principal that the authentication returns comes from the verified bearer token, if the header
  -- has one, with the subject of that token and a role that it names; and otherwise from an API key
  -- that is configured and not empty, with the role of that key.
  pub current_principal_sound :
      (authorization x_guardx_key : Option String) (p : Principal)
      → current_principal py lib s authorization x_guardx_key ≡ ok p
      → ((token : String) × (header_token py lib s authorization ≡ some token) × FromToken token p)
        ⊎ ((header_token py lib s authorization ≡ none) × FromKey x_guardx_key p)
  unfolding current_principal
  current_principal_sound authorization key p e =
      by_token_sound (header_token py lib s authorization) key p e
