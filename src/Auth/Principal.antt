-- ===== src/Auth/Principal.antt =====
-- api/auth.py: the two ways to a principal, by API key and by bearer token.
use Prim.Native.String.{String}
use guard_x.Common.{
  ℕ, Bool, true, not, ◌&&◌, ◌||◌, Option, none, some, List, [], ◌∷◌, str_eq, if◌then◌else◌,
}
use guard_x.Common.Text.{strip, lower, remove_prefix, lstrip, take_word}
use guard_x.Common.Json.{Json, str, arr, items}
use guard_x.Common.Result.{Result, ok, err, http, or_raise, ◌>>=◌, Exception}
use guard_x.Platform.{Platform}
use guard_x.Auth.Role.{Role, Principal}
use guard_x.Auth.Claims.{OidcConfig, TokenLibrary, resolve_claim, verify_token}

-- The settings that the authentication reads.
pub record Settings : Type 0 where
  pub api_key_admin : String
  pub api_key_service : String
  pub oidc_enabled : Bool
  pub oidc_issuer : String
  pub oidc_audience : String
  pub oidc_jwks_url : String
  pub oidc_role_claim : String
  pub oidc_subject_claim : String
  pub oidc_leeway_seconds : ℕ
  pub oidc_jwks_ttl_seconds : ℕ

-- The `value` of a role.
abbrev pub role_value : Role → String
role_value Role.viewer = "viewer"
role_value Role.author = "author"
role_value Role.reviewer = "reviewer"
role_value Role.approver = "approver"
role_value Role.admin = "admin"
role_value Role.service = "service"

-- `Role(text)`
abbrev pub parse_role : String → Option Role
parse_role s =
    if str_eq s "viewer"
    then some Role.viewer
    else if str_eq s "author"
    then some Role.author
    else if str_eq s "reviewer"
    then some Role.reviewer
    else if str_eq s "approver"
    then some Role.approver
    else if str_eq s "admin"
    then some Role.admin
    else if str_eq s "service"
    then some Role.service
    else none

-- `_norm`
unfoldable pub norm : String → String
unfolding strip lower
norm s = remove_prefix "guardx_" (remove_prefix "guardx-" (lower (strip s)))

abbrev pub texts_of : List Json → List String
texts_of [] = []
texts_of (str s ∷ vs) = s ∷ texts_of vs
texts_of (v ∷ vs) = texts_of vs

-- `candidates`
abbrev pub candidates : Json → List String
candidates (str s) = s ∷ []
candidates (arr xs) = texts_of (items xs)
candidates _ = []

abbrev first_or : Option Role → Option Role → Option Role
first_or none r = r
first_or (some r) s = some r

unfoldable pub first_role : List String → Option Role
first_role [] = none
first_role (c ∷ cs) = first_or (parse_role (norm c)) (first_role cs)

-- `_map_role`
unfoldable pub map_role : Json → Option Role
unfolding first_role
map_role raw = first_role (candidates raw)

abbrev pub map_role_of : Option Json → Option Role
map_role_of none = none
map_role_of (some raw) = map_role raw

-- `_principal_from_key`
unfoldable pub principal_from_key : Settings → String → Result Principal
principal_from_key s key =
    if str_eq key s.api_key_admin
    then ok (record { subject = "admin@dev"; role = Role.admin })
    else if str_eq key s.api_key_service
    then ok (record { subject = "svc@automation"; role = Role.service })
    else err (http 401)

-- A claim that is a text, and not an empty one.
abbrev pub subject_of : Option Json → Result String
subject_of (some (str s)) = if str_eq s "" then err (http 401) else ok s
subject_of _ = err (http 401)

-- `except OIDCError as e: raise HTTPException(401)`
abbrev pub or_unauthorized : Result Json → Result Json
or_unauthorized (ok v) = ok v
or_unauthorized (err Exception.oidc_error) = err (http 401)
or_unauthorized (err e) = err e

abbrev pub optional : String → Option String
optional s = if str_eq s "" then none else some s

-- `_verifier`
abbrev pub verifier : Settings → Option OidcConfig
verifier s =
    if not s.oidc_enabled || str_eq s.oidc_jwks_url ""
    then none
    else some (record {
      enabled = true;
      issuer = s.oidc_issuer;
      audience = optional s.oidc_audience;
      jwks_url = s.oidc_jwks_url;
      role_claim = s.oidc_role_claim;
      subject_claim = s.oidc_subject_claim;
      leeway_seconds = s.oidc_leeway_seconds;
      ttl_seconds = s.oidc_jwks_ttl_seconds;
    })

module _ (py : Platform) (lib : TokenLibrary) (s : Settings) where
  -- `_principal_from_bearer`
  unfoldable pub principal_from_bearer : String → Result Principal
  unfolding verify_token resolve_claim map_role
  principal_from_bearer token = do
    cfg ← or_raise (verifier s) (http 401)
    claims ← or_unauthorized (verify_token lib cfg token)
    subject ← subject_of (resolve_claim py claims s.oidc_subject_claim)
    role ← or_raise (map_role_of (resolve_claim py claims s.oidc_role_claim)) (http 403)
    ok (record { subject = subject; role = role })

  -- The token of an Authorization header of the bearer scheme.
  unfoldable pub bearer_token : String → Option String
  unfolding lstrip take_word lower strip
  bearer_token header =
      let (scheme, rest) = take_word (lstrip header) in
      if str_eq (lower scheme) "bearer" && not (str_eq (lstrip rest) "")
      then some (strip (lstrip rest))
      else none

  unfoldable pub from_key : Option String → Result Principal
  unfolding principal_from_key
  from_key none = err (http 401)
  from_key (some key) = if str_eq key "" then err (http 401) else principal_from_key s key

  abbrev pub header_token : Option String → Option String
  header_token none = none
  header_token (some header) = if str_eq header "" then none else bearer_token header

  -- A bearer token wins over a key.
  abbrev pub by_token : Option String → Option String → Result Principal
  by_token (some token) x_guardx_key = principal_from_bearer token
  by_token none x_guardx_key = from_key x_guardx_key

  -- `current_principal`
  unfoldable pub current_principal : Option String → Option String → Result Principal
  current_principal authorization x_guardx_key = by_token (header_token authorization) x_guardx_key
