-- ===== src/Auth/Claims.antt =====
-- api/oidc.py: the lookup of a claim by its dotted path, and the verification of a token. The key
-- set and `jwt.decode` are the library's, and are parameters.
use guard_x.Common.{
  ℕ, zero, suc, ◌-◌, String, Bool, not, Option, none, some, List, [], ◌∷◌, length, ltb, str_eq,
  if◌then◌else◌, is_some,
}
use guard_x.Common.Int.{ℤ, pos, negsuc}
use guard_x.Common.Text.{split_all, strip}
use guard_x.Common.Json.{Json, arr, obj, items, find, is_null}
use guard_x.Common.Result.{Exception, Result, ok, err, oidc_error, or_raise, raise_if, ◌>>=◌, ◌>>◌}
use guard_x.Platform.{Platform}

abbrev nth : ℕ → List Json → Option Json
nth n [] = none
nth zero (x ∷ xs) = some x
nth (suc n) (x ∷ xs) = nth n xs

-- `xs[i]`, where a negative index counts from the end; none for an IndexError.
abbrev pub index : ℤ → List Json → Option Json
index (pos n) xs = nth n xs
index (negsuc n) xs = if ltb n (length xs) then nth (length xs - n - 1) xs else none

abbrev index_of : Option ℤ → List Json → Option Json
index_of none xs = none
index_of (some i) xs = index i xs

module _ (py : Platform) where
  -- One segment of the path. None stands for every miss, as in the code.
  unfoldable pub claim_step : String → Json → Option Json
  claim_step segment (obj fs) = find segment fs
  claim_step segment (arr xs) = index_of (py.int_of_text segment) (items xs)
  claim_step segment _ = none

  -- `if cur is None: return None`, and the next round.
  unfoldable pub walk : List String → Json → Option Json
  unfolding claim_step
  walk [] cur = some cur
  walk (s ∷ ss) cur = elim (claim_step s cur) [
    | none ↦ none
    | some v ↦ if is_null v then none else walk ss v
  ]

  -- `resolve_claim`
  unfoldable pub resolve_claim : Json → String → Option Json
  unfolding walk split_all
  resolve_claim claims path = walk (split_all b'.' path) claims

-- `OIDCConfig`
pub record OidcConfig : Type 0 where
  pub enabled : Bool
  pub issuer : String
  pub audience : Option String
  pub jwks_url : String
  pub role_claim : String
  pub subject_claim : String
  pub leeway_seconds : ℕ
  pub ttl_seconds : ℕ

-- A key of the key set, with the name of its algorithm if it has one.
pub record SigningKey : Type 0 where
  pub key : String
  pub algorithm_name : String

-- The arguments of `jwt.decode`.
pub record DecodeRequest : Type 0 where
  pub token : String
  pub key : String
  pub algorithms : List String
  pub issuer : Option String
  pub audience : Option String
  pub verify_aud : Bool
  pub verify_iss : Bool
  pub require : List String
  pub leeway : ℕ

-- `OIDCConfig.issuer_ok`
abbrev pub issuer_ok : OidcConfig → Bool
issuer_ok cfg = not (str_eq (strip cfg.issuer) "")

abbrev pub algorithms_of : SigningKey → List String
algorithms_of k =
    if str_eq k.algorithm_name "" then "RS256" ∷ "ES256" ∷ "HS256" ∷ [] else k.algorithm_name ∷ []

abbrev pub non_empty : Option String → Option String
non_empty none = none
non_empty (some s) = if str_eq s "" then none else some s

abbrev pub decode_request : OidcConfig → String → SigningKey → DecodeRequest
decode_request cfg token k = record {
  token = token;
  key = k.key;
  algorithms = algorithms_of k;
  issuer = if issuer_ok cfg then some cfg.issuer else none;
  audience = non_empty cfg.audience;
  verify_aud = is_some cfg.audience;
  verify_iss = issuer_ok cfg;
  require = "exp" ∷ "iat" ∷ "iss" ∷ [];
  leeway = cfg.leeway_seconds;
}

-- What the call of `JWKSCache.get_signing_key` ends in: a key, a `PyJWKClientError` or an `HTTPError`,
-- or another exception, as for a text that is no token.
pub data KeyAnswer : Type 0 where
  found : SigningKey → KeyAnswer
  refused : KeyAnswer
  raised : Exception → KeyAnswer

-- `except (PyJWKClientError, HTTPError) as e: raise OIDCError`
abbrev pub key_of : KeyAnswer → Result SigningKey
key_of (found k) = ok k
key_of refused = err oidc_error
key_of (raised e) = err e

-- `JWKSCache.get_signing_key` and `jwt.decode`, with none where that raises an `InvalidTokenError`.
pub record TokenLibrary : Type 0 where
  pub signing_key : String → KeyAnswer
  pub decode : DecodeRequest → Option Json

-- `OIDCVerifier.verify`
unfoldable pub verify_token : TokenLibrary → OidcConfig → String → Result Json
verify_token lib cfg token = do
  raise_if (not cfg.enabled) oidc_error
  k ← key_of (lib.signing_key token)
  or_raise (lib.decode (decode_request cfg token k)) oidc_error
