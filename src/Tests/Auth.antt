-- ===== src/Tests/Auth.antt =====
-- A bearer token that a library accepts.
use guard_x.Common.{◌≡◌, ◌⊎◌, refl, String, true, some, none, [], ◌∷◌}
use guard_x.Common.Json.{Json, str, obj, of_entries}
use guard_x.Common.Result.{ok}
use guard_x.Common.Text.{lstrip, strip_prefix}
use guard_x.Auth.Role.{Role, Principal}
use guard_x.Auth.Claims.{KeyAnswer, TokenLibrary}
use guard_x.Auth.Principal.{
  Settings, current_principal, header_token, bearer_token, principal_from_bearer, norm,
}
use guard_x.Auth.Sound.{FromToken, FromKey, current_principal_sound}
use guard_x.Tests.Setup.{py}

abbrev settings : Settings
settings = record {
  api_key_admin = "k-admin";
  api_key_service = "k-service";
  oidc_enabled = true;
  oidc_issuer = "idp";
  oidc_audience = "";
  oidc_jwks_url = "https://idp/jwks";
  oidc_role_claim = "app.role";
  oidc_subject_claim = "sub";
  oidc_leeway_seconds = 30;
  oidc_jwks_ttl_seconds = 900;
}

abbrev token_claims : Json
token_claims = obj (
    of_entries (
      ("sub", str "carol")
      ∷ ("app", obj (of_entries (("role", str " GuardX-Approver ") ∷ [])))
      ∷ []))

abbrev library : TokenLibrary
library = record {
  signing_key = λ token. KeyAnswer.found (record { key = "pk"; algorithm_name = "RS256" });
  decode = λ request. some token_claims;
}

abbrev carol : Principal
carol = record { subject = "carol"; role = Role.approver }

let_in : current_principal py library settings (some "Bearer abc") (some "k-admin") ≡ ok carol
unfolding current_principal bearer_token principal_from_bearer lstrip norm strip_prefix
let_in = refl

current_principal_sound_example :
    ((token : String) × (header_token py library settings (some "Bearer abc") ≡ some token)
      × FromToken py library settings token carol)
    ⊎ ((header_token py library settings (some "Bearer abc") ≡ none)
        × FromKey py library settings (some "k-admin") carol)
current_principal_sound_example =
    current_principal_sound py library settings (some "Bearer abc") (some "k-admin") carol let_in
