-- ===== src/Auth/Oidc/IdTokenTests.antt =====
-- The claims of one identity token.
use python_react_template.Prelude.{
  ◌≡◌, refl, true, false, none, some, [], ◌∷◌, any, str_eq, if◌then◌else◌,
}
use python_react_template.Store.Exec.{err, oidc_claims_validation, oidc_reauth_auth_time_required}
use python_react_template.Auth.OidcSettings.{
  OidcProviderSettings, OidcSettings, OidcVerifiedClaims, link_only, manual,
}
use python_react_template.Auth.Examples.{environment, alice, world}
use python_react_template.Auth.Oidc.IdToken.{
  Claim, text, whole, boolean, list_of, Claims, claims_json, validate_claims,
}
use python_react_template.Auth.Oidc.VerifiedClaims.{IsVerified, validate_claims-IsVerified}

abbrev provider : OidcProviderSettings
provider = record {
  provider_id = "idp";
  display_name = "Provider";
  issuer = "https://idp.example";
  client_id = "web";
  trust_verified_email = true;
  auto_provision = link_only;
  link_mode = manual;
  claims_allowlist = "name" ∷ "sub" ∷ "locale" ∷ [];
}

abbrev oidc : OidcSettings
oidc = record {
  providers = provider ∷ [];
  reauth_freshness_seconds = 300;
  state_ttl_seconds = 300;
  future_leeway_seconds = 60;
}

-- The clock stands at 100 seconds.
abbrev claims : Claims
claims name =
    if str_eq name "iss"
    then some (text "https://idp.example")
    else if str_eq name "aud"
    then some (list_of (none ∷ some "web" ∷ []))
    else if str_eq name "sub"
    then some (text "subject")
    else if str_eq name "nonce"
    then some (text "nonce")
    else if str_eq name "exp"
    then some (whole 101)
    else if str_eq name "iat"
    then some (whole 160)
    else if str_eq name "auth_time"
    then some (whole 90)
    else if str_eq name "name"
    then some (text "Alice")
    else none

abbrev verified : OidcVerifiedClaims
verified = record {
  provider_id = "idp";
  issuer = "https://idp.example";
  audience = "web";
  subject = "subject";
  email = none;
  email_verified = false;
  issued_at = 160000;
  expires_at = 101000;
  auth_time = some 90000;
  claims_json = "{}";
}

persisted :
    claims_json provider claims "i" "s" none true (some 90000)
    ≡ ("iss", text "i")
      ∷ ("sub", text "s")
      ∷ ("email", Claim.null)
      ∷ ("email_verified", boolean true)
      ∷ ("auth_time", whole 90)
      ∷ ("name", text "Alice")
      ∷ []
unfolding claims_json any
persisted = refl

expired :
    (validate_claims environment oidc
      (λ p. "{}")
      provider
      (λ name. if str_eq name "exp" then some (whole 100) else claims name)
      none
      (some "nonce")
      false
      (world alice)).0
    ≡ err oidc_claims_validation
unfolding validate_claims any
expired = refl

no_auth_time :
    (validate_claims environment oidc
      (λ p. "{}")
      provider
      (λ name. if str_eq name "auth_time" then none else claims name)
      none
      (some "nonce")
      true
      (world alice)).0
    ≡ err oidc_reauth_auth_time_required
unfolding validate_claims any
no_auth_time = refl

validate_claims-IsVerified_example :
    IsVerified environment oidc provider claims none "nonce" true 100000 verified
unfolding validate_claims any
validate_claims-IsVerified_example =
    validate_claims-IsVerified environment oidc (λ p. "{}") provider claims none "nonce" true
      (world alice) verified refl
