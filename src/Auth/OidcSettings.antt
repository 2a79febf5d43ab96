-- ===== src/Auth/OidcSettings.antt =====
-- The settings of backend/app/config/oidc.py that the use cases read, and the claims of
-- backend/app/models/oidc.py.
use python_react_template.Prelude.{
  ℕ, String, Bool, true, false, ◌&&◌, Option, none, some, List, [], ◌∷◌, str_eq, if◌then◌else◌,
}

pub data AutoProvisionMode : Type 0 where
  enabled link_only : AutoProvisionMode

pub data LinkMode : Type 0 where
  auto manual disabled : LinkMode

pub record OidcProviderSettings : Type 0 where
  pub provider_id : String
  pub display_name : String
  pub issuer : String
  pub client_id : String
  pub trust_verified_email : Bool
  pub auto_provision : AutoProvisionMode
  pub link_mode : LinkMode
  pub claims_allowlist : List String

pub record OidcSettings : Type 0 where
  pub providers : List OidcProviderSettings
  pub reauth_freshness_seconds : ℕ
  pub state_ttl_seconds : ℕ
  pub future_leeway_seconds : ℕ

abbrev pub is_enabled : AutoProvisionMode → Bool
is_enabled enabled = true
is_enabled link_only = false

unfoldable pub allows_auto_provision : OidcProviderSettings → Bool
allows_auto_provision provider = provider.trust_verified_email && is_enabled provider.auto_provision

-- The loop of `get_provider`; `none` is its `KeyError`.
unfoldable pub get_provider : String → List OidcProviderSettings → Option OidcProviderSettings
get_provider provider_id [] = none
get_provider provider_id (provider ∷ providers) =
    if str_eq provider.provider_id provider_id
    then some provider
    else get_provider provider_id providers

pub record OidcVerifiedClaims : Type 0 where
  pub provider_id : String
  pub issuer : String
  pub audience : String
  pub subject : String
  pub email : Option String
  pub email_verified : Bool
  pub issued_at : ℕ
  pub expires_at : ℕ
  pub auth_time : Option ℕ
  pub claims_json : String
