-- ===== src/Auth/Oidc/Tests.antt =====
-- The OIDC use case at concrete inputs.
use python_react_template.Prelude.{
  ℕ, ◌+◌, ◌≡◌, ◌⊎◌, refl, String, false, none, some, [], ◌∷◌, str_eq, find, any, update_where,
  if◌then◌else◌,
}
use python_react_template.Store.Rows.{AuthIdentity, AuthOidcState, login}
use python_react_template.Store.Exec.{
  World, ok, err, oidc_state_mismatch, oidc_callback_flow, oidc_token_exchange,
}
use python_react_template.Auth.OidcSettings.{
  OidcProviderSettings, OidcSettings, OidcVerifiedClaims, manual, link_only, get_provider,
}
use python_react_template.Auth.Oidc.Redirect.{
  ParsedUrl, normalize_redirect_path, default_redirect_path,
}
use python_react_template.Auth.Oidc.Redirect.Normalized.{IsNormalized, normalize_redirect_path_lem}
use python_react_template.Auth.Oidc.Client.{OidcProviderClient, OidcCallbackResult}
use python_react_template.Auth.Oidc.State.{consume_callback_state}
use python_react_template.Auth.Oidc.Callback.{complete_callback}
use python_react_template.Auth.Oidc.Presented.{IsPresented}
use python_react_template.Auth.Oidc.Soundness.{
  IsCompleted, IsValidated, complete_callback-IsCompleted,
}
use python_react_template.Auth.Oidc.Replay.{complete_callback-once}
use python_react_template.Auth.Oidc.Atomicity.{IsSameButLogs, complete_callback-atomic}
use python_react_template.Auth.Examples.{environment, settings, limiter, alice, tables, world}

-- A parser that finds a path only.
abbrev path_only : String → ParsedUrl
path_only t = record { scheme = ""; netloc = ""; path = t; query = ""; fragment = "" }

normalize_redirect_path_lem_example :
    (normalize_redirect_path path_only (λ t. t) (some "/items") ≡ default_redirect_path)
    ⊎ (v : String) × (some "/items" ≡ some v)
      × IsNormalized path_only
          (λ t. t)
          v
          (normalize_redirect_path path_only (λ t. t) (some "/items"))
normalize_redirect_path_lem_example = normalize_redirect_path_lem path_only (λ t. t) (some "/items")

-- A path of the application stays.
kept : normalize_redirect_path path_only (λ t. t) (some "/items") ≡ "/items"
unfolding normalize_redirect_path
kept = refl

login_page : normalize_redirect_path path_only (λ t. t) (some "/login//") ≡ "/app"
unfolding normalize_redirect_path
login_page = refl

backslash : normalize_redirect_path path_only (λ t. t) (some "/\\evil.example") ≡ "/app"
unfolding normalize_redirect_path
backslash = refl

-- What `urlparse` answers for "////evil.example": an empty host and a path of two slashes.
abbrev four_slashes : String → ParsedUrl
four_slashes t = record {
  scheme = "";
  netloc = "";
  path = "//evil.example";
  query = "";
  fragment = "";
}

-- A URL without a scheme, which browsers take for one of another host, is let through.
protocol_relative :
    normalize_redirect_path four_slashes (λ t. t) (some "////evil.example") ≡ "//evil.example"
unfolding normalize_redirect_path
protocol_relative = refl

abbrev provider : OidcProviderSettings
provider = record {
  provider_id = "idp";
  display_name = "Provider";
  issuer = "https://idp.example";
  client_id = "web";
  trust_verified_email = false;
  auto_provision = link_only;
  link_mode = manual;
  claims_allowlist = "name" ∷ [];
}

abbrev oidc : OidcSettings
oidc = record {
  providers = provider ∷ [];
  reauth_freshness_seconds = 300;
  state_ttl_seconds = 300;
  future_leeway_seconds = 60;
}

abbrev claims : OidcVerifiedClaims
claims = record {
  provider_id = "idp";
  issuer = "https://idp.example";
  audience = "web";
  subject = "subject";
  email = none;
  email_verified = false;
  issued_at = 90000;
  expires_at = 200000;
  auth_time = none;
  claims_json = "{}";
}

abbrev client : OidcProviderClient
client = record {
  build_authorization_url = λ p s n c prompt age hint call. ok "https://idp.example";
  exchange_code =
      λ p code verifier call. if str_eq code "code" then ok "token" else err oidc_token_exchange;
  validate_id_token = λ p token nonce required call. ok claims;
}

abbrev identity : AuthIdentity
identity = record {
  id = 11;
  user_id = 7;
  provider_id = "idp";
  provider_subject = "subject";
  email = none;
  is_email_verified = false;
  claims_json = "{}";
  linked_at = 0;
  last_logged_in_at = none;
}

abbrev state_row : AuthOidcState
state_row = record {
  id = 12;
  state_hash = "state";
  browser_binding_hash = "browser";
  nonce_hash = "nonce";
  pkce_verifier = "verifier";
  provider_id = "idp";
  purpose = login;
  expected_user_id = none;
  expected_session_id = none;
  redirect_path = "/app";
  login_hint = none;
  language_code = none;
  expires_at = 200000;
  consumed_at = none;
}

-- The user of the examples, with an identity and a state for a login.
abbrev linked : World limiter.State
linked = record (world alice) {
  db = record (tables alice) { identities = identity ∷ []; oidc_states = state_row ∷ [] };
}

abbrev logged_in : OidcCallbackResult
logged_in = record {
  redirect_path = "/app";
  issued_session = some (record {
    user = record alice { last_logged_in_at = some 100003 };
    session = record {
      id = 7;
      user_id = 7;
      session_token_hash = "token";
      csrf_token_hash = "token";
      issued_at = 100006;
      last_seen_at = 100006;
      expires_at = 86500006;
      revoked_at = none;
      last_oidc_authenticated_at = none;
      ip_address = none;
      user_agent = none;
    };
    session_token = "token";
    csrf_token = "token";
    roles = [];
    permissions = [];
  });
  reauthenticated_context = none;
}

complete_callback-IsCompleted_example :
    (p : OidcProviderSettings) × (get_provider "idp" oidc.providers ≡ some p)
    × (s : AuthOidcState) × IsPresented environment p "state" (some "browser") linked.db 100000 s
    × (c : OidcVerifiedClaims) × (n : ℕ) × IsValidated client p s c n
    × IsCompleted environment oidc p s c linked.db none logged_in (environment.utcnow (n + 1))
unfolding complete_callback find python_react_template.Store.AuthRepository.Users.record_user_login
    python_react_template.Auth.Issuer.replace_auth_session
    python_react_template.Store.AuthRepository.Sessions.create_session any update_where
    python_react_template.Auth.Issuer.calculate_session_expiry
    python_react_template.Auth.Authorization.resolve_user_authorization
    python_react_template.Store.AuthorizationRepository.role_codes_for_user
complete_callback-IsCompleted_example =
    complete_callback-IsCompleted environment settings oidc client "idp" "state" "code"
      (some "browser") none none none none linked {r = logged_in} refl

abbrev taken : AuthOidcState
taken = record state_row { consumed_at = some 100000 }

complete_callback-once_example :
    (complete_callback environment settings oidc client "idp" "state" "code"
      (some "browser")
      none
      none
      none
      none
      (complete_callback environment settings oidc client "idp" "state" "wrong"
        (some "browser")
        none
        none
        none
        none
        linked).1).0
    ≡ err oidc_state_mismatch
unfolding consume_callback_state get_provider find
complete_callback-once_example =
    complete_callback-once environment settings oidc client "idp" "state" "wrong" (some "browser")
      none none none none linked "idp" "code" "browser" none none none none {provider = provider}
      {later_provider = provider} {s = taken} refl refl refl

complete_callback-atomic_example :
    IsSameButLogs linked.db
      (complete_callback environment settings oidc client "idp" "state" "wrong"
        (some "browser")
        none
        none
        none
        none
        linked).1.db
unfolding complete_callback find
complete_callback-atomic_example =
    complete_callback-atomic environment settings oidc client "idp" "state" "wrong" (some "browser")
      none none none none linked {e = oidc_callback_flow oidc_token_exchange login "/app"} refl refl
