-- ===== src/Auth/Oidc/Start.antt =====
-- `start_authorization` of backend/app/usecases/oauth_oidc_usecase.py.
use python_react_template.Prelude.{
  ℕ, ◌+◌, ◌*◌, String, Bool, true, false, not, Option, none, some, first_chars, str_append,
  if◌then◌else◌,
}
use python_react_template.Store.Rows.{Purpose, login, account_deletion_reauth, LanguageCode}
use python_react_template.Store.Exec.{
  Env, Exec, oidc_provider_not_configured, oidc_reauth_authentication_required,
  oidc_authorization_rate_limited, pure, raise, raise_if, draw, ask_limiter, tell_limiter,
  transaction, ◌>>=◌, ◌>>◌,
}
use python_react_template.Store.AuthRepository.Oidc.{create_oidc_authorization_state}
use python_react_template.RateLimit.Interface.{LoginRateLimiter}
use python_react_template.Auth.Settings.{rate_limit_ip}
use python_react_template.Auth.OidcSettings.{OidcProviderSettings, OidcSettings, get_provider}
use python_react_template.Auth.Usecase.Context.{AuthenticatedSessionContext}
use python_react_template.Auth.Oidc.Redirect.{normalize_redirect_path}
use python_react_template.Auth.Oidc.Client.{
  OidcProviderClient, OidcTexts, OidcAuthorizationStartResult, call,
}

abbrev pub is_reauth : Purpose → Bool
is_reauth login = false
is_reauth account_deletion_reauth = true

module _ {L : Type 0} where
  -- `try: provider = get_provider(…) except KeyError: raise …`
  unfoldable pub configured : Option OidcProviderSettings → Exec L OidcProviderSettings
  configured none = raise oidc_provider_not_configured
  configured (some provider) = pure provider

unfoldable pub expected_user_id : Option AuthenticatedSessionContext → Option ℕ
expected_user_id none = none
expected_user_id (some context) = some context.user.id

unfoldable pub expected_session_id : Option AuthenticatedSessionContext → Option ℕ
expected_session_id none = none
expected_session_id (some context) = some context.session.id

abbrev pub is_missing : Option AuthenticatedSessionContext → Bool
is_missing none = true
is_missing (some context) = false

-- The email of the current user, at a reauthentication.
unfoldable pub login_hint : Env → Purpose → Option AuthenticatedSessionContext → Option String
login_hint env login current_session = none
login_hint env account_deletion_reauth none = none
login_hint env account_deletion_reauth (some context) =
    some (env.lower (env.strip context.user.email))

-- The tokens of an authorization, in the order in which they are generated.
pub record Tokens : Type 0 where
  pub state : String
  pub browser_binding : String
  pub nonce : String
  pub pkce_verifier : String

module _ (R : LoginRateLimiter) (env : Env) (oidc : OidcSettings) (client : OidcProviderClient)
    (texts : OidcTexts) where
  unfoldable pub generate_tokens : Exec R.State Tokens
  generate_tokens = do
    state ← draw env.token_urlsafe
    browser_binding ← draw env.token_urlsafe
    nonce ← draw env.token_urlsafe
    pkce_verifier ← draw env.token_urlsafe
    pure (record {
      state = state;
      browser_binding = browser_binding;
      nonce = nonce;
      pkce_verifier = pkce_verifier;
    })

  -- The body of the transaction.
  unfoldable pub store_state :
      OidcProviderSettings
      → Option String
      → Purpose
      → Option AuthenticatedSessionContext
      → String
      → Option LanguageCode
      → ℕ
      → Tokens
      → Exec R.State Unit
  unfolding create_oidc_authorization_state expected_user_id expected_session_id login_hint
      normalize_redirect_path
  store_state provider redirect_path purpose current_session ip language_code now tokens = do
    id ← draw env.uuid4
    create_oidc_authorization_state (record {
      id = id;
      state_hash = env.sha256 tokens.state;
      browser_binding_hash = env.sha256 tokens.browser_binding;
      nonce_hash = env.sha256 tokens.nonce;
      pkce_verifier = tokens.pkce_verifier;
      provider_id = provider.provider_id;
      purpose = purpose;
      expected_user_id = expected_user_id current_session;
      expected_session_id = expected_session_id current_session;
      redirect_path = normalize_redirect_path texts.urlparse env.lower redirect_path;
      login_hint = login_hint env purpose current_session;
      language_code = if is_reauth purpose then none else language_code;
      expires_at = now + oidc.state_ttl_seconds * 1000;
      consumed_at = none;
    })
    tell_limiter (R.record_oidc_authorization ip)

  -- The statements behind the rate limiter.
  unfoldable pub start_allowed :
      OidcProviderSettings
      → Option String
      → Purpose
      → Option AuthenticatedSessionContext
      → String
      → Option LanguageCode
      → Exec R.State OidcAuthorizationStartResult
  unfolding generate_tokens store_state login_hint first_chars
  start_allowed provider redirect_path purpose current_session ip language_code = do
    tokens ← generate_tokens
    now ← draw env.utcnow
    url ← call (
        client.build_authorization_url provider.provider_id tokens.state tokens.nonce
          (texts.s256_code_challenge tokens.pkce_verifier)
          (if is_reauth purpose then some "login" else none)
          (if is_reauth purpose then some 0 else none) (login_hint env purpose current_session))
    transaction
        (store_state provider redirect_path purpose current_session ip language_code now tokens)
    pure (record {
      provider_id = provider.provider_id;
      authorization_url = url;
      browser_binding_cookie_name =
          str_append "oidc_binding_" (first_chars 16 (env.sha256 tokens.state));
      browser_binding_cookie_value = tokens.browser_binding;
      browser_binding_cookie_max_age = oidc.state_ttl_seconds;
    })

  unfoldable pub start_authorization :
      String
      → Option String
      → Purpose
      → Option AuthenticatedSessionContext
      → Option String
      → Option LanguageCode
      → Exec R.State OidcAuthorizationStartResult
  unfolding configured get_provider start_allowed rate_limit_ip
  start_authorization provider_id redirect_path purpose current_session ip_address language_code =
      do
        provider ← configured (get_provider provider_id oidc.providers)
        raise_if (if is_reauth purpose then is_missing current_session else false)
            oidc_reauth_authentication_required
        let ip = rate_limit_ip ip_address
        allowed ← ask_limiter (R.is_oidc_authorization_allowed ip)
        raise_if (not allowed) oidc_authorization_rate_limited
        start_allowed provider redirect_path purpose current_session ip language_code
