-- ===== src/Auth/Oidc/Callback.antt =====
-- `complete_callback` and `complete_error_callback` of backend/app/usecases/oauth_oidc_usecase.py.
use python_react_template.Prelude.{String, Option, if◌then◌else◌}
use python_react_template.Store.Rows.{AuthOidcState}
use python_react_template.Store.Exec.{
  Error, Result, ok, err, Env, Exec, World, oidc_callback_flow, raise, ◌>>=◌, ◌>>◌,
}
use python_react_template.Auth.Settings.{AuthSettings}
use python_react_template.Auth.OidcSettings.{
  OidcProviderSettings, OidcSettings, OidcVerifiedClaims, get_provider,
}
use python_react_template.Auth.Usecase.Context.{AuthenticatedSessionContext}
use python_react_template.Auth.Oidc.Client.{OidcProviderClient, OidcCallbackResult, call}
use python_react_template.Auth.Oidc.Start.{configured, is_reauth}
use python_react_template.Auth.Oidc.State.{consume_callback_state, audit_failure}
use python_react_template.Auth.Oidc.Login.{complete_login_callback}
use python_react_template.Auth.Oidc.Reauth.{complete_reauth_callback}

module _ {L A : Type 0} where
  -- `except Exception as exc: …`
  unfoldable pub on_error : (Error → Exec L A) → Result A × World L → Result A × World L
  on_error handler (ok a, w) = (ok a, w)
  on_error handler (err e, w) = handler e w

module _ (env : Env) (settings : AuthSettings) (oidc : OidcSettings) (client : OidcProviderClient)
    {L : Type 0} where
  -- `_complete_reauth_callback` or `_complete_login_callback`, by the purpose.
  unfoldable pub complete_by_purpose :
      OidcProviderSettings
      → AuthOidcState
      → OidcVerifiedClaims
      → Option AuthenticatedSessionContext
      → Option String
      → Option String
      → Option String
      → Exec L OidcCallbackResult
  unfolding complete_reauth_callback complete_login_callback
  complete_by_purpose provider oidc_state claims current_session current_session_token ip_address
        user_agent =
      if is_reauth oidc_state.purpose
      then complete_reauth_callback env oidc provider oidc_state claims current_session ip_address
          user_agent
      else complete_login_callback env settings provider oidc_state claims current_session_token
          ip_address user_agent

  -- The body of the `try`.
  unfoldable pub exchange_and_complete :
      OidcProviderSettings
      → AuthOidcState
      → String
      → Option AuthenticatedSessionContext
      → Option String
      → Option String
      → Option String
      → Exec L OidcCallbackResult
  unfolding complete_by_purpose
  exchange_and_complete provider oidc_state code current_session current_session_token ip_address
        user_agent =
      do
        id_token ← call (client.exchange_code provider.provider_id code oidc_state.pkce_verifier)
        claims ← call (
            client.validate_id_token provider.provider_id id_token oidc_state.nonce_hash
              (is_reauth oidc_state.purpose))
        complete_by_purpose provider oidc_state claims current_session current_session_token
            ip_address user_agent

  -- The failure is logged and raised again with the state's purpose and path.
  unfoldable pub fail_callback :
      {A : Type 0}
      → OidcProviderSettings
      → AuthOidcState
      → Option AuthenticatedSessionContext
      → Option String
      → Option String
      → Error
      → Exec L A
  unfolding audit_failure
  fail_callback provider oidc_state current_session ip_address user_agent error = do
    audit_failure env provider oidc_state current_session error ip_address user_agent
    raise (oidc_callback_flow error oidc_state.purpose oidc_state.redirect_path)

  unfoldable pub attempt_callback :
      OidcProviderSettings
      → String
      → Option AuthenticatedSessionContext
      → Option String
      → Option String
      → Option String
      → AuthOidcState
      → Exec L OidcCallbackResult
  unfolding on_error fail_callback exchange_and_complete
  attempt_callback provider code current_session current_session_token ip_address user_agent
        oidc_state w =
      on_error (fail_callback provider oidc_state current_session ip_address user_agent) (
        exchange_and_complete provider oidc_state code current_session current_session_token
          ip_address user_agent w)

  unfoldable pub complete_callback :
      String
      → String
      → String
      → Option String
      → Option AuthenticatedSessionContext
      → Option String
      → Option String
      → Option String
      → Exec L OidcCallbackResult
  unfolding configured get_provider consume_callback_state attempt_callback
  complete_callback provider_id state code browser_binding_cookie_value current_session
        current_session_token ip_address user_agent =
      do
        provider ← configured (get_provider provider_id oidc.providers)
        oidc_state ← consume_callback_state env provider state browser_binding_cookie_value
        attempt_callback provider code current_session current_session_token ip_address user_agent
            oidc_state

  unfoldable pub complete_error_callback :
      {A : Type 0}
      → String
      → String
      → Option String
      → Error
      → Option AuthenticatedSessionContext
      → Option String
      → Option String
      → Exec L A
  unfolding configured get_provider consume_callback_state fail_callback
  complete_error_callback provider_id state browser_binding_cookie_value provider_error
        current_session ip_address user_agent =
      do
        provider ← configured (get_provider provider_id oidc.providers)
        oidc_state ← consume_callback_state env provider state browser_binding_cookie_value
        fail_callback provider oidc_state current_session ip_address user_agent provider_error
