-- ===== src/Auth/Oidc/Login.antt =====
-- `_complete_login_callback` of backend/app/usecases/oauth_oidc_usecase.py.
use python_react_template.Prelude.{String, Option, none, some, List}
use python_react_template.Store.Rows.{
  User, AuthSession, AuthEventType, AuthOidcState, oidc_login_success,
}
use python_react_template.Store.Exec.{Env, Exec, pure, draw, transaction, ◌>>=◌, ◌>>◌}
use python_react_template.Store.AuthRepository.Users.{record_user_login}
use python_react_template.Store.AuthRepository.Oidc.{record_oidc_login}
use python_react_template.Auth.Settings.{AuthSettings}
use python_react_template.Auth.Issuer.{replace_auth_session}
use python_react_template.Auth.OidcSettings.{OidcProviderSettings, OidcVerifiedClaims}
use python_react_template.Auth.Usecase.Context.{IssuedAuthSession, authorization_for_existing_user}
use python_react_template.Auth.Oidc.Client.{OidcCallbackResult}
use python_react_template.Auth.Oidc.Resolve.{Resolved, resolve_login_user_and_identity}
use python_react_template.Auth.Oidc.State.{audit_success, audit_setup}

module _ (env : Env) (settings : AuthSettings) {L : Type 0} where
  -- The audit logs of a login, which end its transaction.
  unfoldable pub log_login :
      OidcProviderSettings
      → AuthOidcState
      → List AuthEventType
      → User
      → Option String
      → Option String
      → AuthSession × String × String
      → Exec L (User × AuthSession × String × String)
  unfolding audit_setup audit_success
  log_login provider oidc_state setup_audits user ip_address user_agent
        (session, session_token, csrf_token) =
      do
        audit_setup env setup_audits user.id session.id provider.provider_id oidc_state.purpose
            ip_address user_agent
        audit_success env oidc_login_success user.id session.id provider.provider_id
            oidc_state.purpose ip_address user_agent
        pure (user, session, session_token, csrf_token)

  -- The transaction's statements behind the resolution of the user.
  unfoldable pub open_oidc_session :
      OidcProviderSettings
      → AuthOidcState
      → OidcVerifiedClaims
      → Option String
      → Option String
      → Option String
      → Resolved
      → Exec L (User × AuthSession × String × String)
  unfolding record_oidc_login log_login
  open_oidc_session provider oidc_state claims current_session_token ip_address user_agent
        (resolved_user, identity, setup_audits) =
      do
        login_at ← draw env.utcnow
        user ← record_user_login resolved_user.id login_at
        issued ← replace_auth_session env settings user current_session_token ip_address user_agent
        record_oidc_login user.id identity.id issued.0.id login_at claims.auth_time
        log_login provider oidc_state setup_audits user ip_address user_agent issued

  -- The statements behind the transaction.
  unfoldable pub oidc_issued :
      AuthOidcState → User × AuthSession × String × String → Exec L OidcCallbackResult
  unfolding authorization_for_existing_user
  oidc_issued oidc_state (user, session, session_token, csrf_token) = do
    authorization ← authorization_for_existing_user user.id
    let issued : IssuedAuthSession = record {
      user = user;
      session = session;
      session_token = session_token;
      csrf_token = csrf_token;
      roles = authorization.roles;
      permissions = authorization.permissions;
    }
    pure (record {
      redirect_path = oidc_state.redirect_path;
      issued_session = some issued;
      reauthenticated_context = none;
    })

  -- The transaction of a login. A language code of the state's type is a supported one.
  unfoldable pub login_transaction :
      OidcProviderSettings
      → AuthOidcState
      → OidcVerifiedClaims
      → Option String
      → Option String
      → Option String
      → Exec L (User × AuthSession × String × String)
  unfolding resolve_login_user_and_identity open_oidc_session
  login_transaction provider oidc_state claims current_session_token ip_address user_agent = do
    resolved ← resolve_login_user_and_identity env provider claims oidc_state.language_code
    open_oidc_session provider oidc_state claims current_session_token ip_address user_agent
        resolved

  -- `_complete_login_callback`
  unfoldable pub complete_login_callback :
      OidcProviderSettings
      → AuthOidcState
      → OidcVerifiedClaims
      → Option String
      → Option String
      → Option String
      → Exec L OidcCallbackResult
  unfolding login_transaction oidc_issued
  complete_login_callback provider oidc_state claims current_session_token ip_address user_agent =
      do
        opened ← transaction (
            login_transaction provider oidc_state claims current_session_token ip_address
              user_agent)
        oidc_issued oidc_state opened
