-- ===== src/Auth/Usecase/Context.antt =====
-- What the use cases return, and the steps that several of them share.
use python_react_template.Prelude.{ℕ, String, Option, none, some, List}
use python_react_template.Store.Rows.{User, AuthSession, AuthEventType, LanguageCode}
use python_react_template.Store.Exec.{Env, Exec, pure, draw, ◌>>=◌, ◌>>◌}
use python_react_template.Store.AuthRepository.Users.{record_user_login}
use python_react_template.Store.AuthRepository.AuditLogs.{create_audit_log}
use python_react_template.Store.AuthorizationRepository.{get_user_role_codes}
use python_react_template.Auth.Settings.{AuthSettings}
use python_react_template.Auth.Authorization.{UserAuthorization, resolve_user_authorization}
use python_react_template.Auth.Issuer.{replace_auth_session}

-- auth_context.py
pub record AuthenticatedSessionContext : Type 0 where
  pub user : User
  pub session : AuthSession
  pub roles : List String
  pub permissions : List String

pub record IssuedAuthSession : Type 0 where
  pub user : User
  pub session : AuthSession
  pub session_token : String
  pub csrf_token : String
  pub roles : List String
  pub permissions : List String

-- `AuthUserUpdateChanges` of user.py
pub record AuthUserUpdateChanges : Type 0 where
  pub language_code : Option LanguageCode
  pub fields_set : List String

module _ {L : Type 0} where
  unfoldable pub authorization_for_existing_user : ℕ → Exec L UserAuthorization
  unfolding get_user_role_codes
  authorization_for_existing_user user_id = do
    role_codes ← get_user_role_codes user_id
    pure (resolve_user_authorization user_id role_codes)

-- The statements that `register` and `login` have in common inside their transactions: the login
-- time, the new session in place of the current one, and the audit log.
module _ (env : Env) (settings : AuthSettings) {L : Type 0} where
  unfoldable pub log_started :
      AuthEventType
      → User
      → Option String
      → Option String
      → AuthSession × String × String
      → Exec L (User × AuthSession × String × String)
  unfolding create_audit_log
  log_started event_type user ip_address user_agent (session, session_token, csrf_token) = do
    create_audit_log env (some user.id) (some session.id) event_type ip_address user_agent none none
    pure (user, session, session_token, csrf_token)

  unfoldable pub open_session :
      AuthEventType
      → User
      → Option String
      → Option String
      → Option String
      → Exec L (User × AuthSession × String × String)
  open_session event_type user current_session_token ip_address user_agent = do
    issued ← replace_auth_session env settings user current_session_token ip_address user_agent
    log_started event_type user ip_address user_agent issued

  unfoldable pub start_session :
      AuthEventType
      → ℕ
      → Option String
      → Option String
      → Option String
      → Exec L (User × AuthSession × String × String)
  start_session event_type user_id current_session_token ip_address user_agent = do
    login_at ← draw env.utcnow
    user ← record_user_login user_id login_at
    open_session event_type user current_session_token ip_address user_agent
