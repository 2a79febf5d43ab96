-- ===== src/Auth/Usecase/Session.antt =====
-- The sessions of `AuthUsecase`: authentication, logout and CSRF tokens.
use python_react_template.Prelude.{
  ℕ, ◌-◌, ◌*◌, String, Bool, not, ◌||◌, Option, none, some, is_some, leb, ◌==◌, str_eq,
  if◌then◌else◌,
}
use python_react_template.Store.Rows.{
  User, AuthSession, AuthEventType, session_rejected, session_revoked_deleted_user,
  session_revoked_inactive_user, logout as logout_event,
}
use python_react_template.Store.Exec.{Env, Exec, pure, draw, transaction, ◌>>=◌, ◌>>◌}
use python_react_template.Store.AuthRepository.Users.{find_user_by_id_for_authentication}
use python_react_template.Store.AuthRepository.Sessions.{
  find_active_session_by_token_hash, find_session_by_token_hash, revoke_session,
  revoke_sessions_for_user, touch_session, update_session_csrf_token_hash,
}
use python_react_template.Store.AuthRepository.AuditLogs.{
  create_audit_log, record_rejected_session_replay,
}
use python_react_template.Auth.Settings.{
  AuthSettings, effective_session_touch_interval_seconds, truthy,
}
use python_react_template.Auth.Issuer.{calculate_session_expiry}
use python_react_template.Auth.Usecase.Context.{
  AuthenticatedSessionContext, authorization_for_existing_user,
}

abbrev pub session_rejected_audit_window_seconds : ℕ
session_rejected_audit_window_seconds = 300

-- auth_csrf.py
pub data SessionCsrfStatus : Type 0 where
  no_session valid mismatch : SessionCsrfStatus

module _ (env : Env) {L : Type 0} where
  unfoldable pub audit_rejected : Option AuthSession → Option String → Option String → Exec L Unit
  unfolding record_rejected_session_replay
  audit_rejected none ip_address user_agent = pure tt
  audit_rejected (some s) ip_address user_agent = do
    replayed_at ← draw env.utcnow
    record_rejected_session_replay env s ip_address user_agent replayed_at
        session_rejected_audit_window_seconds

  unfoldable pub audit_known_rejected_session : String → Option String → Option String → Exec L Unit
  unfolding audit_rejected find_session_by_token_hash
  audit_known_rejected_session token_hash ip_address user_agent = do
    audit_rejected (← find_session_by_token_hash env token_hash) ip_address user_agent

  unfoldable pub store_csrf_token : String → Option AuthSession → Exec L String
  unfolding update_session_csrf_token_hash
  store_csrf_token csrf_token none = pure csrf_token
  store_csrf_token csrf_token (some s) = do
    update_session_csrf_token_hash s.id (env.sha256 csrf_token)
    pure csrf_token

  unfoldable pub issue_for : String → Option String → Exec L String
  unfolding store_csrf_token find_active_session_by_token_hash
  issue_for csrf_token none = pure csrf_token
  issue_for csrf_token (some token) = do
    store_csrf_token csrf_token (← find_active_session_by_token_hash env (env.sha256 token))

  unfoldable pub issue_csrf_token : Option String → Exec L String
  unfolding issue_for truthy
  issue_csrf_token session_token = do
    csrf_token ← draw env.token_urlsafe
    issue_for csrf_token (truthy session_token)

  unfoldable pub compare_csrf :
      String
      → String
      → Option AuthSession
      → Option String
      → Option String
      → Exec L SessionCsrfStatus
  unfolding audit_known_rejected_session
  compare_csrf session_token_hash csrf_token none ip_address user_agent = do
    audit_known_rejected_session session_token_hash ip_address user_agent
    pure no_session
  compare_csrf session_token_hash csrf_token (some s) ip_address user_agent =
      pure (if str_eq s.csrf_token_hash (env.sha256 csrf_token) then valid else mismatch)

  unfoldable pub validate_session_csrf :
      String → String → Option String → Option String → Exec L SessionCsrfStatus
  unfolding compare_csrf find_active_session_by_token_hash
  validate_session_csrf session_token csrf_token ip_address user_agent = do
    let session_token_hash = env.sha256 session_token
    auth_session ← find_active_session_by_token_hash env session_token_hash
    compare_csrf session_token_hash csrf_token auth_session ip_address user_agent

  unfoldable pub reject_session :
      AuthSession → AuthEventType → Option ℕ → Option String → Option String → Exec L Unit
  unfolding revoke_session create_audit_log
  reject_session s event_type user_id ip_address user_agent = do
    revoke_session env s.id
    create_audit_log env user_id (some s.id) event_type ip_address user_agent none none

  unfoldable pub reject_user_sessions :
      AuthSession → AuthEventType → ℕ → Option String → Option String → Exec L Unit
  unfolding revoke_sessions_for_user create_audit_log
  reject_user_sessions s event_type user_id ip_address user_agent = do
    revoked_at ← draw env.utcnow
    revoke_sessions_for_user user_id revoked_at
    create_audit_log env (some user_id) (some s.id) event_type ip_address user_agent none
        (some revoked_at)

  -- The body of the transaction of `logout`.
  unfoldable pub end_session : AuthSession → Option String → Option String → Exec L Unit
  unfolding revoke_session create_audit_log
  end_session s ip_address user_agent = do
    revoke_session env s.id
    create_audit_log env (some s.user_id) (some s.id) logout_event ip_address user_agent none none

  unfoldable pub log_out : Option AuthSession → Option String → Option String → Exec L Unit
  unfolding end_session
  log_out none ip_address user_agent = pure tt
  log_out (some s) ip_address user_agent = transaction (end_session s ip_address user_agent)

  unfoldable pub log_out_token : Option String → Option String → Option String → Exec L Unit
  unfolding log_out find_active_session_by_token_hash
  log_out_token none ip_address user_agent = pure tt
  log_out_token (some token) ip_address user_agent = do
    auth_session ← find_active_session_by_token_hash env (env.sha256 token)
    log_out auth_session ip_address user_agent

  unfoldable pub logout : Option String → Option String → Option String → Exec L Unit
  unfolding log_out_token truthy
  logout session_token ip_address user_agent =
      log_out_token (truthy session_token) ip_address user_agent

-- `touch_interval_seconds <= 0 or now - last_seen_at >= timedelta(seconds=...)`
abbrev pub is_due : AuthSettings → ℕ → AuthSession → Bool
is_due settings now s =
    effective_session_touch_interval_seconds settings == 0
    || leb (effective_session_touch_interval_seconds settings * 1000) (now - s.last_seen_at)

module _ (env : Env) (settings : AuthSettings) {L : Type 0} where
  unfoldable pub refresh_session : AuthSession → ℕ → Exec L AuthSession
  unfolding touch_session
  refresh_session s now =
      if is_due settings now s
      then touch_session s.id now (calculate_session_expiry settings s.issued_at now)
      else pure s

  unfoldable pub accept_session : AuthSession → User → Exec L (Option AuthenticatedSessionContext)
  unfolding refresh_session authorization_for_existing_user
  accept_session s user = do
    now ← draw env.utcnow
    refreshed_session ← refresh_session s now
    authorization ← authorization_for_existing_user user.id
    pure (
        some (record {
          user = user;
          session = refreshed_session;
          roles = authorization.roles;
          permissions = authorization.permissions;
        }))

  unfoldable pub authenticate_user :
      AuthSession
      → Option User
      → Option String
      → Option String
      → Exec L (Option AuthenticatedSessionContext)
  unfolding accept_session reject_session reject_user_sessions
  authenticate_user s none ip_address user_agent = do
    reject_session env s session_rejected none ip_address user_agent
    pure none
  authenticate_user s (some user) ip_address user_agent =
      if is_some user.deleted_at
      then (do
        reject_user_sessions env s session_revoked_deleted_user user.id ip_address user_agent
        pure none)
      else if not user.is_active
      then (do
        reject_user_sessions env s session_revoked_inactive_user user.id ip_address user_agent
        pure none)
      else accept_session s user

  unfoldable pub authenticate_found :
      String
      → Option AuthSession
      → Option String
      → Option String
      → Exec L (Option AuthenticatedSessionContext)
  unfolding authenticate_user audit_known_rejected_session find_user_by_id_for_authentication
  authenticate_found session_token_hash none ip_address user_agent = do
    audit_known_rejected_session env session_token_hash ip_address user_agent
    pure none
  authenticate_found session_token_hash (some s) ip_address user_agent = do
    user ← find_user_by_id_for_authentication s.user_id
    authenticate_user s user ip_address user_agent

  -- The body of the transaction.
  unfoldable pub authenticate_hash :
      String → Option String → Option String → Exec L (Option AuthenticatedSessionContext)
  unfolding authenticate_found find_active_session_by_token_hash
  authenticate_hash session_token_hash ip_address user_agent = do
    auth_session ← find_active_session_by_token_hash env session_token_hash
    authenticate_found session_token_hash auth_session ip_address user_agent

  unfoldable pub authenticate_token :
      Option String → Option String → Option String → Exec L (Option AuthenticatedSessionContext)
  unfolding authenticate_hash
  authenticate_token none ip_address user_agent = pure none
  authenticate_token (some token) ip_address user_agent =
      transaction (authenticate_hash (env.sha256 token) ip_address user_agent)

  unfoldable pub authenticate_session :
      Option String → Option String → Option String → Exec L (Option AuthenticatedSessionContext)
  unfolding authenticate_token truthy
  authenticate_session session_token ip_address user_agent =
      authenticate_token (truthy session_token) ip_address user_agent
