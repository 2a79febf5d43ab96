-- ===== src/Auth/Issuer.antt =====
-- backend/app/libraries/auth_session_issuer.py and session_tokens.py
use python_react_template.Prelude.{ℕ, ◌+◌, ◌*◌, min, String, Option, none, some}
use python_react_template.Store.Rows.{User, AuthSession}
use python_react_template.Store.Exec.{Env, Exec, pure, draw, ◌>>=◌, ◌>>◌}
use python_react_template.Store.AuthRepository.Sessions.{
  find_active_session_by_token_hash, revoke_session, create_session,
}
use python_react_template.Auth.Settings.{AuthSettings, truthy}

-- In milliseconds.
unfoldable pub calculate_session_expiry : AuthSettings → ℕ → ℕ → ℕ
calculate_session_expiry settings issued_at last_seen_at =
    min (issued_at + settings.session_absolute_ttl_seconds * 1000)
      (last_seen_at + settings.session_idle_ttl_seconds * 1000)

module _ (env : Env) {L : Type 0} where
  unfoldable pub revoke_existing : Option AuthSession → Exec L Unit
  revoke_existing none = pure tt
  revoke_existing (some s) = revoke_session env s.id

  -- The first statement of `replace_auth_session`, of a token that is not empty.
  unfoldable pub revoke_current : Option String → Exec L Unit
  unfolding revoke_existing
  revoke_current none = pure tt
  revoke_current (some token) = do
    revoke_existing (← find_active_session_by_token_hash env (env.sha256 token))

  -- The statements of `replace_auth_session` behind the first.
  unfoldable pub issue_session :
      AuthSettings → ℕ → Option String → Option String → Exec L (AuthSession × String × String)
  issue_session settings user_id ip_address user_agent = do
    session_token ← draw env.token_urlsafe
    csrf_token ← draw env.token_urlsafe
    issued_at ← draw env.utcnow
    let expires_at = calculate_session_expiry settings issued_at issued_at
    session ←
        create_session env user_id (env.sha256 session_token) (env.sha256 csrf_token) issued_at
          issued_at expires_at ip_address user_agent
    pure (session, session_token, csrf_token)

  unfoldable pub replace_auth_session :
      AuthSettings
      → User
      → Option String
      → Option String
      → Option String
      → Exec L (AuthSession × String × String)
  unfolding revoke_current truthy issue_session
  replace_auth_session settings user current_session_token ip_address user_agent = do
    revoke_current (truthy current_session_token)
    issue_session settings user.id ip_address user_agent
