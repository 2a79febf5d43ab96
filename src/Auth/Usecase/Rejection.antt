-- ===== src/Auth/Usecase/Rejection.antt =====
-- Deleted and inactive users at `authenticate_session`.
use python_react_template.Prelude.{
  ◌&&◌, any, keep, not, ℕ, ◌+◌, ◌≡◌, ap, ◌∙◌, arith, String, Bool, true, false, ◌||◌, Option, none,
  some, List, is_some, ◌==◌, update_where,
}
use python_react_template.Store.Rows.{User, AuthSession, Db}
use python_react_template.Store.Exec.{Env, World, ok}
use python_react_template.Store.Exec.Laws.{transaction-runs}
use python_react_template.Store.AuthRepository.Users.{get_user}
use python_react_template.Store.AuthRepository.Sessions.{
  active_session, is_unrevoked_of, is_active_at,
}
use python_react_template.Store.AuthRepository.Sessions.Tables.{any-revoke_user, keep-revoke_user}
use python_react_template.Auth.Settings.{AuthSettings, truthy}
use python_react_template.Auth.Usecase.Session.{
  authenticate_session, authenticate_token, authenticate_hash, authenticate_found,
  authenticate_user, reject_user_sessions,
}

-- All sessions of the user are revoked at a time.
abbrev pub revoked_for : ℕ → ℕ → List AuthSession → List AuthSession
revoked_for user_id t sessions =
    update_where (is_unrevoked_of user_id) (λ r. record r { revoked_at = some t }) sessions

module _ (env : Env) (settings : AuthSettings) {L : Type 0} where
  authenticate_hash-refused :
      (h : String) (ip ua : Option String) (w : World L) (s : AuthSession) (u : User)
      → active_session h (env.utcnow w.calls) w.db.sessions ≡ some s
      → get_user s.user_id w.db.users ≡ some u
      → (is_some u.deleted_at || not u.is_active) ≡ true
      → ((authenticate_hash env settings h ip ua w).0 ≡ ok none)
        × ((authenticate_hash env settings h ip ua w).1.db.sessions
            ≡ revoked_for u.id (env.utcnow (w.calls + 1)) w.db.sessions)
  unfolding authenticate_hash authenticate_found authenticate_user reject_user_sessions
  authenticate_hash-refused h ip ua w s u active user refused = (ground arith, ground arith)

  -- A deleted or inactive user who presents a token of an active session is turned away. Then no
  -- session of that user is active, at any time, and the sessions of other users are what they were.
  pub authenticate_session-rejects :
      (session_token ip_address user_agent : Option String) (w : World L) (later : ℕ)
      {token : String} {s : AuthSession} {u : User}
      → truthy session_token ≡ some token
      → active_session (env.sha256 token) (env.utcnow w.calls) w.db.sessions ≡ some s
      → get_user s.user_id w.db.users ≡ some u
      → (is_some u.deleted_at || not u.is_active) ≡ true
      → let (result, w') =
          authenticate_session env settings session_token ip_address user_agent w in
        (result ≡ ok none)
        × (any (λ r. r.user_id == u.id && is_active_at later r) w'.db.sessions ≡ false)
        × (keep (λ r. not (r.user_id == u.id)) w'.db.sessions
            ≡ keep (λ r. not (r.user_id == u.id)) w.db.sessions)
  unfolding authenticate_session authenticate_token
  authenticate_session-rejects t ip ua w later {token} {s} {u} present active user refused =
      let m = authenticate_hash env settings (env.sha256 token) ip ua in
      let body = λ (t' : Bool).
        authenticate_hash-refused (env.sha256 token) ip ua (record w { in_transaction = t' }) s u
          active user refused in
      let (t', done, same) = transaction-runs m w (λ t'. (body t').0) in
      let sessions = ap (λ (d : Db). d.sessions) same ∙ (body t').1 in
      let at = env.utcnow (w.calls + 1) in
      rw (present, authenticate_token)
        (
          done,
          ap (any (λ r. r.user_id == u.id && is_active_at later r)) sessions
              ∙ any-revoke_user u.id at later w.db.sessions,
          ap (keep (λ r. not (r.user_id == u.id))) sessions
              ∙ keep-revoke_user u.id at w.db.sessions,
        )
