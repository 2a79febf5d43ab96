-- ===== src/Auth/Usecase/Completeness.antt =====
-- Who is not turned away: `authenticate_session` of a session that is active, and after `login`.
use python_react_template.Prelude.{
  ℕ, ◌+◌, ◌≡◌, refl, inl, inr, arith, String, true, Option, none, some, List, if◌then◌else◌,
  Option-cases,
}
use python_react_template.Store.Rows.{User, AuthSession, UserRole}
use python_react_template.Store.Exec.{Env, World, ok}
use python_react_template.Store.Exec.Laws.{transaction-runs}
use python_react_template.Store.AuthRepository.Users.{get_user}
use python_react_template.Store.AuthRepository.Sessions.{active_session, get_session}
use python_react_template.Store.AuthRepository.Sessions.Tables.{get_session-active, id-get_session}
use python_react_template.Store.AuthorizationRepository.{role_codes_for_user}
use python_react_template.Auth.Settings.{AuthSettings, truthy}
use python_react_template.Auth.Authorization.{resolve_user_authorization}
use python_react_template.Auth.Issuer.{calculate_session_expiry}
use python_react_template.Auth.Usecase.Context.{AuthenticatedSessionContext}
use python_react_template.Auth.Usecase.Session.{
  authenticate_session, authenticate_token, authenticate_hash, authenticate_found,
  authenticate_user, accept_session, refresh_session, is_due,
}

module _ (env : Env) (settings : AuthSettings) where
  -- What the user of a session `s` is let in with; `r` is the first row of the session's id.
  abbrev pub context_of :
      AuthSession → AuthSession → User → ℕ → List UserRole → AuthenticatedSessionContext
  context_of s r user now roles =
      let authorization = resolve_user_authorization user.id (role_codes_for_user user.id roles) in
      record {
        user = user;
        session =
            if is_due settings now s
            then record r {
              last_seen_at = now;
              expires_at = calculate_session_expiry settings s.issued_at now;
            }
            else s;
        roles = authorization.roles;
        permissions = authorization.permissions;
      }

  module _ {L : Type 0} where
    accept_session-ok :
        (s r : AuthSession) (u : User) (w : World L)
        → get_session s.id w.db.sessions ≡ some r
        → (accept_session env settings s u w).0
          ≡ ok (some (context_of s r u (env.utcnow w.calls) w.db.roles))
    unfolding accept_session refresh_session
    accept_session-ok s r u w there = ground arith

    authenticate_hash-ok :
        (h : String) (ip ua : Option String) (w : World L) (s r : AuthSession) (u : User)
        → active_session h (env.utcnow w.calls) w.db.sessions ≡ some s
        → get_session s.id w.db.sessions ≡ some r
        → get_user s.user_id w.db.users ≡ some u
        → u.deleted_at ≡ none
        → u.is_active ≡ true
        → (authenticate_hash env settings h ip ua w).0
          ≡ ok (some (context_of s r u (env.utcnow (w.calls + 1)) w.db.roles))
    unfolding authenticate_hash authenticate_found authenticate_user
    authenticate_hash-ok h ip ua w s r u active there user kept on =
        ground (arith, accept_session-ok s r u (record w { calls = w.calls + 1 }) there)

    pub authenticate_session_complete :
        (session_token ip_address user_agent : Option String) (w : World L) {token : String}
        {s : AuthSession} {u : User}
        → truthy session_token ≡ some token
        → active_session (env.sha256 token) (env.utcnow w.calls) w.db.sessions ≡ some s
        → get_user s.user_id w.db.users ≡ some u
        → u.deleted_at ≡ none
        → u.is_active ≡ true
        → (ctx : AuthenticatedSessionContext) × ((authenticate_session env settings session_token
              ip_address user_agent w).0
            ≡ ok (some ctx))
          × (ctx.user ≡ u)
          × (ctx.session.id ≡ s.id)
          × (ctx.roles
              ≡ (resolve_user_authorization u.id (role_codes_for_user u.id w.db.roles)).roles)
          × (ctx.permissions
              ≡ (resolve_user_authorization u.id (role_codes_for_user u.id w.db.roles)).permissions)
    unfolding authenticate_session authenticate_token
    authenticate_session_complete t ip ua w {token} {s} {u} present active user kept on =
        elim (Option-cases (get_session s.id w.db.sessions)) [
          | inl gone ↦
              absurd (
                get_session-active (env.sha256 token) (env.utcnow w.calls) w.db.sessions active
                  gone)
          | inr (r, there) ↦
              let m = authenticate_hash env settings (env.sha256 token) ip ua in
              let (_, done, _) = transaction-runs m w λ t'.
                authenticate_hash-ok (env.sha256 token) ip ua (record w { in_transaction = t' }) s r
                  u active there user kept on in
              (
                context_of s r u (env.utcnow (w.calls + 1)) w.db.roles,
                rw (present, authenticate_token) done,
                refl,
                ground (arith, id-get_session s.id w.db.sessions there),
                refl,
                refl,
              )
        ]
