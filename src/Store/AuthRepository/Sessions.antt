-- ===== src/Store/AuthRepository/Sessions.antt =====
-- The sessions of backend/app/services/auth_repository.py.
pub mod Tables
use python_react_template.Prelude.{
  ℕ, ◌+◌, String, Bool, true, false, not, ◌&&◌, Option, none, some, List, [], ◌∷◌, ◌++◌, ◌==◌, ltb,
  any, find, keep, count_if, update_where, is_some, str_eq, if◌then◌else◌,
}
use python_react_template.Store.Rows.{AuthSession, AuthAuditLog, Db}
use python_react_template.Store.Inet.{process_bind_param}
use python_react_template.Store.Exec.{
  Env, Exec, World, ok, err, auth_session_not_found, integrity_error, pure, raise, query, draw,
  modify, raise_if, ◌>>=◌, ◌>>◌,
}

-- Not revoked and not expired: the last two conditions of `find_active_session_by_token_hash`.
abbrev pub is_active_at : ℕ → AuthSession → Bool
is_active_at now s = not (is_some s.revoked_at) && ltb now s.expires_at

-- The rows that `find_active_session_by_token_hash` selects.
unfoldable pub active_session : String → ℕ → List AuthSession → Option AuthSession
active_session token_hash now sessions =
    find (λ s. str_eq s.session_token_hash token_hash && is_active_at now s) sessions

-- `session.get(AuthSession, session_id)`
unfoldable pub get_session : ℕ → List AuthSession → Option AuthSession
get_session session_id sessions = find (λ s. s.id == session_id) sessions

abbrev pub set_session : ℕ → (AuthSession → AuthSession) → Db → Db
set_session session_id f db = record db {
  sessions = update_where (λ s. s.id == session_id) f db.sessions;
}

module _ {L : Type 0} where
  unfoldable pub found_session : ℕ → Option AuthSession → Exec L AuthSession
  found_session session_id none = raise (auth_session_not_found session_id)
  found_session session_id (some s) = pure s

  unfoldable pub update_session_csrf_token_hash : ℕ → String → Exec L AuthSession
  unfolding found_session
  update_session_csrf_token_hash session_id csrf_token_hash = do
    s ← found_session session_id (← query (λ db. get_session session_id db.sessions))
    modify (set_session session_id (λ r. record r { csrf_token_hash = csrf_token_hash }))
    pure (record s { csrf_token_hash = csrf_token_hash })

  unfoldable pub touch_session : ℕ → ℕ → ℕ → Exec L AuthSession
  unfolding found_session
  touch_session session_id last_seen_at expires_at = do
    s ← found_session session_id (← query (λ db. get_session session_id db.sessions))
    modify (
        set_session session_id
          (λ r. record r { last_seen_at = last_seen_at; expires_at = expires_at }))
    pure (record s { last_seen_at = last_seen_at; expires_at = expires_at })

module _ (env : Env) {L : Type 0} where
  -- The unique index on `session_token_hash` refuses a second row with the hash.
  unfoldable pub create_session :
      ℕ → String → String → ℕ → ℕ → ℕ → Option String → Option String → Exec L AuthSession
  create_session user_id session_token_hash csrf_token_hash issued_at last_seen_at expires_at
        ip_address user_agent =
      do
        id ← draw env.uuid4
        let auth_session : AuthSession = record {
          id = id;
          user_id = user_id;
          session_token_hash = session_token_hash;
          csrf_token_hash = csrf_token_hash;
          issued_at = issued_at;
          last_seen_at = last_seen_at;
          expires_at = expires_at;
          revoked_at = none;
          last_oidc_authenticated_at = none;
          ip_address = process_bind_param env ip_address;
          user_agent = user_agent;
        }
        raise_if
            (← query (λ db.
              any (λ (s : AuthSession). str_eq s.session_token_hash session_token_hash)
                db.sessions))
            integrity_error
        modify (λ db. record db { sessions = db.sessions ++ auth_session ∷ [] })
        pure auth_session

  unfoldable pub find_active_session_by_token_hash : String → Exec L (Option AuthSession)
  find_active_session_by_token_hash token_hash = do
    now ← draw env.utcnow
    query (λ db. active_session token_hash now db.sessions)

  unfoldable pub find_session_by_token_hash : String → Exec L (Option AuthSession)
  find_session_by_token_hash token_hash =
      query λ db. find (λ s. str_eq s.session_token_hash token_hash) db.sessions

  -- The write of `revoke_session`, if the row was found.
  unfoldable pub revoke_found : ℕ → Option AuthSession → Exec L Unit
  revoke_found session_id none = pure tt
  revoke_found session_id (some s) = do
    revoked_at ← draw env.utcnow
    modify (set_session session_id (λ r. record r { revoked_at = some revoked_at }))

  unfoldable pub revoke_session : ℕ → Exec L Unit
  unfolding revoke_found
  revoke_session session_id = do
    revoke_found session_id (← query (λ db. get_session session_id db.sessions))

-- The rows that `revoke_sessions_for_user` changes.
abbrev pub is_unrevoked_of : ℕ → AuthSession → Bool
is_unrevoked_of user_id s = s.user_id == user_id && not (is_some s.revoked_at)

-- The foreign key of the audit logs is set to null with the row (`ondelete="SET NULL"`).
unfoldable pub forget_session : List AuthSession → AuthAuditLog → AuthAuditLog
forget_session [] log = log
forget_session (s ∷ gone) log =
    let log' : AuthAuditLog = forget_session gone log in
    elim log'.session_id [
      | none ↦ log'
      | some i ↦ if i == s.id then record log' { session_id = none } else log'
    ]

module _ {L : Type 0} where
  unfoldable pub revoke_sessions_for_user : ℕ → ℕ → Exec L ℕ
  revoke_sessions_for_user user_id revoked_at = do
    changed ← query (λ db. count_if (is_unrevoked_of user_id) db.sessions)
    modify (λ db. record db {
      sessions =
          update_where (is_unrevoked_of user_id) (λ s. record s { revoked_at = some revoked_at })
            db.sessions;
    })
    pure changed

  unfoldable pub delete_sessions_expired_before : ℕ → Exec L ℕ
  unfolding forget_session
  delete_sessions_expired_before expired_before = do
    let old = λ (s : AuthSession). ltb s.expires_at expired_before
    removed ← query (λ db. count_if old db.sessions)
    modify (λ db. record db {
      sessions = keep (λ s. not (old s)) db.sessions;
      audit_logs = update_where (λ _. true) (forget_session (keep old db.sessions)) db.audit_logs;
    })
    pure removed
