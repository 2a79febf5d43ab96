-- ===== src/Store/AuthRepository/Users.antt =====
-- The users of backend/app/services/auth_repository.py. A query by a unique index finds one row
-- at most, the first; the index on `lower(email)` is checked where a row is added.
pub mod Tables
use python_react_template.Prelude.{
  ℕ, ◌+◌, String, Bool, true, false, not, ◌&&◌, Option, none, some, List, [], ◌∷◌, ◌++◌, ◌==◌, any,
  find, count_if, update_where, is_some, str_eq, if◌then◌else◌,
}
use python_react_template.Store.Rows.{
  User, AuthAuditLog, AuthSession, LanguageCode, Db, user_marked_deleted,
}
use python_react_template.Store.Inet.{process_bind_param}
use python_react_template.Store.Exec.{
  Env, Exec, World, Result, ok, err, email_already_registered, user_not_found, pure, raise, query,
  draw, modify, raise_if, ◌>>=◌, ◌>>◌,
}

-- `deleted_at IS NULL`
abbrev pub is_present : User → Bool
is_present u = not (is_some u.deleted_at)

-- `session.get(User, user_id)`
unfoldable pub get_user : ℕ → List User → Option User
get_user user_id users = find (λ u. u.id == user_id) users

abbrev pub set_user : ℕ → (User → User) → Db → Db
set_user user_id f db = record db { users = update_where (λ u. u.id == user_id) f db.users }

unfoldable pub deletion_log : ℕ → ℕ → Option ℕ → Option String → ℕ → AuthAuditLog
deletion_log id user_id session_id ip_address deleted_at = record {
  id = id;
  user_id = some user_id;
  session_id = session_id;
  event_type = user_marked_deleted;
  ip_address = ip_address;
  user_agent = none;
  detail_json = none;
  occurred_at = deleted_at;
}

module _ {L : Type 0} where
  -- The user, unless the row is gone or marked deleted.
  unfoldable pub live_user : ℕ → Option User → Exec L User
  live_user user_id none = raise (user_not_found user_id)
  live_user user_id (some u) =
      if is_some u.deleted_at then raise (user_not_found user_id) else pure u

  unfoldable pub update_user_language : ℕ → LanguageCode → ℕ → Exec L User
  unfolding live_user get_user
  update_user_language user_id language_code modified_at = do
    u ← live_user user_id (← query (λ db. get_user user_id db.users))
    let changed : User = record u { language_code = language_code; modified_at = modified_at }
    modify (
        set_user user_id
          (λ r. record r { language_code = language_code; modified_at = modified_at }))
    pure changed

  -- Deleted and inactive users too.
  unfoldable pub find_user_by_id_for_authentication : ℕ → Exec L (Option User)
  unfolding get_user
  find_user_by_id_for_authentication user_id = query λ db. get_user user_id db.users

  unfoldable pub record_user_login : ℕ → ℕ → Exec L User
  unfolding live_user get_user
  record_user_login user_id login_at = do
    u ← live_user user_id (← query (λ db. get_user user_id db.users))
    modify (set_user user_id (λ r. record r { last_logged_in_at = some login_at }))
    pure (record u { last_logged_in_at = some login_at })

  unfoldable pub found_user : ℕ → Option User → Exec L User
  found_user user_id none = raise (user_not_found user_id)
  found_user user_id (some u) = pure u

module _ (env : Env) where
  -- The rows that `uq_users_email_lower_active` holds against an email.
  abbrev pub has_email : String → User → Bool
  has_email email u = str_eq (env.sql_lower u.email) (env.sql_lower email) && is_present u

  abbrev pub email_taken : String → Db → Bool
  email_taken email db = any (has_email email) db.users

  module _ {L : Type 0} where
    unfoldable pub create_user : String → Option String → LanguageCode → Exec L User
    create_user email password_hash language_code = do
      id ← draw env.uuid4
      registered_at ← draw env.utcnow
      modified_at ← draw env.utcnow
      let user : User = record {
        id = id;
        email = email;
        password_hash = password_hash;
        is_active = true;
        language_code = language_code;
        registered_at = registered_at;
        modified_at = modified_at;
        last_logged_in_at = none;
        deleted_at = none;
      }
      raise_if (← query (email_taken email)) email_already_registered
      modify (λ db. record db { users = db.users ++ user ∷ [] })
      pure user

    unfoldable pub find_user_by_email : String → Exec L (Option User)
    find_user_by_email normalized_email =
        query
          λ db. find (λ u. str_eq (env.sql_lower u.email) normalized_email && is_present u) db.users

    unfoldable pub find_user_by_verified_email_for_oidc_link : String → Exec L (Option User)
    find_user_by_verified_email_for_oidc_link email =
        let normalized_email = env.lower (env.strip email) in
        query λ db.
          find (λ u. str_eq (env.sql_lower u.email) normalized_email && is_present u && u.is_active)
            db.users

    unfoldable pub find_user_by_email_for_oidc_collision : String → Exec L (Option User)
    find_user_by_email_for_oidc_collision email =
        let normalized_email = env.lower (env.strip email) in
        query
          λ db. find (λ u. str_eq (env.sql_lower u.email) normalized_email && is_present u) db.users

    -- The part of `mark_user_deleted` behind its first statement, by the number of rows changed.
    unfoldable pub after_update : ℕ → ℕ → ℕ → Option ℕ → Option String → Exec L User
    unfolding deletion_log found_user get_user
    after_update changed user_id deleted_at session_id ip_address =
        if changed == 0
        then (do found_user user_id (← query (λ db. get_user user_id db.users)))
        else (do
          id ← draw env.uuid4
          modify (λ db. record db {
            audit_logs =
                db.audit_logs
                ++ deletion_log id user_id session_id (process_bind_param env ip_address) deleted_at
                  ∷ [];
          })
          found_user user_id (← query (λ db. get_user user_id db.users)))

    unfoldable pub mark_user_deleted : ℕ → ℕ → Option ℕ → Option String → Exec L User
    unfolding after_update
    mark_user_deleted user_id deleted_at session_id ip_address = do
      let marked = λ (u : User). u.id == user_id && is_present u
      changed ← query (λ db. count_if marked db.users)
      modify (λ db. record db {
        users =
            update_where marked
              (λ u. record u { deleted_at = some deleted_at; modified_at = deleted_at }) db.users;
      })
      after_update changed user_id deleted_at session_id ip_address
