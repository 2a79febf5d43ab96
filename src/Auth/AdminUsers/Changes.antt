-- ===== src/Auth/AdminUsers/Changes.antt =====
-- `update_user` of backend/app/usecases/admin_user_usecase.py.
use python_react_template.Prelude.{
  ℕ, String, Bool, true, false, not, ◌&&◌, ◌||◌, Option, none, some, List, contains, if◌then◌else◌,
}
use python_react_template.Store.Rows.{user_updated_by_admin, admin}
use python_react_template.Store.Exec.{
  Env, Exec, value_error, pure, raise, draw, transaction, ◌>>=◌, ◌>>◌,
}
use python_react_template.Store.AuthRepository.Sessions.{revoke_sessions_for_user}
use python_react_template.Store.AuthRepository.AuditLogs.{create_audit_log}
use python_react_template.Store.AuthorizationRepository.{is_empty}
use python_react_template.Store.AdminUserRepository as Repository
use python_react_template.Store.AdminUserRepository.{AdminUserDetail, AdminUserUpdateChanges}
use python_react_template.Auth.Usecase.Context.{AuthenticatedSessionContext}
use python_react_template.Auth.AdminUsers.{
  audit_fields, normalize_and_validate_roles, detail_for_user, get_user, hash_valid_password,
  replace_roles_with_audit,
}

-- The email of the normalized changes.
unfoldable pub normalized_email : Env → Option String → Option String
normalized_email env none = none
normalized_email env (some email) = some (env.lower (env.strip email))

-- A new password, or an activity set to `False`.
unfoldable pub ends_sessions : AdminUserUpdateChanges → Bool
ends_sessions changes =
    contains "password" changes.fields_set
    || (contains "is_active" changes.fields_set
        && (elim changes.is_active [ none ↦ false | some is_active ↦ not is_active ]))

module _ (env : Env) {L : Type 0} where
  -- The roles of a change, normalized, if it is of roles; `None` is refused.
  unfoldable pub changed_roles : AdminUserUpdateChanges → Exec L (Option (List String))
  unfolding normalize_and_validate_roles
  changed_roles changes =
      if contains "roles" changes.fields_set
      then (elim changes.roles [
        | none ↦ raise value_error
        | some role_codes ↦ do
          normalized ← normalize_and_validate_roles role_codes
          pure (some normalized)
      ])
      else pure none

  -- The hash of a change's password, if it is of the password; `None` is refused.
  unfoldable pub changed_password : AdminUserUpdateChanges → Exec L (Option String)
  unfolding hash_valid_password
  changed_password changes =
      if contains "password" changes.fields_set
      then (elim changes.password [
        | none ↦ raise value_error
        | some password ↦ do hash ← hash_valid_password env password; pure (some hash)
      ])
      else pure none

  unfoldable pub replace_some_roles :
      AuthenticatedSessionContext
      → ℕ
      → Option (List String)
      → Option String
      → Option String
      → Exec L Unit
  unfolding replace_roles_with_audit
  replace_some_roles actor user_id none ip_address user_agent = pure tt
  replace_some_roles actor user_id (some role_codes) ip_address user_agent =
      replace_roles_with_audit env actor user_id role_codes ip_address user_agent

  unfoldable pub end_sessions : Bool → ℕ → ℕ → Exec L Unit
  unfolding revoke_sessions_for_user
  end_sessions false user_id revoked_at = pure tt
  end_sessions true user_id revoked_at = do revoke_sessions_for_user user_id revoked_at; pure tt

  -- The body of `update_user`'s transaction.
  unfoldable pub update_with_roles :
      AuthenticatedSessionContext
      → ℕ
      → AdminUserUpdateChanges
      → Option String
      → Option (List String)
      → ℕ
      → Option String
      → Option String
      → Exec L AdminUserDetail
  unfolding create_audit_log replace_some_roles end_sessions ends_sessions audit_fields
      detail_for_user
  update_with_roles actor user_id changes password_hash normalized_roles revoked_at ip_address
        user_agent =
      do
        user ←
            Repository.update_user env user_id
              (record changes {
                email = normalized_email env changes.email;
                roles = normalized_roles;
              })
              password_hash
        replace_some_roles actor user.id normalized_roles ip_address user_agent
        end_sessions (ends_sessions changes) user.id revoked_at
        create_audit_log env (some actor.user.id) (some actor.session.id) user_updated_by_admin
            ip_address user_agent
            (some (admin actor.user.id user.id (some (audit_fields changes.fields_set)))) none
        detail_for_user user

  -- The statements of `update_user` where some field is set.
  unfoldable pub update_some :
      AuthenticatedSessionContext
      → ℕ
      → AdminUserUpdateChanges
      → Option String
      → Option String
      → Exec L AdminUserDetail
  unfolding changed_roles changed_password update_with_roles normalized_email
  update_some actor user_id changes ip_address user_agent = do
    normalized_roles ← changed_roles changes
    password_hash ← changed_password changes
    revoked_at ← draw env.utcnow
    transaction (
        update_with_roles actor user_id changes password_hash normalized_roles revoked_at ip_address
          user_agent)

  unfoldable pub update_user :
      AuthenticatedSessionContext
      → ℕ
      → AdminUserUpdateChanges
      → Option String
      → Option String
      → Exec L AdminUserDetail
  unfolding update_some get_user
  update_user actor user_id changes ip_address user_agent =
      if is_empty changes.fields_set
      then get_user user_id
      else update_some actor user_id changes ip_address user_agent
