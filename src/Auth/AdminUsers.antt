-- ===== src/Auth/AdminUsers.antt =====
-- `AdminUserUsecase` of backend/app/usecases/admin_user_usecase.py, but for `update_user`.
pub mod Changes
pub mod Deletion
pub mod Atomicity
pub mod Frame
pub mod Update
mod Tests
use python_react_template.Prelude.{
  ℕ, String, Bool, true, false, not, ◌&&◌, ◌||◌, Option, none, some, List, [], ◌∷◌, map, keep,
  contains, dedupe, sorted, set_minus, if◌then◌else◌,
}
use python_react_template.Store.Rows.{
  User, user_created_by_admin, user_updated_by_admin, user_deleted_by_admin, Detail, admin,
}
use python_react_template.Store.Exec.{
  Env, Exec, World, Result, ok, err, user_not_found, role_not_found, weak_password, value_error,
  pure, raise, raise_if, draw, transaction, ◌>>=◌, ◌>>◌,
}
use python_react_template.Store.AuthRepository.Sessions.{revoke_sessions_for_user}
use python_react_template.Store.AuthRepository.AuditLogs.{create_audit_log}
use python_react_template.Store.AuthorizationRepository.{get_user_role_codes, is_empty}
use python_react_template.Store.AdminUserRepository as Repository
use python_react_template.Store.AdminUserRepository.{
  AdminUserListQuery, AdminUserRecord, AdminUserDetail, AdminUserUpdateChanges,
  AdminOffsetPageRequest, AdminOffsetPageResult,
}
use python_react_template.Auth.Settings.{validate_password_policy}
use python_react_template.Auth.Authorization.{UserAuthorization, resolve_user_authorization}
use python_react_template.Auth.AccountDeletion.{erase_user}
use python_react_template.Auth.RoleAssignment.{known_codes, replace_for}
use python_react_template.Auth.Usecase.Context.{AuthenticatedSessionContext}

-- `_audit_fields`
unfoldable pub audit_fields : List String → List String
unfolding keep contains
audit_fields fields_set =
    keep (λ field. contains field fields_set) ("email" ∷ "password" ∷ "is_active" ∷ "roles" ∷ [])

-- `_known_role_codes`
unfoldable pub known_role_codes : ℕ → List String → List String
unfolding resolve_user_authorization sorted
known_role_codes user_id role_codes = sorted (resolve_user_authorization user_id role_codes).roles

unfoldable pub with_known_roles : AdminUserRecord → AdminUserRecord
unfolding known_role_codes
with_known_roles r = record { user = r.user; roles = known_role_codes r.user.id r.roles }

-- The role of a query, if it has one.
abbrev pub asked_roles : Option String → List String
asked_roles none = []
asked_roles (some role) = role ∷ []

module _ {L : Type 0} where
  -- `_validate_roles`
  unfoldable pub validate_roles : List String → Exec L Unit
  unfolding set_minus
  validate_roles role_codes = do
    let missing_role_codes = set_minus role_codes known_codes
    raise_if (not (is_empty missing_role_codes)) (role_not_found missing_role_codes)

  -- `_normalize_and_validate_roles`
  unfoldable pub normalize_and_validate_roles : List String → Exec L (List String)
  unfolding validate_roles dedupe
  normalize_and_validate_roles role_codes = do
    let normalized = dedupe role_codes
    validate_roles normalized
    pure normalized

  -- `_detail_for_user`
  unfoldable pub detail_for_user : User → Exec L AdminUserDetail
  unfolding get_user_role_codes
  detail_for_user user = do
    role_codes ← get_user_role_codes user.id
    let authorization = resolve_user_authorization user.id role_codes
    pure (record {
      user = user;
      roles = sorted authorization.roles;
      permissions = sorted authorization.permissions;
    })

  -- `if user is None: raise UserNotFoundError(user_id)`
  unfoldable pub require_user : ℕ → Option User → Exec L User
  require_user user_id none = raise (user_not_found user_id)
  require_user user_id (some u) = pure u

  unfoldable pub get_user : ℕ → Exec L AdminUserDetail
  unfolding require_user detail_for_user
  get_user user_id = do
    user ← require_user user_id (← Repository.get_user user_id)
    detail_for_user user

  unfoldable pub list_users :
      Env → (String → String → Bool) → AdminUserListQuery → ℕ → ℕ → Exec L AdminOffsetPageResult
  unfolding validate_roles with_known_roles
  list_users env like query offset limit = do
    validate_roles (asked_roles query.role)
    result ← Repository.list_users env like query (record { offset = offset; limit = limit })
    pure (record result { items = map with_known_roles result.items })

module _ (env : Env) {L : Type 0} where
  -- `_hash_valid_password`
  unfoldable pub hash_valid_password : String → Exec L String
  unfolding validate_password_policy
  hash_valid_password password = do
    raise_if (not (validate_password_policy password)) weak_password
    draw (λ n. env.hash_password n password)

  -- `_replace_roles_with_audit`: the statements of `AuthorizationUsecase.replace_user_roles`.
  unfoldable pub replace_roles_with_audit :
      AuthenticatedSessionContext → ℕ → List String → Option String → Option String → Exec L Unit
  unfolding replace_for
  replace_roles_with_audit actor target_user_id role_codes ip_address user_agent = do
    replace_for env actor target_user_id role_codes ip_address user_agent
    pure tt

  -- The body of `create_user`'s transaction.
  unfoldable pub create_with_roles :
      AuthenticatedSessionContext
      → String
      → String
      → Bool
      → List String
      → Option String
      → Option String
      → Exec L AdminUserDetail
  unfolding create_audit_log replace_roles_with_audit detail_for_user
  create_with_roles actor email password_hash is_active role_codes ip_address user_agent = do
    user ← Repository.create_user env email password_hash is_active
    create_audit_log env (some actor.user.id) (some actor.session.id) user_created_by_admin
        ip_address user_agent
        (some
          (admin actor.user.id user.id (some ("email" ∷ "password" ∷ "is_active" ∷ "roles" ∷ []))))
        none
    replace_roles_with_audit actor user.id role_codes ip_address user_agent
    detail_for_user user

  unfoldable pub create_user :
      AuthenticatedSessionContext
      → String
      → String
      → Bool
      → List String
      → Option String
      → Option String
      → Exec L AdminUserDetail
  unfolding normalize_and_validate_roles hash_valid_password create_with_roles
  create_user actor email password is_active role_codes ip_address user_agent = do
    let normalized_email = env.lower (env.strip email)
    normalized_roles ← normalize_and_validate_roles role_codes
    password_hash ← hash_valid_password password
    transaction (
        create_with_roles actor normalized_email password_hash is_active normalized_roles ip_address
          user_agent)

  -- The body of `delete_user`'s transaction: the statements of an account deletion, and a log.
  unfoldable pub erase_with_audit :
      AuthenticatedSessionContext → ℕ → ℕ → Option String → Option String → Exec L Unit
  unfolding erase_user create_audit_log
  erase_with_audit actor user_id deleted_at ip_address user_agent = do
    erase_user env user_id deleted_at actor.session.id ip_address
    create_audit_log env (some actor.user.id) (some actor.session.id) user_deleted_by_admin
        ip_address user_agent (some (admin actor.user.id user_id none)) none

  -- The statements behind the test of the user.
  unfoldable pub delete_found :
      AuthenticatedSessionContext → Option String → Option String → User → Exec L Unit
  unfolding erase_with_audit
  delete_found actor ip_address user_agent user = do
    deleted_at ← draw env.utcnow
    transaction (erase_with_audit actor user.id deleted_at ip_address user_agent)

  unfoldable pub delete_user :
      AuthenticatedSessionContext → ℕ → Option String → Option String → Exec L Unit
  unfolding require_user delete_found
  delete_user actor user_id ip_address user_agent = do
    user ← require_user user_id (← Repository.get_user user_id)
    delete_found actor ip_address user_agent user
