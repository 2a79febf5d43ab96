-- ===== src/Auth/RoleAssignment.antt =====
-- `AuthorizationUsecase` of backend/app/usecases/authorization_usecase.py, but for its two listings
-- of the catalog, and `role_audit_detail` of authorization_audit.py.
pub mod Outcome
mod Tests
use python_react_template.Prelude.{
  ℕ, String, Bool, true, false, not, Option, none, some, List, [], ◌∷◌, is_some, dedupe, map,
  set_minus, if◌then◌else◌,
}
use python_react_template.Store.Rows.{User, AuthEventType, role_granted, role_revoked, Detail, role}
use python_react_template.Store.Exec.{
  authorization_user_not_found, role_not_found, Env, Exec, World, pure, raise, raise_if, draw,
  transaction, ◌>>=◌, ◌>>◌,
}
use python_react_template.Store.AuthRepository.Users.{find_user_by_id_for_authentication}
use python_react_template.Store.AuthRepository.AuditLogs.{create_audit_log}
use python_react_template.Store.AuthorizationRepository as Repository
use python_react_template.Store.AuthorizationRepository.{
  UserRoleReplacementResult, get_user_role_codes, is_empty,
}
use python_react_template.Auth.Authorization.{
  UserAuthorization, default_authorization_definitions, RoleDefinition, resolve_user_authorization,
}
use python_react_template.Auth.Usecase.Context.{AuthenticatedSessionContext}

module _ {L : Type 0} where
  -- `if user is None or user.deleted_at is not None: raise ...`
  unfoldable pub require_live : ℕ → Option User → Exec L Unit
  require_live user_id none = raise (authorization_user_not_found user_id)
  require_live user_id (some u) =
      raise_if (is_some u.deleted_at) (authorization_user_not_found user_id)

  unfoldable pub get_user_authorization : ℕ → Exec L UserAuthorization
  unfolding require_live find_user_by_id_for_authentication get_user_role_codes
  get_user_authorization user_id = do
    require_live user_id (← find_user_by_id_for_authentication user_id)
    role_codes ← get_user_role_codes user_id
    pure (resolve_user_authorization user_id role_codes)

-- The codes of `role_catalog_by_code()`.
abbrev pub known_codes : List String
known_codes = map (λ (r : RoleDefinition). r.code) default_authorization_definitions

module _ (env : Env) {L : Type 0} where
  -- `_record_role_audit` for each code in turn.
  unfoldable pub record_role_audits :
      AuthenticatedSessionContext
      → ℕ
      → AuthEventType
      → List String
      → Option String
      → Option String
      → List String
      → Exec L Unit
  unfolding create_audit_log
  record_role_audits actor target event_type resulting_roles ip_address user_agent [] = pure tt
  record_role_audits actor target event_type resulting_roles ip_address user_agent (code ∷ codes) =
      do
        create_audit_log env (some actor.user.id) (some actor.session.id) event_type ip_address
            user_agent (some (role (some actor.user.id) target code resulting_roles)) none
        record_role_audits actor target event_type resulting_roles ip_address user_agent codes

  -- The two loops over the result.
  unfoldable pub audit_replacement :
      AuthenticatedSessionContext
      → ℕ
      → Option String
      → Option String
      → UserRoleReplacementResult
      → Exec L UserRoleReplacementResult
  unfolding record_role_audits
  audit_replacement actor target ip_address user_agent result = do
    record_role_audits actor target role_granted result.current_role_codes ip_address user_agent
        result.granted_role_codes
    record_role_audits actor target role_revoked result.current_role_codes ip_address user_agent
        result.revoked_role_codes
    pure result

  -- The statements behind the test of the user.
  unfoldable pub replace_for :
      AuthenticatedSessionContext
      → ℕ
      → List String
      → Option String
      → Option String
      → Exec L UserRoleReplacementResult
  unfolding audit_replacement
  replace_for actor target codes ip_address user_agent = do
    result ← Repository.replace_user_roles env target codes (some actor.user.id)
    audit_replacement actor target ip_address user_agent result

  -- The body of the transaction.
  unfoldable pub replace_live :
      AuthenticatedSessionContext
      → ℕ
      → List String
      → Option String
      → Option String
      → Exec L UserRoleReplacementResult
  unfolding require_live find_user_by_id_for_authentication replace_for
  replace_live actor target codes ip_address user_agent = do
    require_live target (← find_user_by_id_for_authentication target)
    replace_for actor target codes ip_address user_agent

  unfoldable pub replace_user_roles :
      AuthenticatedSessionContext
      → ℕ
      → List String
      → Option String
      → Option String
      → Exec L UserRoleReplacementResult
  unfolding replace_live
  replace_user_roles actor target_user_id role_codes ip_address user_agent = do
    let normalized_role_codes = dedupe role_codes
    let missing_role_codes = set_minus normalized_role_codes known_codes
    raise_if (not (is_empty missing_role_codes)) (role_not_found missing_role_codes)
    transaction (replace_live actor target_user_id normalized_role_codes ip_address user_agent)
