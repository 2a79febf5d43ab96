-- ===== src/Auth/AccountDeletion.antt =====
-- `AccountDeletionUsecase` of backend/app/usecases/account_deletion_usecase.py.
pub mod Erasure
pub mod Deletion
mod Tests
use python_react_template.Prelude.{
  ℕ, ◌-◌, ◌*◌, String, Bool, true, false, not, Option, none, some, List, [], ◌∷◌, is_some, ltb,
  str_eq, contains, if◌then◌else◌,
}
use python_react_template.Store.Rows.{AuthIdentity, account_deletion_reauth_failed}
use python_react_template.Store.Exec.{
  rate_limit_exceeded, account_deletion_confirmation_mismatch, account_deletion_reauth_required,
  account_deletion_invalid_password, account_deletion_oidc_reauth_required, Env, Exec, World, pure,
  raise, raise_if, draw, ask_limiter, tell_limiter, transaction, ◌>>=◌, ◌>>◌,
}
use python_react_template.Store.AuthRepository.Users.{mark_user_deleted}
use python_react_template.Store.AuthRepository.Sessions.{revoke_sessions_for_user}
use python_react_template.Store.AuthRepository.AuditLogs.{create_audit_log}
use python_react_template.Store.AuthRepository.Oidc.{
  find_identities_by_user_id, delete_auth_identities_for_user,
}
use python_react_template.Store.AuthorizationRepository.{delete_roles_for_user}
use python_react_template.Store.SampleItemRepository.{delete_all_for_owner}
use python_react_template.RateLimit.Interface.{LoginRateLimiter}
use python_react_template.Auth.Settings.{AuthSettings, truthy, rate_limit_ip}
use python_react_template.Auth.OidcSettings.{OidcProviderSettings, OidcSettings}
use python_react_template.Auth.Usecase.Context.{AuthenticatedSessionContext}

-- `providers_by_id.get(provider_id)`: of two providers with one identifier, the later one.
unfoldable pub provider_by_id : String → List OidcProviderSettings → Option OidcProviderSettings
provider_by_id provider_id [] = none
provider_by_id provider_id (p ∷ providers) =
    let later = provider_by_id provider_id providers in
    if is_some later then later else if str_eq p.provider_id provider_id then some p else none

-- The loop of `_linked_provider_details`, from the identifiers that it has seen.
unfoldable pub provider_details :
    List OidcProviderSettings → List String → List AuthIdentity → List (String × String)
unfolding provider_by_id contains
provider_details providers seen [] = []
provider_details providers seen (i ∷ identities) =
    let skipped = provider_details providers seen identities in
    let added = provider_details providers (i.provider_id ∷ seen) identities in
    if contains i.provider_id seen then skipped else elim (provider_by_id i.provider_id providers) [
      | none ↦ skipped
      | some p ↦ (p.provider_id, p.display_name) ∷ added
    ]

module _ (env : Env) (oidc : OidcSettings) {L : Type 0} where
  unfoldable pub linked_provider_details : ℕ → Exec L (List (String × String))
  unfolding find_identities_by_user_id provider_details
  linked_provider_details user_id = do
    identities ← find_identities_by_user_id user_id
    pure (provider_details oidc.providers [] identities)

  unfoldable pub refuse_oidc_reauth : ℕ → Exec L Unit
  unfolding linked_provider_details
  refuse_oidc_reauth user_id = do
    details ← linked_provider_details user_id
    raise (account_deletion_oidc_reauth_required details)

  -- `_require_fresh_oidc_reauth`, by the time of the session's last one.
  unfoldable pub require_fresh_oidc_reauth : ℕ → Option ℕ → Exec L Unit
  unfolding refuse_oidc_reauth
  require_fresh_oidc_reauth user_id none = refuse_oidc_reauth user_id
  require_fresh_oidc_reauth user_id (some auth_time) = do
    now ← draw env.utcnow
    (if ltb (oidc.reauth_freshness_seconds * 1000) (now - auth_time)
        then refuse_oidc_reauth user_id
        else pure tt)

module _ (env : Env) {L : Type 0} where
  -- The body of the transaction.
  unfoldable pub erase_user : ℕ → ℕ → ℕ → Option String → Exec L Unit
  unfolding delete_all_for_owner delete_roles_for_user delete_auth_identities_for_user
      mark_user_deleted revoke_sessions_for_user
  erase_user user_id deleted_at session_id ip_address = do
    delete_all_for_owner user_id
    delete_roles_for_user user_id
    delete_auth_identities_for_user user_id
    mark_user_deleted env user_id deleted_at (some session_id) ip_address
    revoke_sessions_for_user user_id deleted_at
    pure tt

module _ (R : LoginRateLimiter) (env : Env) (settings : AuthSettings) (oidc : OidcSettings) where
  unfoldable pub refuse_password :
      AuthenticatedSessionContext
      → String
      → String
      → Option String
      → Option String
      → Exec R.State Unit
  unfolding create_audit_log
  refuse_password context ip normalized_email ip_address user_agent = do
    tell_limiter (R.record_failure ip normalized_email false)
    create_audit_log env (some context.user.id) (some context.session.id)
        account_deletion_reauth_failed ip_address user_agent none none
    raise account_deletion_invalid_password

  -- The password, if one that is not empty was given, against the user's hash.
  unfoldable pub check_given :
      AuthenticatedSessionContext
      → String
      → String
      → String
      → Option String
      → Option String
      → Option String
      → Exec R.State Unit
  unfolding refuse_password
  check_given context hash ip normalized_email none ip_address user_agent =
      raise account_deletion_reauth_required
  check_given context hash ip normalized_email (some password) ip_address user_agent =
      if env.verify_password password hash
      then pure tt
      else refuse_password context ip normalized_email ip_address user_agent

  -- The user's password, or a fresh OIDC reauthentication if the user has none.
  unfoldable pub reauthenticate :
      AuthenticatedSessionContext
      → Option String
      → String
      → Option String
      → Option String
      → Option String
      → Exec R.State Unit
  unfolding require_fresh_oidc_reauth check_given truthy rate_limit_ip
  reauthenticate context none normalized_email password ip_address user_agent =
      require_fresh_oidc_reauth env oidc context.user.id context.session.last_oidc_authenticated_at
  reauthenticate context (some hash) normalized_email password ip_address user_agent = do
    let ip = rate_limit_ip ip_address
    allowed ← ask_limiter (R.is_account_deletion_reauth_allowed ip normalized_email)
    raise_if (not allowed) (rate_limit_exceeded settings.rate_limit_window_seconds)
    check_given context hash ip normalized_email (truthy password) ip_address user_agent

  -- The statements behind the reauthentication.
  unfoldable pub erase_account : AuthenticatedSessionContext → Option String → Exec R.State Unit
  unfolding erase_user
  erase_account context ip_address = do
    deleted_at ← draw env.utcnow
    transaction (erase_user env context.user.id deleted_at context.session.id ip_address)

  unfoldable pub delete_account :
      AuthenticatedSessionContext
      → String
      → Option String
      → Option String
      → Option String
      → Exec R.State Unit
  unfolding reauthenticate erase_account
  delete_account context confirm_email password ip_address user_agent = do
    let normalized_user_email = env.lower (env.strip context.user.email)
    raise_if (not (str_eq normalized_user_email (env.lower (env.strip confirm_email))))
        account_deletion_confirmation_mismatch
    reauthenticate context context.user.password_hash normalized_user_email password ip_address
        user_agent
    erase_account context ip_address
