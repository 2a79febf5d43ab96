-- ===== src/Auth/Oidc/State.antt =====
-- `_consume_callback_state`, `_audit_log` and `_audit_oidc_failure` of
-- backend/app/usecases/oauth_oidc_usecase.py.
use python_react_template.Prelude.{
  ℕ, String, Option, none, some, List, [], ◌∷◌, str_eq, if◌then◌else◌,
}
use python_react_template.Store.Rows.{
  AuthEventType, AuthOidcState, Purpose, oidc as oidc_detail, oidc_login_failed, oidc_reauth_failed,
}
use python_react_template.Store.Exec.{
  Error, Env, Exec, oidc_state_mismatch, oidc_browser_binding_mismatch, pure, raise, draw,
  transaction, ◌>>=◌, ◌>>◌,
}
use python_react_template.Store.AuthRepository.AuditLogs.{create_audit_log}
use python_react_template.Store.AuthRepository.Oidc.{
  ConsumeResult, state_mismatch, already_consumed, expired, browser_binding_mismatch, consumed,
  consume_oidc_authorization_state,
}
use python_react_template.Auth.OidcSettings.{OidcProviderSettings}
use python_react_template.Auth.Usecase.Context.{AuthenticatedSessionContext}
use python_react_template.Auth.Oidc.Start.{is_reauth, expected_user_id, expected_session_id}
use python_react_template.Auth.Oidc.ErrorNames.{error_name}

-- `current_session.user.id if current_session else oidc_state.expected_user_id`, and its like
abbrev pub or_expected : Option ℕ → Option ℕ → Option ℕ
or_expected none expected = expected
or_expected (some id) expected = some id

module _ (env : Env) {L : Type 0} where
  -- The tests of `_consume_callback_state` behind its transaction.
  unfoldable pub accept_state : OidcProviderSettings → ConsumeResult → Exec L AuthOidcState
  accept_state provider state_mismatch = raise oidc_state_mismatch
  accept_state provider (already_consumed s) = raise oidc_state_mismatch
  accept_state provider (expired s) = raise oidc_state_mismatch
  accept_state provider (browser_binding_mismatch s) = raise oidc_browser_binding_mismatch
  accept_state provider (consumed s) =
      if str_eq s.provider_id provider.provider_id then pure s else raise oidc_state_mismatch

  -- `_consume_callback_state`
  unfoldable pub consume_callback_state :
      OidcProviderSettings → String → Option String → Exec L AuthOidcState
  unfolding consume_oidc_authorization_state accept_state
  consume_callback_state provider state none = raise oidc_browser_binding_mismatch
  consume_callback_state provider state (some cookie_value) = do
    consumed_at ← draw env.utcnow
    result ←
        transaction (
          consume_oidc_authorization_state (env.sha256 state) (env.sha256 cookie_value) consumed_at)
    accept_state provider result

  -- `_audit_log`, written.
  unfoldable pub audit_success :
      AuthEventType → ℕ → ℕ → String → Purpose → Option String → Option String → Exec L Unit
  unfolding create_audit_log
  audit_success event user_id session_id provider_id purpose ip_address user_agent =
      create_audit_log env (some user_id) (some session_id) event ip_address user_agent
        (some (oidc_detail provider_id purpose none)) none

  -- `for event_type in setup_audits`
  unfoldable pub audit_setup :
      List AuthEventType → ℕ → ℕ → String → Purpose → Option String → Option String → Exec L Unit
  unfolding audit_success
  audit_setup [] user_id session_id provider_id purpose ip_address user_agent = pure tt
  audit_setup (event ∷ events) user_id session_id provider_id purpose ip_address user_agent = do
    audit_success event user_id session_id provider_id purpose ip_address user_agent
    audit_setup events user_id session_id provider_id purpose ip_address user_agent

  -- `_audit_oidc_failure`
  unfoldable pub audit_oidc_failure :
      AuthEventType
      → String
      → Purpose
      → Error
      → Option String
      → Option String
      → Option ℕ
      → Option ℕ
      → Exec L Unit
  unfolding create_audit_log error_name
  audit_oidc_failure event provider_id purpose error ip_address user_agent user_id session_id =
      create_audit_log env user_id session_id event ip_address user_agent
        (some (oidc_detail provider_id purpose (some (error_name error)))) none

  -- The failure by the purpose: of a reauthentication the users are known.
  unfoldable pub audit_failure :
      OidcProviderSettings
      → AuthOidcState
      → Option AuthenticatedSessionContext
      → Error
      → Option String
      → Option String
      → Exec L Unit
  unfolding audit_oidc_failure expected_user_id expected_session_id
  audit_failure provider oidc_state current_session error ip_address user_agent =
      if is_reauth oidc_state.purpose
      then audit_oidc_failure oidc_reauth_failed provider.provider_id oidc_state.purpose error
          ip_address user_agent
          (or_expected (expected_user_id current_session) oidc_state.expected_user_id)
          (or_expected (expected_session_id current_session) oidc_state.expected_session_id)
      else audit_oidc_failure oidc_login_failed provider.provider_id oidc_state.purpose error
          ip_address user_agent none none
