-- ===== src/Auth/Oidc/ErrorNames.antt =====
-- `type(error).__name__`, as the OIDC audit logs keep it.
use python_react_template.Prelude.{String}
use python_react_template.Store.Exec.{
  Error, email_already_registered, invalid_credentials, weak_password, rate_limit_exceeded,
  user_not_found, auth_session_not_found, authorization_user_not_found, role_not_found,
  account_deletion_confirmation_mismatch, account_deletion_reauth_required,
  account_deletion_invalid_password, account_deletion_oidc_reauth_required, sample_item_not_found,
  invalid_sample_item_cursor, value_error, integrity_error, oidc_provider_not_configured,
  oidc_provider_unavailable, oidc_provider_metadata, oidc_state_mismatch,
  oidc_browser_binding_mismatch, oidc_token_exchange, oidc_provider_access_denied,
  oidc_claims_validation, oidc_email_not_verified, oidc_provisioning_disabled,
  oidc_identity_link_required, oidc_identity_link_disabled, oidc_identity_unavailable,
  oidc_authorization_rate_limited, oidc_reauth_subject_mismatch,
  oidc_reauth_authentication_required, oidc_reauth_auth_time_required, oidc_reauth_stale,
  oidc_callback_flow,
}

unfoldable pub error_name : Error → String
error_name email_already_registered = "EmailAlreadyRegisteredError"
error_name invalid_credentials = "InvalidCredentialsError"
error_name weak_password = "WeakPasswordError"
error_name (rate_limit_exceeded n) = "RateLimitExceededError"
error_name (user_not_found n) = "UserNotFoundError"
error_name (auth_session_not_found n) = "AuthSessionNotFoundError"
error_name (authorization_user_not_found n) = "AuthorizationUserNotFoundError"
error_name (role_not_found codes) = "RoleNotFoundError"
error_name account_deletion_confirmation_mismatch = "AccountDeletionConfirmationMismatchError"
error_name account_deletion_reauth_required = "AccountDeletionReauthRequiredError"
error_name account_deletion_invalid_password = "AccountDeletionInvalidPasswordError"
error_name (account_deletion_oidc_reauth_required p) = "AccountDeletionOidcReauthRequiredError"
error_name sample_item_not_found = "SampleItemNotFoundError"
error_name invalid_sample_item_cursor = "InvalidSampleItemCursorError"
error_name value_error = "ValueError"
error_name integrity_error = "IntegrityError"
error_name oidc_provider_not_configured = "OidcProviderNotConfiguredError"
error_name oidc_provider_unavailable = "OidcProviderUnavailableError"
error_name oidc_provider_metadata = "OidcProviderMetadataError"
error_name oidc_state_mismatch = "OidcStateMismatchError"
error_name oidc_browser_binding_mismatch = "OidcBrowserBindingMismatchError"
error_name oidc_token_exchange = "OidcTokenExchangeError"
error_name oidc_provider_access_denied = "OidcProviderAccessDeniedError"
error_name oidc_claims_validation = "OidcClaimsValidationError"
error_name oidc_email_not_verified = "OidcEmailNotVerifiedError"
error_name oidc_provisioning_disabled = "OidcProvisioningDisabledError"
error_name oidc_identity_link_required = "OidcIdentityLinkRequiredError"
error_name oidc_identity_link_disabled = "OidcIdentityLinkDisabledError"
error_name oidc_identity_unavailable = "OidcIdentityUnavailableError"
error_name oidc_authorization_rate_limited = "OidcAuthorizationRateLimitedError"
error_name oidc_reauth_subject_mismatch = "OidcReauthSubjectMismatchError"
error_name oidc_reauth_authentication_required = "OidcReauthAuthenticationRequiredError"
error_name oidc_reauth_auth_time_required = "OidcReauthAuthTimeRequiredError"
error_name oidc_reauth_stale = "OidcReauthStaleError"
error_name (oidc_callback_flow e p path) = "OidcCallbackFlowError"
