-- ===== src/Auth/Oidc/Reauth.antt =====
-- `_complete_reauth_callback` of backend/app/usecases/oauth_oidc_usecase.py.
use python_react_template.Prelude.{
  ℕ, ◌-◌, ◌*◌, String, Bool, true, not, ◌||◌, ◌==◌, Option, none, some, ltb, opt_eq,
}
use python_react_template.Store.Rows.{AuthIdentity, AuthOidcState, oidc_reauth_success}
use python_react_template.Store.Exec.{
  Env, Exec, oidc_reauth_authentication_required, oidc_reauth_subject_mismatch,
  oidc_reauth_auth_time_required, oidc_reauth_stale, pure, raise, raise_if, draw, transaction,
  ◌>>=◌, ◌>>◌,
}
use python_react_template.Store.AuthRepository.Oidc.{
  find_identity_by_provider_subject, record_oidc_reauth,
}
use python_react_template.Auth.OidcSettings.{OidcProviderSettings, OidcSettings, OidcVerifiedClaims}
use python_react_template.Auth.Usecase.Context.{AuthenticatedSessionContext}
use python_react_template.Auth.Oidc.Client.{OidcCallbackResult}
use python_react_template.Auth.Oidc.State.{audit_success}

-- `identity is None or identity.user_id != current_session.user.id`
unfoldable pub is_of_other : ℕ → Option AuthIdentity → Bool
is_of_other user_id none = true
is_of_other user_id (some identity) = not (identity.user_id == user_id)

module _ (env : Env) (oidc : OidcSettings) {L : Type 0} where
  -- The body of the reauthentication's transaction.
  unfoldable pub record_reauth :
      OidcProviderSettings
      → AuthOidcState
      → AuthenticatedSessionContext
      → ℕ
      → Option String
      → Option String
      → Exec L Unit
  unfolding record_oidc_reauth audit_success
  record_reauth provider oidc_state context auth_time ip_address user_agent = do
    record_oidc_reauth context.session.id auth_time
    audit_success env oidc_reauth_success context.user.id context.session.id provider.provider_id
        oidc_state.purpose ip_address user_agent

  -- The statements behind the tests of the identity.
  unfoldable pub reauth_at :
      OidcProviderSettings
      → AuthOidcState
      → AuthenticatedSessionContext
      → Option ℕ
      → Option String
      → Option String
      → Exec L OidcCallbackResult
  unfolding record_reauth
  reauth_at provider oidc_state context none ip_address user_agent =
      raise oidc_reauth_auth_time_required
  reauth_at provider oidc_state context (some auth_time) ip_address user_agent = do
    now ← draw env.utcnow
    raise_if (ltb (oidc.reauth_freshness_seconds * 1000) (now - auth_time)) oidc_reauth_stale
    reauthenticated_at ← draw env.utcnow
    transaction (record_reauth provider oidc_state context auth_time ip_address user_agent)
    pure (record {
      redirect_path = oidc_state.redirect_path;
      issued_session = none;
      reauthenticated_context = some context;
    })

  -- `_complete_reauth_callback`
  unfoldable pub complete_reauth_callback :
      OidcProviderSettings
      → AuthOidcState
      → OidcVerifiedClaims
      → Option AuthenticatedSessionContext
      → Option String
      → Option String
      → Exec L OidcCallbackResult
  unfolding find_identity_by_provider_subject is_of_other reauth_at
  complete_reauth_callback provider oidc_state claims none ip_address user_agent =
      raise oidc_reauth_authentication_required
  complete_reauth_callback provider oidc_state claims (some context) ip_address user_agent = do
    raise_if
        (not (opt_eq oidc_state.expected_user_id (some context.user.id))
          || not (opt_eq oidc_state.expected_session_id (some context.session.id)))
        oidc_reauth_subject_mismatch
    identity ← find_identity_by_provider_subject provider.provider_id claims.subject
    raise_if (is_of_other context.user.id identity) oidc_reauth_subject_mismatch
    reauth_at provider oidc_state context claims.auth_time ip_address user_agent
