-- ===== src/Auth/Oidc/Frame/Callback.antt =====
-- An accepted callback leaves the authorization states alone.
use python_react_template.Prelude.{
  ℕ, ◌+◌, ◌≡◌, refl, ◌∙◌, inl, inr, arith, String, Option, none, some, List, Bool-cases,
}
use python_react_template.Store.Rows.{
  User, AuthSession, AuthEventType, AuthOidcState, oidc_login_success,
}
use python_react_template.Store.Exec.{
  Env, Error, Exec, World, Result, ok, err, pure, draw, transaction, ◌>>=◌, ◌>>◌,
}
use python_react_template.Store.Exec.Frame.{Keeps, transaction-Keeps, >>=-Keeps}
use python_react_template.Store.AuthRepository.Users.{record_user_login}
use python_react_template.Store.AuthRepository.AuditLogs.{create_audit_log}
use python_react_template.Store.AuthRepository.Sessions.{found_session}
use python_react_template.Store.AuthRepository.Oidc.{
  record_oidc_login, record_oidc_reauth, find_identity_by_provider_subject,
}
use python_react_template.Auth.Settings.{AuthSettings}
use python_react_template.Auth.Issuer.{replace_auth_session}
use python_react_template.Auth.OidcSettings.{OidcProviderSettings, OidcSettings, OidcVerifiedClaims}
use python_react_template.Auth.Usecase.Context.{AuthenticatedSessionContext}
use python_react_template.Auth.Oidc.Client.{OidcProviderClient, OidcCallbackResult, call}
use python_react_template.Auth.Oidc.Start.{is_reauth}
use python_react_template.Auth.Oidc.Resolve.{Resolved, resolve_login_user_and_identity}
use python_react_template.Auth.Oidc.State.{
  audit_setup, audit_success, audit_failure, audit_oidc_failure,
}
use python_react_template.Auth.Oidc.Login.{
  log_login, open_oidc_session, oidc_issued, login_transaction, complete_login_callback,
}
use python_react_template.Auth.Oidc.Reauth.{record_reauth, reauth_at, complete_reauth_callback}
use python_react_template.Auth.Oidc.Callback.{
  on_error, complete_by_purpose, exchange_and_complete, fail_callback, attempt_callback,
}
use python_react_template.Auth.Oidc.Frame.{
  states_of, resolve-Keeps, record_user_login-Keeps, replace_auth_session-Keeps,
  record_oidc_login-Keeps, audit_success-Keeps, audit_setup-Keeps,
}

module _ (env : Env) (settings : AuthSettings) {L : Type 0} where
  log_login-Keeps :
      (provider : OidcProviderSettings) (s : AuthOidcState) (setup : List AuthEventType) (u : User)
      (ip ua : Option String) (issued : AuthSession × String × String)
      → Keeps states_of (log_login env settings {L = L} provider s setup u ip ua issued)
  unfolding log_login
  log_login-Keeps provider s setup u ip ua (session, st, ct) =
      let result : User × AuthSession × String × String = (u, session, st, ct) in
      let last : Exec L Unit =
        audit_success env oidc_login_success u.id session.id provider.provider_id s.purpose ip ua in
      >>=-Keeps states_of
        (audit_setup env setup u.id session.id provider.provider_id s.purpose ip ua)
        (λ _. last >> pure result)
        (audit_setup-Keeps env settings setup u.id session.id provider.provider_id s ip ua)
        (λ _.
          >>=-Keeps states_of last (λ _. pure result)
            (audit_success-Keeps env settings oidc_login_success u.id session.id
              provider.provider_id s ip ua)
            (λ _ w. refl))

  open_oidc_session-Keeps :
      (provider : OidcProviderSettings) (s : AuthOidcState) (claims : OidcVerifiedClaims)
      (cur ip ua : Option String) (r : Resolved)
      → Keeps states_of (open_oidc_session env settings {L = L} provider s claims cur ip ua r)
  unfolding open_oidc_session
  open_oidc_session-Keeps provider s claims cur ip ua (v, identity, setup) =
      let finish : ℕ
          → User
          → AuthSession × String × String
          → Exec L (User × AuthSession × String × String) =
        λ t user issued.
          record_oidc_login user.id identity.id issued.0.id t claims.auth_time
          >> log_login env settings provider s setup user ip ua issued in
      let continue_as : ℕ → User → Exec L (User × AuthSession × String × String) =
        λ t user. replace_auth_session env settings user cur ip ua >>= finish t user in
      >>=-Keeps states_of (draw env.utcnow) (λ t. record_user_login v.id t >>= continue_as t)
        (λ w. refl)
        (λ t.
          >>=-Keeps states_of (record_user_login v.id t) (continue_as t)
            (record_user_login-Keeps env settings v.id t)
            (λ user.
              >>=-Keeps states_of (replace_auth_session env settings user cur ip ua) (finish t user)
                (replace_auth_session-Keeps env settings user cur ip ua)
                (λ issued.
                  >>=-Keeps states_of
                    (record_oidc_login user.id identity.id issued.0.id t claims.auth_time)
                    (λ _. log_login env settings provider s setup user ip ua issued)
                    (record_oidc_login-Keeps env settings user.id identity.id issued.0.id t
                      claims.auth_time)
                    (λ _. log_login-Keeps provider s setup user ip ua issued))))

  oidc_issued-Keeps :
      (s : AuthOidcState) (p : User × AuthSession × String × String)
      → Keeps states_of (oidc_issued env settings {L = L} s p)
  unfolding oidc_issued
  oidc_issued-Keeps s (u, session, st, ct) w = refl

  complete_login_callback-Keeps :
      (provider : OidcProviderSettings) (s : AuthOidcState) (claims : OidcVerifiedClaims)
      (cur ip ua : Option String)
      → Keeps states_of (complete_login_callback env settings {L = L} provider s claims cur ip ua)
  unfolding complete_login_callback login_transaction
  complete_login_callback-Keeps provider s claims cur ip ua =
      >>=-Keeps states_of (transaction (login_transaction env settings provider s claims cur ip ua))
        (oidc_issued env settings s)
        (transaction-Keeps states_of (login_transaction env settings provider s claims cur ip ua) (
          >>=-Keeps states_of (resolve_login_user_and_identity env provider claims s.language_code)
            (open_oidc_session env settings provider s claims cur ip ua)
            (resolve-Keeps env settings provider claims s.language_code)
            (open_oidc_session-Keeps provider s claims cur ip ua)))
        (oidc_issued-Keeps s)

module _ (env : Env) (oidc : OidcSettings) {L : Type 0} where
  record_reauth-Keeps :
      (provider : OidcProviderSettings) (s : AuthOidcState) (context : AuthenticatedSessionContext)
      (t : ℕ) (ip ua : Option String)
      → Keeps states_of (record_reauth env oidc {L = L} provider s context t ip ua)
  unfolding record_reauth record_oidc_reauth found_session audit_success create_audit_log
  record_reauth-Keeps provider s context t ip ua w = ground arith

  reauth_at-Keeps :
      (provider : OidcProviderSettings) (s : AuthOidcState) (context : AuthenticatedSessionContext)
      (o : Option ℕ) (ip ua : Option String)
      → Keeps states_of (reauth_at env oidc {L = L} provider s context o ip ua)
  unfolding reauth_at
  reauth_at-Keeps provider s context none ip ua = λ w. refl
  reauth_at-Keeps provider s context (some t) ip ua = λ w. ground (
    arith,
    transaction-Keeps states_of (record_reauth env oidc {L = L} provider s context t ip ua)
        (record_reauth-Keeps provider s context t ip ua) (record w { calls = w.calls + 1 + 1 }),
  )

  complete_reauth_callback-Keeps :
      (provider : OidcProviderSettings) (s : AuthOidcState) (claims : OidcVerifiedClaims)
      (current : Option AuthenticatedSessionContext) (ip ua : Option String)
      → Keeps states_of (complete_reauth_callback env oidc {L = L} provider s claims current ip ua)
  unfolding complete_reauth_callback find_identity_by_provider_subject
  complete_reauth_callback-Keeps provider s claims none ip ua = λ w. refl
  complete_reauth_callback-Keeps provider s claims (some context) ip ua =
      λ w. ground (arith, reauth_at-Keeps provider s context claims.auth_time ip ua w)

module _ (env : Env) (settings : AuthSettings) (oidc : OidcSettings) (client : OidcProviderClient)
    {L : Type 0} where
  complete_by_purpose-Keeps :
      (provider : OidcProviderSettings) (s : AuthOidcState) (claims : OidcVerifiedClaims)
      (current : Option AuthenticatedSessionContext) (cur ip ua : Option String)
      → Keeps states_of
          (complete_by_purpose env settings oidc client {L = L} provider s claims current cur ip ua)
  unfolding complete_by_purpose
  complete_by_purpose-Keeps provider s claims current cur ip ua w =
      elim (Bool-cases (is_reauth s.purpose)) [
        | inl e ↦ rw e (complete_reauth_callback-Keeps env oidc provider s claims current ip ua w)
        | inr e ↦ rw e (complete_login_callback-Keeps env settings provider s claims cur ip ua w)
      ]

  exchange_and_complete-Keeps :
      (provider : OidcProviderSettings) (s : AuthOidcState) (code : String)
      (current : Option AuthenticatedSessionContext) (cur ip ua : Option String)
      → Keeps states_of
          (exchange_and_complete env settings oidc client {L = L} provider s code current cur ip ua)
  unfolding exchange_and_complete
  exchange_and_complete-Keeps provider s code current cur ip ua =
      let validate : String → Exec L OidcVerifiedClaims = λ t.
        call (client.validate_id_token provider.provider_id t s.nonce_hash (is_reauth s.purpose)) in
      let complete : OidcVerifiedClaims → Exec L OidcCallbackResult = λ claims.
        complete_by_purpose env settings oidc client provider s claims current cur ip ua in
      >>=-Keeps states_of (call (client.exchange_code provider.provider_id code s.pkce_verifier))
        (λ t. validate t >>= complete) (λ w. refl)
        (λ t.
          >>=-Keeps states_of (validate t) complete (λ w. refl)
            (λ claims. complete_by_purpose-Keeps provider s claims current cur ip ua))

  fail_callback-Keeps :
      (A : Type 0) (provider : OidcProviderSettings) (s : AuthOidcState)
      (current : Option AuthenticatedSessionContext) (ip ua : Option String) (e : Error)
      → Keeps states_of
          (fail_callback env settings oidc client {L = L} {A = A} provider s current ip ua e)
  unfolding fail_callback audit_failure audit_oidc_failure create_audit_log
  fail_callback-Keeps A provider s current ip ua e w = ground arith

  on_error-Keeps :
      {A : Type 0} (handler : Error → Exec L A) (x : Result A × World L)
      → ((e : Error) → Keeps states_of (handler e))
      → states_of (on_error handler x).1.db ≡ states_of x.1.db
  unfolding on_error
  on_error-Keeps handler (ok a, w) h = refl
  on_error-Keeps handler (err e, w) h = h e w

  pub attempt_callback-Keeps :
      (provider : OidcProviderSettings) (code : String)
      (current : Option AuthenticatedSessionContext) (cur ip ua : Option String) (s : AuthOidcState)
      → Keeps states_of
          (attempt_callback env settings oidc client {L = L} provider code current cur ip ua s)
  unfolding attempt_callback
  attempt_callback-Keeps provider code current cur ip ua s w =
      on_error-Keeps (fail_callback env settings oidc client provider s current ip ua)
        (exchange_and_complete env settings oidc client provider s code current cur ip ua w)
        (fail_callback-Keeps OidcCallbackResult provider s current ip ua)
      ∙ exchange_and_complete-Keeps provider s code current cur ip ua w
