-- ===== src/Auth/Oidc/Frame.antt =====
-- What an accepted callback leaves alone: the authorization states.
pub mod Callback
use python_react_template.Prelude.{
  ℕ, ◌+◌, ◌-◌, ◌*◌, ◌≡◌, refl, ap, ◌∙◌, find, str_eq, inl, inr, arith, String, Bool, true, false,
  not, ◌&&◌, ◌||◌, ◌==◌, Option, none, some, List, [], ◌∷◌, ltb, opt_eq, Bool-cases, Option-cases,
  if◌then◌else◌,
}
use python_react_template.Store.Rows.{
  User, AuthSession, AuthIdentity, AuthEventType, AuthOidcState, LanguageCode,
  default_language_code, Db, oidc_identity_linked, oidc_login_success, oidc_user_provisioned,
}
use python_react_template.Store.Exec.{
  Env, Error, Exec, World, Result, ok, err, oidc_provisioning_disabled, pure, raise_if, draw,
  transaction, ◌>>=◌, ◌>>◌,
}
use python_react_template.Store.Exec.Frame.{Keeps, transaction-Keeps, >>=-Keeps}
use python_react_template.Store.AuthRepository.Users.{
  record_user_login, live_user, create_user, is_present, get_user,
  find_user_by_id_for_authentication, find_user_by_verified_email_for_oidc_link,
  find_user_by_email_for_oidc_collision,
}
use python_react_template.Store.AuthRepository.Sessions.{
  find_active_session_by_token_hash, revoke_session, revoke_found, create_session, found_session,
}
use python_react_template.Store.AuthRepository.AuditLogs.{create_audit_log}
use python_react_template.Store.AuthRepository.Oidc.{
  record_oidc_login, record_oidc_reauth, set_auth_time, create_auth_identity,
  find_identity_by_provider_subject,
}
use python_react_template.Auth.Settings.{AuthSettings, truthy}
use python_react_template.Auth.Issuer.{
  replace_auth_session, revoke_current, revoke_existing, issue_session,
}
use python_react_template.Auth.OidcSettings.{
  OidcProviderSettings, OidcSettings, OidcVerifiedClaims, LinkMode, auto, manual, disabled,
  allows_auto_provision,
}
use python_react_template.Auth.Usecase.Context.{
  AuthenticatedSessionContext, authorization_for_existing_user,
}
use python_react_template.Auth.Oidc.Client.{OidcCallbackResult}
use python_react_template.Auth.Oidc.Resolve.{
  Resolved, resolve_login_user_and_identity, resolve_identity, resolve_by_email, linked_or_new,
  collided_or_new, provision_user, unless_taken, linked_by_mode, link_identity, identified_user,
  identity_for_claims, trusted_verified_email,
}
use python_react_template.Auth.Oidc.Entitled.{identity_of}
use python_react_template.Auth.Oidc.State.{audit_setup, audit_success}

abbrev pub states_of : Db → List AuthOidcState
states_of d = d.oidc_states

module _ (env : Env) (settings : AuthSettings) {L : Type 0} where
  pub record_user_login-Keeps : (i t : ℕ) → Keeps states_of (record_user_login {L = L} i t)
  unfolding record_user_login live_user
  record_user_login-Keeps i t w = ground arith

  revoke_current-Keeps : (o : Option String) → Keeps states_of (revoke_current env {L = L} o)
  unfolding revoke_current revoke_existing revoke_session revoke_found
      find_active_session_by_token_hash
  revoke_current-Keeps none w = refl
  revoke_current-Keeps (some t) w = ground arith

  issue_session-Keeps :
      (i : ℕ) (ip ua : Option String) → Keeps states_of (issue_session env {L = L} settings i ip ua)
  unfolding issue_session create_session
  issue_session-Keeps i ip ua w = ground arith

  pub replace_auth_session-Keeps :
      (u : User) (cur ip ua : Option String)
      → Keeps states_of (replace_auth_session env {L = L} settings u cur ip ua)
  unfolding replace_auth_session
  replace_auth_session-Keeps u cur ip ua =
      >>=-Keeps states_of (revoke_current env (truthy cur))
        (λ _. issue_session env settings u.id ip ua) (revoke_current-Keeps (truthy cur))
        (λ _. issue_session-Keeps u.id ip ua)

  pub record_oidc_login-Keeps :
      (i j k t : ℕ) (o : Option ℕ) → Keeps states_of (record_oidc_login {L = L} i j k t o)
  unfolding record_oidc_login live_user found_session set_auth_time
  record_oidc_login-Keeps i j k t o w = ground arith

  pub audit_success-Keeps :
      (event : AuthEventType) (i j : ℕ) (p : String) (s : AuthOidcState) (ip ua : Option String)
      → Keeps states_of (audit_success env {L = L} event i j p s.purpose ip ua)
  unfolding audit_success create_audit_log
  audit_success-Keeps event i j p s ip ua w = refl

  pub audit_setup-Keeps :
      (events : List AuthEventType) (i j : ℕ) (p : String) (s : AuthOidcState)
      (ip ua : Option String)
      → Keeps states_of (audit_setup env {L = L} events i j p s.purpose ip ua)
  unfolding audit_setup
  audit_setup-Keeps [] i j p s ip ua = λ w. refl
  audit_setup-Keeps (event ∷ events) i j p s ip ua =
      >>=-Keeps states_of (audit_success env event i j p s.purpose ip ua)
        (λ _. audit_setup env events i j p s.purpose ip ua)
        (audit_success-Keeps event i j p s ip ua) (λ _. audit_setup-Keeps events i j p s ip ua)

  create_user-Keeps :
      (email : String) (code : LanguageCode)
      → Keeps states_of (create_user env {L = L} email none code)
  unfolding create_user
  create_user-Keeps email code w = ground arith

  unless_taken-same : (x : Result User × World L) → (unless_taken env x).1 ≡ x.1
  unfolding unless_taken
  unless_taken-same (ok u, w) = refl
  unless_taken-same (err e, w) = refl

  link_identity-Keeps :
      (provider : OidcProviderSettings) (claims : OidcVerifiedClaims) (event : AuthEventType)
      (u : User)
      → Keeps states_of (link_identity env {L = L} provider claims event u)
  unfolding link_identity identity_for_claims create_auth_identity
  link_identity-Keeps provider claims event u w = ground arith

  provision_user-Keeps :
      (provider : OidcProviderSettings) (claims : OidcVerifiedClaims) (o : Option LanguageCode)
      (email : String)
      → Keeps states_of (provision_user env {L = L} provider claims o email)
  unfolding provision_user
  provision_user-Keeps provider claims o email =
      let code : LanguageCode = elim o [ none ↦ default_language_code | some c ↦ c ] in
      let made : Exec L User = λ v. unless_taken env (create_user env email none code v) in
      >>=-Keeps states_of
        (raise_if (not (allows_auto_provision provider)) oidc_provisioning_disabled)
        (λ _. made >>= link_identity env provider claims oidc_user_provisioned) (λ w. refl)
        (λ _.
          >>=-Keeps states_of made (link_identity env provider claims oidc_user_provisioned)
            (λ w.
              ap (λ (v : World L). states_of v.db)
                (unless_taken-same (create_user env email none code w))
              ∙ create_user-Keeps email code w)
            (link_identity-Keeps provider claims oidc_user_provisioned))

  linked_by_mode-Keeps :
      (provider : OidcProviderSettings) (claims : OidcVerifiedClaims) (mode : LinkMode) (u : User)
      → Keeps states_of (linked_by_mode env {L = L} provider claims mode u)
  unfolding linked_by_mode
  linked_by_mode-Keeps provider claims disabled u = λ w. refl
  linked_by_mode-Keeps provider claims manual u = λ w. refl
  linked_by_mode-Keeps provider claims auto u =
      link_identity-Keeps provider claims oidc_identity_linked u

  collided_or_new-Keeps :
      (provider : OidcProviderSettings) (claims : OidcVerifiedClaims) (o : Option LanguageCode)
      (email : String) (v : Option User)
      → Keeps states_of (collided_or_new env {L = L} provider claims o email v)
  unfolding collided_or_new
  collided_or_new-Keeps provider claims o email (some u) = λ w. refl
  collided_or_new-Keeps provider claims o email none = provision_user-Keeps provider claims o email

  linked_or_new-Keeps :
      (provider : OidcProviderSettings) (claims : OidcVerifiedClaims) (o : Option LanguageCode)
      (email : String) (v : Option User)
      → Keeps states_of (linked_or_new env {L = L} provider claims o email v)
  unfolding linked_or_new find_user_by_email_for_oidc_collision
  linked_or_new-Keeps provider claims o email (some u) =
      linked_by_mode-Keeps provider claims provider.link_mode u
  linked_or_new-Keeps provider claims o email none = λ w.
      collided_or_new-Keeps provider claims o email
        (find
          (λ (u : User).
            str_eq (env.sql_lower u.email) (env.lower (env.strip email)) && is_present u)
          w.db.users)
        w

  resolve_by_email-Keeps :
      (provider : OidcProviderSettings) (claims : OidcVerifiedClaims) (o : Option LanguageCode)
      (email : Option String)
      → Keeps states_of (resolve_by_email env {L = L} provider claims o email)
  unfolding resolve_by_email find_user_by_verified_email_for_oidc_link
  resolve_by_email-Keeps provider claims o none = λ w. refl
  resolve_by_email-Keeps provider claims o (some email) = λ w.
      linked_or_new-Keeps provider claims o email
        (find
          (λ (u : User).
            str_eq (env.sql_lower u.email) (env.lower (env.strip email))
            && is_present u
            && u.is_active)
          w.db.users)
        w

  identified_user-Keeps :
      (i : AuthIdentity) (o : Option User) → Keeps states_of (identified_user env {L = L} i o)
  unfolding identified_user
  identified_user-Keeps i o w = ground arith

  resolve_identity-Keeps :
      (provider : OidcProviderSettings) (claims : OidcVerifiedClaims) (o : Option LanguageCode)
      (i : Option AuthIdentity)
      → Keeps states_of (resolve_identity env {L = L} provider claims o i)
  unfolding resolve_identity find_user_by_id_for_authentication
  resolve_identity-Keeps provider claims o (some i) =
      λ w. identified_user-Keeps i (get_user i.user_id w.db.users) w
  resolve_identity-Keeps provider claims o none =
      resolve_by_email-Keeps provider claims o (trusted_verified_email env provider claims)

  pub resolve-Keeps :
      (provider : OidcProviderSettings) (claims : OidcVerifiedClaims) (o : Option LanguageCode)
      → Keeps states_of (resolve_login_user_and_identity env {L = L} provider claims o)
  unfolding resolve_login_user_and_identity find_identity_by_provider_subject
  resolve-Keeps provider claims o =
      λ w. resolve_identity-Keeps provider claims o (identity_of provider claims w.db) w
