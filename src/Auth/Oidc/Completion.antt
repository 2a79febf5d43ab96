-- ===== src/Auth/Oidc/Completion.antt =====
-- What the body of the `try` of `complete_callback` leaves behind where it raises.
use python_react_template.Prelude.{
  ℕ, ◌-◌, ◌*◌, ◌≢◌, refl, inl, inr, arith, String, Option, none, some, ltb, Bool-cases,
}
use python_react_template.Store.Rows.{User, AuthSession, AuthOidcState}
use python_react_template.Store.Exec.{
  Env, Error, Exec, World, err, pure, raise_if, draw, oidc_reauth_stale, transaction, ◌>>=◌, ◌>>◌,
}
use python_react_template.Store.Exec.Atomic.{IsAtomic, transaction-IsAtomic, >>=-IsAtomic}
use python_react_template.Store.AuthRepository.Oidc.{find_identity_by_provider_subject}
use python_react_template.Auth.Settings.{AuthSettings}
use python_react_template.Auth.OidcSettings.{OidcProviderSettings, OidcSettings, OidcVerifiedClaims}
use python_react_template.Auth.Usecase.Context.{
  AuthenticatedSessionContext, authorization_for_existing_user,
}
use python_react_template.Auth.Oidc.Client.{OidcProviderClient, OidcCallbackResult, call}
use python_react_template.Auth.Oidc.Start.{is_reauth}
use python_react_template.Auth.Oidc.Login.{oidc_issued, login_transaction, complete_login_callback}
use python_react_template.Auth.Oidc.Reauth.{record_reauth, reauth_at, complete_reauth_callback}
use python_react_template.Auth.Oidc.Callback.{complete_by_purpose, exchange_and_complete}
use python_react_template.Store.Exec.Atomic.{>>=-IsAtomic_last}

module _ (env : Env) (settings : AuthSettings) (oidc : OidcSettings) (client : OidcProviderClient)
    {L : Type 0} where
  oidc_issued-ok :
      (s : AuthOidcState) (p : User × AuthSession × String × String) (w : World L) (e : Error)
      → (oidc_issued env settings s p w).0 ≢ err e
  unfolding oidc_issued authorization_for_existing_user
  oidc_issued-ok s (u, session, st, ct) w e h = ground (arith, h)

  complete_login_callback-IsAtomic :
      (provider : OidcProviderSettings) (s : AuthOidcState) (claims : OidcVerifiedClaims)
      (cur ip ua : Option String)
      → IsAtomic (complete_login_callback env settings {L = L} provider s claims cur ip ua)
  unfolding complete_login_callback
  complete_login_callback-IsAtomic provider s claims cur ip ua =
      let m = login_transaction env settings {L = L} provider s claims cur ip ua in
      >>=-IsAtomic_last (transaction m) (oidc_issued env settings s) (transaction-IsAtomic m)
        (oidc_issued-ok s)

  reauth_at-IsAtomic :
      (provider : OidcProviderSettings) (s : AuthOidcState) (context : AuthenticatedSessionContext)
      (o : Option ℕ) (ip ua : Option String)
      → IsAtomic (reauth_at env oidc {L = L} provider s context o ip ua)
  unfolding reauth_at
  reauth_at-IsAtomic provider s context none ip ua = λ w e outside h. refl
  reauth_at-IsAtomic provider s context (some t) ip ua =
      let m = record_reauth env oidc {L = L} provider s context t ip ua in
      let answer : OidcCallbackResult = record {
        redirect_path = s.redirect_path;
        issued_session = none;
        reauthenticated_context = some context;
      } in
      let last : Exec L OidcCallbackResult = transaction m >> pure answer in
      let tested : ℕ → Exec L Unit =
        λ now. raise_if (ltb (oidc.reauth_freshness_seconds * 1000) (now - t)) oidc_reauth_stale in
      >>=-IsAtomic (draw env.utcnow) (λ now. tested now >> (draw env.utcnow >>= λ _. last))
        (λ w. (refl, refl))
        (λ now.
          >>=-IsAtomic (tested now) (λ _. draw env.utcnow >>= λ _. last) (λ w. (refl, refl))
            (λ _.
              >>=-IsAtomic (draw env.utcnow) (λ _. last) (λ w. (refl, refl))
                (λ _.
                  >>=-IsAtomic_last (transaction m) (λ _. pure answer) (transaction-IsAtomic m)
                    (λ a v e h. ground (arith, h)))))

  complete_reauth_callback-IsAtomic :
      (provider : OidcProviderSettings) (s : AuthOidcState) (claims : OidcVerifiedClaims)
      (current : Option AuthenticatedSessionContext) (ip ua : Option String)
      → IsAtomic (complete_reauth_callback env oidc {L = L} provider s claims current ip ua)
  unfolding complete_reauth_callback find_identity_by_provider_subject
  complete_reauth_callback-IsAtomic provider s claims none ip ua = λ w e outside h. refl
  complete_reauth_callback-IsAtomic provider s claims (some context) ip ua = λ w e outside h.
      ground (
        arith,
        h,
        outside,
        reauth_at-IsAtomic provider s context claims.auth_time ip ua w e outside,
      )

  pub exchange_and_complete-IsAtomic :
      (provider : OidcProviderSettings) (s : AuthOidcState) (code : String)
      (current : Option AuthenticatedSessionContext) (cur ip ua : Option String)
      → IsAtomic
          (exchange_and_complete env settings oidc client {L = L} provider s code current cur ip ua)
  unfolding exchange_and_complete complete_by_purpose
  exchange_and_complete-IsAtomic provider s code current cur ip ua =
      let validate : String → Exec L OidcVerifiedClaims = λ t.
        call (client.validate_id_token provider.provider_id t s.nonce_hash (is_reauth s.purpose)) in
      let complete : OidcVerifiedClaims → Exec L OidcCallbackResult = λ claims.
        complete_by_purpose env settings oidc client provider s claims current cur ip ua in
      >>=-IsAtomic (call (client.exchange_code provider.provider_id code s.pkce_verifier))
        (λ t. validate t >>= complete) (λ w. (refl, refl))
        (λ t.
          >>=-IsAtomic (validate t) complete (λ w. (refl, refl))
            (λ claims w e outside. elim (Bool-cases (is_reauth s.purpose)) [
              | inl reauth ↦
                  rw reauth
                    (complete_reauth_callback-IsAtomic provider s claims current ip ua w e outside)
              | inr login_it ↦
                  rw login_it
                    (complete_login_callback-IsAtomic provider s claims cur ip ua w e outside)
            ]))
