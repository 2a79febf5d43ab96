-- ===== src/Auth/Oidc/LoginSoundness.antt =====
-- Whom a login callback that succeeds logs in.
use python_react_template.Prelude.{
  ℕ, ◌+◌, ◌≡◌, sym, ap, subst, ◌∙◌, inl, inr, arith, String, ◌==◌, Option, some, List, find-passes,
  Option-cases,
}
use python_react_template.Store.Rows.{
  User, AuthSession, AuthEventType, AuthOidcState, Db, oidc_login_success,
}
use python_react_template.Store.Exec.{Env, Exec, World, ok, transaction, pure, ◌>>=◌, ◌>>◌}
use python_react_template.Store.Exec.Laws.{transaction-committed, >>=-ok}
use python_react_template.Store.AuthRepository.Users.{record_user_login, live_user, get_user}
use python_react_template.Store.AuthRepository.Sessions.{create_session}
use python_react_template.Store.AuthRepository.Oidc.{record_oidc_login}
use python_react_template.Auth.Settings.{AuthSettings, truthy}
use python_react_template.Auth.Issuer.{issue_session, revoke_current, replace_auth_session}
use python_react_template.Auth.OidcSettings.{OidcProviderSettings, OidcVerifiedClaims}
use python_react_template.Auth.Usecase.Context.{IssuedAuthSession}
use python_react_template.Auth.Oidc.Client.{OidcCallbackResult}
use python_react_template.Auth.Oidc.Resolve.{Resolved, resolve_login_user_and_identity}
use python_react_template.Auth.Oidc.State.{audit_setup, audit_success}
use python_react_template.Auth.Oidc.Login.{
  log_login, open_oidc_session, oidc_issued, login_transaction, complete_login_callback,
}
use python_react_template.Auth.Oidc.Entitled.{IsEntitled}
use python_react_template.Auth.Oidc.Entitlement.{resolve_login_user_and_identity-IsEntitled}

-- The session and tokens that are issued are of the user: the session is the user's own, and has
-- the hashes of the tokens.
abbrev pub IsIssuedTo : Env → ℕ → AuthSession → String → String → Type 0
IsIssuedTo env user_id session session_token csrf_token =
    (session.user_id ≡ user_id)
    × (session.session_token_hash ≡ env.sha256 session_token)
    × (session.csrf_token_hash ≡ env.sha256 csrf_token)

-- A user logged in by an identity is entitled to it, and is issued a session of their own.
abbrev pub IsLoggedIn :
    Env → OidcProviderSettings → OidcVerifiedClaims → Db → Option IssuedAuthSession → Type 0
IsLoggedIn env provider claims d o =
    (issued : IssuedAuthSession) × (u : User) × (o ≡ some issued)
    × (issued.user.id ≡ u.id)
    × IsIssuedTo env u.id issued.session issued.session_token issued.csrf_token
    × IsEntitled env provider claims d u

module _ (env : Env) (settings : AuthSettings) {L : Type 0} where
  record_user_login-id :
      (i t : ℕ) (w : World L) {u : User} → (record_user_login i t w).0 ≡ ok u → u.id ≡ i
  unfolding record_user_login get_user live_user
  record_user_login-id i t w {u} h = elim (Option-cases (get_user i w.db.users)) [
    | inl gone ↦ absurd (cc (rw gone at h))
    | inr (v, there) ↦
        let same : v.id ≡ i =
          ground (arith, find-passes (λ (r : User). r.id == i) w.db.users there) in
        ground (arith, rw there at h, same)
  ]

  issue_session-IsIssuedTo :
      (i : ℕ) (ip ua : Option String) (w : World L) {p : AuthSession × String × String}
      → (issue_session env settings i ip ua w).0 ≡ ok p
      → IsIssuedTo env i p.0 p.1 p.2
  unfolding issue_session create_session
  issue_session-IsIssuedTo i ip ua w {p} h =
      (ground (arith, h), ground (arith, h), ground (arith, h))

  replace_auth_session-IsIssuedTo :
      (user : User) (cur ip ua : Option String) (w : World L) {p : AuthSession × String × String}
      → (replace_auth_session env settings user cur ip ua w).0 ≡ ok p
      → IsIssuedTo env user.id p.0 p.1 p.2
  unfolding replace_auth_session
  replace_auth_session-IsIssuedTo user cur ip ua w h =
      let (_, _, rest, _) =
        >>=-ok (revoke_current env (truthy cur)) (λ _. issue_session env settings user.id ip ua) w
          h in
      issue_session-IsIssuedTo user.id ip ua (revoke_current env (truthy cur) w).1 rest

  log_login-user :
      (provider : OidcProviderSettings) (s : AuthOidcState) (setup : List AuthEventType) (u : User)
      (ip ua : Option String) (issued : AuthSession × String × String) (w : World L)
      {p : User × AuthSession × String × String}
      → (log_login env settings provider s setup u ip ua issued w).0 ≡ ok p
      → (u, issued.0, issued.1, issued.2) ≡ p
  unfolding log_login
  log_login-user provider s setup u ip ua (session, st, ct) w {p} h =
      let logs = audit_setup env setup u.id session.id provider.provider_id s.purpose ip ua in
      let last =
        audit_success env oidc_login_success u.id session.id provider.provider_id s.purpose ip ua in
      let (a, logged, rest, same) = >>=-ok logs (λ _. last >> pure (u, session, st, ct)) w h in
      let same_result : ok (u, session, st, ct) ≡ ok p = rest in cc

  open_oidc_session-user :
      (provider : OidcProviderSettings) (s : AuthOidcState) (claims : OidcVerifiedClaims)
      (cur ip ua : Option String) (r : Resolved) (w : World L)
      {p : User × AuthSession × String × String}
      → (open_oidc_session env settings provider s claims cur ip ua r w).0 ≡ ok p
      → (p.0.id ≡ r.0.id) × IsIssuedTo env r.0.id p.1 p.2 p.3
  unfolding open_oidc_session
  open_oidc_session-user provider s claims cur ip ua (v, identity, setup) w {p} h =
      let login_at = env.utcnow w.calls in
      let w1 : World L = record w { calls = w.calls + 1 } in
      let finish : User
          → AuthSession × String × String
          → Exec L (User × AuthSession × String × String) =
        λ user issued.
          record_oidc_login user.id identity.id issued.0.id login_at claims.auth_time
          >> log_login env settings provider s setup user ip ua issued in
      let (user, logged_in, rest, same) =
        >>=-ok (record_user_login v.id login_at)
          (λ user. replace_auth_session env settings user cur ip ua >>= finish user) w1 h in
      let w2 = (record_user_login v.id login_at w1).1 in
      let (issued, replaced, rest2, same2) =
        >>=-ok (replace_auth_session env settings user cur ip ua) (finish user) w2 rest in
      let w3 = (replace_auth_session env settings user cur ip ua w2).1 in
      let (a, recorded, rest3, same3) =
        >>=-ok (record_oidc_login user.id identity.id issued.0.id login_at claims.auth_time)
          (λ _. log_login env settings provider s setup user ip ua issued) w3 rest2 in
      let id = record_user_login-id v.id login_at w1 logged_in in
      subst
        (λ (q : User × AuthSession × String × String).
          (q.0.id ≡ v.id) × IsIssuedTo env v.id q.1 q.2 q.3)
        (log_login-user provider s setup user ip ua issued _ rest3)
        (
          id,
          subst (λ i. IsIssuedTo env i issued.0 issued.1 issued.2) id
              (replace_auth_session-IsIssuedTo user cur ip ua w2 replaced),
        )

  login_transaction-user :
      (provider : OidcProviderSettings) (s : AuthOidcState) (claims : OidcVerifiedClaims)
      (cur ip ua : Option String) (w : World L) {p : User × AuthSession × String × String}
      → (login_transaction env settings provider s claims cur ip ua w).0 ≡ ok p
      → (u : User) × (p.0.id ≡ u.id)
        × IsIssuedTo env u.id p.1 p.2 p.3
        × IsEntitled env provider claims w.db u
  unfolding login_transaction
  login_transaction-user provider s claims cur ip ua w h =
      let (r, resolved, rest, same) =
        >>=-ok (resolve_login_user_and_identity env provider claims s.language_code)
          (open_oidc_session env settings provider s claims cur ip ua) w h in
      let (id, own) = open_oidc_session-user provider s claims cur ip ua r _ rest in
      (
        r.0,
        id,
        own,
        resolve_login_user_and_identity-IsEntitled env provider claims s.language_code w resolved,
      )

  oidc_issued-user :
      (s : AuthOidcState) (p : User × AuthSession × String × String) (w : World L)
      {r : OidcCallbackResult}
      → (oidc_issued env settings s p w).0 ≡ ok r
      → (issued : IssuedAuthSession) × (r.issued_session ≡ some issued)
        × ((issued.user, issued.session, issued.session_token, issued.csrf_token) ≡ p)
  unfolding oidc_issued
  oidc_issued-user s (u, session, st, ct) w {r} h = elim (Option-cases r.issued_session) [
    | inl none_issued ↦ absurd (ground (arith, h, none_issued))
    | inr (issued, e) ↦ (issued, e, ground (arith, h, e))
  ]

  pub complete_login_callback-user :
      (provider : OidcProviderSettings) (s : AuthOidcState) (claims : OidcVerifiedClaims)
      (cur ip ua : Option String) (w : World L) {r : OidcCallbackResult}
      → (complete_login_callback env settings provider s claims cur ip ua w).0 ≡ ok r
      → IsLoggedIn env provider claims w.db r.issued_session
  unfolding complete_login_callback
  complete_login_callback-user provider s claims cur ip ua w h =
      let m = login_transaction env settings provider s claims cur ip ua in
      let (p, opened, rest, same) = >>=-ok (transaction m) (oidc_issued env settings s) w h in
      let (t, done, written) = transaction-committed m w opened in
      let (u, id, own, entitled) =
        login_transaction-user provider s claims cur ip ua (record w { in_transaction = t }) done in
      let (issued, is_issued, user) = oidc_issued-user s p (transaction m w).1 rest in
      (
        issued,
        u,
        is_issued,
        ap (λ (q : User × AuthSession × String × String). q.0.id) user ∙ id,
        subst (λ (q : User × AuthSession × String × String). IsIssuedTo env u.id q.1 q.2 q.3)
            (sym user) own,
        entitled,
      )
