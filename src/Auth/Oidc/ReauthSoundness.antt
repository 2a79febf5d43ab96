-- ===== src/Auth/Oidc/ReauthSoundness.antt =====
-- Whom a reauthentication callback that succeeds reauthenticates.
use python_react_template.Prelude.{
  ℕ, ◌+◌, ◌-◌, ◌*◌, ◌≤◌, ◌≡◌, refl, ap, inl, inr, arith, String, true, not, ◌||◌, ◌==◌, opt_eq,
  Option, none, some, ltb, Bool-cases, Option-cases,
}
use python_react_template.Store.Rows.{AuthIdentity, AuthOidcState, Db}
use python_react_template.Store.Exec.{Env, World, ok, transaction, pure}
use python_react_template.Store.Exec.Laws.{>>=-ok}
use python_react_template.Store.AuthRepository.Oidc.{find_identity_by_provider_subject}
use python_react_template.Auth.OidcSettings.{OidcProviderSettings, OidcSettings, OidcVerifiedClaims}
use python_react_template.Auth.Usecase.Context.{AuthenticatedSessionContext}
use python_react_template.Auth.Oidc.Client.{OidcCallbackResult}
use python_react_template.Auth.Oidc.Reauth.{
  is_of_other, record_reauth, reauth_at, complete_reauth_callback,
}
use python_react_template.Auth.Oidc.Entitled.{identity_of}

-- The current user was reauthenticated by an identity of that user, in the session for which the
-- state was made, at a time that is fresh enough.
pub record IsReauthenticated (oidc : OidcSettings) (provider : OidcProviderSettings)
    (s : AuthOidcState) (claims : OidcVerifiedClaims) (d : Db)
    (current : Option AuthenticatedSessionContext) (r : OidcCallbackResult) (now : ℕ) : Type 0 where
  pub context : AuthenticatedSessionContext
  pub is_current : current ≡ some context
  pub user : s.expected_user_id ≡ some context.user.id
  pub session : s.expected_session_id ≡ some context.session.id
  pub identity : AuthIdentity
  pub is_found : identity_of provider claims d ≡ some identity
  pub is_own : identity.user_id ≡ context.user.id
  pub auth_time : ℕ
  pub has_time : claims.auth_time ≡ some auth_time
  pub is_fresh : now - auth_time ≤ oidc.reauth_freshness_seconds * 1000
  pub no_session : r.issued_session ≡ none
  pub is_answer : r.reauthenticated_context ≡ some context

opt_eq-some : (o : Option ℕ) (n : ℕ) → opt_eq o (some n) ≡ true → o ≡ some n
opt_eq-some none n e = absurd (ground (arith, e))
opt_eq-some (some m) n e = ap some (ground (arith, e))

module _ (env : Env) (oidc : OidcSettings) {L : Type 0} where
  reauth_at-fresh :
      (provider : OidcProviderSettings) (s : AuthOidcState) (context : AuthenticatedSessionContext)
      (o : Option ℕ) (ip ua : Option String) (w : World L) {r : OidcCallbackResult}
      → (reauth_at env oidc provider s context o ip ua w).0 ≡ ok r
      → (t : ℕ) × (o ≡ some t)
        × (env.utcnow w.calls - t ≤ oidc.reauth_freshness_seconds * 1000)
        × (r.issued_session ≡ none)
        × (r.reauthenticated_context ≡ some context)
  unfolding reauth_at
  reauth_at-fresh provider s context none ip ua w h = cc
  reauth_at-fresh provider s context (some t) ip ua w {r} h =
      elim (Bool-cases (ltb (oidc.reauth_freshness_seconds * 1000) (env.utcnow w.calls - t))) [
        | inl stale ↦ absurd (cc (rw stale at h))
        | inr fresh ↦
            let m = transaction (record_reauth env oidc provider s context t ip ua) in
            let answer : OidcCallbackResult = record {
              redirect_path = s.redirect_path;
              issued_session = none;
              reauthenticated_context = some context;
            } in
            let w2 : World L = record w { calls = w.calls + 1 + 1 } in
            let (a, recorded, rest, same) = >>=-ok m (λ _. pure answer) w2 (rw fresh at h) in
            (t, refl, ground (arith, fresh), ground (arith, rest), ground (arith, rest))
      ]

  pub complete_reauth_callback-user :
      (provider : OidcProviderSettings) (s : AuthOidcState) (claims : OidcVerifiedClaims)
      (current : Option AuthenticatedSessionContext) (ip ua : Option String) (w : World L)
      {r : OidcCallbackResult}
      → (complete_reauth_callback env oidc provider s claims current ip ua w).0 ≡ ok r
      → IsReauthenticated oidc provider s claims w.db current r (env.utcnow w.calls)
  unfolding complete_reauth_callback find_identity_by_provider_subject is_of_other
  complete_reauth_callback-user provider s claims none ip ua w h = cc
  complete_reauth_callback-user provider s claims (some context) ip ua w {r} h =
      elim (Bool-cases (
        not (opt_eq s.expected_user_id (some context.user.id))
        || not (opt_eq s.expected_session_id (some context.session.id)))) [
          | inl other ↦ absurd (cc (rw other at h))
          | inr expected ↦ elim (Option-cases (identity_of provider claims w.db)) [
            | inl absent ↦ absurd (cc (rw (expected, absent) at h))
            | inr (i, found) ↦ elim (Bool-cases (i.user_id == context.user.id)) [
              | inr foreign ↦ absurd (cc (rw (expected, found, foreign) at h))
              | inl own ↦
                  let (t, has_time, fresh, no_session, answer) =
                    reauth_at-fresh provider s context claims.auth_time ip ua w
                      (rw (expected, found, own) at h) in
                  record {
                    context = context;
                    is_current = refl;
                    user =
                        opt_eq-some s.expected_user_id context.user.id (ground (arith, expected));
                    session =
                        opt_eq-some s.expected_session_id context.session.id
                          (ground (arith, expected));
                    identity = i;
                    is_found = found;
                    is_own = ground (arith, own);
                    auth_time = t;
                    has_time = has_time;
                    is_fresh = fresh;
                    no_session = no_session;
                    is_answer = answer;
                  }
            ]
          ]
        ]
