-- ===== src/Auth/AccountDeletion/Deletion.antt =====
-- Who may delete an account, and what is left of it.
use python_react_template.Prelude.{
  ℕ, ◌+◌, ◌-◌, ◌*◌, ◌≤◌, ◌≡◌, ◌≢◌, subst, eq_iff, refl, ap, ◌∙◌, inl, inr, arith, String, true,
  Option, none, some, str_eq, Bool-cases,
}
use python_react_template.Store.Exec.{Env, World, Result, ok, ◌>>=◌}
use python_react_template.Store.Exec.Laws.{transaction-committed, >>=-ok}
use python_react_template.RateLimit.Interface.{LoginRateLimiter}
use python_react_template.Auth.Settings.{AuthSettings, truthy, rate_limit_ip}
use python_react_template.Auth.OidcSettings.{OidcSettings}
use python_react_template.Auth.Usecase.Context.{AuthenticatedSessionContext}
use python_react_template.Auth.AccountDeletion.Erasure.{IsErased, erase_user-erases}
use python_react_template.Auth.AccountDeletion.{
  erase_user, erase_account, delete_account, reauthenticate, check_given, refuse_password,
  require_fresh_oidc_reauth, refuse_oidc_reauth,
}

-- The user's password was given, or the session had a fresh OIDC authentication at a time and the
-- user has no password.
pub data IsReauthenticated (env : Env) (oidc : OidcSettings) (context : AuthenticatedSessionContext)
    (password : Option String) (now : ℕ) : Type 0 where
  by_password :
      (hash given : String)
      → context.user.password_hash ≡ some hash
      → truthy password ≡ some given
      → env.verify_password given hash ≡ true
      → IsReauthenticated env oidc context password now
  by_oidc :
      (auth_time : ℕ)
      → context.user.password_hash ≡ none
      → context.session.last_oidc_authenticated_at ≡ some auth_time
      → now - auth_time ≤ oidc.reauth_freshness_seconds * 1000
      → IsReauthenticated env oidc context password now

module _ (env : Env) (oidc : OidcSettings) {L : Type 0} where
  refuse_oidc_reauth-err : (i : ℕ) (w : World L) → (refuse_oidc_reauth env oidc i w).0 ≢ ok tt
  unfolding refuse_oidc_reauth
  refuse_oidc_reauth-err i w h = ground arith

  require_fresh-ok :
      (i : ℕ) (o : Option ℕ) (w : World L)
      → (require_fresh_oidc_reauth env oidc i o w).0 ≡ ok tt
      → (t : ℕ) × (o ≡ some t)
        × (env.utcnow w.calls - t ≤ oidc.reauth_freshness_seconds * 1000)
        × ((require_fresh_oidc_reauth env oidc i o w).1.db ≡ w.db)
  unfolding require_fresh_oidc_reauth
  require_fresh-ok i none w h = absurd (refuse_oidc_reauth-err i w h)
  require_fresh-ok i (some t) w h =
      let refused = refuse_oidc_reauth-err i (record w { calls = w.calls + 1 }) in
      (t, refl, ground (arith, refused), ground (arith, refused))

module _ (R : LoginRateLimiter) (env : Env) (settings : AuthSettings) (oidc : OidcSettings) where
  check_given-ok :
      (context : AuthenticatedSessionContext) (hash ip e : String) (o a ua : Option String)
      (w : World R.State)
      → (check_given R env settings oidc context hash ip e o a ua w).0 ≡ ok tt
      → (given : String) × (o ≡ some given)
        × (env.verify_password given hash ≡ true)
        × ((check_given R env settings oidc context hash ip e o a ua w).1.db ≡ w.db)
  unfolding check_given refuse_password
  check_given-ok context hash ip e none a ua w h = cc
  check_given-ok context hash ip e (some given) a ua w h = (given, refl, ground arith, ground arith)

  reauthenticate-ok :
      (context : AuthenticatedSessionContext) (o : Option String) (e : String)
      (password a ua : Option String) (w : World R.State)
      → context.user.password_hash ≡ o
      → (reauthenticate R env settings oidc context o e password a ua w).0 ≡ ok tt
      → IsReauthenticated env oidc context password (env.utcnow w.calls)
        × ((reauthenticate R env settings oidc context o e password a ua w).1.db ≡ w.db)
  unfolding reauthenticate
  reauthenticate-ok context none e password a ua w has h =
      let (t, last, fresh, same) =
        require_fresh-ok env oidc context.user.id context.session.last_oidc_authenticated_at w h in
      (by_oidc t has last fresh, same)
  reauthenticate-ok context (some hash) e password a ua w has h =
      let ip = rate_limit_ip a in
      let answer = R.is_account_deletion_reauth_allowed ip e w.limiter in
      elim (Bool-cases answer.0) [
        | inl allowed ↦
            let (given, present, verified, same) =
              check_given-ok context hash ip e (truthy password) a ua
                (record w { limiter = answer.1 }) (rw allowed at h) in
            (by_password hash given has present verified, rw allowed same)
        | inr refused ↦ absurd (cc (rw refused at h))
      ]

  -- An account deletion that succeeds was confirmed with the user's email and reauthenticated, and
  -- has erased the user and nothing of anyone else.
  pub delete_account-erases :
      (context : AuthenticatedSessionContext) (confirm_email : String)
      (password a ua : Option String) (w : World R.State)
      → (delete_account R env settings oidc context confirm_email password a ua w).0 ≡ ok tt
      → (env.lower (env.strip context.user.email) ≡ env.lower (env.strip confirm_email))
        × IsReauthenticated env oidc context password (env.utcnow w.calls)
        × IsErased context.user.id w.db
            (delete_account R env settings oidc context confirm_email password a ua w).1.db
  unfolding delete_account erase_account
  delete_account-erases context confirm_email password a ua w h =
      let e = env.lower (env.strip context.user.email) in
      let m =
        reauthenticate R env settings oidc context context.user.password_hash e password a ua in
      elim (Bool-cases (str_eq e (env.lower (env.strip confirm_email)))) [
        | inr differs ↦ absurd (cc (rw differs at h))
        | inl confirmed ↦
            let (u, checked, rest, same) =
              >>=-ok m (λ _. erase_account R env settings oidc context a) w (rw confirmed at h) in
            let (may, unchanged) =
              reauthenticate-ok context context.user.password_hash e password a ua w refl checked in
            let r = (m w).1 in
            let t = env.utcnow r.calls in
            let (b, done, written) =
              transaction-committed (erase_user env context.user.id t context.session.id a)
                (record r { calls = r.calls + 1 }) rest in
            (
              (eq_iff e (env.lower (env.strip confirm_email))).0 confirmed,
              may,
              rw confirmed (
                  subst
                    (λ d.
                      IsErased context.user.id d
                        ((m >>= λ _. erase_account R env settings oidc context a) w).1.db)
                    unchanged
                    (erase_user-erases env context.user.id t context.session.id a
                      (record r { calls = r.calls + 1; in_transaction = b })
                      ((m >>= λ _. erase_account R env settings oidc context a) w).1.db done
                      (ap (λ (x : Result Unit × World R.State). x.1.db) same ∙ written))),
            )
      ]
