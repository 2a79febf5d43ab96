-- ===== src/Auth/Oidc/Soundness.antt =====
-- What a callback that succeeds was given.
use python_react_template.Prelude.{
  ℕ, ◌+◌, ◌≡◌, ◌≢◌, ◌⊎◌, inl, inr, arith, String, true, false, Option, some, Bool-cases,
  Option-cases,
}
use python_react_template.Store.Rows.{AuthOidcState, Db}
use python_react_template.Store.Exec.{Env, Error, Exec, World, Result, ok, err, ◌>>=◌}
use python_react_template.Store.Exec.Laws.{>>=-ok}
use python_react_template.Auth.Settings.{AuthSettings}
use python_react_template.Auth.OidcSettings.{OidcProviderSettings, OidcSettings, OidcVerifiedClaims}
use python_react_template.Auth.Usecase.Context.{AuthenticatedSessionContext}
use python_react_template.Auth.Oidc.Client.{OidcCallbackResult}
use python_react_template.Auth.Oidc.ReauthSoundness.{
  IsReauthenticated, complete_reauth_callback-user,
}
use python_react_template.Auth.Oidc.Presented.{IsPresented, consume_callback_state-IsPresented}
use python_react_template.Auth.Oidc.LoginSoundness.{IsLoggedIn, complete_login_callback-user}
use python_react_template.Auth.Oidc.Callback.{
  on_error, complete_by_purpose, exchange_and_complete, fail_callback, attempt_callback,
  complete_callback,
}
use python_react_template.Auth.Oidc.State.{consume_callback_state}
use python_react_template.Auth.Oidc.Client.{OidcProviderClient, call}
use python_react_template.Auth.Oidc.Start.{configured, is_reauth}
use python_react_template.Auth.OidcSettings.{get_provider}
use python_react_template.Auth.Oidc.Entitled.{IsEntitled-same}

-- By a login a user entitled to it has a session of their own, by the tokens issued; by a
-- reauthentication the current user is reauthenticated at a time.
abbrev pub IsCompleted :
    Env
    → OidcSettings
    → OidcProviderSettings
    → AuthOidcState
    → OidcVerifiedClaims
    → Db
    → Option AuthenticatedSessionContext
    → OidcCallbackResult
    → ℕ
    → Type 0
IsCompleted env oidc provider s claims d current r now =
    (is_reauth s.purpose ≡ false) × IsLoggedIn env provider claims d r.issued_session
    ⊎ (is_reauth s.purpose ≡ true) × IsReauthenticated oidc provider s claims d current r now

-- The identity token of the state's nonce that was validated, by the number of the call.
abbrev pub IsValidated :
    OidcProviderClient → OidcProviderSettings → AuthOidcState → OidcVerifiedClaims → ℕ → Type 0
IsValidated client provider s claims n =
    (id_token : String) × (client.validate_id_token provider.provider_id id_token s.nonce_hash
        (is_reauth s.purpose) n
      ≡ ok claims)

IsCompleted-same :
    (env : Env) (oidc : OidcSettings) (provider : OidcProviderSettings) (s : AuthOidcState)
    (claims : OidcVerifiedClaims) (d d' : Db) (current : Option AuthenticatedSessionContext)
    (r : OidcCallbackResult) (now : ℕ)
    → d'.users ≡ d.users
    → d'.identities ≡ d.identities
    → IsCompleted env oidc provider s claims d' current r now
    → IsCompleted env oidc provider s claims d current r now
IsCompleted-same env oidc provider s claims d d' current r now users identities
      (inl (purpose, (issued, u, is_issued, id, own, entitled))) =
    inl (
      purpose,
      (
        issued,
        u,
        is_issued,
        id,
        own,
        IsEntitled-same env provider claims d d' u users identities entitled,
      ),
    )
IsCompleted-same env oidc provider s claims d d' current r now users identities (inr (purpose, x)) =
    inr (
      purpose,
      record {
        context = x.context;
        is_current = x.is_current;
        user = x.user;
        session = x.session;
        identity = x.identity;
        is_found = rw identities at x.is_found;
        is_own = x.is_own;
        auth_time = x.auth_time;
        has_time = x.has_time;
        is_fresh = x.is_fresh;
        no_session = x.no_session;
        is_answer = x.is_answer;
      },
    )

module _ {L A : Type 0} where
  on_error-ok :
      (handler : Error → Exec L A) (x : Result A × World L) {a : A}
      → ((e : Error) (v : World L) → (handler e v).0 ≢ ok a)
      → (on_error handler x).0 ≡ ok a
      → x.0 ≡ ok a
  unfolding on_error
  on_error-ok handler (ok b, w) never h = h
  on_error-ok handler (err e, w) never h = absurd (never e w h)

module _ (env : Env) (settings : AuthSettings) (oidc : OidcSettings) (client : OidcProviderClient)
    {L : Type 0} where
  fail_callback-err :
      {A : Type 0} (provider : OidcProviderSettings) (s : AuthOidcState)
      (current : Option AuthenticatedSessionContext) (ip ua : Option String) (e : Error)
      (w : World L) {a : A}
      → (fail_callback env settings oidc client provider s current ip ua e w).0 ≢ ok a
  unfolding fail_callback
  fail_callback-err provider s current ip ua e w h = ground (arith, h)

  complete_by_purpose-IsCompleted :
      (provider : OidcProviderSettings) (s : AuthOidcState) (claims : OidcVerifiedClaims)
      (current : Option AuthenticatedSessionContext) (cur ip ua : Option String) (w : World L)
      {r : OidcCallbackResult}
      → (complete_by_purpose env settings oidc client provider s claims current cur ip ua w).0
        ≡ ok r
      → IsCompleted env oidc provider s claims w.db current r (env.utcnow w.calls)
  unfolding complete_by_purpose
  complete_by_purpose-IsCompleted provider s claims current cur ip ua w h =
      elim (Bool-cases (is_reauth s.purpose)) [
        | inr login_it ↦ inl (
          login_it,
          complete_login_callback-user env settings provider s claims cur ip ua w
              (rw login_it at h),
        )
        | inl reauth ↦ inr (
          reauth,
          complete_reauth_callback-user env oidc provider s claims current ip ua w (rw reauth at h),
        )
      ]

  exchange-IsCompleted :
      (provider : OidcProviderSettings) (s : AuthOidcState) (code : String)
      (current : Option AuthenticatedSessionContext) (cur ip ua : Option String) (w : World L)
      {r : OidcCallbackResult}
      → (exchange_and_complete env settings oidc client provider s code current cur ip ua w).0
        ≡ ok r
      → (claims : OidcVerifiedClaims) × (n : ℕ) × IsValidated client provider s claims n
        × IsCompleted env oidc provider s claims w.db current r (env.utcnow (n + 1))
  unfolding exchange_and_complete
  exchange-IsCompleted provider s code current cur ip ua w h =
      let validate = λ (t : String).
        client.validate_id_token provider.provider_id t s.nonce_hash (is_reauth s.purpose) in
      let complete = λ (claims : OidcVerifiedClaims).
        complete_by_purpose env settings oidc client {L = L} provider s claims current cur ip ua in
      let (t, exchanged, rest, same) =
        >>=-ok (call (client.exchange_code provider.provider_id code s.pkce_verifier))
          (λ t. call (validate t) >>= complete) w h in
      let w1 : World L = record w { calls = w.calls + 1 } in
      let (claims, validated, rest2, same2) = >>=-ok (call (validate t)) complete w1 rest in
      (
        claims,
        w.calls + 1,
        (t, validated),
        complete_by_purpose-IsCompleted provider s claims current cur ip ua
            (record w1 { calls = w.calls + 1 + 1 }) rest2,
      )

  -- A callback that succeeds is of a configured provider, and of a state that was unused, not
  -- expired, of the browser that presents it and of that provider. The provider's identity token
  -- was validated with the state's nonce. If the state is for a login, the user issued is
  -- entitled to the identity, and the session issued is that user's own and has the hashes of the
  -- tokens issued; else the current user, for whom and whose session the state was
  -- made, was reauthenticated by an own identity, freshly, and no session is issued.
  pub complete_callback-IsCompleted :
      (provider_id state code : String) (cookie : Option String)
      (current : Option AuthenticatedSessionContext) (cur ip ua : Option String) (w : World L)
      {r : OidcCallbackResult}
      → (complete_callback env settings oidc client provider_id state code cookie current cur ip ua
          w).0
        ≡ ok r
      → (provider : OidcProviderSettings) × (get_provider provider_id oidc.providers
          ≡ some provider)
        × (s : AuthOidcState) × IsPresented env provider state cookie w.db (env.utcnow w.calls) s
        × (claims : OidcVerifiedClaims) × (n : ℕ) × IsValidated client provider s claims n
        × IsCompleted env oidc provider s claims w.db current r (env.utcnow (n + 1))
  unfolding complete_callback attempt_callback
  complete_callback-IsCompleted provider_id state code cookie current cur ip ua w {r} h =
      elim (Option-cases (get_provider provider_id oidc.providers)) [
        | inl unknown ↦ absurd (cc (rw (unknown, configured) at h))
        | inr (provider, known) ↦
            let attempt =
              attempt_callback env settings oidc client {L = L} provider code current cur ip ua in
            let (s, taken, rest, same) =
              >>=-ok (consume_callback_state env provider state cookie) attempt w
                (rw (known, configured) at h) in
            let (presented, users, identities, row) =
              consume_callback_state-IsPresented env provider state cookie w taken in
            let w1 = (consume_callback_state env provider state cookie w).1 in
            let inner =
              on_error-ok (fail_callback env settings oidc client provider s current ip ua)
                (exchange_and_complete env settings oidc client provider s code current cur ip ua
                  w1)
                (λ e v. fail_callback-err provider s current ip ua e v) rest in
            let (claims, n, validated, completed) =
              exchange-IsCompleted provider s code current cur ip ua w1 inner in
            (
              provider,
              known,
              s,
              presented,
              claims,
              n,
              validated,
              IsCompleted-same env oidc provider s claims w.db w1.db current r (env.utcnow (n + 1))
                  users identities completed,
            )
      ]
