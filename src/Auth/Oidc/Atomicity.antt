-- ===== src/Auth/Oidc/Atomicity.antt =====
-- What a callback that raises leaves behind.
use python_react_template.Prelude.{
  ℕ, ◌+◌, ◌≡◌, refl, ap, ◌∙◌, inl, inr, arith, String, false, Option, none, some, Option-cases,
}
use python_react_template.Store.Rows.{AuthOidcState, Db}
use python_react_template.Store.Exec.{
  Env, Error, Exec, World, Result, ok, err, draw, transaction, continue, ◌>>=◌,
}
use python_react_template.Store.Exec.Frame.{Keeps, transaction-Keeps, >>=-Keeps}
use python_react_template.Store.AuthRepository.AuditLogs.{create_audit_log}
use python_react_template.Store.AuthRepository.Oidc.{
  ConsumeResult, state_mismatch, already_consumed, expired, browser_binding_mismatch, consumed,
  consume_oidc_authorization_state,
}
use python_react_template.Auth.Settings.{AuthSettings}
use python_react_template.Auth.OidcSettings.{OidcProviderSettings, OidcSettings, get_provider}
use python_react_template.Auth.Usecase.Context.{AuthenticatedSessionContext}
use python_react_template.Auth.Oidc.Client.{OidcProviderClient, OidcCallbackResult}
use python_react_template.Auth.Oidc.Start.{configured}
use python_react_template.Auth.Oidc.State.{
  accept_state, consume_callback_state, audit_failure, audit_oidc_failure,
}
use python_react_template.Auth.Oidc.Callback.{
  on_error, exchange_and_complete, fail_callback, attempt_callback, complete_callback,
}
use python_react_template.Auth.Oidc.Presented.{consume-same}
use python_react_template.Store.Exec.Atomic.{transaction-outside}
use python_react_template.Auth.Oidc.Completion.{exchange_and_complete-IsAtomic}

-- The users, sessions, identities and roles are the same.
pub record IsSameButLogs (d d' : Db) : Type 0 where
  pub users : d'.users ≡ d.users
  pub sessions : d'.sessions ≡ d.sessions
  pub identities : d'.identities ≡ d.identities
  pub roles : d'.roles ≡ d.roles

module _ (env : Env) (settings : AuthSettings) (oidc : OidcSettings) (client : OidcProviderClient)
    {L : Type 0} where
  fail_callback-same :
      (provider : OidcProviderSettings) (s : AuthOidcState)
      (current : Option AuthenticatedSessionContext) (ip ua : Option String) (x : Error) (d : Db)
      (w : World L)
      → w.db ≡ d
      → IsSameButLogs d
          (fail_callback env settings oidc client {L = L} {A = OidcCallbackResult} provider s
            current ip ua x w).1.db
  unfolding fail_callback audit_failure audit_oidc_failure create_audit_log
  fail_callback-same provider s current ip ua x d w same = record {
    users = ground (arith, same);
    sessions = ground (arith, same);
    identities = ground (arith, same);
    roles = ground (arith, same);
  }

  on_error-same :
      (provider : OidcProviderSettings) (s : AuthOidcState)
      (current : Option AuthenticatedSessionContext) (ip ua : Option String) (d : Db)
      (r : Result OidcCallbackResult × World L) {e : Error}
      → ((x : Error) → r.0 ≡ err x → r.1.db ≡ d)
      → (on_error (fail_callback env settings oidc client provider s current ip ua) r).0 ≡ err e
      → IsSameButLogs d
          (on_error (fail_callback env settings oidc client provider s current ip ua) r).1.db
  unfolding on_error
  on_error-same provider s current ip ua d (ok a, w) kept h = cc
  on_error-same provider s current ip ua d (err x, w) kept h =
      fail_callback-same provider s current ip ua x d w (kept x refl)

  attempt_callback-same :
      (provider : OidcProviderSettings) (code : String)
      (current : Option AuthenticatedSessionContext) (cur ip ua : Option String) (s : AuthOidcState)
      (w : World L) {e : Error}
      → w.in_transaction ≡ false
      → (attempt_callback env settings oidc client provider code current cur ip ua s w).0 ≡ err e
      → IsSameButLogs w.db
          (attempt_callback env settings oidc client provider code current cur ip ua s w).1.db
  unfolding attempt_callback
  attempt_callback-same provider code current cur ip ua s w outside h =
      on_error-same provider s current ip ua w.db
        (exchange_and_complete env settings oidc client provider s code current cur ip ua w)
        (λ x.
          exchange_and_complete-IsAtomic env settings oidc client provider s code current cur ip ua
            w x outside)
        h

  accept_state-same :
      (provider : OidcProviderSettings) (c : ConsumeResult) (w : World L)
      → (accept_state env provider c w).1 ≡ w
  unfolding accept_state
  accept_state-same provider state_mismatch w = refl
  accept_state-same provider (already_consumed s) w = refl
  accept_state-same provider (expired s) w = refl
  accept_state-same provider (browser_binding_mismatch s) w = refl
  accept_state-same provider (consumed s) w = ground arith

  continue-accepted :
      (provider : OidcProviderSettings) (x : Result ConsumeResult × World L)
      → x.1.in_transaction ≡ false
      → (continue x (accept_state env provider)).1.in_transaction ≡ false
  continue-accepted provider (ok c, w) outside =
      ap (λ (v : World L). v.in_transaction) (accept_state-same provider c w) ∙ outside
  continue-accepted provider (err e, w) outside = outside

  -- Taking a state leaves each part alone that its transaction does.
  consume_callback_state-Keeps :
      {X : Type 0} (part : Db → X) (provider : OidcProviderSettings) (state : String)
      (cookie : Option String)
      → ((h b : String) (t : ℕ) → Keeps part (consume_oidc_authorization_state {L = L} h b t))
      → Keeps part (consume_callback_state env {L = L} provider state cookie)
  unfolding consume_callback_state
  consume_callback_state-Keeps part provider state none keeps = λ w. refl
  consume_callback_state-Keeps part provider state (some value) keeps =
      let taken : ℕ → Exec L ConsumeResult =
        λ t. consume_oidc_authorization_state (env.sha256 state) (env.sha256 value) t in
      >>=-Keeps part (draw env.utcnow) (λ t. transaction (taken t) >>= accept_state env provider)
        (λ w. refl)
        (λ t.
          >>=-Keeps part (transaction (taken t)) (accept_state env provider)
            (transaction-Keeps part (taken t) (keeps (env.sha256 state) (env.sha256 value) t))
            (λ c w. ap (λ (v : World L). part v.db) (accept_state-same provider c w)))

  consume_callback_state-outside :
      (provider : OidcProviderSettings) (state : String) (cookie : Option String) (w : World L)
      → w.in_transaction ≡ false
      → (consume_callback_state env provider state cookie w).1.in_transaction ≡ false
  unfolding consume_callback_state
  consume_callback_state-outside provider state none w outside = outside
  consume_callback_state-outside provider state (some value) w outside =
      let t = env.utcnow w.calls in
      let w1 : World L = record w { calls = w.calls + 1 } in
      let m =
        transaction (consume_oidc_authorization_state (env.sha256 state) (env.sha256 value) t) in
      continue-accepted provider (m w1) (
        transaction-outside
          (consume_oidc_authorization_state (env.sha256 state) (env.sha256 value) t) w1 outside)

  attempt_consumed :
      (provider : OidcProviderSettings) (code : String)
      (current : Option AuthenticatedSessionContext) (cur ip ua : Option String)
      (x : Result AuthOidcState × World L) (d : Db) {e : Error}
      → x.1.in_transaction ≡ false
      → IsSameButLogs d x.1.db
      → (continue x (attempt_callback env settings oidc client provider code current cur ip ua)).0
        ≡ err e
      → IsSameButLogs d
          (continue x
            (attempt_callback env settings oidc client provider code current cur ip ua)).1.db
  attempt_consumed provider code current cur ip ua (err y, w) d outside same h = same
  attempt_consumed provider code current cur ip ua (ok s, w) d outside same h =
      let after = attempt_callback-same provider code current cur ip ua s w outside h in
      record {
        users = after.users ∙ same.users;
        sessions = after.sessions ∙ same.sessions;
        identities = after.identities ∙ same.identities;
        roles = after.roles ∙ same.roles;
      }

  -- A callback that raises, outside a transaction, changes no user, session, identity or role.
  pub complete_callback-atomic :
      (provider_id state code : String) (cookie : Option String)
      (current : Option AuthenticatedSessionContext) (cur ip ua : Option String) (w : World L)
      {e : Error}
      → w.in_transaction ≡ false
      → (complete_callback env settings oidc client provider_id state code cookie current cur ip ua
          w).0
        ≡ err e
      → IsSameButLogs w.db
          (complete_callback env settings oidc client provider_id state code cookie current cur ip
            ua w).1.db
  unfolding complete_callback
  complete_callback-atomic provider_id state code cookie current cur ip ua w {e} outside h =
      elim (Option-cases (get_provider provider_id oidc.providers)) [
        | inl unknown ↦
            rw (unknown, configured)
              (record { users = refl; sessions = refl; identities = refl; roles = refl })
        | inr (provider, known) ↦
            rw (known, configured)
              (attempt_consumed provider code current cur ip ua
                (consume_callback_state env provider state cookie w) w.db
                (consume_callback_state-outside provider state cookie w outside)
                (record {
                  users =
                      consume_callback_state-Keeps (λ (d : Db). d.users) provider state cookie
                        (λ h b t v. (consume-same env h b t v).0) w;
                  sessions =
                      consume_callback_state-Keeps (λ (d : Db). d.sessions) provider state cookie
                        (λ h b t v. (consume-same env h b t v).2) w;
                  identities =
                      consume_callback_state-Keeps (λ (d : Db). d.identities) provider state cookie
                        (λ h b t v. (consume-same env h b t v).1) w;
                  roles =
                      consume_callback_state-Keeps (λ (d : Db). d.roles) provider state cookie
                        (λ h b t v. (consume-same env h b t v).3) w;
                })
                (rw (known, configured) at h))
      ]
