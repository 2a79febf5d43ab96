-- ===== src/Auth/Oidc/Replay.antt =====
-- The state of a callback is used up, whatever becomes of the callback.
use python_react_template.Prelude.{
  ℕ, ◌+◌, ◌≡◌, refl, sym, subst, ap, ◌∙◌, arith, String, true, Option, some, is_some,
}
use python_react_template.Store.Rows.{AuthOidcState}
use python_react_template.Store.Exec.{Env, World, Result, ok, err, oidc_state_mismatch, ◌>>=◌}
use python_react_template.Store.Exec.Laws.{transaction-runs, >>=-run, >>=-err}
use python_react_template.Store.AuthRepository.Oidc.{
  find_state, already_consumed, consume_oidc_authorization_state, consume_found,
}
use python_react_template.Auth.Settings.{AuthSettings}
use python_react_template.Auth.OidcSettings.{OidcProviderSettings, OidcSettings, get_provider}
use python_react_template.Auth.Usecase.Context.{AuthenticatedSessionContext}
use python_react_template.Auth.Oidc.Client.{OidcProviderClient, OidcCallbackResult}
use python_react_template.Auth.Oidc.Start.{configured}
use python_react_template.Auth.Oidc.State.{accept_state, consume_callback_state}
use python_react_template.Auth.Oidc.Callback.{attempt_callback, complete_callback}
use python_react_template.Auth.Oidc.Presented.{consume_callback_state-IsPresented}
use python_react_template.Auth.Oidc.Frame.Callback.{attempt_callback-Keeps}

module _ (env : Env) {L : Type 0} where
  -- A state that is consumed in the table is refused.
  consume-again :
      (h b : String) (t : ℕ) (w : World L) {s : AuthOidcState}
      → find_state h w.db.oidc_states ≡ some s
      → is_some s.consumed_at ≡ true
      → (consume_oidc_authorization_state h b t w).0 ≡ ok (already_consumed s)
  unfolding consume_oidc_authorization_state consume_found
  consume-again h b t w found used = ground (arith, found, used)

  consume_callback_state-again :
      (provider : OidcProviderSettings) (state value : String) (w : World L) {s : AuthOidcState}
      → find_state (env.sha256 state) w.db.oidc_states ≡ some s
      → is_some s.consumed_at ≡ true
      → (consume_callback_state env provider state (some value) w).0 ≡ err oidc_state_mismatch
  unfolding consume_callback_state accept_state
  consume_callback_state-again provider state value w {s} found used =
      let t = env.utcnow w.calls in
      let w1 : World L = record w { calls = w.calls + 1 } in
      let m = consume_oidc_authorization_state {L = L} (env.sha256 state) (env.sha256 value) t in
      let (b, done, same) = transaction-runs m w1 (λ b.
        consume-again (env.sha256 state) (env.sha256 value) t (record w1 { in_transaction = b })
          found used) in
      ground (arith, done)

module _ (env : Env) (settings : AuthSettings) (oidc : OidcSettings) (client : OidcProviderClient)
    {L : Type 0} where
  complete_callback-provider :
      (provider_id state code : String) (cookie : Option String)
      (current : Option AuthenticatedSessionContext) (cur ip ua : Option String) (w : World L)
      {provider : OidcProviderSettings}
      → get_provider provider_id oidc.providers ≡ some provider
      → complete_callback env settings oidc client provider_id state code cookie current cur ip ua w
        ≡ (consume_callback_state env provider state cookie
              >>= attempt_callback env settings oidc client provider code current cur ip ua)
            w
  unfolding complete_callback
  complete_callback-provider provider_id state code cookie current cur ip ua w known =
      rw (known, configured) refl

  -- Once a callback has taken its state, every later callback with that state, for any configured
  -- provider, code, browser and session, is refused as a mismatch, whether the first callback
  -- succeeds or fails.
  pub complete_callback-once :
      (provider_id state code : String) (cookie : Option String)
      (current : Option AuthenticatedSessionContext) (cur ip ua : Option String) (w : World L)
      (later_id later_code value : String) (later_current : Option AuthenticatedSessionContext)
      (later_cur later_ip later_ua : Option String) {provider later_provider : OidcProviderSettings}
      {s : AuthOidcState}
      → get_provider provider_id oidc.providers ≡ some provider
      → (consume_callback_state env provider state cookie w).0 ≡ ok s
      → get_provider later_id oidc.providers ≡ some later_provider
      → (complete_callback env settings oidc client later_id state later_code
          (some value)
          later_current
          later_cur
          later_ip
          later_ua
          (complete_callback env settings oidc client provider_id state code cookie current cur ip
            ua w).1).0
        ≡ err oidc_state_mismatch
  complete_callback-once provider_id state code cookie current cur ip ua w later_id later_code value
        later_current later_cur later_ip later_ua {provider} {later_provider} {s} known taken
        later_known =
      let (presented, users, identities, row) =
        consume_callback_state-IsPresented env provider state cookie w taken in
      let used : is_some s.consumed_at ≡ true = ground (arith, presented.is_consumed) in
      let w1 = (consume_callback_state env provider state cookie w).1 in
      let w2 = (attempt_callback env settings oidc client provider code current cur ip ua s w1).1 in
      let still : find_state (env.sha256 state) w2.db.oidc_states ≡ some s =
        ap (find_state (env.sha256 state))
          (attempt_callback-Keeps env settings oidc client provider code current cur ip ua s w1)
        ∙ row in
      let refused = consume_callback_state-again env later_provider state value w2 still used in
      let first =
        complete_callback-provider provider_id state code cookie current cur ip ua w known
        ∙ >>=-run (consume_callback_state env provider state cookie)
            (attempt_callback env settings oidc client provider code current cur ip ua) w taken in
      subst
        (λ (v : World L).
          (complete_callback env settings oidc client later_id state later_code (some value)
            later_current later_cur later_ip later_ua v).0
          ≡ err oidc_state_mismatch)
        (sym (ap (λ (x : Result OidcCallbackResult × World L). x.1) first))
        (ap (λ (x : Result OidcCallbackResult × World L). x.0)
            (complete_callback-provider later_id state later_code (some value) later_current
              later_cur later_ip later_ua w2 later_known)
          ∙ >>=-err (consume_callback_state env later_provider state (some value))
              (attempt_callback env settings oidc client later_provider later_code later_current
                later_cur later_ip later_ua)
              w2 refused)
