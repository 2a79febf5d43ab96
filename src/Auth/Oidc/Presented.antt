-- ===== src/Auth/Oidc/Presented.antt =====
-- The state that a callback consumes.
use python_react_template.Prelude.{
  ℕ, ◌+◌, ◌≡◌, refl, subst, ap, ◌∙◌, inl, inr, arith, String, false, Option, none, some, leb,
  str_eq, eq_iff, Bool-cases, Option-cases,
}
use python_react_template.Store.Rows.{AuthOidcState, Db}
use python_react_template.Store.Exec.{Env, World, Result, ok, transaction}
use python_react_template.Store.Exec.Laws.{transaction-committed, >>=-ok}
use python_react_template.Store.AuthRepository.Oidc.Consume.{consume_oidc_authorization_state-once}
use python_react_template.Auth.OidcSettings.{OidcProviderSettings}
use python_react_template.Store.AuthRepository.Oidc.{
  find_state, consume_oidc_authorization_state, consume_found, ConsumeResult, state_mismatch,
  already_consumed, expired, browser_binding_mismatch, consumed,
}
use python_react_template.Auth.Oidc.State.{accept_state, consume_callback_state}

-- What a callback's state was: unused, not expired, of the browser that presents it, and of the
-- provider.
pub record IsPresented (env : Env) (provider : OidcProviderSettings) (state : String)
    (cookie : Option String) (d : Db) (now : ℕ) (s : AuthOidcState) : Type 0 where
  pub value : String
  pub has_cookie : cookie ≡ some value
  pub row : AuthOidcState
  pub is_found : find_state (env.sha256 state) d.oidc_states ≡ some row
  pub is_unused : row.consumed_at ≡ none
  pub is_unexpired : leb row.expires_at now ≡ false
  pub is_bound : row.browser_binding_hash ≡ env.sha256 value
  pub is_of_provider : s.provider_id ≡ provider.provider_id
  pub is_consumed : s ≡ record row { consumed_at = some now }

module _ (env : Env) {L : Type 0} where
  accept_state-consumed :
      (provider : OidcProviderSettings) (c : ConsumeResult) (w : World L) {s : AuthOidcState}
      → (accept_state env provider c w).0 ≡ ok s
      → (c ≡ consumed s)
        × (s.provider_id ≡ provider.provider_id)
        × ((accept_state env provider c w).1 ≡ w)
  unfolding accept_state
  accept_state-consumed provider state_mismatch w h = cc
  accept_state-consumed provider (already_consumed r) w h = cc
  accept_state-consumed provider (expired r) w h = cc
  accept_state-consumed provider (browser_binding_mismatch r) w h = cc
  accept_state-consumed provider (consumed r) w {s} h =
      elim (Bool-cases (str_eq r.provider_id provider.provider_id)) [
        | inr other ↦ absurd (cc (rw other at h))
        | inl own ↦
            let same : ok r ≡ ok s = rw own at h in
            let row : r ≡ s = cc in
            (
              ap consumed row,
              subst (λ (x : AuthOidcState). x.provider_id ≡ provider.provider_id) row
                  ((eq_iff r.provider_id provider.provider_id).0 own),
              rw own refl,
            )
      ]

  pub consume-same :
      (h b : String) (t : ℕ) (w : World L)
      → let d = (consume_oidc_authorization_state h b t w).1.db in
        (d.users ≡ w.db.users)
        × (d.identities ≡ w.db.identities)
        × (d.sessions ≡ w.db.sessions)
        × (d.roles ≡ w.db.roles)
  unfolding consume_oidc_authorization_state consume_found
  consume-same h b t w = ground arith

  already-row :
      (h b : String) (t : ℕ) (w : World L) {s : AuthOidcState}
      → (consume_oidc_authorization_state h b t w).0 ≡ ok (already_consumed s)
      → find_state h w.db.oidc_states ≡ some s
  unfolding consume_oidc_authorization_state consume_found
  already-row h b t w {s} e = elim (Option-cases (find_state h w.db.oidc_states)) [
    | inl absent ↦ absurd (ground (arith, absent, e))
    | inr (r, there) ↦ ground (arith, there, e)
  ]

  pub consume_callback_state-IsPresented :
      (provider : OidcProviderSettings) (state : String) (cookie : Option String) (w : World L)
      {s : AuthOidcState}
      → (consume_callback_state env provider state cookie w).0 ≡ ok s
      → IsPresented env provider state cookie w.db (env.utcnow w.calls) s
        × ((consume_callback_state env provider state cookie w).1.db.users ≡ w.db.users)
        × ((consume_callback_state env provider state cookie w).1.db.identities ≡ w.db.identities)
        × (find_state
              (env.sha256 state)
              (consume_callback_state env provider state cookie w).1.db.oidc_states
            ≡ some s)
  unfolding consume_callback_state
  consume_callback_state-IsPresented provider state none w h = cc
  consume_callback_state-IsPresented provider state (some value) w {s} h =
      let t = env.utcnow w.calls in
      let w1 : World L = record w { calls = w.calls + 1 } in
      let m = consume_oidc_authorization_state (env.sha256 state) (env.sha256 value) t in
      let (c, done, rest, same) = >>=-ok (transaction m) (accept_state env provider) w1 h in
      let (b, ran, written) = transaction-committed m w1 done in
      let w2 : World L = record w1 { in_transaction = b } in
      let (is_consumed, of_provider, kept) =
        accept_state-consumed provider c (transaction m w1).1 rest in
      let (row, found, unused, unexpired, bound, consumed_row, again) =
        consume_oidc_authorization_state-once (env.sha256 state) (env.sha256 value) t
          (env.sha256 value) t w2 {s = s} (ran ∙ ap ok is_consumed) in
      let (users, identities, sessions, roles) =
        consume-same (env.sha256 state) (env.sha256 value) t w2 in
      let after =
        ap (λ (x : Result AuthOidcState × World L). x.1.db) same
        ∙ ap (λ (x : World L). x.db) kept
        ∙ written in
      (
        record {
          value = value;
          has_cookie = refl;
          row = row;
          is_found = found;
          is_unused = unused;
          is_unexpired = unexpired;
          is_bound = bound;
          is_of_provider = of_provider;
          is_consumed = consumed_row;
        },
        ap (λ (d : Db). d.users) after ∙ users,
        ap (λ (d : Db). d.identities) after ∙ identities,
        ap (λ (d : Db). find_state (env.sha256 state) d.oidc_states) after
            ∙ already-row (env.sha256 state) (env.sha256 value) t (m w2).1 again,
      )
