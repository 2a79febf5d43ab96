-- ===== src/Store/AuthRepository/Oidc/Consume.antt =====
-- An authorization state is consumed once.
use python_react_template.Prelude.{
  ℕ, ◌≡◌, inl, inr, arith, String, true, false, none, some, List, [], ◌∷◌, leb, str_eq, eq_iff,
  find, update_where, Option-cases,
}
use python_react_template.Store.Rows.{AuthOidcState}
use python_react_template.Store.Exec.{World, ok}
use python_react_template.Store.AuthRepository.Oidc.{
  already_consumed, consumed, find_state, consume_found, consume_oidc_authorization_state,
}

find_state-hash :
    (h : String) (states : List AuthOidcState) {s : AuthOidcState}
    → find_state h states ≡ some s
    → str_eq s.state_hash h ≡ true
unfolding find_state find
find_state-hash h [] e = cc
find_state-hash h (r ∷ states) {s} e = ground (arith, find_state-hash h states {s = s})

find_state-consumed :
    (h k : String) (t : ℕ) (states : List AuthOidcState) {s : AuthOidcState}
    → find_state h states ≡ some s
    → k ≡ h
    → find_state h
        (update_where (λ r. str_eq r.state_hash k) (λ r. record r { consumed_at = some t }) states)
      ≡ some (record s { consumed_at = some t })
unfolding find_state find update_where
find_state-consumed h k t [] e same = cc
find_state-consumed h k t (r ∷ states) {s} e same =
    ground (
      arith,
      find_state-consumed h k t states {s = s},
      eq_iff r.state_hash k,
      eq_iff r.state_hash h,
    )

module _ {L : Type 0} where
  -- A state that is consumed was there, fresh, not expired and bound to the browser that presents
  -- it, and every later attempt to consume it, by any browser at any time, finds it consumed.
  pub consume_oidc_authorization_state-once :
      (state_hash browser_binding_hash : String) (consumed_at : ℕ) (browser : String) (later : ℕ)
      (w : World L) {s : AuthOidcState}
      → (consume_oidc_authorization_state state_hash browser_binding_hash consumed_at w).0
        ≡ ok (consumed s)
      → (r : AuthOidcState) × (find_state state_hash w.db.oidc_states ≡ some r)
        × (r.consumed_at ≡ none)
        × (leb r.expires_at consumed_at ≡ false)
        × (r.browser_binding_hash ≡ browser_binding_hash)
        × (s ≡ record r { consumed_at = some consumed_at })
        × ((consume_oidc_authorization_state state_hash browser later
              (consume_oidc_authorization_state state_hash browser_binding_hash consumed_at w).1).0
            ≡ ok (already_consumed s))
  unfolding consume_oidc_authorization_state consume_found
  consume_oidc_authorization_state-once h b t browser later w {s} e =
      elim (Option-cases (find_state h w.db.oidc_states)) [
        | inl absent ↦ absurd (ground arith)
        | inr (r, there) ↦
            let same = find_state-hash h w.db.oidc_states there in
            let now_consumed =
              find_state-consumed h r.state_hash t w.db.oidc_states there
                ((eq_iff r.state_hash h).0 same) in
            (
              r,
              there,
              ground arith,
              ground arith,
              ground (arith, eq_iff r.browser_binding_hash b),
              ground arith,
              ground (arith, now_consumed),
            )
      ]
