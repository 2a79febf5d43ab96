-- ===== src/Store/AuthRepository/Oidc.antt =====
-- The identities and authorization states of backend/app/services/auth_repository.py.
pub mod Consume
use python_react_template.Prelude.{
  ℕ, ◌+◌, String, Bool, true, false, not, ◌&&◌, ◌||◌, Option, none, some, List, [], ◌∷◌, ◌++◌, ◌==◌,
  ltb, leb, any, find, keep, count_if, update_where, is_some, str_eq, if◌then◌else◌,
}
use python_react_template.Store.Rows.{User, AuthSession, AuthIdentity, AuthOidcState, Db}
use python_react_template.Store.Exec.{
  Env, Exec, World, ok, err, integrity_error, pure, raise, query, draw, modify, raise_if, ◌>>=◌,
  ◌>>◌,
}
use python_react_template.Store.AuthRepository.Users.{is_present, get_user, live_user, set_user}
use python_react_template.Store.AuthRepository.Sessions.{get_session, set_session, found_session}

-- `AuthOidcStateConsumeResult`: a state comes with each status but the first.
pub data ConsumeResult : Type 0 where
  state_mismatch : ConsumeResult
  already_consumed expired browser_binding_mismatch consumed : AuthOidcState → ConsumeResult

unfoldable pub find_state : String → List AuthOidcState → Option AuthOidcState
find_state state_hash states = find (λ s. str_eq s.state_hash state_hash) states

-- `order by linked_at, id`
abbrev pub is_before : AuthIdentity → AuthIdentity → Bool
is_before a b = ltb a.linked_at b.linked_at || (a.linked_at == b.linked_at && leb a.id b.id)

unfoldable pub insert_identity : AuthIdentity → List AuthIdentity → List AuthIdentity
insert_identity a [] = a ∷ []
insert_identity a (b ∷ rest) = if is_before a b then a ∷ b ∷ rest else b ∷ insert_identity a rest

unfoldable pub order_identities : List AuthIdentity → List AuthIdentity
unfolding insert_identity
order_identities [] = []
order_identities (a ∷ rest) = insert_identity a (order_identities rest)

unfoldable pub set_auth_time : ℕ → Option ℕ → Db → Db
set_auth_time session_id none db = db
set_auth_time session_id (some t) db =
    set_session session_id (λ s. record s { last_oidc_authenticated_at = some t }) db

abbrev pub is_before_some : Option ℕ → ℕ → Bool
is_before_some none t = false
is_before_some (some c) t = ltb c t

module _ {L : Type 0} where
  unfoldable pub find_identity_by_provider_subject : String → String → Exec L (Option AuthIdentity)
  find_identity_by_provider_subject provider_id provider_subject = query λ db.
      find (λ i. str_eq i.provider_id provider_id && str_eq i.provider_subject provider_subject)
        db.identities

  -- Joined with the user, who must not be marked deleted.
  unfoldable pub find_identities_by_user_id : ℕ → Exec L (List AuthIdentity)
  unfolding order_identities
  find_identities_by_user_id user_id = query λ db.
      if any (λ u. u.id == user_id && is_present u) db.users
      then order_identities (keep (λ (i : AuthIdentity). i.user_id == user_id) db.identities)
      else []

  -- The unique index on provider and subject refuses a second row.
  unfoldable pub create_auth_identity : AuthIdentity → Exec L AuthIdentity
  create_auth_identity identity = do
    raise_if
        (← query (λ db.
          any
            (λ (i : AuthIdentity).
              str_eq i.provider_id identity.provider_id
              && str_eq i.provider_subject identity.provider_subject)
            db.identities))
        integrity_error
    modify (λ db. record db { identities = db.identities ++ identity ∷ [] })
    pure identity

  unfoldable pub delete_auth_identities_for_user : ℕ → Exec L ℕ
  delete_auth_identities_for_user user_id = do
    removed ← query (λ db. count_if (λ (i : AuthIdentity). i.user_id == user_id) db.identities)
    modify (λ db. record db {
      identities = keep (λ (i : AuthIdentity). not (i.user_id == user_id)) db.identities;
    })
    pure removed

  unfoldable pub record_oidc_login : ℕ → ℕ → ℕ → ℕ → Option ℕ → Exec L Unit
  unfolding live_user get_user found_session get_session set_auth_time
  record_oidc_login user_id identity_id session_id login_at provider_auth_time = do
    u ← live_user user_id (← query (λ db. get_user user_id db.users))
    s ← found_session session_id (← query (λ db. get_session session_id db.sessions))
    modify (λ db. record db {
      identities =
          update_where (λ (i : AuthIdentity). i.id == identity_id && i.user_id == user_id)
            (λ i. record i { last_logged_in_at = some login_at }) db.identities;
    })
    modify (set_auth_time session_id provider_auth_time)
    modify (set_user user_id (λ r. record r { last_logged_in_at = some login_at }))

  unfoldable pub record_oidc_reauth : ℕ → ℕ → Exec L Unit
  unfolding found_session get_session
  record_oidc_reauth session_id auth_time = do
    s ← found_session session_id (← query (λ db. get_session session_id db.sessions))
    modify (set_session session_id (λ r. record r { last_oidc_authenticated_at = some auth_time }))

  -- The unique index on `state_hash` refuses a second row.
  unfoldable pub create_oidc_authorization_state : AuthOidcState → Exec L AuthOidcState
  create_oidc_authorization_state state = do
    raise_if
        (← query
          (λ db. any (λ (s : AuthOidcState). str_eq s.state_hash state.state_hash) db.oidc_states))
        integrity_error
    modify (λ db. record db { oidc_states = db.oidc_states ++ state ∷ [] })
    pure state

  -- The part of `consume_oidc_authorization_state` behind its query.
  unfoldable pub consume_found : String → ℕ → Option AuthOidcState → Exec L ConsumeResult
  consume_found browser_binding_hash consumed_at none = pure state_mismatch
  consume_found browser_binding_hash consumed_at (some s) =
      if is_some s.consumed_at
      then pure (already_consumed s)
      else if leb s.expires_at consumed_at
      then pure (expired s)
      else if not (str_eq s.browser_binding_hash browser_binding_hash)
      then pure (browser_binding_mismatch s)
      else (do
        modify (λ db. record db {
          oidc_states =
              update_where (λ r. str_eq r.state_hash s.state_hash)
                (λ r. record r { consumed_at = some consumed_at }) db.oidc_states;
        })
        pure (consumed (record s { consumed_at = some consumed_at })))

  unfoldable pub consume_oidc_authorization_state : String → String → ℕ → Exec L ConsumeResult
  unfolding consume_found find_state
  consume_oidc_authorization_state state_hash browser_binding_hash consumed_at = do
    consume_found browser_binding_hash consumed_at
        (← query (λ db. find_state state_hash db.oidc_states))

  unfoldable pub delete_oidc_states_expired_before : ℕ → Exec L ℕ
  delete_oidc_states_expired_before expired_before = do
    let old = λ (s : AuthOidcState).
        ltb s.expires_at expired_before || is_before_some s.consumed_at expired_before
    removed ← query (λ db. count_if old db.oidc_states)
    modify (λ db. record db { oidc_states = keep (λ s. not (old s)) db.oidc_states })
    pure removed
