-- ===== src/Store/AuthRepository/Sessions/Tables.antt =====
-- The session table under each write: which tokens still open a session afterwards.
use python_react_template.Prelude.{
  not, ◌&&◌, if◌then◌else◌, ltb, keep, ℕ, ◌≤◌, ◌<◌, ◌≡◌, ◌≢◌, refl, subst, arith, String, Bool,
  false, none, some, List, [], ◌∷◌, ◌++◌, ◌==◌, str_eq, eq_iff, str_eq_refl, any, find,
  update_where,
}
use python_react_template.Store.Rows.{AuthSession}
use python_react_template.Store.AuthRepository.Sessions.{
  active_session, is_active_at, is_unrevoked_of, get_session,
}

-- What `uq_auth_sessions_session_token_hash` guarantees.
abbrev pub has_token : String → AuthSession → Bool
has_token h s = str_eq s.session_token_hash h

abbrev pub HasUniqueTokens : List AuthSession → Type 0
HasUniqueTokens [] = Unit
HasUniqueTokens (s ∷ xs) = (any (has_token s.session_token_hash) xs ≡ false) × HasUniqueTokens xs

no_active :
    (h : String) (now : ℕ) (xs : List AuthSession)
    → any (has_token h) xs ≡ false
    → active_session h now xs ≡ none
unfolding active_session any find
no_active h now [] e = refl
no_active h now (s ∷ xs) e = ground (arith, no_active h now xs)

-- A session that a query finds was not revoked and had not expired.
pub active_session-is_active :
    (h : String) (now : ℕ) (xs : List AuthSession) {s : AuthSession}
    → active_session h now xs ≡ some s
    → (s.revoked_at ≡ none) × (now < s.expires_at)
unfolding active_session find
active_session-is_active h now [] e = cc
active_session-is_active h now (r ∷ xs) {s} e =
    ground (arith, active_session-is_active h now xs {s = s})

any-revoke :
    (p : AuthSession → Bool) (t : ℕ) (h : String) (xs : List AuthSession)
    → any (has_token h) (update_where p (λ r. record r { revoked_at = some t }) xs)
      ≡ any (has_token h) xs
unfolding any update_where
any-revoke p t h [] = refl
any-revoke p t h (r ∷ xs) = ground (arith, any-revoke p t h xs)

-- Behind the row with a token there is no other.
lone :
    (h : String) (xs : List AuthSession) (r : AuthSession)
    → any (has_token r.session_token_hash) xs ≡ false
    → r.session_token_hash ≡ h
    → any (has_token h) xs ≡ false
lone h xs r e q = subst (λ k. any (has_token k) xs ≡ false) q e

-- Once all sessions of a user are revoked, none of them is active, ...
pub any-revoke_user :
    (user_id t now : ℕ) (xs : List AuthSession)
    → any
        (λ r. r.user_id == user_id && is_active_at now r)
        (update_where (is_unrevoked_of user_id) (λ r. record r { revoked_at = some t }) xs)
      ≡ false
unfolding any update_where
any-revoke_user u t now [] = refl
any-revoke_user u t now (r ∷ xs) = ground (arith, any-revoke_user u t now xs)

-- ... and the sessions of other users are what they were.
pub keep-revoke_user :
    (user_id t : ℕ) (xs : List AuthSession)
    → keep
        (λ r. not (r.user_id == user_id))
        (update_where (is_unrevoked_of user_id) (λ r. record r { revoked_at = some t }) xs)
      ≡ keep (λ r. not (r.user_id == user_id)) xs
unfolding keep update_where
keep-revoke_user u t [] = refl
keep-revoke_user u t (r ∷ xs) = ground (arith, keep-revoke_user u t xs)

-- A revoked session is not found again, at any time from the query that found it on.
pub active_session-revoke_found :
    (t : ℕ) (h : String) (now later : ℕ) (xs : List AuthSession) {s : AuthSession}
    → HasUniqueTokens xs
    → active_session h now xs ≡ some s
    → active_session h later
        (update_where (λ r. r.id == s.id) (λ r. record r { revoked_at = some t }) xs)
      ≡ none
unfolding active_session find update_where any
active_session-revoke_found t h now later [] u e = cc
active_session-revoke_found t h now later (r ∷ xs) {s} u e = ground (
  arith,
  active_session-revoke_found t h now later xs {s = s} u.1,
  eq_iff r.session_token_hash h,
  lone h xs r u.0,
  no_active h now xs,
  no_active h later (update_where (λ x. x.id == s.id) (λ x. record x { revoked_at = some t }) xs),
  any-revoke (λ x. x.id == s.id) t h xs,
)

-- What is not found at a time is not found later.
pub active_session-none_later :
    (h : String) (now later : ℕ) (xs : List AuthSession)
    → now ≤ later
    → active_session h now xs ≡ none
    → active_session h later xs ≡ none
unfolding active_session find
active_session-none_later h now later [] le e = refl
active_session-none_later h now later (r ∷ xs) le e =
    ground (arith, active_session-none_later h now later xs le)

pub get_session-active :
    (h : String) (now : ℕ) (xs : List AuthSession) {s : AuthSession}
    → active_session h now xs ≡ some s
    → get_session s.id xs ≢ none
unfolding active_session get_session find
get_session-active h now [] e n = cc
get_session-active h now (r ∷ xs) {s} e n = ground (arith, get_session-active h now xs {s = s})

-- A new row with a new token is the one that the token opens, until it expires.
pub active_session-append :
    (now : ℕ) (s : AuthSession) (xs : List AuthSession)
    → any (has_token s.session_token_hash) xs ≡ false
    → s.revoked_at ≡ none
    → active_session s.session_token_hash now (xs ++ s ∷ [])
      ≡ (if ltb now s.expires_at then some s else none)
unfolding active_session find any
active_session-append now s [] e a = ground (arith, str_eq_refl s.session_token_hash)
active_session-append now s (r ∷ xs) e a = ground (arith, active_session-append now s xs)

pub id-get_session :
    (i : ℕ) (xs : List AuthSession) {s : AuthSession} → get_session i xs ≡ some s → s.id ≡ i
unfolding get_session find
id-get_session i [] e = cc
id-get_session i (r ∷ xs) {s} e = ground (arith, id-get_session i xs {s = s})
