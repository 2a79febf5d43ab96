-- ===== src/Auth/Usecase/Soundness.antt =====
-- Who is let in: `authenticate_session` against the tables.
use python_react_template.Prelude.{
  ◌+◌, ◌≡◌, refl, inl, inr, arith, String, true, Option, none, some, Option-cases,
}
use python_react_template.Store.Rows.{User, AuthSession}
use python_react_template.Store.Exec.{Env, World, ok}
use python_react_template.Store.Exec.Laws.{transaction-ok}
use python_react_template.Store.AuthRepository.Users.{get_user}
use python_react_template.Store.AuthRepository.Sessions.{active_session}
use python_react_template.Auth.Settings.{AuthSettings, truthy}
use python_react_template.Auth.Usecase.Context.{AuthenticatedSessionContext}
use python_react_template.Auth.Usecase.Session.{
  authenticate_session, authenticate_token, authenticate_hash, authenticate_found,
  authenticate_user, accept_session,
}

module _ (env : Env) (settings : AuthSettings) {L : Type 0} where
  accept_session-user :
      (s : AuthSession) (u : User) (w : World L) {ctx : AuthenticatedSessionContext}
      → (accept_session env settings s u w).0 ≡ ok (some ctx)
      → ctx.user ≡ u
  unfolding accept_session
  accept_session-user s u w h = ground arith

  authenticate_user_sound :
      (s : AuthSession) (u : Option User) (ip ua : Option String) (w : World L)
      {ctx : AuthenticatedSessionContext}
      → (authenticate_user env settings s u ip ua w).0 ≡ ok (some ctx)
      → (u ≡ some ctx.user) × (ctx.user.deleted_at ≡ none) × (ctx.user.is_active ≡ true)
  unfolding authenticate_user
  authenticate_user_sound s none ip ua w h = ground arith
  authenticate_user_sound s (some u) ip ua w h = ground (arith, accept_session-user s u w)

  authenticate_found_sound :
      (token_hash : String) (o : Option AuthSession) (ip ua : Option String) (w : World L)
      {ctx : AuthenticatedSessionContext}
      → (authenticate_found env settings token_hash o ip ua w).0 ≡ ok (some ctx)
      → (s : AuthSession) × (o ≡ some s)
        × (get_user s.user_id w.db.users ≡ some ctx.user)
        × (ctx.user.deleted_at ≡ none)
        × (ctx.user.is_active ≡ true)
  unfolding authenticate_found
  authenticate_found_sound t none ip ua w h = absurd (ground arith)
  authenticate_found_sound t (some s) ip ua w h =
      let (a, b, c) = authenticate_user_sound s (get_user s.user_id w.db.users) ip ua w h in
      (s, refl, a, b, c)

  authenticate_token_sound :
      (token : String) (ip ua : Option String) (w : World L) {ctx : AuthenticatedSessionContext}
      → (authenticate_token env settings (some token) ip ua w).0 ≡ ok (some ctx)
      → (s : AuthSession) × (active_session (env.sha256 token) (env.utcnow w.calls) w.db.sessions
          ≡ some s)
        × (get_user s.user_id w.db.users ≡ some ctx.user)
        × (ctx.user.deleted_at ≡ none)
        × (ctx.user.is_active ≡ true)
  unfolding authenticate_token
  authenticate_token_sound token ip ua w h =
      let token_hash = env.sha256 token in
      let o = active_session token_hash (env.utcnow w.calls) w.db.sessions in
      let (t, e) = transaction-ok (authenticate_hash env settings token_hash ip ua) w h in
      authenticate_found_sound token_hash o ip ua
        (record w { calls = w.calls + 1; in_transaction = t }) e

  -- Whoever is let in has presented a token, not empty, of a session that is neither revoked nor
  -- expired at the time of the call, and is the user of that session, neither deleted nor inactive.
  pub authenticate_session_sound :
      (session_token ip_address user_agent : Option String) (w : World L)
      {ctx : AuthenticatedSessionContext}
      → (authenticate_session env settings session_token ip_address user_agent w).0 ≡ ok (some ctx)
      → (token : String) × (s : AuthSession) × (truthy session_token ≡ some token)
        × (active_session (env.sha256 token) (env.utcnow w.calls) w.db.sessions ≡ some s)
        × (get_user s.user_id w.db.users ≡ some ctx.user)
        × (ctx.user.deleted_at ≡ none)
        × (ctx.user.is_active ≡ true)
  unfolding authenticate_session
  authenticate_session_sound t ip ua w h = elim (Option-cases (truthy t)) [
    | inl absent ↦ absurd (ground arith)
    | inr (token, present) ↦
        let (s, a, b, c, d) = authenticate_token_sound token ip ua w (rw present at h) in
        (token, s, present, a, b, c, d)
  ]
