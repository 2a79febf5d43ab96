-- ===== src/Auth/Usecase/Logout.antt =====
-- After a logout.
use python_react_template.Prelude.{
  ℕ, ◌+◌, ◌≤◌, ◌≡◌, ◌≢◌, refl, inl, inr, arith, String, Option, none, some, ap, Option-cases,
}
use python_react_template.Store.Rows.{AuthSession}
use python_react_template.Store.Exec.{Env, World, ok}
use python_react_template.Store.AuthRepository.Sessions.{active_session, get_session}
use python_react_template.Store.Exec.Laws.{transaction-runs}
use python_react_template.Store.AuthRepository.Sessions.Tables.{
  HasUniqueTokens, active_session-revoke_found, active_session-none_later, get_session-active,
}
use python_react_template.Auth.Settings.{AuthSettings, truthy}
use python_react_template.Auth.Usecase.Context.{AuthenticatedSessionContext}
use python_react_template.Auth.Usecase.Session.{
  logout, log_out_token, log_out, end_session, authenticate_session,
}
use python_react_template.Auth.Usecase.Soundness.{authenticate_session_sound}

module _ (env : Env) {L : Type 0} where
  end_session-revoked :
      (h : String) (now later : ℕ) (s : AuthSession) (ip ua : Option String) (w : World L)
      → HasUniqueTokens w.db.sessions
      → active_session h now w.db.sessions ≡ some s
      → active_session h later (end_session env s ip ua w).1.db.sessions ≡ none
  unfolding end_session
  end_session-revoked h now later s ip ua w u e =
      elim (Option-cases (get_session s.id w.db.sessions)) [
        | inl gone ↦ absurd (get_session-active h now w.db.sessions e gone)
        | inr (r, there) ↦
            rw there
              (active_session-revoke_found (env.utcnow w.calls) h now later w.db.sessions u e)
      ]

  end_session-ok :
      (s : AuthSession) (ip ua : Option String) (w : World L)
      → (end_session env s ip ua w).0 ≡ ok tt
  unfolding end_session
  end_session-ok s ip ua w = ground arith

  log_out-revoked :
      (h : String) (now later : ℕ) (o : Option AuthSession) (ip ua : Option String) (w : World L)
      → HasUniqueTokens w.db.sessions
      → now ≤ later
      → active_session h now w.db.sessions ≡ o
      → ((log_out env o ip ua w).0 ≡ ok tt)
        × (active_session h later (log_out env o ip ua w).1.db.sessions ≡ none)
  unfolding log_out
  log_out-revoked h now later none ip ua w u le e =
      (refl, active_session-none_later h now later w.db.sessions le e)
  log_out-revoked h now later (some s) ip ua w u le e =
      let m = end_session env s ip ua in
      let (t, done, same) =
        transaction-runs m w (λ t. end_session-ok s ip ua (record w { in_transaction = t })) in
      (
        done,
        rw same (end_session-revoked h now later s ip ua (record w { in_transaction = t }) u e),
      )

  -- If no two sessions share a token, `logout` with a token that is not empty succeeds, and from
  -- then on no session is active under the token.
  pub logout-revoked :
      (token : String) (session_token ip_address user_agent : Option String) (w : World L)
      (later : ℕ)
      → truthy session_token ≡ some token
      → HasUniqueTokens w.db.sessions
      → env.utcnow w.calls ≤ later
      → ((logout env session_token ip_address user_agent w).0 ≡ ok tt)
        × (active_session
              (env.sha256 token)
              later
              (logout env session_token ip_address user_agent w).1.db.sessions
            ≡ none)
  unfolding logout
  logout-revoked token t ip ua w later e u le =
      let h = env.sha256 token in
      rw (e, log_out_token)
        (log_out-revoked h (env.utcnow w.calls) later
          (active_session h (env.utcnow w.calls) w.db.sessions) ip ua
          (record w { calls = w.calls + 1 }) u le refl)

module _ (env : Env) (settings : AuthSettings) {L : Type 0} where
  -- If no two sessions share a token, then after a logout nobody is let in with the token, as long
  -- as the sessions are those that the logout left and the clock has not gone back.
  pub authenticate_session-logout :
      (session_token ip_address user_agent : Option String) (w w' : World L)
      {ctx : AuthenticatedSessionContext}
      → HasUniqueTokens w.db.sessions
      → w'.db.sessions ≡ (logout env session_token ip_address user_agent w).1.db.sessions
      → env.utcnow w.calls ≤ env.utcnow w'.calls
      → (authenticate_session env settings session_token ip_address user_agent w').0 ≢ ok (some ctx)
  authenticate_session-logout t ip ua w w' u e le h =
      let (token, s, present, found, _, _, _) =
        authenticate_session_sound env settings t ip ua w' h in
      let (_, gone) = logout-revoked env token t ip ua w (env.utcnow w'.calls) present u le in
      cc (ap (active_session (env.sha256 token) (env.utcnow w'.calls)) e)
