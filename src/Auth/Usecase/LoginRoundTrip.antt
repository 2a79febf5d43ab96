-- ===== src/Auth/Usecase/LoginRoundTrip.antt =====
-- `login` against `authenticate_session`.
use python_react_template.Prelude.{
  ◌<◌, ◌≡◌, sym, ap, ◌∙◌, arith, String, true, Option, some, str_eq, ◌&&◌,
}
use python_react_template.Store.Rows.{User, Db}
use python_react_template.Store.Exec.{Env, World, ok}
use python_react_template.Store.AuthRepository.Users.{get_user, is_present}
use python_react_template.Store.AuthRepository.Users.Tables.{HasUniqueIds, get_user_unique}
use python_react_template.Store.AuthRepository.Sessions.{active_session}
use python_react_template.RateLimit.Interface.{LoginRateLimiter}
use python_react_template.Auth.Settings.{AuthSettings, truthy}
use python_react_template.Auth.Usecase.Context.{AuthenticatedSessionContext, IssuedAuthSession}
use python_react_template.Auth.Usecase.Session.{authenticate_session}
use python_react_template.Auth.Usecase.Completeness.{authenticate_session_complete}
use python_react_template.Auth.Usecase.Login.{login}
use python_react_template.Auth.Usecase.Outcome.{login-opens}

module _ (R : LoginRateLimiter) (env : Env) (settings : AuthSettings) where
  -- If identifiers of users are unique, then the token of a login that succeeded, when it is not
  -- empty, lets the user of the login in on the tables that the login left, until the session
  -- expires.
  pub authenticate_session-login :
      (email password : String) (cur ip ua : Option String) (w w' : World R.State)
      {issued : IssuedAuthSession}
      → HasUniqueIds w.db.users
      → (login R env settings email password cur ip ua w).0 ≡ ok issued
      → w'.db ≡ (login R env settings email password cur ip ua w).1.db
      → truthy (some issued.session_token) ≡ some issued.session_token
      → env.utcnow w'.calls < issued.session.expires_at
      → (ctx : AuthenticatedSessionContext) × ((authenticate_session env settings
            (some issued.session_token)
            ip
            ua
            w').0
          ≡ ok (some ctx))
        × (ctx.user ≡ issued.user)
        × (ctx.session.id ≡ issued.session.id)
  authenticate_session-login email password cur ip ua w w' {issued} unique done same token fresh =
      let (u, found, may, logged_in) = login-opens R env settings email password cur ip ua w done in
      let (v, there, changed, kept) = logged_in.before in
      let known : get_user u.id w.db.users ≡ some u =
        get_user_unique
          (λ (x : User).
            str_eq (env.sql_lower x.email) (env.lower (env.strip email)) && is_present x)
          w.db.users unique found in
      let same_user : u ≡ v = ground (arith, known, there) in
      let active : v.is_active ≡ true =
        ap (λ (x : User). x.is_active) (sym same_user) ∙ may.is_active in
      let opened : active_session (env.sha256 issued.session_token) (env.utcnow w'.calls)
            w'.db.sessions
          ≡ some issued.session =
        ap
          (λ (d : Db).
            active_session (env.sha256 issued.session_token) (env.utcnow w'.calls) d.sessions)
          same
        ∙ ground (arith, logged_in.session.opens (env.utcnow w'.calls)) in
      let there' : get_user issued.session.user_id w'.db.users ≡ some issued.user =
        ap (λ i. get_user i w'.db.users) logged_in.session.owner
        ∙ ap (λ (d : Db). get_user u.id d.users) same
        ∙ logged_in.after in
      let (ctx, let_in, user, session, _, _) =
        authenticate_session_complete env settings (some issued.session_token) ip ua w' token opened
          there' (ap (λ (x : User). x.deleted_at) changed ∙ kept)
          (ap (λ (x : User). x.is_active) changed ∙ active) in
      (ctx, let_in, user, session)
