-- ===== src/Auth/Usecase/RoundTrip.antt =====
-- Sessions that are started can be used: `login` and `register` against `authenticate_session`.
use python_react_template.Prelude.{
  ltb, if◌then◌else◌, ℕ, ◌+◌, ◌≡◌, refl, sym, ap, subst, arith, String, Option, none, some, ◌∙◌,
}
use python_react_template.Store.Rows.{User, AuthSession, AuthEventType, Db}
use python_react_template.Store.Exec.{Env, World, Result, ok, pure}
use python_react_template.Store.Exec.Laws.{>>=-ok}
use python_react_template.Store.AuthRepository.Users.{get_user, record_user_login}
use python_react_template.Store.AuthRepository.Users.Tables.{id-get_user, record_user_login-ok}
use python_react_template.Store.AuthRepository.Sessions.{
  active_session, create_session, find_active_session_by_token_hash, revoke_session,
}
use python_react_template.Store.AuthRepository.Sessions.Tables.{active_session-append}
use python_react_template.Auth.Settings.{AuthSettings, truthy}
use python_react_template.Auth.Issuer.{
  issue_session, replace_auth_session, revoke_current, calculate_session_expiry,
}
use python_react_template.Auth.Usecase.Context.{log_started, open_session, start_session}

-- A session that its token opens until it expires.
pub record IsOpenFor (env : Env) {L : Type 0} (user_id : ℕ) (s : AuthSession) (token : String)
    (w : World L) : Type 0 where
  pub owner : s.user_id ≡ user_id
  pub opens :
      (now : ℕ)
      → active_session (env.sha256 token) now w.db.sessions
        ≡ (if ltb now s.expires_at then some s else none)

module _ (env : Env) {L : Type 0} where
  create_session-opens :
      (user_id : ℕ) (h c : String) (i l e : ℕ) (ip ua : Option String) (w : World L)
      {s : AuthSession}
      → (create_session env user_id h c i l e ip ua w).0 ≡ ok s
      → (s.user_id ≡ user_id)
        × (s.expires_at ≡ e)
        × (s.issued_at ≡ i)
        × ((now : ℕ)
            → active_session h now (create_session env user_id h c i l e ip ua w).1.db.sessions
              ≡ (if ltb now e then some s else none))
  unfolding create_session
  create_session-opens user_id h c i l e ip ua w {s} q = (
    ground arith,
    ground arith,
    ground arith,
    λ now. ground (arith, active_session-append now s w.db.sessions),
  )

  revoke_current-frame :
      (o : Option String) (w : World L)
      → ((revoke_current env o w).0 ≡ ok tt)
        × ((revoke_current env o w).1.db.users ≡ w.db.users)
        × ((revoke_current env o w).1.db.roles ≡ w.db.roles)
  unfolding revoke_current find_active_session_by_token_hash revoke_session
  revoke_current-frame none w = (refl, refl, refl)
  revoke_current-frame (some token) w = ground arith

  module _ (settings : AuthSettings) where
    issue_session-opens :
        (user_id : ℕ) (ip ua : Option String) (w : World L) {s : AuthSession} {st ct : String}
        → (issue_session env settings user_id ip ua w).0 ≡ ok (s, st, ct)
        → IsOpenFor env user_id s st (issue_session env settings user_id ip ua w).1
    unfolding issue_session
    issue_session-opens user_id ip ua w {s} {st} {ct} h =
        let st' = env.token_urlsafe w.calls in
        let ct' = env.token_urlsafe (w.calls + 1) in
        let t = env.utcnow (w.calls + 1 + 1) in
        let e = calculate_session_expiry settings t t in
        let w' : World L = record w { calls = w.calls + 1 + 1 + 1 } in
        let (r, made, rest, same) =
          >>=-ok (create_session env user_id (env.sha256 st') (env.sha256 ct') t t e ip ua)
            (λ r. pure (r, st', ct')) w' h in
        let (a, b, c, d) =
          create_session-opens user_id (env.sha256 st') (env.sha256 ct') t t e ip ua w' made in
        record { owner = ground arith; opens = λ now. ground (arith, d now) }

    replace_auth_session-opens :
        (user : User) (cur ip ua : Option String) (w : World L) {s : AuthSession} {st ct : String}
        → (replace_auth_session env settings user cur ip ua w).0 ≡ ok (s, st, ct)
        → IsOpenFor env user.id s st (replace_auth_session env settings user cur ip ua w).1
    unfolding replace_auth_session
    replace_auth_session-opens user cur ip ua w {s} {st} h =
        let (_, _, rest, same) =
          >>=-ok (revoke_current env (truthy cur)) (λ _. issue_session env settings user.id ip ua) w
            h in
        subst
          (λ (r : Result (AuthSession × String × String) × World L). IsOpenFor env user.id s st r.1)
          (sym same) (issue_session-opens user.id ip ua (revoke_current env (truthy cur) w).1 rest)

    issue_session-frame :
        (user_id : ℕ) (ip ua : Option String) (w : World L)
        → ((issue_session env settings user_id ip ua w).1.db.users ≡ w.db.users)
          × ((issue_session env settings user_id ip ua w).1.db.roles ≡ w.db.roles)
    unfolding issue_session create_session
    issue_session-frame user_id ip ua w = ground arith

    replace_auth_session-frame :
        (user : User) (cur ip ua : Option String) (w : World L)
        → ((replace_auth_session env settings user cur ip ua w).1.db.users ≡ w.db.users)
          × ((replace_auth_session env settings user cur ip ua w).1.db.roles ≡ w.db.roles)
    unfolding replace_auth_session
    replace_auth_session-frame user cur ip ua w =
        let r = revoke_current env (truthy cur) w in
        let (done, users, roles) = revoke_current-frame (truthy cur) w in
        let (users', roles') = issue_session-frame user.id ip ua r.1 in ground arith

    open_session-opens :
        (event : AuthEventType) (user : User) (cur ip ua : Option String) (w : World L) {v : User}
        {s : AuthSession} {st ct : String}
        → (open_session env settings event user cur ip ua w).0 ≡ ok (v, s, st, ct)
        → (v ≡ user)
          × IsOpenFor env user.id s st (open_session env settings event user cur ip ua w).1
          × ((open_session env settings event user cur ip ua w).1.db.users ≡ w.db.users)
    unfolding open_session log_started
    open_session-opens event user cur ip ua w {v} {s} {st} {ct} h =
        let (p, made, rest, same) =
          >>=-ok (replace_auth_session env settings user cur ip ua)
            (log_started env settings event user ip ua) w h in
        let (users, _) = replace_auth_session-frame user cur ip ua w in
        logged p made rest same users
      where
        logged :
            (p : AuthSession × String × String)
            → (replace_auth_session env settings user cur ip ua w).0 ≡ ok p
            → (log_started env settings event user ip ua p
                (replace_auth_session env settings user cur ip ua w).1).0
              ≡ ok (v, s, st, ct)
            → open_session env settings event user cur ip ua w
              ≡ log_started env settings event user ip ua p
                  (replace_auth_session env settings user cur ip ua w).1
            → (replace_auth_session env settings user cur ip ua w).1.db.users ≡ w.db.users
            → (v ≡ user)
              × IsOpenFor env user.id s st (open_session env settings event user cur ip ua w).1
              × ((open_session env settings event user cur ip ua w).1.db.users ≡ w.db.users)
        logged (s', st', ct') made rest same users =
            let o = replace_auth_session-opens user cur ip ua w made in
            let w' = (replace_auth_session env settings user cur ip ua w).1 in
            let es : s' ≡ s = ground arith in
            let et : st' ≡ st = ground arith in
            let db : (open_session env settings event user cur ip ua w).1.db.sessions
                ≡ w'.db.sessions =
              ap (λ (r : Result (User × AuthSession × String × String) × World L). r.1.db.sessions)
                same in
            let us : (open_session env settings event user cur ip ua w).1.db.users ≡ w'.db.users =
              ap (λ (r : Result (User × AuthSession × String × String) × World L). r.1.db.users)
                same in
            (
              ground arith,
              record {
                owner = subst (λ x. x.user_id ≡ user.id) es o.owner;
                opens = λ now.
                    ap (active_session (env.sha256 st) now) db
                    ∙ ap (λ x. active_session (env.sha256 x) now w'.db.sessions) (sym et)
                    ∙ o.opens now
                    ∙ ap (λ (x : AuthSession). if ltb now x.expires_at then some x else none) es;
              },
              us ∙ users,
            )

    -- A session that is started belongs to the user, who is there and not deleted.
    pub start_session-opens :
        (event : AuthEventType) (user_id : ℕ) (cur ip ua : Option String) (w : World L) {v : User}
        {s : AuthSession} {st ct : String}
        → (start_session env settings event user_id cur ip ua w).0 ≡ ok (v, s, st, ct)
        → (u : User) × (get_user user_id w.db.users ≡ some u)
          × (v ≡ record u { last_logged_in_at = some (env.utcnow w.calls) })
          × (u.deleted_at ≡ none)
          × (get_user user_id (start_session env settings event user_id cur ip ua w).1.db.users
              ≡ some v)
          × IsOpenFor env user_id s st (start_session env settings event user_id cur ip ua w).1
    unfolding start_session
    start_session-opens event user_id cur ip ua w {v} {s} {st} h =
        let t = env.utcnow w.calls in
        let w1 : World L = record w { calls = w.calls + 1 } in
        let (u, logged, rest, same) =
          >>=-ok (record_user_login user_id t) (λ u. open_session env settings event u cur ip ua) w1
            h in
        let (u0, there, changed, kept, after, _, _) = record_user_login-ok user_id t w1 logged in
        let (eq, opens, users) =
          open_session-opens event u cur ip ua (record_user_login user_id t w1).1 rest in
        let id = id-get_user user_id (record_user_login user_id t w1).1.db.users after in
        (
          u0,
          there,
          eq ∙ changed,
          kept,
          ap
                (λ (r : Result (User × AuthSession × String × String) × World L).
                  get_user user_id r.1.db.users)
                same
              ∙ ap (get_user user_id) users
              ∙ after
              ∙ ap some (sym eq),
          subst
              (λ (r : Result (User × AuthSession × String × String) × World L).
                IsOpenFor env user_id s st r.1)
              (sym same)
              (subst
                (λ i.
                  IsOpenFor env i s st
                    (open_session env settings event u cur ip ua
                      (record_user_login user_id t w1).1).1)
                id opens),
        )

pub IsOpenFor-db :
    (env : Env) {L : Type 0} (i : ℕ) (s : AuthSession) (token : String) (w w' : World L)
    → w'.db ≡ w.db
    → IsOpenFor env i s token w
    → IsOpenFor env i s token w'
IsOpenFor-db env i s token w w' e o = record {
  owner = o.owner;
  opens = λ now. ap (λ (d : Db). active_session (env.sha256 token) now d.sessions) e ∙ o.opens now;
}
