-- ===== src/Auth/Usecase/Outcome.antt =====
-- What `login` does, by its outcome.
use python_react_template.Prelude.{
  ℕ, ◌≡◌, ◌≢◌, refl, sym, ap, subst, inl, inr, arith, String, Bool, true, ◌&&◌, Option, none, some,
  str_eq, ◌∙◌, find, Option-cases, Bool-cases,
}
use python_react_template.Store.Rows.{User, AuthSession, Db, login_success}
use python_react_template.Store.Exec.{Env, Exec, World, Result, ok, transaction}
use python_react_template.Store.Exec.Laws.{>>=-ok, transaction-committed}
use python_react_template.Store.AuthRepository.Users.{get_user, find_user_by_email, is_present}
use python_react_template.RateLimit.Interface.{LoginRateLimiter}
use python_react_template.Auth.Settings.{AuthSettings, rate_limit_ip}
use python_react_template.Auth.Usecase.Context.{IssuedAuthSession, start_session}
use python_react_template.Auth.Usecase.RoundTrip.{IsOpenFor, IsOpenFor-db, start_session-opens}
use python_react_template.Auth.Usecase.Login.{
  accepted, login, login_checked, login_accepted, login_issued, login_refused,
}

-- The user may log in with the password.
pub record MayLogin (env : Env) (password : String) (u : User) : Type 0 where
  pub is_active : u.is_active ≡ true
  pub has_password :
      (hash : String) × (u.password_hash ≡ some hash) × (env.verify_password password hash ≡ true)

accepted-MayLogin :
    (env : Env) (password : String) (o : Option User) {u : User}
    → accepted env password o ≡ some u
    → (o ≡ some u) × MayLogin env password u
unfolding accepted
accepted-MayLogin env password none e = absurd (cc)
accepted-MayLogin env password (some r) {u} e = elim (Option-cases r.password_hash) [
  | inl no_hash ↦ absurd (ground arith)
  | inr (hash, there) ↦
      let same : r ≡ u = ground arith in
      (
        ap some same,
        subst (MayLogin env password) same
            (record { is_active = ground arith; has_password = (hash, there, ground arith) }),
      )
]

module _ (R : LoginRateLimiter) (env : Env) (settings : AuthSettings) where
  login_issued-frame :
      (ip e : String) (u : User) (s : AuthSession) (st ct : String) (w : World R.State)
      {issued : IssuedAuthSession}
      → (login_issued R env settings ip e (u, s, st, ct) w).0 ≡ ok issued
      → (u ≡ issued.user)
        × (s ≡ issued.session)
        × (st ≡ issued.session_token)
        × ((login_issued R env settings ip e (u, s, st, ct) w).1.db ≡ w.db)
  unfolding login_issued
  login_issued-frame ip e u s st ct w h = (ground arith, ground arith, ground arith, refl)

  -- What a login that succeeded with a user left behind.
  pub record IsLoggedIn (user_id now : ℕ) (db : Db) (w' : World R.State)
      (issued : IssuedAuthSession) : Type 0 where
    pub before :
        (u : User) × (get_user user_id db.users ≡ some u)
        × (issued.user ≡ record u { last_logged_in_at = some now })
        × (u.deleted_at ≡ none)
    pub after : get_user user_id w'.db.users ≡ some issued.user
    pub session : IsOpenFor env user_id issued.session issued.session_token w'

  login_accepted-opens :
      (ip e : String) (user : User) (cur a ua : Option String) (w : World R.State)
      {issued : IssuedAuthSession}
      → (login_accepted R env settings ip e user cur a ua w).0 ≡ ok issued
      → IsLoggedIn user.id
          (env.utcnow w.calls)
          w.db
          (login_accepted R env settings ip e user cur a ua w).1
          issued
  unfolding login_accepted
  login_accepted-opens ip e user cur a ua w {issued} h =
      let (p, made, rest, same) = >>=-ok (transaction m) (login_issued R env settings ip e) w h in
      let (t, started, db) = transaction-committed m w made in opened p t started db rest same
    where
      m : Exec R.State (User × AuthSession × String × String)
      m = start_session env settings login_success user.id cur a ua

      r : World R.State
      r = (transaction m w).1

      opened :
          (p : User × AuthSession × String × String) (t : Bool)
          → (m (record w { in_transaction = t })).0 ≡ ok p
          → r.db ≡ (m (record w { in_transaction = t })).1.db
          → (login_issued R env settings ip e p r).0 ≡ ok issued
          → login_accepted R env settings ip e user cur a ua w
            ≡ login_issued R env settings ip e p r
          → IsLoggedIn user.id
              (env.utcnow w.calls)
              w.db
              (login_accepted R env settings ip e user cur a ua w).1
              issued
      opened (v, s, st, ct) t started db rest same =
          let w1 : World R.State = record w { in_transaction = t } in
          let (u, there, changed, kept, after, opens) =
            start_session-opens env settings login_success user.id cur a ua w1 started in
          let (ev, es, et, db') = login_issued-frame ip e v s st ct r rest in
          let w' = (login_accepted R env settings ip e user cur a ua w).1 in
          let all : w'.db ≡ (m w1).1.db =
            ap (λ (x : Result IssuedAuthSession × World R.State). x.1.db) same ∙ db' ∙ db in
          record {
            before = (u, there, sym ev ∙ changed, kept);
            after = ap (λ (d : Db). get_user user.id d.users) all ∙ after ∙ ap some ev;
            session =
                subst (λ x. IsOpenFor env user.id issued.session x w') et
                  (subst (λ x. IsOpenFor env user.id x st w') es
                    (IsOpenFor-db env user.id s st (m w1).1 w' all opens));
          }

  -- The user that `login` looks up.
  abbrev pub login_user : String → World R.State → Option User
  login_user email w =
      find
        (λ (u : User). str_eq (env.sql_lower u.email) (env.lower (env.strip email)) && is_present u)
        w.db.users

  login_refused-err :
      (ip e : String) (o : Option User) (a ua : Option String) (w : World R.State)
      {issued : IssuedAuthSession}
      → (login_refused R env settings ip e o a ua w).0 ≢ ok issued
  unfolding login_refused
  login_refused-err ip e o a ua w h = ground arith

  login_checked-opens :
      (ip e password : String) (o : Option User) (cur a ua : Option String) (w : World R.State)
      {issued : IssuedAuthSession}
      → (login_checked R env settings ip e o (accepted env password o) cur a ua w).0 ≡ ok issued
      → (u : User) × (o ≡ some u)
        × MayLogin env password u
        × IsLoggedIn u.id
            (env.utcnow w.calls)
            w.db
            (login_checked R env settings ip e o (accepted env password o) cur a ua w).1
            issued
  unfolding login_checked
  login_checked-opens ip e password o cur a ua w {issued} h =
      elim (Option-cases (accepted env password o)) [
        | inl refused ↦ absurd (login_refused-err ip e o a ua w (rw refused at h))
        | inr (u, granted) ↦
            let (there, may) = accepted-MayLogin env password o granted in
            (u, there, may, rw granted (login_accepted-opens ip e u cur a ua w (rw granted at h)))
      ]

  -- A login that succeeds has found the user of the email, active and with that password, has set
  -- the time of the login, and leaves a session of the user that the returned token opens until
  -- it expires.
  pub login-opens :
      (email password : String) (cur ip_address ua : Option String) (w : World R.State)
      {issued : IssuedAuthSession}
      → (login R env settings email password cur ip_address ua w).0 ≡ ok issued
      → (u : User) × (login_user email w ≡ some u)
        × MayLogin env password u
        × IsLoggedIn u.id
            (env.utcnow w.calls)
            w.db
            (login R env settings email password cur ip_address ua w).1
            issued
  unfolding login find_user_by_email
  login-opens email password cur ip_address ua w {issued} h =
      let e = env.lower (env.strip email) in
      let ip = rate_limit_ip ip_address in
      let answer = R.is_allowed ip e w.limiter in
      elim (Bool-cases answer.0) [
        | inl allowed ↦ rw allowed (
            login_checked-opens ip e password (login_user email w) cur ip_address ua
              (record w { limiter = answer.1 }) (rw allowed at h))
        | inr refused ↦ absurd (cc (rw refused at h))
      ]
