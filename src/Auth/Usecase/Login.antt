-- ===== src/Auth/Usecase/Login.antt =====
-- `register`, `login` and `update_current_user`.
use python_react_template.Prelude.{
  ℕ, String, Bool, true, false, not, ◌&&◌, Option, none, some, [], is_some, contains, if◌then◌else◌,
}
use python_react_template.Store.Rows.{
  User, AuthSession, LanguageCode, register_success, register_failed, login_success, login_failed,
}
use python_react_template.Store.Exec.{
  Error, Result, ok, err, email_already_registered, invalid_credentials, weak_password,
  rate_limit_exceeded, Env, Exec, World, pure, raise, raise_if, draw, ask_limiter, tell_limiter,
  transaction, ◌>>=◌, ◌>>◌,
}
use python_react_template.Store.AuthRepository.Users.{
  create_user, find_user_by_email, update_user_language,
}
use python_react_template.Store.AuthRepository.AuditLogs.{create_audit_log}
use python_react_template.RateLimit.Interface.{LoginRateLimiter}
use python_react_template.Auth.Settings.{AuthSettings, validate_password_policy, rate_limit_ip}
use python_react_template.Auth.Usecase.Context.{
  AuthenticatedSessionContext, IssuedAuthSession, AuthUserUpdateChanges,
  authorization_for_existing_user, start_session,
}

abbrev pub dummy_password_hash : String
dummy_password_hash =
    "$argon2id$v=19$m=65536,t=3,p=4$TO8J42R39QBv7pem26bDUQ$TsSlSgdcZ3mv06Gl9wQ7WaBhED0WIbQhcLhG35aHQd4"

unfoldable pub user_id_of : Option User → Option ℕ
user_id_of none = none
user_id_of (some u) = some u.id

abbrev pub is_email_taken : Error → Bool
is_email_taken email_already_registered = true
is_email_taken _ = false

module _ {L A : Type 0} where
  -- `except EmailAlreadyRegisteredError: ...; raise`
  unfoldable pub on_email_taken : Exec L Unit → Result A × World L → Result A × World L
  on_email_taken handler (ok a, w) = (ok a, w)
  on_email_taken handler (err e, w) =
      if is_email_taken e then (handler >> raise e) w else (err e, w)

module _ (env : Env) where
  unfoldable pub stored_hash : Option User → Option String
  stored_hash none = none
  stored_hash (some u) = u.password_hash

  unfoldable pub hash_or_dummy : Option String → String
  hash_or_dummy none = dummy_password_hash
  hash_or_dummy (some h) = h

  -- The hash is checked in every case, against a dummy if the user has none.
  unfoldable pub password_matches : String → Option User → Bool
  unfolding stored_hash hash_or_dummy
  password_matches password user = env.verify_password password (hash_or_dummy (stored_hash user))

  -- The user, unless one of the four conditions of `login` refuses the credentials.
  unfoldable pub accepted : String → Option User → Option User
  unfolding password_matches
  accepted password none = none
  accepted password (some u) =
      if u.is_active && is_some u.password_hash && password_matches password (some u)
      then some u
      else none

module _ (R : LoginRateLimiter) (env : Env) (settings : AuthSettings) where
  unfoldable pub login_refused :
      String → String → Option User → Option String → Option String → Exec R.State IssuedAuthSession
  unfolding create_audit_log user_id_of
  login_refused ip normalized_email user ip_address user_agent = do
    tell_limiter (R.record_failure ip normalized_email true)
    create_audit_log env (user_id_of user) none login_failed ip_address user_agent none none
    raise invalid_credentials

  -- The statements of `login` behind its transaction.
  unfoldable pub login_issued :
      String → String → User × AuthSession × String × String → Exec R.State IssuedAuthSession
  unfolding authorization_for_existing_user
  login_issued ip normalized_email (user, session, session_token, csrf_token) = do
    tell_limiter (R.record_success ip normalized_email)
    authorization ← authorization_for_existing_user user.id
    pure (record {
      user = user;
      session = session;
      session_token = session_token;
      csrf_token = csrf_token;
      roles = authorization.roles;
      permissions = authorization.permissions;
    })

  unfoldable pub login_accepted :
      String
      → String
      → User
      → Option String
      → Option String
      → Option String
      → Exec R.State IssuedAuthSession
  unfolding login_issued
  login_accepted ip normalized_email user current_session_token ip_address user_agent = do
    issued ← transaction (
        start_session env settings login_success user.id current_session_token ip_address
          user_agent)
    login_issued ip normalized_email issued

  unfoldable pub login_checked :
      String
      → String
      → Option User
      → Option User
      → Option String
      → Option String
      → Option String
      → Exec R.State IssuedAuthSession
  unfolding login_refused login_accepted
  login_checked ip normalized_email user none current_session_token ip_address user_agent =
      login_refused ip normalized_email user ip_address user_agent
  login_checked ip normalized_email user (some u) current_session_token ip_address user_agent =
      login_accepted ip normalized_email u current_session_token ip_address user_agent

  unfoldable pub login :
      String
      → String
      → Option String
      → Option String
      → Option String
      → Exec R.State IssuedAuthSession
  unfolding find_user_by_email accepted login_checked rate_limit_ip
  login email password current_session_token ip_address user_agent = do
    let normalized_email = env.lower (env.strip email)
    let ip = rate_limit_ip ip_address
    allowed ← ask_limiter (R.is_allowed ip normalized_email)
    raise_if (not allowed) (rate_limit_exceeded settings.rate_limit_window_seconds)
    user ← find_user_by_email env normalized_email
    login_checked ip normalized_email user (accepted env password user) current_session_token
        ip_address user_agent

  -- The limiter learns of a failed registration, except for the email's own bucket.
  unfoldable pub register_refused :
      String → String → Option ℕ → Option String → Option String → Exec R.State Unit
  unfolding create_audit_log
  register_refused ip normalized_email user_id ip_address user_agent = do
    tell_limiter (R.record_failure ip normalized_email false)
    create_audit_log env user_id none register_failed ip_address user_agent none none

  unfoldable pub register_user :
      String
      → String
      → LanguageCode
      → Option String
      → Option String
      → Option String
      → Exec R.State (User × AuthSession × String × String)
  unfolding create_user
  register_user normalized_email password language_code current_session_token ip_address
        user_agent =
      do
        password_hash ← draw (λ n. env.hash_password n password)
        user ← create_user env normalized_email (some password_hash) language_code
        start_session env settings register_success user.id current_session_token ip_address
            user_agent

  -- The statements of `register` behind its transaction.
  unfoldable pub register_issued :
      String → User × AuthSession × String × String → Exec R.State IssuedAuthSession
  register_issued ip (user, session, session_token, csrf_token) = do
    tell_limiter (R.record_registration ip)
    pure (record {
      user = user;
      session = session;
      session_token = session_token;
      csrf_token = csrf_token;
      roles = [];
      permissions = [];
    })

  unfoldable pub register_new :
      String
      → String
      → Option User
      → String
      → LanguageCode
      → Option String
      → Option String
      → Option String
      → Exec R.State IssuedAuthSession
  unfolding register_refused register_user on_email_taken register_issued
  register_new ip normalized_email (some existing_user) password language_code current_session_token
        ip_address user_agent =
      do
        register_refused ip normalized_email (some existing_user.id) ip_address user_agent
        raise email_already_registered
  register_new ip normalized_email none password language_code current_session_token ip_address
        user_agent =
      do
        issued ← λ w.
            on_email_taken (register_refused ip normalized_email none ip_address user_agent) (
              transaction
                (register_user normalized_email password language_code current_session_token
                  ip_address user_agent)
                w)
        register_issued ip issued

  unfoldable pub check_password : String → String → Bool → Exec R.State Unit
  check_password ip normalized_email true = pure tt
  check_password ip normalized_email false = do
    tell_limiter (R.record_failure ip normalized_email false)
    raise weak_password

  unfoldable pub register :
      String
      → String
      → LanguageCode
      → Option String
      → Option String
      → Option String
      → Exec R.State IssuedAuthSession
  unfolding register_new find_user_by_email validate_password_policy check_password rate_limit_ip
  register email password language_code current_session_token ip_address user_agent = do
    let normalized_email = env.lower (env.strip email)
    let ip = rate_limit_ip ip_address
    allowed ← ask_limiter (R.is_allowed ip normalized_email)
    raise_if (not allowed) (rate_limit_exceeded settings.rate_limit_window_seconds)
    registration_allowed ← ask_limiter (R.is_registration_allowed ip)
    raise_if (not registration_allowed)
        (rate_limit_exceeded settings.rate_limit_registration_window_seconds)
    check_password ip normalized_email (validate_password_policy password)
    existing_user ← find_user_by_email env normalized_email
    register_new ip normalized_email existing_user password language_code current_session_token
        ip_address user_agent

module _ (env : Env) {L : Type 0} where
  unfoldable pub change_language :
      AuthenticatedSessionContext → Option LanguageCode → Exec L AuthenticatedSessionContext
  unfolding update_user_language
  change_language auth_context none = pure auth_context
  change_language auth_context (some language_code) = do
    user ←
        transaction
          (do now ← draw env.utcnow; update_user_language auth_context.user.id language_code now)
    pure (record auth_context { user = user })

  unfoldable pub update_current_user :
      AuthenticatedSessionContext → AuthUserUpdateChanges → Exec L AuthenticatedSessionContext
  unfolding change_language contains
  update_current_user auth_context changes =
      if contains "language_code" changes.fields_set
      then change_language auth_context changes.language_code
      else pure auth_context
