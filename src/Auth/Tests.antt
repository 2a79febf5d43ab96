-- ===== src/Auth/Tests.antt =====
-- `login` and `register` at concrete inputs.
use python_react_template.Prelude.{◌≡◌, refl, none, some, [], arith, find, any}
use python_react_template.Store.Rows.{User, en}
use python_react_template.Store.Exec.{
  World, Result, ok, invalid_credentials, email_already_registered,
}
use python_react_template.Store.AuthRepository.Users.{get_user, record_user_login}
use python_react_template.Store.AuthRepository.Sessions.{create_session}
use python_react_template.Store.AuthorizationRepository.{role_codes_for_user}
use python_react_template.RateLimit.Buckets.{lookup, get_existing_bucket}
use python_react_template.RateLimit.Memory.{is_allowed, is_registration_allowed, record_success}
use python_react_template.Auth.Settings.{truthy}
use python_react_template.Auth.Authorization.{resolve_user_authorization}
use python_react_template.Auth.Issuer.{calculate_session_expiry, replace_auth_session}
use python_react_template.Auth.Usecase.Context.{
  AuthenticatedSessionContext, IssuedAuthSession, start_session, open_session, log_started,
}
use python_react_template.Auth.Usecase.Session.{authenticate_session}
use python_react_template.Auth.Usecase.Login.{login, register}
use python_react_template.Auth.Usecase.LoginRoundTrip.{authenticate_session-login}
use python_react_template.Auth.Usecase.Outcome.{login-opens, login_user, MayLogin, IsLoggedIn}
use python_react_template.Auth.Usecase.Atomicity.{IsOnlyLogged, login-atomic, register-atomic}
use python_react_template.Auth.Examples.{environment, settings, limiter, alice, tables, world}

abbrev issued : IssuedAuthSession
issued = record {
  user = record alice { last_logged_in_at = some 100000 };
  session = record {
    id = 4;
    user_id = 7;
    session_token_hash = "token";
    csrf_token_hash = "token";
    issued_at = 100003;
    last_seen_at = 100003;
    expires_at = 86500003;
    revoked_at = none;
    last_oidc_authenticated_at = none;
    ip_address = none;
    user_agent = none;
  };
  session_token = "token";
  csrf_token = "token";
  roles = [];
  permissions = [];
}

abbrev logged_in : Result IssuedAuthSession × World limiter.State
logged_in = login limiter environment settings "a@b.c" "correct horse" none none none (world alice)

logged_in_issued : logged_in.0 ≡ ok issued
unfolding login is_allowed record_success lookup get_existing_bucket find start_session
    record_user_login open_session replace_auth_session create_session any log_started
    calculate_session_expiry resolve_user_authorization role_codes_for_user
logged_in_issued = refl

login-opens_example :
    (u : User) × (login_user limiter environment settings "a@b.c" (world alice) ≡ some u)
    × MayLogin environment "correct horse" u
    × IsLoggedIn limiter environment settings u.id 100000 (tables alice) logged_in.1 issued
login-opens_example =
    login-opens limiter environment settings "a@b.c" "correct horse" none none none (world alice)
      logged_in_issued

authenticate_session-login_example :
    (ctx : AuthenticatedSessionContext) × ((authenticate_session environment settings
        (some "token")
        none
        none
        logged_in.1).0
      ≡ ok (some ctx))
    × (ctx.user ≡ issued.user)
    × (ctx.session.id ≡ 4)
unfolding get_user truthy login is_allowed record_success lookup get_existing_bucket find
    start_session record_user_login open_session replace_auth_session create_session any log_started
    calculate_session_expiry resolve_user_authorization role_codes_for_user
authenticate_session-login_example =
    authenticate_session-login limiter environment settings "a@b.c" "correct horse" none none none
      (world alice) logged_in.1 (refl, tt) logged_in_issued refl refl (omega arith)

login-atomic_example :
    IsOnlyLogged
      (tables alice)
      (login limiter environment settings "a@b.c" "wrong" none none none (world alice)).1.db
unfolding login is_allowed record_success lookup get_existing_bucket find start_session
    record_user_login open_session replace_auth_session create_session any log_started
    calculate_session_expiry resolve_user_authorization role_codes_for_user
login-atomic_example =
    login-atomic limiter environment settings "a@b.c" "wrong" none none none (world alice)
      {x = invalid_credentials} refl refl

register-atomic_example :
    IsOnlyLogged
      (tables alice)
      (register limiter environment settings "a@b.c" "correct horse" en none none none
        (world alice)).1.db
unfolding register is_registration_allowed login is_allowed record_success lookup
    get_existing_bucket find start_session record_user_login open_session replace_auth_session
    create_session any log_started calculate_session_expiry resolve_user_authorization
    role_codes_for_user
register-atomic_example =
    register-atomic limiter environment settings "a@b.c" "correct horse" en none none none
      (world alice) {x = email_already_registered} refl refl
