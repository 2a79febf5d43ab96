-- ===== src/Auth/Examples.antt =====
-- Concrete inputs for the tests of the use cases.
use python_react_template.Prelude.{◌+◌, true, false, none, some, [], ◌∷◌, str_eq}
use python_react_template.Store.Rows.{User, AuthSession, Db, en}
use python_react_template.Store.Exec.{Env, World}
use python_react_template.RateLimit.Memory.{empty}
use python_react_template.RateLimit.Interface.{LoginRateLimiter, in_memory_limiter}
use python_react_template.Auth.Settings.{AuthSettings}

abbrev pub environment : Env
environment = record {
  utcnow = λ n. 100000 + n;
  uuid4 = λ n. n;
  token_urlsafe = λ n. "token";
  sha256 = λ t. t;
  hash_password = λ n p. p;
  verify_password = λ p h. str_eq p h;
  strip = λ t. t;
  lower = λ t. t;
  sql_lower = λ t. t;
  ip_address = λ t. t;
  try_advisory_lock = λ n. true;
}

abbrev pub settings : AuthSettings
settings = record {
  session_absolute_ttl_seconds = 604800;
  session_idle_ttl_seconds = 86400;
  session_touch_interval_seconds = 300;
  rate_limit_window_seconds = 900;
  rate_limit_registration_window_seconds = 3600;
}

abbrev pub limiter : LoginRateLimiter
limiter =
    in_memory_limiter
      (record {
        window_seconds = 900;
        registration_window_seconds = 3600;
        max_failures_per_email_ip = 5;
        max_failures_per_ip = 20;
        max_failures_per_email = 20;
        max_registrations_per_ip = 10;
        max_oidc_authorizations_per_ip = 10;
        max_buckets_per_scope = 100;
      })
      (λ i. i + 100)

abbrev pub alice : User
alice = record {
  id = 7;
  email = "a@b.c";
  password_hash = some "correct horse";
  is_active = true;
  language_code = en;
  registered_at = 0;
  modified_at = 0;
  last_logged_in_at = none;
  deleted_at = none;
}

abbrev pub alice_session : AuthSession
alice_session = record {
  id = 9;
  user_id = 7;
  session_token_hash = "s";
  csrf_token_hash = "c";
  issued_at = 90000;
  last_seen_at = 90000;
  expires_at = 86490000;
  revoked_at = none;
  last_oidc_authenticated_at = none;
  ip_address = none;
  user_agent = none;
}

-- One user, with one session.
abbrev pub tables : User → Db
tables user = record {
  users = user ∷ [];
  sessions = alice_session ∷ [];
  audit_logs = [];
  identities = [];
  roles = [];
  items = [];
  oidc_states = [];
}

abbrev pub world : User → World limiter.State
world user = record { db = tables user; limiter = empty; calls = 0; in_transaction = false }
