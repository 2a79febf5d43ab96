-- ===== src/Auth/OutageTests.antt =====
-- A login while the Redis server is left alone.
use python_react_template.Prelude.{ℕ, ◌+◌, false, none, some, ◌≡◌, refl, arith}
use python_react_template.Store.Exec.{World, err, rate_limit_exceeded}
use python_react_template.RateLimit.Breaker.{timeout, new_breaker}
use python_react_template.RateLimit.Redis.{RedisClient, Sources, RedisSettings}
use python_react_template.RateLimit.Interface.{LoginRateLimiter, redis_limiter}
use python_react_template.Auth.Usecase.Login.{login}
use python_react_template.Auth.Usecase.Outage.{login-refused}
use python_react_template.Auth.Examples.{environment, settings, alice, tables}

-- A server that lets every call time out.
abbrev silent : RedisClient ℕ
silent = record {
  time = λ calls. (timeout, calls + 1);
  execute = λ transaction commands calls. (timeout, calls + 1);
  delete = λ keys calls. (timeout, calls + 1);
  scan_iter = λ match_it calls. (timeout, calls + 1);
}

abbrev sources : Sources
sources = record { sha256 = λ t. t; six_places = λ n. "0"; token_hex = λ n. "0" }

abbrev redis : RedisSettings
redis = record {
  limits = record {
    window_seconds = 900;
    registration_window_seconds = 3600;
    max_failures_per_email_ip = 5;
    max_failures_per_ip = 20;
    max_failures_per_email = 20;
    max_registrations_per_ip = 10;
    max_oidc_authorizations_per_ip = 10;
    max_buckets_per_scope = 100;
  };
  key_prefix = "auth:";
  breaker = record {
    unavailable_policy = "fail_closed";
    circuit_breaker_failures = 3;
    circuit_breaker_cooldown = 30000000;
  };
}

abbrev clock : ℕ → ℕ
clock i = i + 1

abbrev limiter : LoginRateLimiter
limiter = redis_limiter silent sources redis clock

-- The circuit open since the clock's first reading.
abbrev outage : World limiter.State
outage = record {
  db = tables alice;
  limiter = record {
    server = record { store = 3; draws = 0 };
    breaker = record new_breaker {
      consecutive_failures = 3;
      circuit_opened_at = some 1;
      readings = 1;
    };
  };
  calls = 0;
  in_transaction = false;
}

login-refused_example :
    ((login limiter environment settings "a@b.c" "correct horse" none none none outage).0
      ≡ err (rate_limit_exceeded 900))
    × ((login limiter environment settings "a@b.c" "correct horse" none none none outage).1.db
        ≡ tables alice)
    × ((login limiter environment settings "a@b.c" "correct horse" none none none
          outage).1.limiter.server
        ≡ outage.limiter.server)
login-refused_example =
    login-refused silent sources redis clock environment settings "a@b.c" "correct horse" none none
      none outage 1 refl (omega arith) refl
