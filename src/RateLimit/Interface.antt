-- ===== src/RateLimit/Interface.antt =====
-- `LoginRateLimiterInterface` of backend/app/interfaces/libraries/rate_limiter_interface.py: what
-- the use cases see of a rate limiter. Each operation takes its state to the next one.
use python_react_template.Prelude.{ℕ, String, Bool}
use python_react_template.RateLimit.Memory
use python_react_template.RateLimit.Memory.{Limits, InMemory}
use python_react_template.RateLimit.Breaker.{Guarded}
use python_react_template.RateLimit.Redis
use python_react_template.RateLimit.Redis.{RedisClient, Sources, RedisSettings, Remote}

pub record LoginRateLimiter : Type 1 where
  pub State : Type 0
  pub is_allowed : String → String → State → Bool × State
  pub is_account_deletion_reauth_allowed : String → String → State → Bool × State
  pub record_failure : String → String → Bool → State → State
  pub record_success : String → String → State → State
  pub is_registration_allowed : String → State → Bool × State
  pub record_registration : String → State → State
  pub is_oidc_authorization_allowed : String → State → Bool × State
  pub record_oidc_authorization : String → State → State

-- The limiter of one process fills the interface.
abbrev pub in_memory_limiter : Limits → (ℕ → ℕ) → LoginRateLimiter
in_memory_limiter limits clock = record {
  State = InMemory;
  is_allowed = Memory.is_allowed limits clock;
  is_account_deletion_reauth_allowed = Memory.is_account_deletion_reauth_allowed limits clock;
  record_failure = Memory.record_failure limits clock;
  record_success = Memory.record_success;
  is_registration_allowed = Memory.is_registration_allowed limits clock;
  record_registration = Memory.record_registration limits clock;
  is_oidc_authorization_allowed = Memory.is_oidc_authorization_allowed limits clock;
  record_oidc_authorization = Memory.record_oidc_authorization limits clock;
}

-- So does the limiter over a Redis server.
abbrev pub redis_limiter :
    {S : Type 0} → RedisClient S → Sources → RedisSettings → (ℕ → ℕ) → LoginRateLimiter
redis_limiter {S = S} client sources settings clock = record {
  State = Guarded (Remote S);
  is_allowed = Redis.is_allowed client sources settings clock;
  is_account_deletion_reauth_allowed =
      Redis.is_account_deletion_reauth_allowed client sources settings clock;
  record_failure = Redis.record_failure client sources settings clock;
  record_success = Redis.record_success client sources settings clock;
  is_registration_allowed = Redis.is_registration_allowed client sources settings clock;
  record_registration = Redis.record_registration client sources settings clock;
  is_oidc_authorization_allowed = Redis.is_oidc_authorization_allowed client sources settings clock;
  record_oidc_authorization = Redis.record_oidc_authorization client sources settings clock;
}
