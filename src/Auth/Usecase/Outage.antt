-- ===== src/Auth/Usecase/Outage.antt =====
-- `login` while the Redis limiter's circuit is open.
use python_react_template.Prelude.{ℕ, ◌+◌, ◌<◌, ◌≡◌, refl, ◌∙◌, String, false, Option, some, str_eq}
use python_react_template.Store.Exec.{Env, World, err, rate_limit_exceeded}
use python_react_template.RateLimit.Breaker.{Guarded}
use python_react_template.RateLimit.Breaker.Outage.{run_check_operation-refused}
use python_react_template.RateLimit.Redis.{
  RedisClient, Sources, RedisSettings, Remote, is_allowed, check_allowed,
}
use python_react_template.RateLimit.Interface.{LoginRateLimiter, redis_limiter}
use python_react_template.Auth.Settings.{AuthSettings, rate_limit_ip}
use python_react_template.Auth.Usecase.Login.{login}

module _ {S : Type 0} (client : RedisClient S) (sources : Sources) (redis : RedisSettings)
    (clock : ℕ → ℕ) (env : Env) (settings : AuthSettings) where
  abbrev R : LoginRateLimiter
  R = redis_limiter client sources redis clock

  is_allowed-refused :
      (ip e : String) (t : ℕ) (g : Guarded (Remote S))
      → g.breaker.circuit_opened_at ≡ some t
      → clock g.breaker.readings < t + redis.breaker.circuit_breaker_cooldown
      → str_eq redis.breaker.unavailable_policy "fail_open" ≡ false
      → ((is_allowed client sources redis clock ip e g).0 ≡ false)
        × ((is_allowed client sources redis clock ip e g).1.server ≡ g.server)
  unfolding is_allowed
  is_allowed-refused ip e t g opened early closed =
      let (policy, same) =
        run_check_operation-refused redis.breaker clock "is_allowed"
          (check_allowed client sources redis ip e) t g opened early in
      (policy ∙ closed, same)

  -- Under the Redis limiter with a policy other than `fail_open`, while its circuit is open and the
  -- clock has not gone on by the cooldown, every `login` is refused as rate limited, the database
  -- stays what it was, and the Redis server is not reached.
  pub login-refused :
      (email password : String) (cur ip_address ua : Option String) (w : World R.State) (t : ℕ)
      → w.limiter.breaker.circuit_opened_at ≡ some t
      → clock w.limiter.breaker.readings < t + redis.breaker.circuit_breaker_cooldown
      → str_eq redis.breaker.unavailable_policy "fail_open" ≡ false
      → let (result, w') = login R env settings email password cur ip_address ua w in
        (result ≡ err (rate_limit_exceeded settings.rate_limit_window_seconds))
        × (w'.db ≡ w.db)
        × (w'.limiter.server ≡ w.limiter.server)
  unfolding login
  login-refused email password cur ip_address ua w t opened early closed =
      let (denied, same) =
        is_allowed-refused (rate_limit_ip ip_address) (env.lower (env.strip email)) t w.limiter
          opened early closed in
      rw denied (refl, refl, same)
