-- ===== src/RateLimit/Redis.antt =====
-- `RedisLoginRateLimiter` of backend/app/libraries/redis_login_rate_limiter.py: the keys, and the
-- commands that each operation sends. The server is a parameter, a client with the calls of
-- `_RedisClient` and `_RedisPipeline` that the limiter makes. Times are in microseconds.
use python_react_template.Prelude.{
  ℕ, ◌+◌, ◌-◌, ◌*◌, String, Bool, true, false, List, [], ◌∷◌, ◌&&◌, ltb, length, str_append,
  rstrip_char, if◌then◌else◌,
}
use python_react_template.RateLimit.Breaker.{
  BreakerSettings, Guarded, Reply, answer, connection_error, redis_error, timeout, os_error,
  run_check_operation, run_record_operation,
}
use python_react_template.RateLimit.Memory.{Limits, email_ip_key}

-- The commands put into a pipeline. A bound `start` of `zcount` is inclusive, and that of
-- `zremrangebyscore`, written `(start`, is not.
pub data Command : Type 0 where
  zcount : String → ℕ → Command
  zremrangebyscore : String → ℕ → Command
  zadd : String → String → ℕ → Command
  expire : String → ℕ → Command

-- The client: `S` is the server's state, and each call may fail.
pub record RedisClient (S : Type 0) : Type 0 where
  pub time : S → Reply (ℕ × ℕ) × S
  -- `pipeline(transaction)`, filled with the commands, and `execute`, whose list of replies has
  -- one for each command, by its number
  pub execute : Bool → List Command → S → Reply (ℕ → ℕ) × S
  pub delete : List String → S → Reply ℕ × S
  pub scan_iter : String → S → Reply (List String) × S

-- What the limiter takes from elsewhere: `hashlib.sha256(…).hexdigest()`, `f"{now:.6f}"`, and the
-- texts that `secrets.token_hex(8)` gives, by the number of the call.
pub record Sources : Type 0 where
  pub sha256 : String → String
  pub six_places : ℕ → String
  pub token_hex : ℕ → String

-- The server's state, and how many tokens have been drawn.
pub record Remote (S : Type 0) : Type 0 where
  pub store : S
  pub draws : ℕ

-- An awaited call of the client, followed by what uses its answer.
unfoldable pub await :
    {S A B : Type 0}
    → (S → Reply A × S)
    → (A → Remote S → Reply B × Remote S)
    → Remote S
    → Reply B × Remote S
await call next r =
    let (reply, store) = call r.store in
    elim reply [
      | answer a ↦ next a (record r { store = store })
      | connection_error message ↦ (connection_error message, record r { store = store })
      | redis_error ↦ (redis_error, record r { store = store })
      | timeout ↦ (timeout, record r { store = store })
      | os_error ↦ (os_error, record r { store = store })
    ]

-- The arguments of `__init__` besides the client.
pub record RedisSettings : Type 0 where
  pub limits : Limits
  pub key_prefix : String
  pub breaker : BreakerSettings

module _ {S : Type 0} (client : RedisClient S) (sources : Sources) (settings : RedisSettings) where
  -- `_bucket_key`
  unfoldable pub bucket_key : String → String → String
  unfolding rstrip_char
  bucket_key scope raw_key =
      let digest = sources.sha256 (str_append scope (str_append ":" raw_key)) in
      str_append (rstrip_char ":" settings.key_prefix)
        (str_append ":" (str_append scope (str_append ":" digest)))

  -- `_email_ip_key`, of the bucket of an address and an email
  unfoldable pub email_ip_bucket_key : String → String → String
  unfolding bucket_key
  email_ip_bucket_key ip_address normalized_email =
      bucket_key "email_ip" (email_ip_key ip_address normalized_email)

  -- `_redis_time_seconds`, and what uses it.
  unfoldable pub with_redis_time :
      {A : Type 0} → (ℕ → Remote S → Reply A × Remote S) → Remote S → Reply A × Remote S
  unfolding await
  with_redis_time next =
      await client.time (λ (seconds, microseconds). next (seconds * 1000000 + microseconds))

  -- The commands of `_count_active`.
  unfoldable pub count_commands : ℕ → List String → List Command
  count_commands window_start [] = []
  count_commands window_start (key ∷ keys) =
      zcount key window_start ∷ count_commands window_start keys

  -- `_count_active`, and the test of its counts.
  unfoldable pub count_active :
      List String → ℕ → ((ℕ → ℕ) → Bool) → Remote S → Reply Bool × Remote S
  unfolding with_redis_time await count_commands
  count_active keys window_seconds test = with_redis_time (λ now.
      await (client.execute false (count_commands (now - window_seconds * 1000000) keys))
        (λ counts after. (answer (test counts), after)))

  -- The commands of `_record`, from a number of tokens drawn.
  unfoldable pub record_commands : ℕ → ℕ → ℕ → ℕ → List String → List Command
  record_commands now window_start expires_in draws [] = []
  record_commands now window_start expires_in draws (key ∷ keys) =
      zremrangebyscore key window_start
      ∷ zadd key (str_append (sources.six_places now) (str_append ":" (sources.token_hex draws)))
          now
      ∷ expire key expires_in
      ∷ record_commands now window_start expires_in (draws + 1) keys

  -- `_record`
  unfoldable pub record_keys : List String → ℕ → Remote S → Reply (ℕ → ℕ) × Remote S
  unfolding with_redis_time await record_commands
  record_keys keys window_seconds = with_redis_time (λ now r.
      await
        (client.execute true
          (record_commands now (now - window_seconds * 1000000) (window_seconds + 1) r.draws keys))
        (λ replies after. (answer replies, after)) (record r { draws = r.draws + length keys }))

  -- `_is_allowed`
  unfoldable pub check_allowed : String → String → Remote S → Reply Bool × Remote S
  unfolding count_active email_ip_bucket_key bucket_key
  check_allowed ip_address normalized_email =
      count_active
        (email_ip_bucket_key ip_address normalized_email
          ∷ bucket_key "ip" ip_address
          ∷ bucket_key "email" normalized_email
          ∷ [])
        settings.limits.window_seconds
        (λ counts.
          ltb (counts 0) settings.limits.max_failures_per_email_ip
          && ltb (counts 1) settings.limits.max_failures_per_ip
          && ltb (counts 2) settings.limits.max_failures_per_email)

  -- `_is_account_deletion_reauth_allowed`
  unfoldable pub check_account_deletion_reauth_allowed :
      String → String → Remote S → Reply Bool × Remote S
  unfolding count_active email_ip_bucket_key bucket_key
  check_account_deletion_reauth_allowed ip_address normalized_email =
      count_active
        (email_ip_bucket_key ip_address normalized_email ∷ bucket_key "ip" ip_address ∷ [])
        settings.limits.window_seconds
        (λ counts.
          ltb (counts 0) settings.limits.max_failures_per_email_ip
          && ltb (counts 1) settings.limits.max_failures_per_ip)

  -- `_record_failure`
  unfoldable pub send_failure : String → String → Bool → Remote S → Reply (ℕ → ℕ) × Remote S
  unfolding record_keys email_ip_bucket_key bucket_key
  send_failure ip_address normalized_email include_email_bucket =
      record_keys
        (email_ip_bucket_key ip_address normalized_email
          ∷ bucket_key "ip" ip_address
          ∷ (if include_email_bucket then bucket_key "email" normalized_email ∷ [] else []))
        settings.limits.window_seconds

  -- `_is_registration_allowed`
  unfoldable pub check_registration_allowed : String → Remote S → Reply Bool × Remote S
  unfolding count_active bucket_key
  check_registration_allowed ip_address =
      count_active (bucket_key "registration_ip" ip_address ∷ [])
        settings.limits.registration_window_seconds
        (λ counts. ltb (counts 0) settings.limits.max_registrations_per_ip)

  -- `_is_oidc_authorization_allowed`
  unfoldable pub check_oidc_authorization_allowed : String → Remote S → Reply Bool × Remote S
  unfolding count_active bucket_key
  check_oidc_authorization_allowed ip_address =
      count_active (bucket_key "oidc_authorization_ip" ip_address ∷ [])
        settings.limits.window_seconds
        (λ counts. ltb (counts 0) settings.limits.max_oidc_authorizations_per_ip)

  -- The call of `delete` in `record_success`.
  unfoldable pub send_success : String → String → Remote S → Reply ℕ × Remote S
  unfolding await email_ip_bucket_key
  send_success ip_address normalized_email =
      await (client.delete (email_ip_bucket_key ip_address normalized_email ∷ []))
        (λ deleted after. (answer deleted, after))

  -- `reset_for_tests`, which the breaker does not guard.
  unfoldable pub reset_for_tests : Remote S → Reply ℕ × Remote S
  unfolding await rstrip_char
  reset_for_tests =
      await (client.scan_iter (str_append (rstrip_char ":" settings.key_prefix) ":*"))
        (λ keys after. elim keys [
          | [] ↦ (answer 0, after)
          | key ∷ rest ↦ await (client.delete (key ∷ rest)) (λ deleted r. (answer deleted, r)) after
        ])

  -- The operations of the interface, behind the breaker.
  module _ (clock : ℕ → ℕ) where
    unfoldable pub is_allowed : String → String → Guarded (Remote S) → Bool × Guarded (Remote S)
    unfolding run_check_operation check_allowed
    is_allowed ip_address normalized_email =
        run_check_operation settings.breaker clock "is_allowed"
          (check_allowed ip_address normalized_email)

    unfoldable pub is_account_deletion_reauth_allowed :
        String → String → Guarded (Remote S) → Bool × Guarded (Remote S)
    unfolding run_check_operation check_account_deletion_reauth_allowed
    is_account_deletion_reauth_allowed ip_address normalized_email =
        run_check_operation settings.breaker clock "is_account_deletion_reauth_allowed"
          (check_account_deletion_reauth_allowed ip_address normalized_email)

    unfoldable pub record_failure : String → String → Bool → Guarded (Remote S) → Guarded (Remote S)
    unfolding run_record_operation send_failure
    record_failure ip_address normalized_email include_email_bucket =
        run_record_operation settings.breaker clock "record_failure"
          (send_failure ip_address normalized_email include_email_bucket)

    unfoldable pub record_success : String → String → Guarded (Remote S) → Guarded (Remote S)
    unfolding run_record_operation send_success
    record_success ip_address normalized_email =
        run_record_operation settings.breaker clock "record_success"
          (send_success ip_address normalized_email)

    unfoldable pub is_registration_allowed : String → Guarded (Remote S) → Bool × Guarded (Remote S)
    unfolding run_check_operation check_registration_allowed
    is_registration_allowed ip_address =
        run_check_operation settings.breaker clock "is_registration_allowed"
          (check_registration_allowed ip_address)

    unfoldable pub record_registration : String → Guarded (Remote S) → Guarded (Remote S)
    unfolding run_record_operation record_keys bucket_key
    record_registration ip_address =
        run_record_operation settings.breaker clock "record_registration" (
          record_keys (bucket_key "registration_ip" ip_address ∷ [])
            settings.limits.registration_window_seconds)

    unfoldable pub is_oidc_authorization_allowed :
        String → Guarded (Remote S) → Bool × Guarded (Remote S)
    unfolding run_check_operation check_oidc_authorization_allowed
    is_oidc_authorization_allowed ip_address =
        run_check_operation settings.breaker clock "is_oidc_authorization_allowed"
          (check_oidc_authorization_allowed ip_address)

    unfoldable pub record_oidc_authorization : String → Guarded (Remote S) → Guarded (Remote S)
    unfolding run_record_operation record_keys bucket_key
    record_oidc_authorization ip_address =
        run_record_operation settings.breaker clock "record_oidc_authorization" (
          record_keys (bucket_key "oidc_authorization_ip" ip_address ∷ [])
            settings.limits.window_seconds)
