-- ===== src/RateLimit/Breaker.antt =====
-- The circuit breaker of backend/app/libraries/redis_login_rate_limiter.py, around operations on a
-- Redis server that answer or fail. The clock is the sequence of its readings, in microseconds.
-- The warnings logged are kept in a list.
pub mod Machine
pub mod Outage
pub mod Steps
use python_react_template.Prelude.{
  ℕ, ◌+◌, String, Bool, true, false, Option, none, some, List, [], ◌∷◌, ◌++◌, ◌&&◌, ◌||◌, is_some,
  ltb, leb, str_eq, has_part, if◌then◌else◌,
}

-- The arguments of `__init__` that the breaker reads.
pub record BreakerSettings : Type 0 where
  pub unavailable_policy : String
  pub circuit_breaker_failures : ℕ
  pub circuit_breaker_cooldown : ℕ

-- `__init__`'s mutable fields.
pub record Breaker : Type 0 where
  pub consecutive_failures : ℕ
  pub circuit_opened_at : Option ℕ
  pub circuit_open_warning_logged : Bool
  pub pool_exhaustion_warning_logged_at : Option ℕ
  pub warnings : List String
  pub readings : ℕ

abbrev pub new_breaker : Breaker
new_breaker = record {
  consecutive_failures = 0;
  circuit_opened_at = none;
  circuit_open_warning_logged = false;
  pool_exhaustion_warning_logged_at = none;
  warnings = [];
  readings = 0;
}

-- A server `S` behind the breaker.
pub record Guarded (S : Type 0) : Type 0 where
  pub server : S
  pub breaker : Breaker

-- What an operation comes to within its deadline: a value, or an error of the classes that
-- `_run_operation` catches, a `RedisConnectionError` with its message.
pub data Reply (A : Type 0) : Type 0 where
  answer : A → Reply A
  connection_error : String → Reply A
  redis_error timeout os_error : Reply A

-- `_POOL_EXHAUSTION_WARNING_INTERVAL_SECONDS`
abbrev pub pool_exhaustion_warning_interval : ℕ
pool_exhaustion_warning_interval = 1000000

-- `_is_pool_exhaustion`, of the message of a `RedisConnectionError`.
unfoldable pub is_pool_exhaustion : String → Bool
unfolding has_part
is_pool_exhaustion message =
    has_part "Too many connections" message || has_part "No connection available" message

-- `_emit_unavailable_warning`
unfoldable pub emit_unavailable_warning : String → Breaker → Breaker
emit_unavailable_warning operation b = record b { warnings = b.warnings ++ operation ∷ [] }

-- `_log_unavailable`
unfoldable pub log_unavailable : String → Breaker → Breaker
unfolding emit_unavailable_warning
log_unavailable operation b =
    if is_some b.circuit_opened_at && b.circuit_open_warning_logged
    then b
    else record (emit_unavailable_warning operation b) {
      circuit_open_warning_logged = is_some b.circuit_opened_at || b.circuit_open_warning_logged;
    }

-- `_mark_success`
unfoldable pub mark_success : Breaker → Breaker
mark_success b = record b {
  consecutive_failures = 0;
  circuit_opened_at = none;
  circuit_open_warning_logged = false;
}

-- The test of `_log_pool_exhaustion`.
unfoldable pub warned_lately : ℕ → Option ℕ → Bool
warned_lately now none = false
warned_lately now (some t) = ltb now (t + pool_exhaustion_warning_interval)

module _ (settings : BreakerSettings) (clock : ℕ → ℕ) where
  -- `_circuit_is_open`
  unfoldable pub circuit_is_open : Breaker → Bool × Breaker
  circuit_is_open b = elim b.circuit_opened_at [
    | none ↦ (false, b)
    | some t ↦
        if ltb (clock b.readings) (t + settings.circuit_breaker_cooldown)
        then (true, record b { readings = b.readings + 1 })
        else (
          false,
          record b {
            circuit_opened_at = none;
            circuit_open_warning_logged = false;
            readings = b.readings + 1;
          },
        )
  ]

  -- The failure counted, and the circuit opened when they are enough.
  unfoldable pub count_failure : Breaker → Breaker
  count_failure b =
      if leb settings.circuit_breaker_failures (b.consecutive_failures + 1)
      then record b {
        consecutive_failures = b.consecutive_failures + 1;
        circuit_opened_at = some (clock b.readings);
        circuit_open_warning_logged = false;
        readings = b.readings + 1;
      }
      else record b { consecutive_failures = b.consecutive_failures + 1 }

  -- `_mark_failure`
  unfoldable pub mark_failure : String → Breaker → Breaker
  unfolding count_failure log_unavailable
  mark_failure operation b = log_unavailable operation (count_failure b)

  -- `_log_pool_exhaustion`
  unfoldable pub log_pool_exhaustion : String → Breaker → Breaker
  unfolding warned_lately emit_unavailable_warning
  log_pool_exhaustion operation b =
      if warned_lately (clock b.readings) b.pool_exhaustion_warning_logged_at
      then record b { readings = b.readings + 1 }
      else record (emit_unavailable_warning operation b) {
        pool_exhaustion_warning_logged_at = some (clock b.readings);
        readings = b.readings + 1;
      }

  -- The breaker after a reply, and the reply's value.
  unfoldable pub settle : {A : Type 0} → String → Reply A → Breaker → Option A × Breaker
  unfolding is_pool_exhaustion log_pool_exhaustion mark_failure mark_success
  settle operation (answer a) b = (some a, mark_success b)
  settle operation (connection_error message) b = (
    none,
    if is_pool_exhaustion message
        then log_pool_exhaustion operation b
        else mark_failure operation b,
  )
  settle operation redis_error b = (none, mark_failure operation b)
  settle operation timeout b = (none, mark_failure operation b)
  settle operation os_error b = (none, mark_failure operation b)

  -- `_run_operation`
  unfoldable pub run_operation :
      {S A : Type 0} → String → (S → Reply A × S) → Guarded S → Option A × Guarded S
  unfolding circuit_is_open log_unavailable settle
  run_operation operation factory g =
      let (is_open, asked) = circuit_is_open g.breaker in
      if is_open
      then (none, record g { breaker = log_unavailable operation asked })
      else let (reply, after) = factory g.server in
        let (result, settled) = settle operation reply asked in
        (result, record { server = after; breaker = settled })

  -- `_run_check_operation`
  unfoldable pub run_check_operation :
      {S : Type 0} → String → (S → Reply Bool × S) → Guarded S → Bool × Guarded S
  unfolding run_operation
  run_check_operation operation factory g =
      let (result, after) = run_operation operation factory g in
      (
        elim result [
          | none ↦ str_eq settings.unavailable_policy "fail_open"
          | some allowed ↦ allowed
        ],
        after,
      )

  -- `_run_record_operation`
  unfoldable pub run_record_operation :
      {S A : Type 0} → String → (S → Reply A × S) → Guarded S → Guarded S
  unfolding run_operation
  run_record_operation operation factory g = (run_operation operation factory g).1
