-- ===== src/RateLimit/RedisTests.antt =====
-- The Redis limiter at concrete inputs.
use python_react_template.Prelude.{ℕ, ◌+◌, true, none, some, [], ◌∷◌, ◌≡◌, refl, arith}
use python_react_template.RateLimit.Breaker.{
  BreakerSettings, Guarded, Reply, answer, connection_error, timeout, new_breaker, run_operation,
  circuit_is_open,
}
use python_react_template.RateLimit.Breaker.Machine.{Step, phase, event, is_well_formed, event_of}
use python_react_template.RateLimit.Breaker.Steps.{run_operation-Step, run_operation-is_well_formed}
use python_react_template.RateLimit.Breaker.Outage.{repeat, run_operation-repeat}

abbrev breaker_settings : BreakerSettings
breaker_settings = record {
  unavailable_policy = "fail_closed";
  circuit_breaker_failures = 3;
  circuit_breaker_cooldown = 30000000;
}

-- A second passes from one reading to the next.
abbrev clock : ℕ → ℕ
clock i = i + 1

-- A server that counts the calls that it gets, and lets each time out.
abbrev silent : ℕ → Reply ℕ × ℕ
silent calls = (timeout, calls + 1)

abbrev exhausted_now : ℕ → Reply ℕ × ℕ
exhausted_now calls = (connection_error "Too many connections", calls)

abbrev answering : ℕ → Reply ℕ × ℕ
answering calls = (answer calls, calls + 1)

abbrev start : Guarded ℕ
start = record { server = 0; breaker = new_breaker }

-- The circuit open since the clock's first reading.
abbrev open_circuit : Guarded ℕ
open_circuit = record {
  server = 3;
  breaker = record new_breaker {
    consecutive_failures = 3;
    circuit_opened_at = some 1;
    readings = 1;
  };
}

run_operation-Step_example :
    Step 3 30000000 2 3
      (event breaker_settings clock answering open_circuit)
      (phase breaker_settings open_circuit.breaker)
      (phase breaker_settings
        (run_operation breaker_settings clock "is_allowed" answering open_circuit).1.breaker)
unfolding is_well_formed circuit_is_open
run_operation-Step_example =
    run_operation-Step breaker_settings clock "is_allowed" answering open_circuit (omega arith) refl

run_operation-is_well_formed_example :
    is_well_formed breaker_settings
      (run_operation breaker_settings clock "is_allowed" answering open_circuit).1.breaker
    ≡ true
unfolding is_well_formed
run_operation-is_well_formed_example =
    run_operation-is_well_formed breaker_settings clock "is_allowed" answering open_circuit refl

run_operation-repeat_example :
    ((run_operation breaker_settings clock "is_allowed" answering
        (repeat breaker_settings clock 3 "record_failure" silent start)).0
      ≡ none)
    × ((run_operation breaker_settings clock "is_allowed" answering
          (repeat breaker_settings clock 3 "record_failure" silent start)).1.server
        ≡ (repeat breaker_settings clock 3 "record_failure" silent start).server)
unfolding event_of
run_operation-repeat_example =
    run_operation-repeat breaker_settings clock "record_failure" "is_allowed" silent answering start
      refl refl (omega arith) (λ s. refl) (omega arith)

-- The third failure opens the circuit, and the fourth call does not reach the server.
silence :
    (run_operation breaker_settings clock "is_allowed" answering
      (repeat breaker_settings clock 3 "record_failure" silent start)).1.server
    ≡ 3
unfolding run_operation repeat
silence = refl

-- The operations of the outage that are logged: each before the circuit opened, and one after.
logged :
    (run_operation breaker_settings clock "is_allowed" answering
      (run_operation breaker_settings clock "is_allowed" answering
        (repeat breaker_settings clock 3 "record_failure" silent start)).1).1.breaker.warnings
    ≡ "record_failure" ∷ "record_failure" ∷ "record_failure" ∷ []
unfolding run_operation repeat
logged = refl

-- An exhausted pool does not count against the server.
exhausted_pool :
    (run_operation breaker_settings clock "is_allowed" exhausted_now
      start).1.breaker.consecutive_failures
    ≡ 0
unfolding run_operation
exhausted_pool = refl
