-- ===== src/RateLimit/Tests.antt =====
-- The limiter at concrete inputs.
use python_react_template.Prelude.{
  ℕ, ◌+◌, ◌≤◌, true, false, ◌≡◌, refl, [], ◌∷◌, arith, is_some, ltb, leb, ◌-◌, ◌&&◌, ◌||◌, str_eq,
  if◌then◌else◌,
}
use python_react_template.RateLimit.Buckets.{get_or_create_bucket, record_event, Buckets}
use python_react_template.RateLimit.Buckets.Order.{IsOrdered}
use python_react_template.RateLimit.Buckets.Active.{active, active-record_event}
use python_react_template.RateLimit.Buckets.Capacity.{
  live_entries, record_event-IsOrdered, get_or_create_bucket-admitted,
}
use python_react_template.RateLimit.Memory.{Limits, InMemory, email_ip_key, empty, is_allowed}
use python_react_template.RateLimit.Memory.Invariant.{IsValid}
use python_react_template.RateLimit.Memory.Verdicts.{
  fail_times, is_allowed_lem, is_allowed-fail_times,
}
use python_react_template.RateLimit.Memory.Calls.{fail, run, run-IsValid}

abbrev limits : Limits
limits = record {
  window_seconds = 900;
  registration_window_seconds = 3600;
  max_failures_per_email_ip = 2;
  max_failures_per_ip = 20;
  max_failures_per_email = 20;
  max_registrations_per_ip = 10;
  max_oidc_authorizations_per_ip = 10;
  max_buckets_per_scope = 2;
}

-- A clock that goes on by a second from one reading to the next.
abbrev seconds : ℕ → ℕ
seconds i = i + 100

seconds_monotonic : (i : ℕ) → seconds i ≤ seconds (i + 1)
seconds_monotonic i = omega arith

-- The limiter after one failed login.
abbrev one_failure : InMemory
one_failure = run limits seconds (fail "10.0.0.1" "a@b.c" true ∷ []) empty

abbrev one_event : Buckets
one_event = record_event 100 900 2 "10.0.0.1" []

one_event-IsOrdered : IsOrdered 100 one_event
one_event-IsOrdered = record_event-IsOrdered 100 900 2 "10.0.0.1" [] tt

is_allowed-fail_times_example :
    (is_allowed limits seconds "10.0.0.1" "a@b.c"
      (fail_times limits seconds 2 "10.0.0.1" "a@b.c" true empty)).0
    ≡ false
unfolding active live_entries
is_allowed-fail_times_example =
    is_allowed-fail_times limits seconds seconds_monotonic 2 "10.0.0.1" "a@b.c" true empty
      (omega arith) (omega arith) (omega arith) refl

is_allowed_lem_example : (is_allowed limits seconds "10.0.0.1" "a@b.c" one_failure).0 ≡ (
    ltb
      (active
        (seconds one_failure.readings)
        900
        (email_ip_key "10.0.0.1" "a@b.c")
        one_failure.email_ip_buckets)
      2
    && ltb (active (seconds one_failure.readings) 900 "10.0.0.1" one_failure.ip_buckets) 20
    && ltb (active (seconds one_failure.readings) 900 "a@b.c" one_failure.email_buckets) 20)
is_allowed_lem_example =
    is_allowed_lem limits seconds "10.0.0.1" "a@b.c" one_failure
      (run-IsValid limits seconds seconds_monotonic (fail "10.0.0.1" "a@b.c" true ∷ []))

run-IsValid_example : IsValid limits seconds one_failure
run-IsValid_example =
    run-IsValid limits seconds seconds_monotonic (fail "10.0.0.1" "a@b.c" true ∷ [])

get_or_create_bucket-admitted_example :
    is_some (get_or_create_bucket 100 900 2 "10.0.0.2" one_event).1
    ≡ (leb 1 (active 100 900 "10.0.0.2" one_event) || ltb (live_entries 100 900 one_event) 2)
get_or_create_bucket-admitted_example =
    get_or_create_bucket-admitted 100 900 2 "10.0.0.2" one_event one_event-IsOrdered

active-record_event_example :
    active 200 900 "10.0.0.1" (record_event 100 900 2 "10.0.0.1" one_event)
    ≡ active 200 900 "10.0.0.1" one_event
      + (if str_eq "10.0.0.1" "10.0.0.1"
            && is_some (get_or_create_bucket 100 900 2 "10.0.0.1" one_event).1
          then (if leb (200 - 100) 900 then 1 else 0)
          else 0)
active-record_event_example =
    active-record_event 100 900 200 (omega arith) 2 "10.0.0.1" "10.0.0.1" one_event
      one_event-IsOrdered
