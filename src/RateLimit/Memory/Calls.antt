-- ===== src/RateLimit/Memory/Calls.antt =====
-- Whole histories of the limiter: any sequence of calls of its public methods.
use python_react_template.Prelude.{
  ℕ, ◌+◌, ◌≤◌, String, Bool, true, false, ◌≡◌, refl, Option, none, some, List, [], ◌∷◌, arith, any,
  any-cons, count_if, count_if-append_one, Bool-cases, inl, inr, if◌then◌else◌,
}
use python_react_template.RateLimit.Buckets.{Bucket}
use python_react_template.RateLimit.Memory.{
  Limits, Scope, email_ip, ip, email, registration_ip, oidc_authorization_ip, scope_eq, InMemory,
  email_ip_key, empty, warn_bucket_cap_reached, note_cap, is_allowed,
  is_account_deletion_reauth_allowed, record_email_ip, record_ip, record_email, record_failure,
  record_success, is_registration_allowed, record_registration, is_oidc_authorization_allowed,
  record_oidc_authorization,
}
use python_react_template.RateLimit.Memory.Invariant.{
  IsValid, is_allowed-IsValid, is_account_deletion_reauth_allowed-IsValid, record_failure-IsValid,
  record_success-IsValid, is_registration_allowed-IsValid, record_registration-IsValid,
  is_oidc_authorization_allowed-IsValid, record_oidc_authorization-IsValid,
}

-- The calls that the interface offers.
pub data Call : Type 0 where
  ask_login ask_reauth succeed : String → String → Call
  fail : String → String → Bool → Call
  ask_registration registered ask_oidc started_oidc : String → Call

module _ (limits : Limits) (clock : ℕ → ℕ) where
  pub step : Call → InMemory → InMemory
  step (ask_login a e) s = (is_allowed limits clock a e s).1
  step (ask_reauth a e) s = (is_account_deletion_reauth_allowed limits clock a e s).1
  step (succeed a e) s = record_success a e s
  step (fail a e b) s = record_failure limits clock a e b s
  step (ask_registration a) s = (is_registration_allowed limits clock a s).1
  step (registered a) s = record_registration limits clock a s
  step (ask_oidc a) s = (is_oidc_authorization_allowed limits clock a s).1
  step (started_oidc a) s = record_oidc_authorization limits clock a s

  pub run : List Call → InMemory → InMemory
  run [] s = s
  run (c ∷ cs) s = run cs (step c s)

  module _ (monotonic : (i : ℕ) → clock i ≤ clock (i + 1)) where
    step-IsValid :
        (c : Call) (s : InMemory) → IsValid limits clock s → IsValid limits clock (step c s)
    unfolding step
    step-IsValid (ask_login a e) s v = is_allowed-IsValid limits clock monotonic a e s v
    step-IsValid (ask_reauth a e) s v =
        is_account_deletion_reauth_allowed-IsValid limits clock monotonic a e s v
    step-IsValid (succeed a e) s v = record_success-IsValid limits clock monotonic a e s v
    step-IsValid (fail a e b) s v = record_failure-IsValid limits clock monotonic a e b s v
    step-IsValid (ask_registration a) s v =
        is_registration_allowed-IsValid limits clock monotonic a s v
    step-IsValid (registered a) s v = record_registration-IsValid limits clock monotonic a s v
    step-IsValid (ask_oidc a) s v =
        is_oidc_authorization_allowed-IsValid limits clock monotonic a s v
    step-IsValid (started_oidc a) s v =
        record_oidc_authorization-IsValid limits clock monotonic a s v

    run_from-IsValid :
        (cs : List Call) (s : InMemory) → IsValid limits clock s → IsValid limits clock (run cs s)
    unfolding run
    run_from-IsValid [] s v = v
    run_from-IsValid (c ∷ cs) s v = run_from-IsValid cs (step c s) (step-IsValid c s v)

    -- If the clock never goes back, then after any sequence of calls on a new limiter every scope
    -- holds at most `max_buckets_per_scope` entries, each key once, in the order in which they
    -- expire, with no empty deque and with sorted timestamps, none of them in the future.
    pub run-IsValid : (cs : List Call) → IsValid limits clock (run cs empty)
    run-IsValid cs = run_from-IsValid cs empty (omega arith)

-- A scope is in the set of warned scopes if it was warned about, and then it was once.
abbrev pub WarnedOnce : Scope → InMemory → Type 0
WarnedOnce x s =
    count_if (scope_eq x) s.warnings ≡ (if any (scope_eq x) s.cap_warning_scopes then 1 else 0)

scope_eq_sound : (x y : Scope) → scope_eq x y ≡ true → x ≡ y
scope_eq_sound x y h = ground arith

warn-WarnedOnce :
    (x scope : Scope) (s : InMemory)
    → WarnedOnce x s
    → WarnedOnce x (warn_bucket_cap_reached scope s)
unfolding warn_bucket_cap_reached
warn-WarnedOnce x scope s h = elim (Bool-cases (any (scope_eq scope) s.cap_warning_scopes)) [
  | inl warned ↦ rw warned h
  | inr first ↦ rw first (
      rw
        (
          count_if-append_one (scope_eq x) scope s.warnings,
          any-cons (scope_eq x) scope s.cap_warning_scopes,
        )
        (elim (Bool-cases (scope_eq x scope)) [
          | inl same ↦ rw same (rw (h, scope_eq_sound x scope same, first))
          | inr other ↦ rw (other, h) (omega arith)
        ]))
]

note_cap-WarnedOnce :
    (x scope : Scope) (b : Option Bucket) (s : InMemory)
    → WarnedOnce x s
    → WarnedOnce x (note_cap scope b s)
unfolding note_cap
note_cap-WarnedOnce x scope none s h = warn-WarnedOnce x scope s h
note_cap-WarnedOnce x scope (some b) s h = h

module _ (limits : Limits) (clock : ℕ → ℕ) (x : Scope) where
  record_failure-WarnedOnce :
      (a e : String) (b : Bool) (s : InMemory)
      → WarnedOnce x s
      → WarnedOnce x (record_failure limits clock a e b s)
  unfolding record_failure
  record_failure-WarnedOnce a e b s h = both b
    where
      t : ℕ
      t = clock s.readings

      one : InMemory
      one =
          record_email_ip limits clock t (email_ip_key a e) (record s { readings = s.readings + 1 })

      one-WarnedOnce : WarnedOnce x one
      one-WarnedOnce = note_cap-WarnedOnce x email_ip _ _ h

      two-WarnedOnce : WarnedOnce x (record_ip limits clock t a one)
      two-WarnedOnce = note_cap-WarnedOnce x ip _ _ one-WarnedOnce

      both :
          (c : Bool)
          → WarnedOnce x (
              if c
              then record_email limits clock t e (record_ip limits clock t a one)
              else record_ip limits clock t a one)
      both true = note_cap-WarnedOnce x email _ _ two-WarnedOnce
      both false = two-WarnedOnce

  step-WarnedOnce :
      (c : Call) (s : InMemory) → WarnedOnce x s → WarnedOnce x (step limits clock c s)
  unfolding step is_allowed is_account_deletion_reauth_allowed record_success
      is_registration_allowed record_registration is_oidc_authorization_allowed
      record_oidc_authorization
  step-WarnedOnce (ask_login a e) s h = h
  step-WarnedOnce (ask_reauth a e) s h = h
  step-WarnedOnce (succeed a e) s h = h
  step-WarnedOnce (fail a e b) s h = record_failure-WarnedOnce a e b s h
  step-WarnedOnce (ask_registration a) s h = h
  step-WarnedOnce (registered a) s h = note_cap-WarnedOnce x registration_ip _ _ h
  step-WarnedOnce (ask_oidc a) s h = h
  step-WarnedOnce (started_oidc a) s h = note_cap-WarnedOnce x oidc_authorization_ip _ _ h

  run_from-WarnedOnce :
      (cs : List Call) (s : InMemory) → WarnedOnce x s → WarnedOnce x (run limits clock cs s)
  unfolding run
  run_from-WarnedOnce [] s h = h
  run_from-WarnedOnce (c ∷ cs) s h =
      run_from-WarnedOnce cs (step limits clock c s) (step-WarnedOnce c s h)

  -- Whatever calls are made on a new limiter, the cap of a scope is warned about at most once.
  pub warned_once :
      (cs : List Call) → count_if (scope_eq x) (run limits clock cs empty).warnings ≤ 1
  unfolding any count_if
  warned_once cs = ground (arith, run_from-WarnedOnce cs empty refl)
