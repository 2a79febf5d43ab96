-- ===== src/RateLimit/Memory.antt =====
-- `InMemoryLoginRateLimiter` of backend/app/libraries/auth_rate_limiter.py. The clock is the
-- sequence of its readings; each call reads it once. The warnings logged are kept in a list.
pub mod Verdicts
pub mod Invariant
pub mod Calls
use python_react_template.Prelude.{
  ℕ, ◌+◌, String, Bool, true, false, Option, none, some, List, [], ◌∷◌, ◌++◌, ◌&&◌, ltb, length,
  any, str_append, if◌then◌else◌,
}
use python_react_template.RateLimit.Buckets.{
  Bucket, Buckets, erase, get_existing_bucket, get_or_create_bucket, record_event,
}

-- The arguments of `__init__`.
pub record Limits : Type 0 where
  pub window_seconds : ℕ
  pub registration_window_seconds : ℕ
  pub max_failures_per_email_ip : ℕ
  pub max_failures_per_ip : ℕ
  pub max_failures_per_email : ℕ
  pub max_registrations_per_ip : ℕ
  pub max_oidc_authorizations_per_ip : ℕ
  pub max_buckets_per_scope : ℕ

-- The scope names that `_warn_bucket_cap_reached` is given.
pub data Scope : Type 0 where
  email_ip ip email registration_ip oidc_authorization_ip : Scope

abbrev pub scope_eq : Scope → Scope → Bool
scope_eq email_ip email_ip = true
scope_eq ip ip = true
scope_eq email email = true
scope_eq registration_ip registration_ip = true
scope_eq oidc_authorization_ip oidc_authorization_ip = true
scope_eq _ _ = false

pub record InMemory : Type 0 where
  pub email_ip_buckets : Buckets
  pub ip_buckets : Buckets
  pub email_buckets : Buckets
  pub registration_ip_buckets : Buckets
  pub oidc_authorization_ip_buckets : Buckets
  pub cap_warning_scopes : List Scope
  pub warnings : List Scope
  pub readings : ℕ

-- `_email_ip_key`
abbrev pub email_ip_key : String → String → String
email_ip_key ip_address normalized_email = str_append ip_address (str_append ":" normalized_email)

abbrev pub empty : InMemory
empty = record {
  email_ip_buckets = [];
  ip_buckets = [];
  email_buckets = [];
  registration_ip_buckets = [];
  oidc_authorization_ip_buckets = [];
  cap_warning_scopes = [];
  warnings = [];
  readings = 0;
}

-- `_warn_bucket_cap_reached`
warn_bucket_cap_reached : Scope → InMemory → InMemory
warn_bucket_cap_reached scope s =
    if any (scope_eq scope) s.cap_warning_scopes then s else record s {
      cap_warning_scopes = scope ∷ s.cap_warning_scopes;
      warnings = s.warnings ++ scope ∷ [];
    }

-- The warning that `_get_or_create_bucket` gives where it returns `None`.
note_cap : Scope → Option Bucket → InMemory → InMemory
unfolding warn_bucket_cap_reached
note_cap scope none s = warn_bucket_cap_reached scope s
note_cap scope (some b) s = s

unfoldable pub record_success : String → String → InMemory → InMemory
record_success ip_address normalized_email s = record s {
  email_ip_buckets = erase (email_ip_key ip_address normalized_email) s.email_ip_buckets;
}

-- `reset_for_tests`; the clock and the lines already logged stay.
pub reset_for_tests : InMemory → InMemory
reset_for_tests s = record empty { warnings = s.warnings; readings = s.readings }

module _ (limits : Limits) (clock : ℕ → ℕ) where
  abbrev pub window : ℕ
  window = limits.window_seconds

  abbrev pub cap : ℕ
  cap = limits.max_buckets_per_scope

  -- `self._clock()`
  abbrev pub now : InMemory → ℕ
  now s = clock s.readings

  abbrev tick : InMemory → InMemory
  tick s = record s { readings = s.readings + 1 }

  unfoldable pub is_allowed : String → String → InMemory → Bool × InMemory
  is_allowed ip_address normalized_email s =
      let (e, email_ip_bucket) =
        get_existing_bucket (now s) window (email_ip_key ip_address normalized_email)
          s.email_ip_buckets in
      let (i, ip_bucket) = get_existing_bucket (now s) window ip_address s.ip_buckets in
      let (m, email_bucket) = get_existing_bucket (now s) window normalized_email s.email_buckets in
      (
        ltb (length email_ip_bucket) limits.max_failures_per_email_ip
            && ltb (length ip_bucket) limits.max_failures_per_ip
            && ltb (length email_bucket) limits.max_failures_per_email,
        record (tick s) { email_ip_buckets = e; ip_buckets = i; email_buckets = m },
      )

  unfoldable pub is_account_deletion_reauth_allowed : String → String → InMemory → Bool × InMemory
  is_account_deletion_reauth_allowed ip_address normalized_email s =
      let (e, email_ip_bucket) =
        get_existing_bucket (now s) window (email_ip_key ip_address normalized_email)
          s.email_ip_buckets in
      let (i, ip_bucket) = get_existing_bucket (now s) window ip_address s.ip_buckets in
      (
        ltb (length email_ip_bucket) limits.max_failures_per_email_ip
            && ltb (length ip_bucket) limits.max_failures_per_ip,
        record (tick s) { email_ip_buckets = e; ip_buckets = i },
      )

  record_email_ip : ℕ → String → InMemory → InMemory
  unfolding note_cap
  record_email_ip t k s =
      note_cap email_ip (get_or_create_bucket t window cap k s.email_ip_buckets).1
        (record s { email_ip_buckets = record_event t window cap k s.email_ip_buckets })

  record_ip : ℕ → String → InMemory → InMemory
  unfolding note_cap
  record_ip t k s =
      note_cap ip (get_or_create_bucket t window cap k s.ip_buckets).1
        (record s { ip_buckets = record_event t window cap k s.ip_buckets })

  record_email : ℕ → String → InMemory → InMemory
  unfolding note_cap
  record_email t k s =
      note_cap email (get_or_create_bucket t window cap k s.email_buckets).1
        (record s { email_buckets = record_event t window cap k s.email_buckets })

  pub record_failure : String → String → Bool → InMemory → InMemory
  unfolding record_email_ip record_ip record_email
  record_failure ip_address normalized_email include_email_bucket s =
      let t = now s in
      let after_email_ip = record_email_ip t (email_ip_key ip_address normalized_email) (tick s) in
      let after_ip = record_ip t ip_address after_email_ip in
      if include_email_bucket then record_email t normalized_email after_ip else after_ip

  unfoldable pub is_registration_allowed : String → InMemory → Bool × InMemory
  is_registration_allowed ip_address s =
      let (m, bucket) =
        get_existing_bucket (now s) limits.registration_window_seconds ip_address
          s.registration_ip_buckets in
      (
        ltb (length bucket) limits.max_registrations_per_ip,
        record (tick s) { registration_ip_buckets = m },
      )

  pub record_registration : String → InMemory → InMemory
  unfolding note_cap
  record_registration ip_address s =
      let t = now s in
      let w = limits.registration_window_seconds in
      note_cap registration_ip (get_or_create_bucket t w cap ip_address s.registration_ip_buckets).1
        (record (tick s) {
          registration_ip_buckets = record_event t w cap ip_address s.registration_ip_buckets;
        })

  pub is_oidc_authorization_allowed : String → InMemory → Bool × InMemory
  is_oidc_authorization_allowed ip_address s =
      let (m, bucket) =
        get_existing_bucket (now s) window ip_address s.oidc_authorization_ip_buckets in
      (
        ltb (length bucket) limits.max_oidc_authorizations_per_ip,
        record (tick s) { oidc_authorization_ip_buckets = m },
      )

  pub record_oidc_authorization : String → InMemory → InMemory
  unfolding note_cap
  record_oidc_authorization ip_address s =
      let t = now s in
      note_cap oidc_authorization_ip
        (get_or_create_bucket t window cap ip_address s.oidc_authorization_ip_buckets).1
        (record (tick s) {
          oidc_authorization_ip_buckets =
              record_event t window cap ip_address s.oidc_authorization_ip_buckets;
        })
