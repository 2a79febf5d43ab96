-- ===== src/RateLimit/Memory/Invariant.antt =====
-- The limiter's invariant: every scope is within its cap and in the order of expiry, whatever
-- calls are made, provided that the clock never goes back.
use python_react_template.Prelude.{
  ℕ, ◌+◌, ◌≤◌, String, Bool, true, false, ◌≡◌, refl, sym, subst, Option, none, some, List, [], ◌∷◌,
  ◌++◌, length, arith, any, if◌then◌else◌,
}
use python_react_template.RateLimit.Buckets.{
  Bucket, Buckets, erase, get_existing_bucket, get_or_create_bucket, record_event,
}
use python_react_template.RateLimit.Buckets.Order.{IsOrdered, IsOrdered-mono, IsOrdered-erase}
use python_react_template.RateLimit.Buckets.Capacity.{
  get_existing_bucket-IsOrdered, record_event-IsOrdered, length-record_event_le, length-erase_le,
  length-get_existing_bucket_le,
}
use python_react_template.RateLimit.Memory.{
  Limits, Scope, InMemory, email_ip, ip, email, registration_ip, oidc_authorization_ip, scope_eq,
  note_cap, is_allowed, is_account_deletion_reauth_allowed, record_failure, record_success,
  is_registration_allowed, record_registration, is_oidc_authorization_allowed,
  record_oidc_authorization, email_ip_key, record_email_ip, record_ip, record_email,
}

-- One scope at a time.
abbrev pub IsScope : ℕ → ℕ → Buckets → Type 0
IsScope t n m = IsOrdered t m × (length m ≤ n)

pub record IsValidAt (t n : ℕ) (s : InMemory) : Type 0 where
  pub email_ip_scope : IsScope t n s.email_ip_buckets
  pub ip_scope : IsScope t n s.ip_buckets
  pub email_scope : IsScope t n s.email_buckets
  pub registration_ip_scope : IsScope t n s.registration_ip_buckets
  pub oidc_authorization_ip_scope : IsScope t n s.oidc_authorization_ip_buckets

get_existing-IsScope :
    (t w n : ℕ) (k : String) (m : Buckets)
    → IsScope t n m
    → IsScope t n (get_existing_bucket t w k m).0
get_existing-IsScope t w n k m h = (
  get_existing_bucket-IsOrdered t w k m h.0,
  omega (arith, length-get_existing_bucket_le t w k m),
)

record_event-IsScope :
    (t w n : ℕ) (k : String) (m : Buckets) → IsScope t n m → IsScope t n (record_event t w n k m)
record_event-IsScope t w n k m h =
    (record_event-IsOrdered t w n k m h.0, length-record_event_le t w n k m h.0 h.1)

erase-IsScope : (t n : ℕ) (k : String) (m : Buckets) → IsScope t n m → IsScope t n (erase k m)
erase-IsScope t n k m h = (IsOrdered-erase t k m h.0, omega (arith, length-erase_le 0 0 k m))

IsScope-mono : (t u n : ℕ) (m : Buckets) → t ≤ u → IsScope t n m → IsScope u n m
IsScope-mono t u n m le h = (IsOrdered-mono t u m le h.0, h.1)

pub IsValidAt-mono : (t u n : ℕ) (s : InMemory) → t ≤ u → IsValidAt t n s → IsValidAt u n s
IsValidAt-mono t u n s le v = record {
  email_ip_scope = IsScope-mono t u n s.email_ip_buckets le v.email_ip_scope;
  ip_scope = IsScope-mono t u n s.ip_buckets le v.ip_scope;
  email_scope = IsScope-mono t u n s.email_buckets le v.email_scope;
  registration_ip_scope = IsScope-mono t u n s.registration_ip_buckets le v.registration_ip_scope;
  oidc_authorization_ip_scope =
      IsScope-mono t u n s.oidc_authorization_ip_buckets le v.oidc_authorization_ip_scope;
}

warned-IsValidAt :
    (t n : ℕ) (b : Bool) (s : InMemory) (seen log : List Scope)
    → IsValidAt t n s
    → IsValidAt t n (if b then s else record s { cap_warning_scopes = seen; warnings = log })
warned-IsValidAt t n true s seen log v = v
warned-IsValidAt t n false s seen log v = record {
  email_ip_scope = v.email_ip_scope;
  ip_scope = v.ip_scope;
  email_scope = v.email_scope;
  registration_ip_scope = v.registration_ip_scope;
  oidc_authorization_ip_scope = v.oidc_authorization_ip_scope;
}

note_cap-IsValidAt :
    (t n : ℕ) (scope : Scope) (b : Option Bucket) (s : InMemory)
    → IsValidAt t n s
    → IsValidAt t n (note_cap scope b s)
unfolding note_cap
note_cap-IsValidAt t n scope none s v =
    warned-IsValidAt t n (any (scope_eq scope) s.cap_warning_scopes) s
      (scope ∷ s.cap_warning_scopes) (s.warnings ++ scope ∷ []) v
note_cap-IsValidAt t n scope (some b) s v = v

readings-warned :
    (b : Bool) (s : InMemory) (seen log : List Scope)
    → (if b then s else record s { cap_warning_scopes = seen; warnings = log }).readings
      ≡ s.readings
readings-warned true s seen log = refl
readings-warned false s seen log = refl

readings-note_cap :
    (scope : Scope) (b : Option Bucket) (s : InMemory) → (note_cap scope b s).readings ≡ s.readings
unfolding note_cap
readings-note_cap scope none s =
    readings-warned (any (scope_eq scope) s.cap_warning_scopes) s (scope ∷ s.cap_warning_scopes)
      (s.warnings ++ scope ∷ [])
readings-note_cap scope (some b) s = refl

module _ (limits : Limits) (clock : ℕ → ℕ) where
  abbrev n : ℕ
  n = limits.max_buckets_per_scope

  abbrev w : ℕ
  w = limits.window_seconds

  -- The invariant between calls: it holds at the clock's next reading.
  abbrev pub IsValid : InMemory → Type 0
  IsValid s = IsValidAt (clock s.readings) n s

  pub readings-record_failure :
      (ip_address normalized_email : String) (b : Bool) (s : InMemory)
      → (record_failure limits clock ip_address normalized_email b s).readings ≡ s.readings + 1
  unfolding record_failure note_cap
  readings-record_failure a e b s = ground arith

  module _ (monotonic : (i : ℕ) → clock i ≤ clock (i + 1)) where
    next :
        (s r : InMemory)
        → r.readings ≡ s.readings + 1
        → IsValidAt (clock s.readings) n r
        → IsValid r
    next s r e v =
        subst (λ i. IsValidAt (clock i) n r) (sym e)
          (IsValidAt-mono (clock s.readings) (clock (s.readings + 1)) n r (monotonic s.readings) v)

    pub is_allowed-IsValid :
        (ip_address normalized_email : String) (s : InMemory)
        → IsValid s
        → IsValid (is_allowed limits clock ip_address normalized_email s).1
    unfolding is_allowed
    is_allowed-IsValid a e s v =
        let t = clock s.readings in
        next s (is_allowed limits clock a e s).1 refl (
          ground (
            arith,
            get_existing-IsScope t w n (email_ip_key a e) s.email_ip_buckets,
            get_existing-IsScope t w n a s.ip_buckets,
            get_existing-IsScope t w n e s.email_buckets,
          ))

    pub is_account_deletion_reauth_allowed-IsValid :
        (ip_address normalized_email : String) (s : InMemory)
        → IsValid s
        → IsValid (is_account_deletion_reauth_allowed limits clock ip_address normalized_email s).1
    unfolding is_account_deletion_reauth_allowed
    is_account_deletion_reauth_allowed-IsValid a e s v =
        let t = clock s.readings in
        next s (is_account_deletion_reauth_allowed limits clock a e s).1 refl (
          ground (
            arith,
            get_existing-IsScope t w n (email_ip_key a e) s.email_ip_buckets,
            get_existing-IsScope t w n a s.ip_buckets,
          ))

    record_email_ip-IsValidAt :
        (t : ℕ) (k : String) (s : InMemory)
        → IsValidAt t n s
        → IsValidAt t n (record_email_ip limits clock t k s)
    unfolding record_email_ip
    record_email_ip-IsValidAt t k s v =
        note_cap-IsValidAt t n email_ip (get_or_create_bucket t w n k s.email_ip_buckets).1
          (record s { email_ip_buckets = record_event t w n k s.email_ip_buckets })
          (ground (arith, record_event-IsScope t w n k s.email_ip_buckets))

    record_ip-IsValidAt :
        (t : ℕ) (k : String) (s : InMemory)
        → IsValidAt t n s
        → IsValidAt t n (record_ip limits clock t k s)
    unfolding record_ip
    record_ip-IsValidAt t k s v =
        note_cap-IsValidAt t n ip (get_or_create_bucket t w n k s.ip_buckets).1
          (record s { ip_buckets = record_event t w n k s.ip_buckets })
          (ground (arith, record_event-IsScope t w n k s.ip_buckets))

    record_email-IsValidAt :
        (t : ℕ) (k : String) (s : InMemory)
        → IsValidAt t n s
        → IsValidAt t n (record_email limits clock t k s)
    unfolding record_email
    record_email-IsValidAt t k s v =
        note_cap-IsValidAt t n email (get_or_create_bucket t w n k s.email_buckets).1
          (record s { email_buckets = record_event t w n k s.email_buckets })
          (ground (arith, record_event-IsScope t w n k s.email_buckets))

    pub record_failure-IsValid :
        (ip_address normalized_email : String) (include_email_bucket : Bool) (s : InMemory)
        → IsValid s
        → IsValid (record_failure limits clock ip_address normalized_email include_email_bucket s)
    unfolding record_failure
    record_failure-IsValid a e b s v =
        next s (record_failure limits clock a e b s) (readings-record_failure a e b s) (kept b)
      where
        t : ℕ
        t = clock s.readings

        two : InMemory
        two = record_ip limits clock t a (
            record_email_ip limits clock t (email_ip_key a e)
              (record s { readings = s.readings + 1 }))

        two-IsValidAt : IsValidAt t n two
        two-IsValidAt =
            record_ip-IsValidAt t a
              (record_email_ip limits clock t (email_ip_key a e)
                (record s { readings = s.readings + 1 }))
              (record_email_ip-IsValidAt t (email_ip_key a e)
                (record s { readings = s.readings + 1 }) (ground arith))

        kept : (c : Bool) → IsValidAt t n (if c then record_email limits clock t e two else two)
        kept true = record_email-IsValidAt t e two two-IsValidAt
        kept false = two-IsValidAt

    pub record_success-IsValid :
        (ip_address normalized_email : String) (s : InMemory)
        → IsValid s
        → IsValid (record_success ip_address normalized_email s)
    unfolding record_success
    record_success-IsValid a e s v =
        ground (arith, erase-IsScope (clock s.readings) n (email_ip_key a e) s.email_ip_buckets)

    pub is_registration_allowed-IsValid :
        (ip_address : String) (s : InMemory)
        → IsValid s
        → IsValid (is_registration_allowed limits clock ip_address s).1
    unfolding is_registration_allowed
    is_registration_allowed-IsValid a s v =
        let t = clock s.readings in
        next s (is_registration_allowed limits clock a s).1 refl (
          ground (
            arith,
            get_existing-IsScope t limits.registration_window_seconds n a s.registration_ip_buckets,
          ))

    pub record_registration-IsValid :
        (ip_address : String) (s : InMemory)
        → IsValid s
        → IsValid (record_registration limits clock ip_address s)
    unfolding record_registration
    record_registration-IsValid a s v =
        let t = clock s.readings in
        let u = limits.registration_window_seconds in
        let b = (get_or_create_bucket t u n a s.registration_ip_buckets).1 in
        let r : InMemory = record s {
          readings = s.readings + 1;
          registration_ip_buckets = record_event t u n a s.registration_ip_buckets;
        } in
        next s (record_registration limits clock a s) (readings-note_cap registration_ip b r) (
          note_cap-IsValidAt t n registration_ip b r
            (ground (arith, record_event-IsScope t u n a s.registration_ip_buckets)))

    pub is_oidc_authorization_allowed-IsValid :
        (ip_address : String) (s : InMemory)
        → IsValid s
        → IsValid (is_oidc_authorization_allowed limits clock ip_address s).1
    unfolding is_oidc_authorization_allowed
    is_oidc_authorization_allowed-IsValid a s v =
        let t = clock s.readings in
        next s (is_oidc_authorization_allowed limits clock a s).1 refl
          (ground (arith, get_existing-IsScope t w n a s.oidc_authorization_ip_buckets))

    pub record_oidc_authorization-IsValid :
        (ip_address : String) (s : InMemory)
        → IsValid s
        → IsValid (record_oidc_authorization limits clock ip_address s)
    unfolding record_oidc_authorization
    record_oidc_authorization-IsValid a s v =
        let t = clock s.readings in
        let b = (get_or_create_bucket t w n a s.oidc_authorization_ip_buckets).1 in
        let r : InMemory = record s {
          readings = s.readings + 1;
          oidc_authorization_ip_buckets = record_event t w n a s.oidc_authorization_ip_buckets;
        } in
        next s (record_oidc_authorization limits clock a s)
          (readings-note_cap oidc_authorization_ip b r)
          (note_cap-IsValidAt t n oidc_authorization_ip b r
            (ground (arith, record_event-IsScope t w n a s.oidc_authorization_ip_buckets)))
