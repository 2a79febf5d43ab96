-- ===== src/RateLimit/Memory/Verdicts.antt =====
-- What the limiter answers, in terms of the events that lie in the window.
use python_react_template.Prelude.{
  ℕ, zero, suc, ◌+◌, ◌-◌, ◌≤◌, String, Bool, true, false, ◌≡◌, sym, subst, ap, ◌∙◌, leb, ltb,
  length, arith, ◌&&◌, ◌||◌, str_eq_refl,
}
use native.Mathlib.Nat.{add-zero}
use python_react_template.RateLimit.Buckets.{Buckets, get_existing_bucket, record_event}
use python_react_template.RateLimit.Buckets.Window.{length-trim}
use python_react_template.RateLimit.Buckets.Order.{IsOrdered}
use python_react_template.RateLimit.Buckets.Steps.{found, get_existing_bucket-found}
use python_react_template.RateLimit.Buckets.Active.{
  active, active-found, active-record_event, active_antitone,
}
use python_react_template.RateLimit.Buckets.Capacity.{
  live_entries, trimmed_found, get_or_create_bucket-admitted,
}
use python_react_template.RateLimit.Memory.{
  Limits, InMemory, email_ip_key, note_cap, is_allowed, record_failure,
}
use python_react_template.RateLimit.Memory.Invariant.{
  IsValid, record_failure-IsValid, readings-record_failure,
}

-- The deque that a lookup returns holds the events in the window.
length-get_existing_bucket :
    (t w : ℕ) (k : String) (m : Buckets)
    → IsOrdered t m
    → length (get_existing_bucket t w k m).1 ≡ active t w k m
length-get_existing_bucket t w k m h =
    ap length (get_existing_bucket-found t w k m)
    ∙ length-trim t w (found k m) (trimmed_found t w k m h).0
    ∙ sym (active-found t w k m)

module _ (limits : Limits) (clock : ℕ → ℕ) where
  abbrev w : ℕ
  w = limits.window_seconds

  abbrev n : ℕ
  n = limits.max_buckets_per_scope

  -- On a valid limiter a login is allowed exactly when the failures in the window number less than
  -- the limit for the address with the email, for the address, and for the email.
  pub is_allowed_lem :
      (ip_address normalized_email : String) (s : InMemory)
      → IsValid limits clock s
      → (is_allowed limits clock ip_address normalized_email s).0 ≡ (
          ltb
            (active
              (clock s.readings)
              w
              (email_ip_key ip_address normalized_email)
              s.email_ip_buckets)
            limits.max_failures_per_email_ip
          && ltb (active (clock s.readings) w ip_address s.ip_buckets) limits.max_failures_per_ip
          && ltb
              (active (clock s.readings) w normalized_email s.email_buckets)
              limits.max_failures_per_email)
  unfolding is_allowed
  is_allowed_lem a e s v =
      let t = clock s.readings in
      rw (
        length-get_existing_bucket t w (email_ip_key a e) s.email_ip_buckets v.email_ip_scope.0,
        length-get_existing_bucket t w a s.ip_buckets v.ip_scope.0,
        length-get_existing_bucket t w e s.email_buckets v.email_scope.0,
      )

  email_ip_buckets-record_failure :
      (a e : String) (b : Bool) (s : InMemory)
      → (record_failure limits clock a e b s).email_ip_buckets
        ≡ record_event (clock s.readings) w n (email_ip_key a e) s.email_ip_buckets
  unfolding record_failure note_cap
  email_ip_buckets-record_failure a e b s = ground arith

  -- Whether the scope takes the key in: it has events in the window, or there is room.
  abbrev pub has_room : String → String → InMemory → Bool
  has_room a e s =
      leb 1 (active (clock s.readings) w (email_ip_key a e) s.email_ip_buckets)
      || ltb (live_entries (clock s.readings) w s.email_ip_buckets) n

  -- `k` failures in a row for one address and email.
  pub fail_times : ℕ → String → String → Bool → InMemory → InMemory
  fail_times zero a e b s = s
  fail_times (suc k) a e b s = fail_times k a e b (record_failure limits clock a e b s)

  active-record_failure :
      (later : ℕ) (a e : String) (b : Bool) (s : InMemory)
      → IsValid limits clock s
      → clock s.readings ≤ later
      → later - clock s.readings ≤ w
      → has_room a e s ≡ true
      → active later w (email_ip_key a e) (record_failure limits clock a e b s).email_ip_buckets
        ≡ active later w (email_ip_key a e) s.email_ip_buckets + 1
  active-record_failure later a e b s v le near room =
      rw
        (
          email_ip_buckets-record_failure a e b s,
          active-record_event (clock s.readings) w later le n (email_ip_key a e) (email_ip_key a e)
              s.email_ip_buckets v.email_ip_scope.0,
          get_or_create_bucket-admitted (clock s.readings) w n (email_ip_key a e) s.email_ip_buckets
              v.email_ip_scope.0,
          room,
          str_eq_refl (email_ip_key a e),
        )
        (ground arith)

  readings-fail_times :
      (k : ℕ) (a e : String) (b : Bool) (s : InMemory)
      → (fail_times k a e b s).readings ≡ s.readings + k
  unfolding fail_times
  readings-fail_times zero a e b s = omega arith
  readings-fail_times (suc k) a e b s =
      readings-fail_times k a e b (record_failure limits clock a e b s)
      ∙ rw (readings-record_failure limits clock a e b s) (omega arith)

  module _ (monotonic : (i : ℕ) → clock i ≤ clock (i + 1)) where
    clock_mono : (i k : ℕ) → clock i ≤ clock (i + k)
    clock_mono i zero = rw add-zero (omega arith)
    clock_mono i (suc k) =
        let e : i + suc k ≡ i + k + 1 = omega arith in
        rw e (omega (arith, clock_mono i k, monotonic (i + k)))

    clock_below : (i k : ℕ) → i ≤ k → clock i ≤ clock k
    clock_below i k le =
        let e : i + (k - i) ≡ k = omega arith in
        subst (λ j. clock i ≤ clock j) e (clock_mono i (k - i))

    fail_times-IsValid :
        (k : ℕ) (a e : String) (b : Bool) (s : InMemory)
        → IsValid limits clock s
        → IsValid limits clock (fail_times k a e b s)
    unfolding fail_times
    fail_times-IsValid zero a e b s v = v
    fail_times-IsValid (suc k) a e b s v =
        fail_times-IsValid k a e b (record_failure limits clock a e b s)
          (record_failure-IsValid limits clock monotonic a e b s v)

    has_room_after :
        (later : ℕ) (a e : String) (b : Bool) (s : InMemory)
        → IsValid limits clock s
        → clock (s.readings + 1) ≤ later
        → later - clock s.readings ≤ w
        → has_room a e s ≡ true
        → has_room a e (record_failure limits clock a e b s) ≡ true
    has_room_after later a e b s v le near room =
        let r : InMemory = record_failure limits clock a e b s in
        let here : clock s.readings ≤ later = omega (arith, monotonic s.readings) in
        let there : clock r.readings ≤ later =
          subst (λ i. clock i ≤ later) (sym (readings-record_failure limits clock a e b s)) le in
        ground (
          arith,
          active-record_failure later a e b s v here near room,
          active_antitone (clock r.readings) later w (email_ip_key a e) r.email_ip_buckets there,
        )

    active-fail_times :
        (k later : ℕ) (a e : String) (b : Bool) (s : InMemory)
        → IsValid limits clock s
        → clock (s.readings + k) ≤ later
        → later - clock s.readings ≤ w
        → has_room a e s ≡ true
        → active later w (email_ip_key a e) (fail_times k a e b s).email_ip_buckets
          ≡ active later w (email_ip_key a e) s.email_ip_buckets + k
    unfolding fail_times
    active-fail_times zero later a e b s v le near room = omega arith
    active-fail_times (suc k) later a e b s v le near room =
        let r : InMemory = record_failure limits clock a e b s in
        let read = readings-record_failure limits clock a e b s in
        let e' : s.readings + 1 + k ≡ s.readings + suc k = omega arith in
        let le' : clock (r.readings + k) ≤ later =
          subst (λ i. clock (i + k) ≤ later) (sym read)
            (subst (λ i. clock i ≤ later) (sym e') le) in
        let le1 : clock (s.readings + 1) ≤ later =
          omega (arith, le, clock_below (s.readings + 1) (s.readings + suc k) (omega arith)) in
        let near' : later - clock r.readings ≤ w =
          subst (λ i. later - clock i ≤ w) (sym read) (omega (arith, monotonic s.readings)) in
        omega (
          arith,
          active-fail_times k later a e b r
              (record_failure-IsValid limits clock monotonic a e b s v) le' near'
              (has_room_after later a e b s v le1 near room),
          active-record_failure later a e b s v (omega (arith, monotonic s.readings)) near room,
        )

    -- If the clock never goes back, then after at least as many failures in a row as the limit for
    -- an address with an email, on a valid limiter, the next login is refused, provided that the
    -- window has not passed since the first and that the pair had a bucket or room for one.
    pub is_allowed-fail_times :
        (k : ℕ) (a e : String) (b : Bool) (s : InMemory)
        → IsValid limits clock s
        → limits.max_failures_per_email_ip ≤ k
        → clock (s.readings + k) - clock s.readings ≤ w
        → has_room a e s ≡ true
        → (is_allowed limits clock a e (fail_times k a e b s)).0 ≡ false
    is_allowed-fail_times k a e b s v enough near room =
        let r : InMemory = fail_times k a e b s in
        let count =
          subst
            (λ i.
              active (clock i) w (email_ip_key a e) r.email_ip_buckets
              ≡ active (clock i) w (email_ip_key a e) s.email_ip_buckets + k)
            (sym (readings-fail_times k a e b s))
            (active-fail_times k (clock (s.readings + k)) a e b s v (omega arith) near room) in
        ground (arith, is_allowed_lem a e r (fail_times-IsValid k a e b s v), count)
