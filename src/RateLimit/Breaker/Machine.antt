-- ===== src/RateLimit/Breaker/Machine.antt =====
-- The breaker as a state machine, apart from its fields, and that it is one.
use python_react_template.Prelude.{
  ℕ, ◌+◌, ◌≤◌, ◌<◌, Bool, ◌≡◌, Option, none, some, ltb, leb, not, if◌then◌else◌,
}
use python_react_template.RateLimit.Breaker.{
  BreakerSettings, Breaker, Guarded, Reply, answer, connection_error, redis_error, timeout,
  os_error, is_pool_exhaustion, circuit_is_open,
}

-- Closed after so many failures in a row, open since a time, or on trial after an open time.
pub data Phase : Type 0 where
  closed : ℕ → Phase
  open_since : ℕ → Phase
  on_trial : Phase

-- What becomes of an operation.
pub data Event : Type 0 where
  refused succeeded failed exhausted : Event

-- The phase in which an operation is tried, at a time, if it is tried.
unfoldable pub admitted : ℕ → ℕ → Phase → Option Phase
admitted cooldown now (closed k) = some (closed k)
admitted cooldown now on_trial = some on_trial
admitted cooldown now (open_since t) = if ltb now (t + cooldown) then none else some on_trial

-- One operation, tested at the time `asked` and, where it fails, counted at the time `failed_at`.
pub data Step (limit cooldown asked failed_at : ℕ) : Event → Phase → Phase → Type 0 where
  refuse :
      {p : Phase}
      → admitted cooldown asked p ≡ none
      → Step limit cooldown asked failed_at refused p p
  succeed :
      {p q : Phase}
      → admitted cooldown asked p ≡ some q
      → Step limit cooldown asked failed_at succeeded p (closed 0)
  count :
      {p : Phase} {k : ℕ}
      → admitted cooldown asked p ≡ some (closed k)
      → k + 1 < limit
      → Step limit cooldown asked failed_at failed p (closed (k + 1))
  trip :
      {p : Phase} {k : ℕ}
      → admitted cooldown asked p ≡ some (closed k)
      → limit ≤ k + 1
      → Step limit cooldown asked failed_at failed p (open_since failed_at)
  reopen :
      {p : Phase}
      → admitted cooldown asked p ≡ some on_trial
      → Step limit cooldown asked failed_at failed p (open_since failed_at)
  spare :
      {p q : Phase}
      → admitted cooldown asked p ≡ some q
      → Step limit cooldown asked failed_at exhausted p q

unfoldable pub event_of : {A : Type 0} → Reply A → Event
unfolding is_pool_exhaustion
event_of (answer a) = succeeded
event_of (connection_error message) = if is_pool_exhaustion message then exhausted else failed
event_of redis_error = failed
event_of timeout = failed
event_of os_error = failed

module _ (settings : BreakerSettings) where
  abbrev limit : ℕ
  limit = settings.circuit_breaker_failures

  -- The phase that the fields stand for.
  unfoldable pub phase : Breaker → Phase
  phase b = elim b.circuit_opened_at [
    | none ↦ if ltb b.consecutive_failures limit then closed b.consecutive_failures else on_trial
    | some t ↦ open_since t
  ]

  -- The circuit is open only after enough failures, and only then has its warning been logged.
  unfoldable pub is_well_formed : Breaker → Bool
  is_well_formed b = elim b.circuit_opened_at [
    | none ↦ not b.circuit_open_warning_logged
    | some t ↦ leb limit b.consecutive_failures
  ]

module _ (settings : BreakerSettings) (clock : ℕ → ℕ) where
  -- What became of an operation.
  unfoldable pub event : {S A : Type 0} → (S → Reply A × S) → Guarded S → Event
  unfolding circuit_is_open event_of
  event factory g =
      if (circuit_is_open settings clock g.breaker).0
      then refused
      else event_of (factory g.server).0
