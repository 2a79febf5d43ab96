-- ===== src/RateLimit/Breaker/Outage.antt =====
-- A server that fails as often in a row as the limit is left alone while the circuit is open.
use python_react_template.Prelude.{
  ℕ, zero, suc, str_eq, ◌+◌, ◌≤◌, ◌<◌, String, Bool, true, false, ◌≡◌, refl, sym, subst, ◌-◌, none,
  some, arith,
}
use python_react_template.RateLimit.Breaker.{
  BreakerSettings, Breaker, Guarded, Reply, answer, connection_error, redis_error, timeout,
  os_error, circuit_is_open, count_failure, mark_failure, log_unavailable, settle, run_operation,
  run_check_operation, emit_unavailable_warning,
}
use python_react_template.RateLimit.Breaker.Machine.{failed, event_of}

module _ (settings : BreakerSettings) (clock : ℕ → ℕ) where
  abbrev limit : ℕ
  limit = settings.circuit_breaker_failures

  -- The same operation so many times.
  unfoldable pub repeat : {S A : Type 0} → ℕ → String → (S → Reply A × S) → Guarded S → Guarded S
  repeat zero operation factory g = g
  repeat (suc n) operation factory g =
      (run_operation settings clock operation factory (repeat n operation factory g)).1

  settle-failed :
      {A : Type 0} (operation : String) (reply : Reply A) (b : Breaker)
      → event_of reply ≡ failed
      → (settle settings clock operation reply b).1 ≡ mark_failure settings clock operation b
  unfolding settle event_of
  settle-failed operation (answer v) b e = ground (arith, e)
  settle-failed operation (connection_error message) b e = ground (arith, e)
  settle-failed operation redis_error b e = refl
  settle-failed operation timeout b e = refl
  settle-failed operation os_error b e = refl

  -- A closed circuit, the failures so far and the clock's readings so far.
  abbrev IsClosedAt : ℕ → ℕ → Breaker → Type 0
  IsClosedAt k r b = (b.circuit_opened_at ≡ none) × (b.consecutive_failures ≡ k) × (b.readings ≡ r)

  mark_failure-below :
      (operation : String) (k r : ℕ) (b : Breaker)
      → IsClosedAt k r b
      → k + 1 < limit
      → IsClosedAt (k + 1) r (mark_failure settings clock operation b)
  unfolding mark_failure count_failure log_unavailable emit_unavailable_warning
  mark_failure-below operation k r b (e, f, t) below = ground (arith, e, f, t, below)

  mark_failure-below_suc :
      (operation : String) (k r : ℕ) (b : Breaker)
      → IsClosedAt k r b
      → suc k < limit
      → IsClosedAt (suc k) r (mark_failure settings clock operation b)
  mark_failure-below_suc operation k r b c below =
      subst (λ j. IsClosedAt j r (mark_failure settings clock operation b)) (omega arith)
        (mark_failure-below operation k r b c (omega (arith, below)))

  mark_failure-opens :
      (operation : String) (k r : ℕ) (b : Breaker)
      → IsClosedAt k r b
      → limit ≤ k + 1
      → ((mark_failure settings clock operation b).circuit_opened_at ≡ some (clock r))
        × ((mark_failure settings clock operation b).readings ≡ r + 1)
  unfolding mark_failure count_failure log_unavailable emit_unavailable_warning
  mark_failure-opens operation k r b (e, f, t) enough = ground (arith, e, f, t, enough)

  circuit_is_open-closed :
      (b : Breaker) → b.circuit_opened_at ≡ none → circuit_is_open settings clock b ≡ (false, b)
  unfolding circuit_is_open
  circuit_is_open-closed b e = rw e refl

  circuit_is_open-open :
      (b : Breaker) (t : ℕ)
      → b.circuit_opened_at ≡ some t
      → clock b.readings < t + settings.circuit_breaker_cooldown
      → (circuit_is_open settings clock b).0 ≡ true
  unfolding circuit_is_open
  circuit_is_open-open b t e early = ground (arith, e, early)

  run_operation-closed :
      {S A : Type 0} (operation : String) (factory : S → Reply A × S) (g : Guarded S)
      → g.breaker.circuit_opened_at ≡ none
      → event_of (factory g.server).0 ≡ failed
      → (run_operation settings clock operation factory g).1.breaker
        ≡ mark_failure settings clock operation g.breaker
  unfolding run_operation
  run_operation-closed operation factory g e h =
      rw (circuit_is_open-closed g.breaker e)
        (settle-failed operation (factory g.server).0 g.breaker h)

  -- Until the limit the failures are counted.
  repeat-below :
      {S A : Type 0} (n r : ℕ) (operation : String) (factory : S → Reply A × S) (g : Guarded S)
      → IsClosedAt 0 r g.breaker
      → ((s : S) → event_of (factory s).0 ≡ failed)
      → n < limit
      → IsClosedAt n r (repeat n operation factory g).breaker
  unfolding repeat
  repeat-below zero r operation factory g c h below = c
  repeat-below (suc n) r operation factory g c h below =
      let before = repeat-below n r operation factory g c h (omega (arith, below)) in
      subst (IsClosedAt (suc n) r)
        (sym (run_operation-closed operation factory (repeat n operation factory g) before.0 (h _)))
        (mark_failure-below_suc operation n r (repeat n operation factory g).breaker before below)

  repeat-opens :
      {S A : Type 0} (n r : ℕ) (operation : String) (factory : S → Reply A × S) (g : Guarded S)
      → IsClosedAt 0 r g.breaker
      → ((s : S) → event_of (factory s).0 ≡ failed)
      → suc n ≡ limit
      → ((repeat (suc n) operation factory g).breaker.circuit_opened_at ≡ some (clock r))
        × ((repeat (suc n) operation factory g).breaker.readings ≡ r + 1)
  unfolding repeat
  repeat-opens n r operation factory g c h e =
      let before = repeat-below n r operation factory g c h (omega (arith, e)) in
      rw (run_operation-closed operation factory (repeat n operation factory g) before.0 (h _))
        (mark_failure-opens operation n r _ before (omega (arith, e)))

  run_operation-refused :
      {S A : Type 0} (operation : String) (factory : S → Reply A × S) (t : ℕ) (g : Guarded S)
      → g.breaker.circuit_opened_at ≡ some t
      → clock g.breaker.readings < t + settings.circuit_breaker_cooldown
      → ((run_operation settings clock operation factory g).0 ≡ none)
        × ((run_operation settings clock operation factory g).1.server ≡ g.server)
  unfolding run_operation
  run_operation-refused operation factory t g e early =
      rw (circuit_is_open-open g.breaker t e early) (refl, refl)

  pub run_check_operation-refused :
      {S : Type 0} (operation : String) (factory : S → Reply Bool × S) (t : ℕ) (g : Guarded S)
      → g.breaker.circuit_opened_at ≡ some t
      → clock g.breaker.readings < t + settings.circuit_breaker_cooldown
      → ((run_check_operation settings clock operation factory g).0
          ≡ str_eq settings.unavailable_policy "fail_open")
        × ((run_check_operation settings clock operation factory g).1.server ≡ g.server)
  unfolding run_check_operation
  run_check_operation-refused operation factory t g e early =
      let (nothing, same) = run_operation-refused operation factory t g e early in
      (rw (run_check_operation, nothing) refl, same)

  -- With a circuit that is closed after no failures, a positive limit, an operation that fails on
  -- every server, and a clock that has not gone on by the cooldown at its next reading: after the
  -- operation is run as often as the limit, any next operation returns nothing and does not reach
  -- the server.
  pub run_operation-repeat :
      {S A B : Type 0} (operation next : String) (factory : S → Reply A × S)
      (other : S → Reply B × S) (g : Guarded S)
      → g.breaker.circuit_opened_at ≡ none
      → g.breaker.consecutive_failures ≡ 0
      → 0 < limit
      → ((s : S) → event_of (factory s).0 ≡ failed)
      → clock (g.breaker.readings + 1)
        < clock g.breaker.readings + settings.circuit_breaker_cooldown
      → ((run_operation settings clock next other (repeat limit operation factory g)).0 ≡ none)
        × ((run_operation settings clock next other (repeat limit operation factory g)).1.server
            ≡ (repeat limit operation factory g).server)
  run_operation-repeat operation next factory other g e f positive h early =
      let counted : suc (limit - 1) ≡ limit = omega (arith, positive) in
      let opened =
        repeat-opens (limit - 1) g.breaker.readings operation factory g (e, f, refl) h counted in
      subst
        (λ n.
          ((run_operation settings clock next other (repeat n operation factory g)).0 ≡ none)
          × ((run_operation settings clock next other (repeat n operation factory g)).1.server
              ≡ (repeat n operation factory g).server))
        counted
        (run_operation-refused next other (clock g.breaker.readings) _ opened.0 (
          subst (λ r. clock r < clock g.breaker.readings + settings.circuit_breaker_cooldown)
            (sym opened.1) early))
