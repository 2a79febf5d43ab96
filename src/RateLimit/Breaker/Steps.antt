-- ===== src/RateLimit/Breaker/Steps.antt =====
-- The breaker takes the steps of the machine.
use native.Mathlib.Decide.{dec_lt}
use python_react_template.Prelude.{
  ℕ, ◌+◌, ◌≤◌, ◌<◌, String, true, false, ◌≡◌, ◌⊎◌, inl, inr, refl, sym, subst, ap, ◌∙◌, none, some,
  Bool-cases, Option-cases, arith,
}
use python_react_template.RateLimit.Breaker.{
  BreakerSettings, Breaker, Guarded, Reply, answer, connection_error, redis_error, timeout,
  os_error, is_pool_exhaustion, circuit_is_open, count_failure, mark_failure, log_pool_exhaustion,
  log_unavailable, settle, run_operation, emit_unavailable_warning, warned_lately, mark_success,
}
use python_react_template.RateLimit.Breaker.Machine.{
  Phase, closed, open_since, on_trial, refused, succeeded, failed, exhausted, admitted, Step,
  refuse, succeed, count, trip, reopen, spare, event_of, phase, is_well_formed, event,
}

module _ (settings : BreakerSettings) (clock : ℕ → ℕ) where
  abbrev limit : ℕ
  limit = settings.circuit_breaker_failures

  abbrev cooldown : ℕ
  cooldown = settings.circuit_breaker_cooldown

  -- The test of the circuit is the machine's.
  circuit_is_open-admitted :
      (b : Breaker)
      → is_well_formed settings b ≡ true
      → ((circuit_is_open settings clock b).0 ≡ true)
          × (admitted cooldown (clock b.readings) (phase settings b) ≡ none)
          × (phase settings (circuit_is_open settings clock b).1 ≡ phase settings b)
          × (is_well_formed settings (circuit_is_open settings clock b).1 ≡ true)
        ⊎ ((circuit_is_open settings clock b).0 ≡ false)
          × (admitted cooldown (clock b.readings) (phase settings b)
              ≡ some (phase settings (circuit_is_open settings clock b).1))
          × ((circuit_is_open settings clock b).1.circuit_opened_at ≡ none)
          × ((circuit_is_open settings clock b).1.circuit_open_warning_logged ≡ false)
  unfolding circuit_is_open admitted phase is_well_formed
  circuit_is_open-admitted b h = elim (Option-cases b.circuit_opened_at) [
    | inl e ↦ ground (arith, e, h)
    | inr (t, e) ↦ ground (arith, e, h)
  ]

  phase_below :
      (b : Breaker)
      → b.circuit_opened_at ≡ none
      → b.consecutive_failures < limit
      → phase settings b ≡ closed b.consecutive_failures
  unfolding phase
  phase_below b e below = ground (arith, e, below)

  phase_trial :
      (b : Breaker)
      → b.circuit_opened_at ≡ none
      → limit ≤ b.consecutive_failures
      → phase settings b ≡ on_trial
  unfolding phase
  phase_trial b e enough = ground (arith, e, enough)

  phase-mark_failure_enough :
      (operation : String) (b : Breaker)
      → limit ≤ b.consecutive_failures + 1
      → phase settings (mark_failure settings clock operation b) ≡ open_since (clock b.readings)
  unfolding phase mark_failure count_failure log_unavailable
  phase-mark_failure_enough operation b enough = ground (arith, enough)

  phase-mark_failure_below :
      (operation : String) (b : Breaker)
      → b.circuit_opened_at ≡ none
      → b.consecutive_failures + 1 < limit
      → phase settings (mark_failure settings clock operation b)
        ≡ closed (b.consecutive_failures + 1)
  unfolding phase mark_failure count_failure log_unavailable
  phase-mark_failure_below operation b e below = ground (arith, e, below)

  -- A failure counted takes the machine's step.
  mark_failure-Step :
      (asked : ℕ) (operation : String) (p : Phase) (b : Breaker)
      → b.circuit_opened_at ≡ none
      → admitted cooldown asked p ≡ some (phase settings b)
      → Step limit cooldown asked
          (clock b.readings)
          failed
          p
          (phase settings (mark_failure settings clock operation b))
  mark_failure-Step asked operation p b e a = elim (dec_lt (b.consecutive_failures + 1) limit) [
    | yes below ↦
        subst (Step limit cooldown asked (clock b.readings) failed p)
          (sym (phase-mark_failure_below operation b e below))
          (count (a ∙ ap some (phase_below b e (omega (arith, below)))) below)
    | no enough ↦
        subst (Step limit cooldown asked (clock b.readings) failed p)
          (sym (phase-mark_failure_enough operation b (omega (arith, enough))))
          (elim (dec_lt b.consecutive_failures limit) [
            | yes below ↦ trip (a ∙ ap some (phase_below b e below)) (omega (arith, enough))
            | no over ↦ reopen (a ∙ ap some (phase_trial b e (omega (arith, over))))
          ])
  ]

  log_pool_exhaustion-same :
      (operation : String) (b : Breaker)
      → phase settings (log_pool_exhaustion settings clock operation b) ≡ phase settings b
  unfolding phase log_pool_exhaustion emit_unavailable_warning
  log_pool_exhaustion-same operation b =
      elim (Bool-cases (warned_lately (clock b.readings) b.pool_exhaustion_warning_logged_at)) [
        | inl e ↦ rw e refl
        | inr e ↦ rw e refl
      ]

  mark_success-closed : (b : Breaker) → 0 < limit → phase settings (mark_success b) ≡ closed 0
  unfolding phase mark_success
  mark_success-closed b positive = ground (arith, positive)

  -- A reply takes the machine's step.
  settle-Step :
      {A : Type 0} (asked : ℕ) (operation : String) (reply : Reply A) (p : Phase) (b : Breaker)
      → 0 < limit
      → b.circuit_opened_at ≡ none
      → admitted cooldown asked p ≡ some (phase settings b)
      → Step limit cooldown asked
          (clock b.readings)
          (event_of reply)
          p
          (phase settings (settle settings clock operation reply b).1)
  unfolding settle event_of
  settle-Step asked operation (answer v) p b positive e a =
      subst (Step limit cooldown asked (clock b.readings) succeeded p)
        (sym (mark_success-closed b positive)) (succeed a)
  settle-Step asked operation (connection_error message) p b positive e a =
      elim (Bool-cases (is_pool_exhaustion message)) [
        | inl yes_it ↦ rw yes_it (
            subst (Step limit cooldown asked (clock b.readings) exhausted p)
              (sym (log_pool_exhaustion-same operation b)) (spare a))
        | inr no_it ↦ rw no_it (mark_failure-Step asked operation p b e a)
      ]
  settle-Step asked operation redis_error p b positive e a =
      mark_failure-Step asked operation p b e a
  settle-Step asked operation timeout p b positive e a = mark_failure-Step asked operation p b e a
  settle-Step asked operation os_error p b positive e a = mark_failure-Step asked operation p b e a

  phase-log_unavailable :
      (operation : String) (b : Breaker)
      → phase settings (log_unavailable operation b) ≡ phase settings b
  unfolding phase log_unavailable emit_unavailable_warning
  phase-log_unavailable operation b = ground arith

  -- With a positive limit, and a breaker whose circuit is open only after that many failures, each
  -- operation on the limiter's server takes the breaker from its phase to one that the machine
  -- allows: refused, if the circuit is open and its cooldown is not over; else closed at no
  -- failures by a success, one failure further or open by a failure, and in its phase by an
  -- exhausted pool.
  pub run_operation-Step :
      {S A : Type 0} (operation : String) (factory : S → Reply A × S) (g : Guarded S)
      → 0 < limit
      → is_well_formed settings g.breaker ≡ true
      → Step limit cooldown
          (clock g.breaker.readings)
          (clock (circuit_is_open settings clock g.breaker).1.readings)
          (event settings clock factory g)
          (phase settings g.breaker)
          (phase settings (run_operation settings clock operation factory g).1.breaker)
  unfolding run_operation event
  run_operation-Step operation factory g positive h = elim (circuit_is_open-admitted g.breaker h) [
    | inl (is_open, a, same, w) ↦ rw is_open (
        subst (Step limit cooldown (clock g.breaker.readings) _ refused (phase settings g.breaker))
          (sym (phase-log_unavailable operation _ ∙ same)) (refuse a))
    | inr (not_open, a, e, w) ↦ rw not_open (
        settle-Step (clock g.breaker.readings) operation (factory g.server).0
          (phase settings g.breaker) _ positive e a)
  ]

  mark_failure-is_well_formed :
      (operation : String) (b : Breaker)
      → b.circuit_opened_at ≡ none
      → b.circuit_open_warning_logged ≡ false
      → is_well_formed settings (mark_failure settings clock operation b) ≡ true
  unfolding mark_failure count_failure log_unavailable is_well_formed emit_unavailable_warning
  mark_failure-is_well_formed operation b e w = ground (arith, e, w)

  log_pool_exhaustion-is_well_formed :
      (operation : String) (b : Breaker)
      → is_well_formed settings (log_pool_exhaustion settings clock operation b)
        ≡ is_well_formed settings b
  unfolding is_well_formed log_pool_exhaustion emit_unavailable_warning
  log_pool_exhaustion-is_well_formed operation b =
      elim (Bool-cases (warned_lately (clock b.readings) b.pool_exhaustion_warning_logged_at)) [
        | inl e ↦ rw e refl
        | inr e ↦ rw e refl
      ]

  settle-is_well_formed :
      {A : Type 0} (operation : String) (reply : Reply A) (b : Breaker)
      → b.circuit_opened_at ≡ none
      → b.circuit_open_warning_logged ≡ false
      → is_well_formed settings (settle settings clock operation reply b).1 ≡ true
  unfolding settle is_well_formed mark_success
  settle-is_well_formed operation (answer v) b e w = refl
  settle-is_well_formed operation (connection_error message) b e w =
      elim (Bool-cases (is_pool_exhaustion message)) [
        | inl yes_it ↦
            rw yes_it (log_pool_exhaustion-is_well_formed operation b ∙ ground (arith, e, w))
        | inr no_it ↦ rw no_it (mark_failure-is_well_formed operation b e w)
      ]
  settle-is_well_formed operation redis_error b e w = mark_failure-is_well_formed operation b e w
  settle-is_well_formed operation timeout b e w = mark_failure-is_well_formed operation b e w
  settle-is_well_formed operation os_error b e w = mark_failure-is_well_formed operation b e w

  log_unavailable-is_well_formed :
      (operation : String) (b : Breaker)
      → is_well_formed settings b ≡ true
      → is_well_formed settings (log_unavailable operation b) ≡ true
  unfolding is_well_formed log_unavailable emit_unavailable_warning
  log_unavailable-is_well_formed operation b h = ground (arith, h)

  -- Each operation keeps the breaker well formed: its circuit is open only after as many failures
  -- in a row as the limit, and only while it is open has the warning of its opening been logged.
  pub run_operation-is_well_formed :
      {S A : Type 0} (operation : String) (factory : S → Reply A × S) (g : Guarded S)
      → is_well_formed settings g.breaker ≡ true
      → is_well_formed settings (run_operation settings clock operation factory g).1.breaker ≡ true
  unfolding run_operation
  run_operation-is_well_formed operation factory g h = elim (circuit_is_open-admitted g.breaker h) [
    | inl (is_open, a, same, w) ↦ rw is_open (log_unavailable-is_well_formed operation _ w)
    | inr (not_open, a, e, w) ↦
        rw not_open (settle-is_well_formed operation (factory g.server).0 _ e w)
  ]
