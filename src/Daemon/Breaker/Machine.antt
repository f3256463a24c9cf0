-- ===== src/Daemon/Breaker/Machine.antt =====
-- The state machine of janus_graph/daemon/circuit_breaker.py over any sequence of calls.
use janus_graph.Base.{
  ℕ, List, [], ◌∷◌, Bool, false, Option, none, is_none, ◌+◌, ◌≤◌, ◌<◌, ◌≡◌, ◌⊎◌, inl, refl, sym,
  subst, ltb, length, arith, if◌then◌else◌,
}
use native.Mathlib.Decide.{dec_lt}
use janus_graph.Daemon.Breaker.{
  CircuitState, closed, open_state, half_open, CircuitSnapshot, Settings, FalkorCircuitBreaker,
  init, on_open, transition_to, allow_probe, record_success, record_failure, trip,
}

-- A call, with the clock readings that it makes.
pub data Event : Type 0 where
  probe success : ℕ → Event
  failure : (now later : ℕ) → Event
  register : Event

unfoldable pub apply : Event → FalkorCircuitBreaker → FalkorCircuitBreaker
apply (probe now) b = (allow_probe now b).0
apply (success now) b = record_success now b
apply (failure now later) b = record_failure now later b
apply register b = on_open b

unfoldable pub run : List Event → FalkorCircuitBreaker → FalkorCircuitBreaker
run [] b = b
run (e ∷ events) b = run events (apply e b)

-- A deadline is set exactly outside `closed`, and a closed breaker is below its threshold.
abbrev pub Fits : CircuitState → ℕ → ℕ → Option ℕ → Type 0
Fits closed failures threshold retry_at =
    (retry_at ≡ none) × ((failures ≡ 0) ⊎ (failures < threshold))
Fits open_state failures threshold retry_at = is_none retry_at ≡ false
Fits half_open failures threshold retry_at = is_none retry_at ≡ false

abbrev pub IsSound : FalkorCircuitBreaker → Type 0
IsSound b = Fits b.state b.failure_count b.settings.failure_threshold b.retry_at

module _ (settings : Settings) (failures last : ℕ) (retry_at : Option ℕ) (has_callback : Bool)
    (opened : List CircuitSnapshot) where
  abbrev pub at_state : CircuitState → FalkorCircuitBreaker
  at_state state = record {
    settings = settings;
    state = state;
    failure_count = failures;
    retry_at = retry_at;
    last_transition_at = last;
    has_callback = has_callback;
    opened = opened;
  }

  apply-Fits :
      (e : Event) (state : CircuitState)
      → Fits state failures settings.failure_threshold retry_at
      → IsSound (apply e (at_state state))
  unfolding apply allow_probe record_success record_failure on_open trip transition_to
  apply-Fits (probe now) closed f = f
  apply-Fits (probe now) open_state f = ground arith
  apply-Fits (probe now) half_open f = f
  apply-Fits (success now) closed f = (f.0, inl refl)
  apply-Fits (success now) open_state f = f
  apply-Fits (success now) half_open f = ground arith
  apply-Fits (failure now later) closed f = ground arith
  apply-Fits (failure now later) open_state f = f
  apply-Fits (failure now later) half_open f = ground arith
  apply-Fits register closed f = f
  apply-Fits register open_state f = f
  apply-Fits register half_open f = f

pub apply-IsSound : (e : Event) (b : FalkorCircuitBreaker) → IsSound b → IsSound (apply e b)
apply-IsSound e b h =
    apply-Fits b.settings b.failure_count b.last_transition_at b.retry_at b.has_callback b.opened e
      b.state h

run-IsSound : (events : List Event) (b : FalkorCircuitBreaker) → IsSound b → IsSound (run events b)
unfolding run
run-IsSound [] b h = h
run-IsSound (e ∷ events) b h = run-IsSound events (apply e b) (apply-IsSound e b h)

-- After any sequence of calls on a new breaker a deadline is set exactly in the states open and
-- half-open, and a closed breaker has counted no failure or fewer than the threshold.
pub init-IsSound :
    (settings : Settings) (start : ℕ) (events : List Event)
    → IsSound (run events (init settings start))
unfolding init
init-IsSound settings start events = run-IsSound events (init settings start) (refl, inl refl)

-- Consecutive failures, each with its two clock readings.
pub fail_all : List (ℕ × ℕ) → FalkorCircuitBreaker → FalkorCircuitBreaker
fail_all [] b = b
fail_all (t ∷ times) b = fail_all times (record_failure t.0 t.1 b)

abbrev pub state_after : (failures threshold : ℕ) → CircuitState
state_after failures threshold = if ltb failures threshold then closed else open_state

fail_all-open :
    (times : List (ℕ × ℕ)) (b : FalkorCircuitBreaker)
    → b.state ≡ open_state
    → ((fail_all times b).state ≡ open_state)
      × ((fail_all times b).failure_count ≡ b.failure_count + length times)
unfolding fail_all record_failure
fail_all-open [] b h = (h, omega arith)
fail_all-open (t ∷ times) b h =
    let (state, count) = fail_all-open times (record_failure t.0 t.1 b) (ground arith) in
    (state, ground arith)

module _ (now later : ℕ) (b : FalkorCircuitBreaker) (h : b.state ≡ closed) where
  abbrev failed : FalkorCircuitBreaker
  failed = record_failure now later b

  record_failure_below :
      b.failure_count + 1 < b.settings.failure_threshold
      → (failed.state ≡ closed)
        × (failed.failure_count ≡ b.failure_count + 1)
        × (failed.settings ≡ b.settings)
  unfolding record_failure
  record_failure_below below = (ground arith, ground arith, ground arith)

  record_failure_reaches :
      b.settings.failure_threshold ≤ b.failure_count + 1
      → (failed.state ≡ open_state) × (failed.failure_count ≡ b.failure_count + 1)
  unfolding record_failure
  record_failure_reaches reached = (ground arith, ground arith)

-- A closed breaker below its threshold opens with the failure that reaches the threshold, and not
-- before: after `n` consecutive failures it is open exactly when they fill the threshold up.
pub fail_all-state :
    (times : List (ℕ × ℕ)) (b : FalkorCircuitBreaker)
    → b.state ≡ closed
    → b.failure_count < b.settings.failure_threshold
    → ((fail_all times b).state
        ≡ state_after (b.failure_count + length times) b.settings.failure_threshold)
      × ((fail_all times b).failure_count ≡ b.failure_count + length times)
unfolding fail_all
fail_all-state [] b h below = (ground arith, omega arith)
fail_all-state (t ∷ times) b h below =
    elim (dec_lt (b.failure_count + 1) b.settings.failure_threshold) [
      | yes more ↦
          let (state, count, same) = record_failure_below t.0 t.1 b h more in
          let (states, counts) = fail_all-state times (record_failure t.0 t.1 b) state (
            subst (λ s. (record_failure t.0 t.1 b).failure_count < s.failure_threshold) (sym same)
              (omega arith)) in
          (ground arith, ground arith)
      | no reached ↦
          let (state, count) = record_failure_reaches t.0 t.1 b h (omega arith) in
          let (states, counts) = fail_all-open times (record_failure t.0 t.1 b) state in
          (ground arith, ground arith)
    ]
