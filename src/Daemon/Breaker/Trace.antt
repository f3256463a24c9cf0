-- ===== src/Daemon/Breaker/Trace.antt =====
-- Cooling down and callbacks of janus_graph/daemon/circuit_breaker.py, over sequences of calls.
use janus_graph.Base.{
  ℕ, List, [], ◌∷◌, Bool, ◌&&◌, Option, none, some, ◌+◌, ◌≤◌, ◌<◌, ◌≡◌, inl, inr, refl, leb, All,
  All-append, length, length-append, Bool-cases, arith, if◌then◌else◌,
}
use janus_graph.Daemon.Breaker.{
  CircuitState, closed, open_state, half_open, CircuitSnapshot, Settings, FalkorCircuitBreaker,
  init, snapshot, on_open, fires, is_due, transition_to, allow_probe, record_success,
  record_failure, trip,
}
use janus_graph.Daemon.Breaker.Machine.{
  Event, probe, success, failure, register, apply, run, IsSound, apply-IsSound, at_state,
}

-- A probe that reads its clock before the deadline. Successes and failures may come at any time.
abbrev pub IsBefore : ℕ → Event → Type 0
IsBefore deadline (probe now) = now < deadline
IsBefore deadline _ = Unit

module _ (deadline : ℕ) where
  abbrev Cools : FalkorCircuitBreaker → Type 0
  Cools b = (b.state ≡ open_state) × (b.retry_at ≡ some deadline)

  apply-Cools :
      (e : Event) (b : FalkorCircuitBreaker) → IsBefore deadline e → Cools b → Cools (apply e b)
  unfolding apply allow_probe record_success record_failure on_open
  apply-Cools (probe now) b early (h, r) = (ground arith, ground arith)
  apply-Cools (success now) b early (h, r) = (ground arith, ground arith)
  apply-Cools (failure now later) b early (h, r) = (ground arith, ground arith)
  apply-Cools register b early c = c

  run-Cools :
      (events : List Event) (b : FalkorCircuitBreaker)
      → All (IsBefore deadline) events
      → Cools b
      → Cools (run events b)
  unfolding run
  run-Cools [] b early c = c
  run-Cools (e ∷ events) b early c =
      run-Cools events (apply e b) early.1 (apply-Cools e b early.0 c)

  -- Whatever successes, failures and early probes an open breaker sees, the next probe is allowed
  -- exactly from the deadline on, and only then the breaker becomes half-open.
  pub allow_probe-deadline :
      (events : List Event) (b : FalkorCircuitBreaker) (now : ℕ)
      → b.state ≡ open_state
      → b.retry_at ≡ some deadline
      → All (IsBefore deadline) events
      → ((allow_probe now (run events b)).1 ≡ leb deadline now)
        × ((allow_probe now (run events b)).0.state
            ≡ (if leb deadline now then half_open else open_state))
  unfolding allow_probe transition_to
  allow_probe-deadline events b now h r early =
      let (state, due) = run-Cools events b early (h, r) in (ground arith, ground arith)

-- The calls that move a breaker with a callback from closed to open.
pub openings : List Event → FalkorCircuitBreaker → ℕ
openings [] b = 0
openings (e ∷ events) b =
    (if fires b.state (apply e b).state && b.has_callback then 1 else 0)
    + openings events (apply e b)

-- A snapshot of an opening: taken before the deadline is set, with the threshold reached.
abbrev pub IsOpening : CircuitSnapshot → Type 0
IsOpening s = (s.state ≡ open_state) × (s.retry_at ≡ none) × (s.failure_threshold ≤ s.failure_count)

transition_to-opened :
    (new_state : CircuitState) (now : ℕ) (b : FalkorCircuitBreaker)
    → length (transition_to new_state now b).opened
      ≡ length b.opened + (if fires b.state new_state && b.has_callback then 1 else 0)
unfolding transition_to
transition_to-opened new_state now b =
    elim (Bool-cases (fires b.state new_state && b.has_callback)) [
      | inl e ↦ rw (e, transition_to) (length-append b.opened _)
      | inr e ↦ rw (e, transition_to) (omega arith)
    ]

apply-opened_at :
    (settings : Settings) (failures last : ℕ) (retry_at : Option ℕ) (has_callback : Bool)
    (opened : List CircuitSnapshot) (e : Event) (state : CircuitState)
    → let b = at_state settings failures last retry_at has_callback opened state in
      length (apply e b).opened
      ≡ length b.opened + (if fires b.state (apply e b).state && b.has_callback then 1 else 0)
unfolding apply allow_probe record_success record_failure on_open trip
apply-opened_at st n last r cb os (probe now) closed = omega arith
apply-opened_at st n last r cb os (probe now) open_state =
    ground (arith, transition_to-opened half_open now (at_state st n last r cb os open_state))
apply-opened_at st n last r cb os (probe now) half_open = omega arith
apply-opened_at st n last r cb os (success now) closed = omega arith
apply-opened_at st n last r cb os (success now) open_state = omega arith
apply-opened_at st n last r cb os (success now) half_open =
    ground (arith, transition_to-opened closed now (at_state st n last r cb os half_open))
apply-opened_at st n last r cb os (failure now later) closed =
    ground (arith, transition_to-opened open_state now (at_state st (n + 1) last r cb os closed))
apply-opened_at st n last r cb os (failure now later) open_state = omega arith
apply-opened_at st n last r cb os (failure now later) half_open =
    ground (arith, transition_to-opened open_state now (at_state st (n + 1) last r cb os half_open))
apply-opened_at st n last r cb os register closed = omega arith
apply-opened_at st n last r cb os register open_state = omega arith
apply-opened_at st n last r cb os register half_open = omega arith

-- The callback runs once for each move from closed to open, and on no other move.
pub run-opened :
    (events : List Event) (b : FalkorCircuitBreaker)
    → length (run events b).opened ≡ length b.opened + openings events b
unfolding run openings
run-opened [] b = omega arith
run-opened (e ∷ events) b = omega (
  arith,
  run-opened events (apply e b),
  apply-opened_at b.settings b.failure_count b.last_transition_at b.retry_at b.has_callback b.opened
      e b.state,
)

abbrev AllOpenings : FalkorCircuitBreaker → Type 0
AllOpenings b = All IsOpening b.opened

open-AllOpenings :
    (now : ℕ) (b : FalkorCircuitBreaker)
    → b.retry_at ≡ none
    → b.settings.failure_threshold ≤ b.failure_count
    → AllOpenings b
    → AllOpenings (transition_to open_state now b)
unfolding transition_to snapshot
open-AllOpenings now b r reached all =
    elim (Bool-cases (fires b.state open_state && b.has_callback)) [
      | inl e ↦ rw (e, transition_to) (All-append IsOpening b.opened _ all ((refl, r, reached), tt))
      | inr e ↦ rw (e, transition_to) all
    ]

apply-AllOpenings :
    (settings : Settings) (failures last : ℕ) (retry_at : Option ℕ) (has_callback : Bool)
    (opened : List CircuitSnapshot) (e : Event) (state : CircuitState)
    → let b = at_state settings failures last retry_at has_callback opened state in
      IsSound b → AllOpenings b → AllOpenings (apply e b)
unfolding apply allow_probe record_success record_failure on_open trip transition_to
apply-AllOpenings st n last r cb os (failure now later) closed h all =
    elim (Bool-cases (leb st.failure_threshold (n + 1))) [
      | inl e ↦
          rw (e, trip)
            (open-AllOpenings now (at_state st (n + 1) last r cb os closed) h.0 (ground arith) all)
      | inr e ↦ rw e all
    ]
apply-AllOpenings st n last r cb os (failure now later) open_state h all = all
apply-AllOpenings st n last r cb os (failure now later) half_open h all = all
apply-AllOpenings st n last r cb os (probe now) closed h all = all
apply-AllOpenings st n last r cb os (probe now) open_state h all =
    elim (Bool-cases (is_due r now)) [ inl e ↦ rw e all | inr e ↦ rw e all ]
apply-AllOpenings st n last r cb os (probe now) half_open h all = all
apply-AllOpenings st n last r cb os (success now) closed h all = all
apply-AllOpenings st n last r cb os (success now) open_state h all = all
apply-AllOpenings st n last r cb os (success now) half_open h all = all
apply-AllOpenings st n last r cb os register state h all = all

run-AllOpenings :
    (events : List Event) (b : FalkorCircuitBreaker)
    → IsSound b
    → AllOpenings b
    → AllOpenings (run events b)
unfolding run
run-AllOpenings [] b h all = all
run-AllOpenings (e ∷ events) b h all = run-AllOpenings events (apply e b) (apply-IsSound e b h) (
    apply-AllOpenings b.settings b.failure_count b.last_transition_at b.retry_at b.has_callback
      b.opened e b.state h all)

-- After any sequence of calls on a new breaker, every snapshot that the callback received says
-- `open`, has counted at least the threshold of failures, and carries no deadline.
pub init-AllOpenings :
    (settings : Settings) (start : ℕ) (events : List Event)
    → All IsOpening (run events (init settings start)).opened
unfolding init
init-AllOpenings settings start events =
    run-AllOpenings events (init settings start) (refl, inl refl) tt
