-- ===== src/Daemon/Breaker.antt =====
-- janus_graph/daemon/circuit_breaker.py. Each method holds the state lock for its whole body, so it
-- is one step; `now` is what it reads from the monotonic clock, in microseconds.
use janus_graph.Base.{
  ℕ, List, [], ◌∷◌, ◌++◌, Bool, true, false, ◌&&◌, Option, none, some, ◌+◌, ◌*◌, leb, if◌then◌else◌,
}
pub mod Machine
pub mod Trace

abbrev pub second : ℕ
second = 1_000_000

pub data CircuitState : Type 0 where
  closed open_state half_open : CircuitState

-- `FalkorCircuitSettings`
pub record Settings : Type 0 where
  pub failure_threshold : ℕ
  pub reset_timeout_sec : ℕ
  pub half_open_max_probes : ℕ

pub record CircuitSnapshot : Type 0 where
  pub state : CircuitState
  pub failure_count : ℕ
  pub failure_threshold : ℕ
  pub reset_timeout_sec : ℕ
  pub retry_at : Option ℕ
  pub last_transition_at : ℕ

-- The breaker. `has_callback` tells whether `on_open` was called, and `opened` collects the
-- snapshots that the callback received, oldest first.
pub record FalkorCircuitBreaker : Type 0 where
  pub settings : Settings
  pub state : CircuitState
  pub failure_count : ℕ
  pub retry_at : Option ℕ
  pub last_transition_at : ℕ
  pub has_callback : Bool
  pub opened : List CircuitSnapshot

unfoldable pub init : Settings → ℕ → FalkorCircuitBreaker
init settings now = record {
  settings = settings;
  state = closed;
  failure_count = 0;
  retry_at = none;
  last_transition_at = now;
  has_callback = false;
  opened = [];
}

unfoldable pub snapshot : FalkorCircuitBreaker → CircuitSnapshot
snapshot b = record {
  state = b.state;
  failure_count = b.failure_count;
  failure_threshold = b.settings.failure_threshold;
  reset_timeout_sec = b.settings.reset_timeout_sec;
  retry_at = b.retry_at;
  last_transition_at = b.last_transition_at;
}

pub on_open : FalkorCircuitBreaker → FalkorCircuitBreaker
on_open b = record b { has_callback = true }

-- The test for the callback: only from closed to open.
abbrev pub fires : CircuitState → CircuitState → Bool
fires closed open_state = true
fires _ _ = false

pub transition_to : CircuitState → ℕ → FalkorCircuitBreaker → FalkorCircuitBreaker
unfolding snapshot
transition_to new_state now b =
    let b' = record b { state = new_state; last_transition_at = now } in
    if fires b.state new_state && b.has_callback
    then record b' { opened = b.opened ++ snapshot b' ∷ [] }
    else b'

-- `self._retry_at is not None and now >= self._retry_at`
abbrev pub is_due : Option ℕ → ℕ → Bool
is_due none now = false
is_due (some t) now = leb t now

pub allow_probe : ℕ → FalkorCircuitBreaker → FalkorCircuitBreaker × Bool
unfolding transition_to
allow_probe now b = elim b.state [
  | closed ↦ (b, true)
  | open_state ↦ if is_due b.retry_at now then (transition_to half_open now b, true) else (b, false)
  | half_open ↦ (b, true)
]

pub record_success : ℕ → FalkorCircuitBreaker → FalkorCircuitBreaker
unfolding transition_to
record_success now b = elim b.state [
  | half_open ↦ record (transition_to closed now b) { failure_count = 0; retry_at = none }
  | closed ↦ record b { failure_count = 0 }
  | open_state ↦ b
]

-- The move to open and the new deadline, from the second clock reading.
pub trip : (now later : ℕ) → FalkorCircuitBreaker → FalkorCircuitBreaker
unfolding transition_to
trip now later b = record (transition_to open_state now b) {
  retry_at = some (later + b.settings.reset_timeout_sec * second);
}

pub record_failure : (now later : ℕ) → FalkorCircuitBreaker → FalkorCircuitBreaker
unfolding trip
record_failure now later b =
    let counted = record b { failure_count = b.failure_count + 1 } in
    elim b.state [
      | half_open ↦ trip now later counted
      | closed ↦
          if leb b.settings.failure_threshold (b.failure_count + 1)
          then trip now later counted
          else counted
      | open_state ↦ counted
    ]

unfoldable pub acquire_probe_slot : FalkorCircuitBreaker → Bool
acquire_probe_slot b = elim b.state [ half_open ↦ true | _ ↦ false ]

unfoldable pub reset_for_test : ℕ → FalkorCircuitBreaker → FalkorCircuitBreaker
reset_for_test now b = record b {
  state = closed;
  failure_count = 0;
  retry_at = none;
  last_transition_at = now;
}
