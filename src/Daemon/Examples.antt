-- ===== src/Daemon/Examples.antt =====
-- Tests of the circuit breaker and of the restart policy (janus_graph/daemon).
use janus_graph.Base.{
  ℕ, List, [], ◌∷◌, true, false, some, ◌≡◌, ◌≤◌, ◌+◌, refl, arith, count, leb, if◌then◌else◌,
}
use janus_graph.Daemon.Breaker
use janus_graph.Daemon.Breaker.{FalkorCircuitBreaker, open_state, half_open, closed, allow_probe}
use janus_graph.Daemon.Breaker.Machine
use janus_graph.Daemon.Breaker.Machine.{
  Event, probe, success, failure, register, IsSound, init-IsSound, fail_all, state_after,
  fail_all-state,
}
use janus_graph.Daemon.Breaker.Trace.{allow_probe-deadline}
use janus_graph.Daemon.Restart
use janus_graph.Daemon.Restart.{
  attempt_restart, can_restart, FalkorRestartPolicy, Readings, started, start_raised,
  fatal_degraded, second,
}
use janus_graph.Daemon.Restart.History
use janus_graph.Daemon.Restart.History.{Ordered}
use janus_graph.Daemon.Restart.Window.{in_hour}
use janus_graph.Daemon.Restart.Rate.{restarts-le-max_per_hour}

abbrev circuit : Breaker.Settings
circuit = record { failure_threshold = 2; reset_timeout_sec = 30; half_open_max_probes = 1 }

abbrev calls : List Event
calls = register ∷ failure 1 2 ∷ failure 3 4 ∷ probe 5 ∷ probe 40_000_000 ∷ success 40_000_001 ∷ []

init-IsSound_example : IsSound (Machine.run calls (Breaker.init circuit 0))
init-IsSound_example = init-IsSound circuit 0 calls

abbrev tripped : FalkorCircuitBreaker
tripped = record {
  settings = circuit;
  state = open_state;
  failure_count = 2;
  retry_at = some 30_000_004;
  last_transition_at = 3;
  has_callback = true;
  opened = [];
}

allow_probe-deadline_example :
    ((allow_probe 40_000_000 (Machine.run (failure 5 6 ∷ probe 7 ∷ []) tripped)).1
      ≡ leb 30_000_004 40_000_000)
    × ((allow_probe 40_000_000 (Machine.run (failure 5 6 ∷ probe 7 ∷ []) tripped)).0.state
        ≡ (if leb 30_000_004 40_000_000 then half_open else open_state))
allow_probe-deadline_example =
    allow_probe-deadline 30_000_004 (failure 5 6 ∷ probe 7 ∷ []) tripped 40_000_000 refl refl
      (tt, (omega arith, tt))

abbrev limits : Restart.Settings
limits = record { cooldown_sec = 60; max_per_hour = 2 }

abbrev at_time : ℕ → Readings
at_time t = record {
  pruned_at = t;
  checked_at = t;
  finished_at = t + 1;
  snap_pruned_at = t;
  snap_at = t;
}

abbrev restarts : List History.Event
restarts =
    History.attempt (at_time 10) (started true)
    ∷ History.attempt (at_time 100) (started true)
    ∷ History.circuit_opened (at_time 100_000_000) (started true) true
    ∷ History.query 100_000_005 100_000_006
    ∷ History.attempt (at_time 200_000_000) (started true)
    ∷ []

restarts-Ordered : Ordered 0 restarts
restarts-Ordered = ground arith

restarts-le-max_per_hour_example :
    count (in_hour 5) (History.run restarts (Restart.init limits true true)).starts ≤ 2
restarts-le-max_per_hour_example =
    restarts-le-max_per_hour limits true true 0 restarts restarts-Ordered 5

abbrev degraded : FalkorRestartPolicy
degraded = record {
  settings = limits;
  has_manager = true;
  has_callback = true;
  restart_times = 11 ∷ [];
  last_restart_at = some 11;
  state = fatal_degraded;
  restart_in_progress = false;
  disabled_by_operator = false;
  exhausted = [];
  starts = 11 ∷ [];
}

abbrev rested : FalkorRestartPolicy
rested = record degraded { state = Restart.cooling_down }
