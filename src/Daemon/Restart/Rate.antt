-- ===== src/Daemon/Restart/Rate.antt =====
-- How often the policy of janus_graph/daemon/falkordb_restart_policy.py restarts FalkorDB.
use janus_graph.Base.{
  ℕ, List, [], ◌∷◌, Bool, true, false, count, ◌≤◌, ◌≡◌, ◌∙◌, subst, refl, arith, ◌*◌,
}
use janus_graph.Daemon.Restart.{
  Settings, FalkorRestartPolicy, Readings, Start, second, init, prune_window, snapshot, disable,
  register_manager, can_restart, attempt_restart, attempt_restart_locked, restart_gated, issue,
  enter_fatal_degraded, started, start_raised, on_circuit_opened,
}
use janus_graph.Daemon.Restart.History.{
  Event, attempt, circuit_opened, query, health, switch_off, bind_manager, apply, run, InOrder,
  end_of, Ordered,
}
use janus_graph.Daemon.Restart.Window.{in_hour, IsSpaced, InvOf, Inv-later, Inv-prune}
use janus_graph.Daemon.Restart.Attempt.{attempt-Inv}

circuit_opened-Inv :
    (since : ℕ) (clock : Readings) (start : Start) (manager : Bool) (p : FalkorRestartPolicy)
    → InOrder since clock
    → InvOf since p
    → InvOf (end_of clock) (on_circuit_opened clock start manager p)
unfolding on_circuit_opened register_manager
circuit_opened-Inv since clock start true p order i =
    attempt-Inv since clock start (register_manager p) order i
circuit_opened-Inv since clock start false p order i = attempt-Inv since clock start p order i

query-Inv :
    (since pruned now : ℕ) (p : FalkorRestartPolicy)
    → since ≤ pruned
    → InvOf since p
    → InvOf pruned (can_restart pruned now p).0
unfolding can_restart prune_window
query-Inv since pruned now p le i =
    ground (arith, Inv-later since pruned le i, Inv-prune since pruned le i)

run-Inv :
    (since : ℕ) (events : List Event) (p : FalkorRestartPolicy)
    → Ordered since events
    → InvOf since p
    → (now : ℕ) × InvOf now (run events p)
unfolding run apply disable register_manager snapshot prune_window
run-Inv since [] p order i = (since, i)
run-Inv since (attempt clock start ∷ events) p order i =
    run-Inv (end_of clock) events (attempt_restart clock start p).0 order.1
      (attempt-Inv since clock start p order.0 i)
run-Inv since (circuit_opened clock start manager ∷ events) p order i =
    run-Inv (end_of clock) events (on_circuit_opened clock start manager p) order.1
      (circuit_opened-Inv since clock start manager p order.0 i)
run-Inv since (query pruned now ∷ events) p order i =
    run-Inv pruned events (can_restart pruned now p).0 order.1
      (query-Inv since pruned now p order.0 i)
run-Inv since (health pruned now ∷ events) p order i =
    run-Inv pruned events (snapshot pruned now p).0 order.1 (Inv-prune since pruned order.0 i)
run-Inv since (switch_off ∷ events) p order i = run-Inv since events (disable p) order i
run-Inv since (bind_manager ∷ events) p order i = run-Inv since events (register_manager p) order i

fatal-settings :
    (pruned now : ℕ) (p : FalkorRestartPolicy)
    → (enter_fatal_degraded pruned now p).settings ≡ p.settings
unfolding enter_fatal_degraded snapshot prune_window
fatal-settings pruned now p = ground arith

issue-settings :
    (clock : Readings) (start : Start) (p : FalkorRestartPolicy)
    → (issue clock start p).0.settings ≡ p.settings
unfolding issue
issue-settings clock start_raised p = fatal-settings clock.snap_pruned_at clock.snap_at p
issue-settings clock (started up) p = refl

gated-settings :
    (clock : Readings) (start : Start) (p : FalkorRestartPolicy)
    → (restart_gated clock start p).0.settings ≡ p.settings
unfolding restart_gated
gated-settings clock start p =
    ground
      (arith, issue-settings clock start p, fatal-settings clock.snap_pruned_at clock.snap_at p)

attempt-settings :
    (clock : Readings) (start : Start) (p : FalkorRestartPolicy)
    → (attempt_restart clock start p).0.settings ≡ p.settings
unfolding attempt_restart attempt_restart_locked prune_window
attempt-settings clock start p =
    ground (arith, gated-settings clock start (prune_window clock.pruned_at p))

run-settings :
    (events : List Event) (p : FalkorRestartPolicy) → (run events p).settings ≡ p.settings
unfolding run apply on_circuit_opened disable register_manager snapshot can_restart prune_window
run-settings [] p = refl
run-settings (attempt clock start ∷ events) p =
    run-settings events (attempt_restart clock start p).0 ∙ attempt-settings clock start p
run-settings (circuit_opened clock start true ∷ events) p =
    run-settings events (attempt_restart clock start (register_manager p)).0
    ∙ attempt-settings clock start (register_manager p)
run-settings (circuit_opened clock start false ∷ events) p =
    run-settings events (attempt_restart clock start p).0 ∙ attempt-settings clock start p
run-settings (query pruned now ∷ events) p =
    ground (arith, run-settings events p, run-settings events (prune_window pruned p))
run-settings (health pruned now ∷ events) p = run-settings events (prune_window pruned p)
run-settings (switch_off ∷ events) p = run-settings events (disable p)
run-settings (bind_manager ∷ events) p = run-settings events (register_manager p)

init-Inv :
    (since : ℕ) (settings : Settings) (has_manager has_callback : Bool)
    → InvOf since (init settings has_manager has_callback)
unfolding init count
init-Inv since settings has_manager has_callback = record {
  dropped = [];
  split = refl;
  old = tt;
  bound = λ w. omega arith;
  is_last = refl;
  spaced = tt;
}

module _ (settings : Settings) (has_manager has_callback : Bool) (since : ℕ) (events : List Event)
    (order : Ordered since events) where
  -- Whatever calls a policy receives after its construction, under a clock that never runs
  -- backwards: no hour, wherever it begins, holds more starts of FalkorDB than `max_per_hour`.
  pub restarts-le-max_per_hour :
      (w : ℕ)
      → count (in_hour w) (run events (init settings has_manager has_callback)).starts
        ≤ settings.max_per_hour
  unfolding init
  restarts-le-max_per_hour w =
      subst
        (λ (s : Settings).
          count (in_hour w) (run events (init settings has_manager has_callback)).starts
          ≤ s.max_per_hour)
        (run-settings events (init settings has_manager has_callback))
        ((run-Inv since events (init settings has_manager has_callback) order
            (init-Inv since settings has_manager has_callback)).1.bound
          w)

  -- Whatever calls a policy receives after its construction, under a clock that never runs
  -- backwards: any two starts of FalkorDB lie at least `cooldown_sec` apart.
  pub restarts-IsSpaced :
      IsSpaced
        (settings.cooldown_sec * second)
        (run events (init settings has_manager has_callback)).starts
  unfolding init
  restarts-IsSpaced =
      subst
        (λ (s : Settings).
          IsSpaced (s.cooldown_sec * second)
            (run events (init settings has_manager has_callback)).starts)
        (run-settings events (init settings has_manager has_callback))
        ((run-Inv since events (init settings has_manager has_callback) order
          (init-Inv since settings has_manager has_callback)).1.spaced)
