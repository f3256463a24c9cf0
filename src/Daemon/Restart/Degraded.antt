-- ===== src/Daemon/Restart/Degraded.antt =====
-- The state FATAL_DEGRADED of janus_graph/daemon/falkordb_restart_policy.py, and its callback.
use janus_graph.Base.{
  ℕ, List, [], ◌∷◌, Bool, true, false, length, arith, ◌≤◌, ◌≡◌, refl, inl, inr, leb, if_both,
  Bool-cases, length-append,
}
use janus_graph.Daemon.Restart.{
  RestartPolicyState, ok, cooling_down, budget_exhausted, fatal_degraded, Settings,
  FalkorRestartPolicy, Readings, Start, started, start_raised, init, prune_window, snapshot,
  disable, register_manager, can_restart, attempt_restart, attempt_restart_locked, restart_gated,
  issue, enter_fatal_degraded, on_circuit_opened, is_refused, is_cooling, prune,
}
use janus_graph.Daemon.Restart.History.{
  Event, attempt, circuit_opened, query, health, switch_off, bind_manager, apply, run,
}

-- What stays when the policy is degraded.
abbrev pub IsDead : FalkorRestartPolicy → FalkorRestartPolicy → Type 0
IsDead p q = (q.state ≡ fatal_degraded) × (q.starts ≡ p.starts) × (q.exhausted ≡ p.exhausted)

attempt-IsDead :
    (clock : Readings) (start : Start) (p q : FalkorRestartPolicy)
    → IsDead p q
    → IsDead p (attempt_restart clock start q).0
unfolding attempt_restart
attempt-IsDead clock start p q d = ground (arith, d)

apply-IsDead : (e : Event) (p q : FalkorRestartPolicy) → IsDead p q → IsDead p (apply e q)
unfolding apply on_circuit_opened disable register_manager snapshot can_restart prune_window
apply-IsDead (attempt clock start) p q d = attempt-IsDead clock start p q d
apply-IsDead (circuit_opened clock start true) p q d =
    attempt-IsDead clock start p (register_manager q) d
apply-IsDead (circuit_opened clock start false) p q d = attempt-IsDead clock start p q d
apply-IsDead (query pruned now) p q d = ground arith
apply-IsDead (health pruned now) p q d = d
apply-IsDead switch_off p q d = d
apply-IsDead bind_manager p q d = d

run-IsDead :
    (events : List Event) (p q : FalkorRestartPolicy) → IsDead p q → IsDead p (run events q)
unfolding run
run-IsDead [] p q d = d
run-IsDead (e ∷ events) p q d = run-IsDead events p (apply e q) (apply-IsDead e p q d)

-- A degraded policy stays degraded whatever calls follow: it never starts FalkorDB again, and its
-- callback is not called again.
pub fatal_degraded-forever :
    (p : FalkorRestartPolicy) (events : List Event)
    → p.state ≡ fatal_degraded
    → IsDead p (run events p)
fatal_degraded-forever p events fatal = run-IsDead events p p (fatal, refl, refl)

-- The callback has been called only where the policy is degraded, and then once at most.
abbrev pub IsAlerted : RestartPolicyState → ℕ → Type 0
IsAlerted ok n = n ≡ 0
IsAlerted cooling_down n = n ≡ 0
IsAlerted budget_exhausted n = ⊥
IsAlerted fatal_degraded n = n ≤ 1

abbrev AlertOf : FalkorRestartPolicy → Type 0
AlertOf p = IsAlerted p.state (length p.exhausted)

-- Not degraded, so no callback was called.
abbrev IsLive : RestartPolicyState → ℕ → Type 0
IsLive ok n = n ≡ 0
IsLive cooling_down n = n ≡ 0
IsLive _ n = ⊥

exhausted-fatal :
    (pruned now : ℕ) (p : FalkorRestartPolicy) (state : RestartPolicyState)
    → IsLive state (length p.exhausted)
    → AlertOf (enter_fatal_degraded pruned now (record p { state = state }))
unfolding enter_fatal_degraded snapshot prune_window
exhausted-fatal pruned now p ok a = elim (Bool-cases p.has_callback) [
  | inl e ↦ simp (e, length-append p.exhausted) (omega arith)
  | inr e ↦ simp e (omega arith)
]
exhausted-fatal pruned now p cooling_down a = elim (Bool-cases p.has_callback) [
  | inl e ↦ simp (e, length-append p.exhausted) (omega arith)
  | inr e ↦ simp e (omega arith)
]
exhausted-fatal pruned now p budget_exhausted a = elim a [ ]
exhausted-fatal pruned now p fatal_degraded a = elim a [ ]

live-AlertOf : (state : RestartPolicyState) (n : ℕ) → IsLive state n → IsAlerted state n × (n ≡ 0)
live-AlertOf ok n a = (a, a)
live-AlertOf cooling_down n a = (a, a)
live-AlertOf budget_exhausted n a = elim a [ ]
live-AlertOf fatal_degraded n a = elim a [ ]

abbrev Settled : FalkorRestartPolicy × Bool → Type 0
Settled r = AlertOf r.0

module _ (clock : Readings) (start : Start) where
  issue-AlertOf :
      (p : FalkorRestartPolicy)
      → IsLive p.state (length p.exhausted)
      → (start : Start) → AlertOf (issue clock start p).0
  unfolding issue
  issue-AlertOf p l start_raised = exhausted-fatal clock.snap_pruned_at clock.snap_at p p.state l
  issue-AlertOf p l (started up) = (live-AlertOf p.state (length p.exhausted) l).1

  gated-AlertOf :
      (p : FalkorRestartPolicy)
      → IsLive p.state (length p.exhausted)
      → AlertOf (restart_gated clock start p).0
  unfolding restart_gated
  gated-AlertOf p l =
      let i = issue-AlertOf p l start in
      let f = exhausted-fatal clock.snap_pruned_at clock.snap_at p p.state l in
      let s = live-AlertOf p.state (length p.exhausted) l in
      elim (Bool-cases (is_cooling clock.checked_at p.settings p.last_restart_at)) [
        | inl e ↦ simp e s.1
        | inr e ↦ elim (Bool-cases (leb p.settings.max_per_hour (length p.restart_times))) [
          | inl g ↦ simp (e, g) f
          | inr g ↦ elim (Bool-cases p.has_manager) [
            | inl h ↦ simp (e, g, h) i
            | inr h ↦ simp (e, g, h) s.0
          ]
        ]
      ]

  attempt-AlertOf :
      (p : FalkorRestartPolicy) (state : RestartPolicyState)
      → IsAlerted state (length p.exhausted)
      → AlertOf (attempt_restart clock start (record p { state = state })).0
  unfolding attempt_restart attempt_restart_locked prune_window
  attempt-AlertOf p ok a =
      let g = gated-AlertOf (prune_window clock.pruned_at (record p { state = ok })) a in
      if_both p.disabled_by_operator Settled a (if_both p.restart_in_progress Settled a g)
  attempt-AlertOf p cooling_down a =
      let g = gated-AlertOf (prune_window clock.pruned_at (record p { state = cooling_down })) a in
      if_both p.disabled_by_operator Settled a (if_both p.restart_in_progress Settled a g)
  attempt-AlertOf p budget_exhausted a = elim a [ ]
  attempt-AlertOf p fatal_degraded a = if_both p.disabled_by_operator Settled a a

query-AlertOf :
    (pruned now : ℕ) (p : FalkorRestartPolicy) → AlertOf p → AlertOf (can_restart pruned now p).0
unfolding can_restart prune_window
query-AlertOf pruned now p a = elim (Bool-cases (is_refused p.state)) [
  | inl e ↦ simp e a
  | inr e ↦
      elim (Bool-cases (leb p.settings.max_per_hour (length (prune pruned p.restart_times)))) [
        | inl g ↦ simp (e, g) a
        | inr g ↦ simp (e, g) a
      ]
]

run-AlertOf : (events : List Event) (p : FalkorRestartPolicy) → AlertOf p → AlertOf (run events p)
unfolding run apply on_circuit_opened disable register_manager snapshot prune_window
run-AlertOf [] p a = a
run-AlertOf (attempt clock start ∷ events) p a =
    run-AlertOf events (attempt_restart clock start p).0 (attempt-AlertOf clock start p p.state a)
run-AlertOf (circuit_opened clock start true ∷ events) p a =
    run-AlertOf events (attempt_restart clock start (register_manager p)).0
      (attempt-AlertOf clock start (register_manager p) p.state a)
run-AlertOf (circuit_opened clock start false ∷ events) p a =
    run-AlertOf events (attempt_restart clock start p).0 (attempt-AlertOf clock start p p.state a)
run-AlertOf (query pruned now ∷ events) p a =
    run-AlertOf events (can_restart pruned now p).0 (query-AlertOf pruned now p a)
run-AlertOf (health pruned now ∷ events) p a = run-AlertOf events (prune_window pruned p) a
run-AlertOf (switch_off ∷ events) p a = run-AlertOf events (disable p) a
run-AlertOf (bind_manager ∷ events) p a = run-AlertOf events (register_manager p) a

-- Whatever calls a policy receives after its construction: its state is never BUDGET_EXHAUSTED, and
-- `on_budget_exhausted` has been called once at most, and only where the state is FATAL_DEGRADED.
pub run-IsAlerted :
    (settings : Settings) (has_manager has_callback : Bool) (events : List Event)
    → let p = run events (init settings has_manager has_callback) in
      IsAlerted p.state (length p.exhausted)
unfolding init
run-IsAlerted settings has_manager has_callback events =
    run-AlertOf events (init settings has_manager has_callback) refl
