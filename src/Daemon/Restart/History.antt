-- ===== src/Daemon/Restart/History.antt =====
-- Sequences of calls of janus_graph/daemon/falkordb_restart_policy.py under a clock that never runs
-- backwards.
use janus_graph.Base.{ℕ, List, [], ◌∷◌, Bool, ◌≤◌}
use janus_graph.Daemon.Restart.{
  FalkorRestartPolicy, Readings, Start, disable, register_manager, snapshot, can_restart,
  attempt_restart, on_circuit_opened,
}

-- A call, with the clock readings that it makes and what `manager.start()` would do.
pub data Event : Type 0 where
  attempt : Readings → Start → Event
  circuit_opened : Readings → Start → Bool → Event
  query health : (pruned_at now : ℕ) → Event
  switch_off bind_manager : Event

unfoldable pub apply : Event → FalkorRestartPolicy → FalkorRestartPolicy
apply (attempt clock start) p = (attempt_restart clock start p).0
apply (circuit_opened clock start manager) p = on_circuit_opened clock start manager p
apply (query pruned_at now) p = (can_restart pruned_at now p).0
apply (health pruned_at now) p = (snapshot pruned_at now p).0
apply switch_off p = disable p
apply bind_manager p = register_manager p

unfoldable pub run : List Event → FalkorRestartPolicy → FalkorRestartPolicy
run [] p = p
run (e ∷ events) p = run events (apply e p)

-- The readings of one attempt in order: each is at least the one before.
abbrev pub InOrder : ℕ → Readings → Type 0
InOrder since clock =
    (since ≤ clock.pruned_at)
    × (clock.pruned_at ≤ clock.checked_at)
    × (clock.checked_at ≤ clock.finished_at)
    × (clock.checked_at ≤ clock.snap_pruned_at)

-- The last reading that prunes or is recorded.
abbrev pub end_of : Readings → ℕ
end_of clock = Prim.Native.Nat.max clock.finished_at clock.snap_pruned_at

-- The whole sequence is in order, from the reading `since` on.
abbrev pub Ordered : ℕ → List Event → Type 0
Ordered since [] = Unit
Ordered since (attempt clock start ∷ events) = InOrder since clock × Ordered (end_of clock) events
Ordered since (circuit_opened clock start manager ∷ events) =
    InOrder since clock × Ordered (end_of clock) events
Ordered since (query pruned_at now ∷ events) = (since ≤ pruned_at) × Ordered pruned_at events
Ordered since (health pruned_at now ∷ events) = (since ≤ pruned_at) × Ordered pruned_at events
Ordered since (switch_off ∷ events) = Ordered since events
Ordered since (bind_manager ∷ events) = Ordered since events
