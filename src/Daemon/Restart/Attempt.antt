-- ===== src/Daemon/Restart/Attempt.antt =====
-- What one attempt of janus_graph/daemon/falkordb_restart_policy.py does to the window.
use janus_graph.Base.{
  ℕ, List, [], ◌∷◌, ◌++◌, Bool, true, false, not, some, ◌≤◌, ◌<◌, ◌≡◌, refl, leb, length, arith,
  Bool-cases, ◌⊎◌, inl, inr, if◌then◌else◌,
}
use janus_graph.Daemon.Restart.{
  FalkorRestartPolicy, Readings, Start, started, start_raised, prune, prune_window, is_cooling,
  enter_fatal_degraded, issue, restart_gated, attempt_restart_locked, attempt_restart,
}
use janus_graph.Daemon.Restart.History.{InOrder, end_of}
use janus_graph.Daemon.Restart.Window.{Inv, InvOf, Inv-later, Inv-prune, issue-Inv}

-- A call that issues no restart: only the window may change, by pruning.
abbrev Keeps : FalkorRestartPolicy → FalkorRestartPolicy → List ℕ → Type 0
Keeps p q times =
    (q.settings ≡ p.settings)
    × (q.restart_times ≡ times)
    × (q.last_restart_at ≡ p.last_restart_at)
    × (q.starts ≡ p.starts)

Keeps-Inv :
    (now : ℕ) (p q : FalkorRestartPolicy) (times : List ℕ)
    → Keeps p q times
    → Inv now p.settings times p.last_restart_at p.starts
    → InvOf now q
Keeps-Inv now p q times (s, t, l, st) i = rw (s, t, l, st) i

fatal-Keeps :
    (pruned now : ℕ) (p : FalkorRestartPolicy)
    → let q = enter_fatal_degraded pruned now p in
      Keeps p q p.restart_times ⊎ Keeps p q (prune pruned p.restart_times)
unfolding enter_fatal_degraded
fatal-Keeps pruned now p = ground arith

Inv-fatal :
    (since pruned now : ℕ) (p : FalkorRestartPolicy)
    → since ≤ pruned
    → InvOf since p
    → InvOf pruned (enter_fatal_degraded pruned now p)
Inv-fatal since pruned now p le i = elim (fatal-Keeps pruned now p) [
  | inl k ↦
      Keeps-Inv pruned p (enter_fatal_degraded pruned now p) p.restart_times k
        (Inv-later since pruned le i)
  | inr k ↦
      Keeps-Inv pruned p (enter_fatal_degraded pruned now p) (prune pruned p.restart_times) k
        (Inv-prune since pruned le i)
]

-- What an attempt does after the window was pruned: nothing, degrade, or issue a restart.
data Locked (clock : Readings) (q r : FalkorRestartPolicy) : Type 0 where
  idle : Keeps q r q.restart_times → Locked clock q r
  degraded : r ≡ enter_fatal_degraded clock.snap_pruned_at clock.snap_at q → Locked clock q r
  issued :
      length q.restart_times < q.settings.max_per_hour
      → is_cooling clock.checked_at q.settings q.last_restart_at ≡ false
      → r.settings ≡ q.settings
      → r.restart_times ≡ q.restart_times ++ clock.finished_at ∷ []
      → r.last_restart_at ≡ some clock.finished_at
      → r.starts ≡ q.starts ++ clock.finished_at ∷ []
      → Locked clock q r

issue-Locked :
    (clock : Readings) (start : Start) (q : FalkorRestartPolicy)
    → length q.restart_times < q.settings.max_per_hour
    → is_cooling clock.checked_at q.settings q.last_restart_at ≡ false
    → Locked clock q (issue clock start q).0
unfolding issue
issue-Locked clock start_raised q room cooled = degraded refl
issue-Locked clock (started up) q room cooled = issued room cooled refl refl refl refl

manager-Locked :
    (clock : Readings) (start : Start) (q : FalkorRestartPolicy) (has_manager : Bool)
    → length q.restart_times < q.settings.max_per_hour
    → is_cooling clock.checked_at q.settings q.last_restart_at ≡ false
    → Locked clock q (if not has_manager then (q, false) else issue clock start q).0
manager-Locked clock start q true room cooled = issue-Locked clock start q room cooled
manager-Locked clock start q false room cooled = idle (refl, refl, refl, refl)

gated-Locked :
    (clock : Readings) (start : Start) (q : FalkorRestartPolicy)
    → Locked clock q (restart_gated clock start q).0
unfolding restart_gated issue
gated-Locked clock start q =
    elim (Bool-cases (is_cooling clock.checked_at q.settings q.last_restart_at)) [
      | inl e ↦ rw (e, restart_gated) (idle (refl, refl, refl, refl))
      | inr e ↦ elim (Bool-cases (leb q.settings.max_per_hour (length q.restart_times))) [
        | inl f ↦ rw (e, f, restart_gated) (degraded refl)
        | inr f ↦
            rw (e, f, restart_gated) (manager-Locked clock start q q.has_manager (ground arith) e)
      ]
    ]

Locked-Inv :
    (since : ℕ) (clock : Readings) (q r : FalkorRestartPolicy)
    → clock.pruned_at ≤ clock.checked_at
    → clock.checked_at ≤ clock.finished_at
    → clock.checked_at ≤ clock.snap_pruned_at
    → InvOf clock.pruned_at q
    → Locked clock q r
    → InvOf (end_of clock) r
Locked-Inv since clock q r a b c i (idle k) =
    Keeps-Inv (end_of clock) q r q.restart_times k
      (Inv-later clock.pruned_at (end_of clock) (omega arith) i)
Locked-Inv since clock q r a b c i (degraded e) = rw e (
    Inv-later clock.snap_pruned_at (end_of clock) (omega arith)
      (Inv-fatal clock.pruned_at clock.snap_pruned_at clock.snap_at q (omega arith) i))
Locked-Inv since clock q r a b c i (issued room cooled s t l st) =
    rw (s, t, l, st)
      (Inv-later clock.pruned_at (end_of clock) (omega arith) (
        issue-Inv q.settings q.restart_times q.starts q.last_restart_at clock.pruned_at
          clock.checked_at clock.finished_at i (omega arith) b room cooled))

attempt-locked :
    (clock : Readings) (start : Start) (p : FalkorRestartPolicy)
    → ((attempt_restart clock start p).0 ≡ p)
      ⊎ ((attempt_restart clock start p).0 ≡ (attempt_restart_locked clock start p).0)
unfolding attempt_restart
attempt-locked clock start p = ground arith

pub attempt-Inv :
    (since : ℕ) (clock : Readings) (start : Start) (p : FalkorRestartPolicy)
    → InOrder since clock
    → InvOf since p
    → InvOf (end_of clock) (attempt_restart clock start p).0
unfolding attempt_restart_locked prune_window
attempt-Inv since clock start p order i = elim (attempt-locked clock start p) [
  | inl e ↦ rw e (Inv-later since (end_of clock) (omega arith) i)
  | inr e ↦
      let q = prune_window clock.pruned_at p in
      rw e (
        Locked-Inv since clock q (restart_gated clock start q).0 order.1 order.2 order.3
          (Inv-prune since clock.pruned_at order.0 i) (gated-Locked clock start q))
]
