-- ===== src/Daemon/Restart/Gate.antt =====
-- The answer of `can_restart` (janus_graph/daemon/falkordb_restart_policy.py) against what
-- `attempt_restart` does.
use janus_graph.Base.{
  ℕ, List, [], ◌∷◌, ◌++◌, Bool, true, false, not, ◌&&◌, length, leb, ◌≡◌, sym, ap, ◌∙◌, arith,
  if◌then◌else◌,
}
use janus_graph.Daemon.Restart.{
  FalkorRestartPolicy, Readings, started, prune_window, snapshot, is_cooling, is_refused,
  can_restart, enter_fatal_degraded, issue, restart_gated, attempt_restart, attempt_restart_locked,
}

starts-fatal :
    (pruned now : ℕ) (p : FalkorRestartPolicy)
    → (enter_fatal_degraded pruned now p).starts ≡ p.starts
unfolding enter_fatal_degraded snapshot prune_window
starts-fatal pruned now p = ground arith

-- Whether a start is recorded.
abbrev pub starts_if : Bool → Readings → FalkorRestartPolicy → List ℕ
starts_if b clock p = if b then p.starts ++ clock.finished_at ∷ [] else p.starts

-- Both gates are open.
abbrev is_free : ℕ → FalkorRestartPolicy → Bool
is_free checked p =
    not (leb p.settings.max_per_hour (length p.restart_times))
    && not (is_cooling checked p.settings p.last_restart_at)

module _ (clock : Readings) (up : Bool) where
  starts-gated :
      (p : FalkorRestartPolicy)
      → p.has_manager ≡ true
      → (restart_gated clock (started up) p).0.starts
        ≡ starts_if (is_free clock.checked_at p) clock p
  unfolding restart_gated issue
  starts-gated p bound = ground (arith, starts-fatal clock.snap_pruned_at clock.snap_at p)

  can_restart-free :
      (p : FalkorRestartPolicy)
      → is_refused p.state ≡ false
      → (can_restart clock.pruned_at clock.checked_at p).1
        ≡ is_free clock.checked_at (prune_window clock.pruned_at p)
  unfolding can_restart prune_window
  can_restart-free p free = ground arith

  attempt-locked :
      (p : FalkorRestartPolicy)
      → is_refused p.state ≡ false
      → p.disabled_by_operator ≡ false
      → p.restart_in_progress ≡ false
      → (attempt_restart clock (started up) p).0 ≡ (attempt_restart_locked clock (started up) p).0
  unfolding attempt_restart
  attempt-locked p free enabled idle = ground arith

  -- For a policy that is not degraded or disabled, has a manager and has no restart in progress: an
  -- attempt whose start returns issues exactly one restart if `can_restart`, asked at the same
  -- readings, says yes, and none if it says no.
  pub attempt_restart-can_restart :
      (p : FalkorRestartPolicy)
      → is_refused p.state ≡ false
      → p.disabled_by_operator ≡ false
      → p.restart_in_progress ≡ false
      → p.has_manager ≡ true
      → (attempt_restart clock (started up) p).0.starts
        ≡ starts_if (can_restart clock.pruned_at clock.checked_at p).1 clock p
  unfolding attempt_restart_locked prune_window
  attempt_restart-can_restart p free enabled idle bound =
      ap (λ (q : FalkorRestartPolicy). q.starts) (attempt-locked p free enabled idle)
      ∙ starts-gated (prune_window clock.pruned_at p) bound
      ∙ ap (λ b. starts_if b clock p) (sym (can_restart-free p free))
