-- ===== src/Daemon/Restart.antt =====
-- janus_graph/daemon/falkordb_restart_policy.py. Readings of the monotonic clock are arguments, in
-- microseconds; what `manager.start()` does is an argument of the attempt.
use janus_graph.Base.{
  ℕ, List, [], ◌∷◌, ◌++◌, Bool, true, false, ◌&&◌, ◌||◌, not, Option, none, some, ◌+◌, ◌-◌, ◌*◌,
  length, ltb, leb, if◌then◌else◌,
}
use mathlib.Core.Option
pub mod History
pub mod Window
pub mod Attempt
pub mod Rate
pub mod Degraded
pub mod Gate

pub data RestartPolicyState : Type 0 where
  ok cooling_down budget_exhausted fatal_degraded : RestartPolicyState

-- `FalkorRestartPolicySettings`
pub record Settings : Type 0 where
  pub cooldown_sec : ℕ
  pub max_per_hour : ℕ

pub record RestartPolicySnapshot : Type 0 where
  pub state : RestartPolicyState
  restarts_in_window : ℕ
  pub max_per_hour : ℕ
  seconds_since_last_restart : Option ℕ
  pub cooldown_sec : ℕ
  pub last_restart_at : Option ℕ

-- `exhausted` collects the snapshots that `on_budget_exhausted` received, and `starts` the times at
-- which a call of `manager.start()` returned, both oldest first.
pub record FalkorRestartPolicy : Type 0 where
  pub settings : Settings
  pub has_manager : Bool
  pub has_callback : Bool
  pub restart_times : List ℕ
  pub last_restart_at : Option ℕ
  pub state : RestartPolicyState
  pub restart_in_progress : Bool
  pub disabled_by_operator : Bool
  pub exhausted : List RestartPolicySnapshot
  pub starts : List ℕ

unfoldable pub init : Settings → (has_manager has_callback : Bool) → FalkorRestartPolicy
init settings has_manager has_callback = record {
  settings = settings;
  has_manager = has_manager;
  has_callback = has_callback;
  restart_times = [];
  last_restart_at = none;
  state = ok;
  restart_in_progress = false;
  disabled_by_operator = false;
  exhausted = [];
  starts = [];
}

pub disable : FalkorRestartPolicy → FalkorRestartPolicy
disable p = record p { disabled_by_operator = true }

pub register_manager : FalkorRestartPolicy → FalkorRestartPolicy
register_manager p = record p { has_manager = true }

abbrev pub second : ℕ
second = 1_000_000

abbrev pub hour : ℕ
hour = 3_600_000_000

-- `while times and times[0] < now - 3600: times.popleft()`
pub prune : ℕ → List ℕ → List ℕ
prune now [] = []
prune now (t ∷ times) = if ltb (t + hour) now then prune now times else t ∷ times

pub prune_window : ℕ → FalkorRestartPolicy → FalkorRestartPolicy
unfolding prune
prune_window now p = record p { restart_times = prune now p.restart_times }

-- It prunes the window, and reads the clock again for the age.
unfoldable pub snapshot :
    (pruned_at now : ℕ) → FalkorRestartPolicy → FalkorRestartPolicy × RestartPolicySnapshot
unfolding prune_window
snapshot pruned_at now p =
    let q = prune_window pruned_at p in
    (
      q,
      record {
        state = q.state;
        restarts_in_window = length q.restart_times;
        max_per_hour = q.settings.max_per_hour;
        seconds_since_last_restart = Option.map (λ t. now - t) q.last_restart_at;
        cooldown_sec = q.settings.cooldown_sec;
        last_restart_at = q.last_restart_at;
      },
    )

-- `now - last < cooldown_sec`, with no last restart never.
abbrev pub is_cooling : ℕ → Settings → Option ℕ → Bool
is_cooling now settings none = false
is_cooling now settings (some t) = ltb now (t + settings.cooldown_sec * second)

abbrev pub is_refused : RestartPolicyState → Bool
is_refused fatal_degraded = true
is_refused budget_exhausted = true
is_refused _ = false

pub can_restart : (pruned_at now : ℕ) → FalkorRestartPolicy → FalkorRestartPolicy × Bool
unfolding prune_window
can_restart pruned_at now p =
    if is_refused p.state
    then (p, false)
    else let q = prune_window pruned_at p in
      if leb q.settings.max_per_hour (length q.restart_times)
      then (q, false)
      else (q, not (is_cooling now q.settings q.last_restart_at))

pub enter_fatal_degraded : (pruned_at now : ℕ) → FalkorRestartPolicy → FalkorRestartPolicy
unfolding snapshot
enter_fatal_degraded pruned_at now p = elim p.state [
  | fatal_degraded ↦ p
  | _ ↦
      let (q, snap) = snapshot pruned_at now (record p { state = fatal_degraded }) in
      if q.has_callback then record q { exhausted = q.exhausted ++ snap ∷ [] } else q
]

-- `manager.start()`: it returns a Boolean or raises.
pub data Start : Type 0 where
  started : Bool → Start
  start_raised : Start

-- The clock readings of one attempt, in order: for the pruning, for the cooldown test, after
-- `start()`, and two for a snapshot.
pub record Readings : Type 0 where
  pub pruned_at : ℕ
  pub checked_at : ℕ
  pub finished_at : ℕ
  pub snap_pruned_at : ℕ
  pub snap_at : ℕ

-- `manager.start()` and what follows it.
pub issue : Readings → Start → FalkorRestartPolicy → FalkorRestartPolicy × Bool
unfolding enter_fatal_degraded
issue clock start_raised q = (enter_fatal_degraded clock.snap_pruned_at clock.snap_at q, false)
issue clock (started up) q = (
  record q {
    restart_times = q.restart_times ++ clock.finished_at ∷ [];
    last_restart_at = some clock.finished_at;
    state = ok;
    starts = q.starts ++ clock.finished_at ∷ [];
  },
  up,
)

-- The gates, on the pruned window.
pub restart_gated : Readings → Start → FalkorRestartPolicy → FalkorRestartPolicy × Bool
unfolding issue
restart_gated clock start q =
    if is_cooling clock.checked_at q.settings q.last_restart_at
    then (record q { state = cooling_down }, false)
    else if leb q.settings.max_per_hour (length q.restart_times)
    then (enter_fatal_degraded clock.snap_pruned_at clock.snap_at q, false)
    else if not q.has_manager
    then (q, false)
    else issue clock start q

pub attempt_restart_locked : Readings → Start → FalkorRestartPolicy → FalkorRestartPolicy × Bool
unfolding prune_window restart_gated
attempt_restart_locked clock start p = restart_gated clock start (prune_window clock.pruned_at p)

-- The lock is held during the inner attempt and free again after it.
pub attempt_restart : Readings → Start → FalkorRestartPolicy → FalkorRestartPolicy × Bool
unfolding attempt_restart_locked
attempt_restart clock start p = if p.disabled_by_operator then (p, false) else elim p.state [
  | fatal_degraded ↦ (p, false)
  | _ ↦ if p.restart_in_progress then (p, false) else attempt_restart_locked clock start p
]

-- The callback on closed to open; `manager` tells whether a manager other than the sentinel came.
pub on_circuit_opened :
    Readings → Start → (manager : Bool) → FalkorRestartPolicy → FalkorRestartPolicy
unfolding attempt_restart register_manager
on_circuit_opened clock start manager p =
    (attempt_restart clock start (if manager then register_manager p else p)).0
