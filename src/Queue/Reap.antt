-- ===== src/Queue/Reap.antt =====
-- The two reapers of `EpisodeQueue` (janus_graph/pipeline/queue.py): `reap_stuck_processing` and
-- `reap_failed_or_aborted`.
use janus_graph.Base.{
  ℕ, zero, suc, Text, codes, text_eq, List, [], ◌∷◌, map, Bool, true, false, not, ◌&&◌, ◌||◌,
  Option, none, some, ◌+◌, ◌*◌, any, filter, take, length, order_asc, is_none, get_or, ltb, leb,
  if◌then◌else◌,
}
use janus_graph.Base.Int.{ℤ, pos, negsuc}
use janus_graph.Queue.Schema.{
  queued, processing, failed, skipped_duplicate, Stamp, at, garbled, Row, DeadLetter, Db,
  is_processing, is_failed, is_failure,
}
use janus_graph.Queue.Dedup.{has_id, update_guarded, requeue_guarded}
use janus_graph.Queue.Policy.{RetryPolicy, default_policy, permits}
use janus_graph.Queue.Marks.{update_episode, is_open_for, abort_with}
pub mod Selection

-- Microseconds in a second.
abbrev pub second : ℕ
second = 1_000_000

-- A processing row counts as stuck from `timeout_sec` on; `clock` is read once for each row.
is_stuck : (clock : Row → ℕ) → ℕ → Row → Bool
is_stuck clock timeout_sec r = elim r.started_at [
  | none ↦ false
  | some stamp ↦ elim stamp [ at t ↦ leb (t + timeout_sec * second) (clock r) | garbled ↦ true ]
]

abbrev pub timeout_error : Text
timeout_error = codes "Processing timeout exceeded"

abbrev pub held_error : Text
held_error = codes "reaped: canonical hash already held by an active row"

abbrev pub retried_row : ℕ → ℕ → Row → Row
retried_row now attempts r = record r {
  status = queued;
  attempt_count = attempts;
  consecutive_failures = 0;
  enqueued_at = now;
  updated_at = now;
}

abbrev pub parked_row : ℕ → Row → Row
parked_row now r = record r {
  status = skipped_duplicate;
  updated_at = now;
  last_error = some held_error;
}

-- What other processes do where a loop over rows holds no lock: before the statements for the row
-- with an id, and after the RELEASE of its savepoint, which commits.
pub record Gaps : Type 0 where
  pub before : Text → Db → Db
  pub released : Text → Db → Db

-- No other writer, or a transaction that is open.
abbrev pub alone : Gaps
alone = record { before = λ _ d. d; released = λ _ d. d }

-- The body of the loop over the stuck rows, and the gaps of the rows that follow: the first UPDATE
-- outside a savepoint opens the transaction that the method commits at its end.
unfoldable pub reap_row : Gaps → ℕ → ℕ → Row → Db → Db × Gaps
reap_row g now max_attempts r db =
    let attempts = r.attempt_count + 1 in
    let start = g.before r.id db in
    if leb max_attempts attempts
    then (abort_with now r.id timeout_error r.payload_json attempts start, alone)
    else elim (update_guarded (has_id r.id) (retried_row now attempts) start) [
      | none ↦ (update_episode r.id (parked_row now) (g.released r.id start), alone)
      | some db' ↦ (db', g)
    ]

unfoldable pub reap_rows : Gaps → ℕ → ℕ → List Row → Db → Db
unfolding reap_row
reap_rows g now max_attempts [] db = db
reap_rows g now max_attempts (r ∷ rows) db =
    let (db', rest) = reap_row g now max_attempts r db in reap_rows rest now max_attempts rows db'

pub stuck_rows : (clock : Row → ℕ) → ℕ → Db → List Row
unfolding is_stuck
stuck_rows clock timeout_sec db =
    filter (is_stuck clock timeout_sec) (filter (λ r. is_processing r.status) db.episodes)

-- Every stuck row is counted, on each branch of the loop's body.
unfoldable pub reap_stuck_processing :
    Gaps → (now : ℕ) (clock : Row → ℕ) (timeout_sec max_attempts : ℕ) → Db → Db × ℕ
unfolding reap_rows stuck_rows
reap_stuck_processing g now clock timeout_sec max_attempts db =
    let stuck = stuck_rows clock timeout_sec db in
    (reap_rows g now max_attempts stuck db, length stuck)

-- A failed row with an open dead letter belongs to the batch replay.
is_owned_by_replay : Db → Row → Bool
is_owned_by_replay db r = is_failed r.status && any (is_open_for r.id) db.dead_letter

-- The WHERE clause of `reap_failed_or_aborted`.
pub is_reapable : RetryPolicy → Db → Row → Bool
unfolding is_owned_by_replay
is_reapable policy db r =
    is_failure r.status
    && permits policy r.last_error
    && (not policy.respect_attempt_ceiling || ltb r.attempt_count policy.max_attempts)
    && not (is_owned_by_replay db r)

pub reap_selection : RetryPolicy → ℕ → Db → List Row
unfolding is_reapable
reap_selection policy n db =
    take n (order_asc (λ r. r.updated_at) (filter (is_reapable policy db) db.episodes))

abbrev pub reset_streak : Row → Row
reset_streak r = record r { consecutive_failures = 0 }

abbrev pub reap_limit_of : RetryPolicy → Option ℤ → ℤ
reap_limit_of policy none = policy.reap_limit
reap_limit_of policy (some n) = n

unfoldable pub reap_up_to : (others : Text → Db → Db) → ℕ → RetryPolicy → ℤ → Db → Db × ℕ
unfolding reap_selection
reap_up_to others now policy (pos (suc n)) db =
    let ids = map (λ r. r.id) (reap_selection policy (suc n) db) in
    let (after, requeued) = requeue_guarded others now reset_streak ids db in
    (after, length requeued)
reap_up_to others now policy _ db = (db, 0)

-- The UPDATE tests the id only: a row that `others` changed since the SELECT is requeued as well.
unfoldable pub reap_failed_or_aborted :
    (others : Text → Db → Db) → ℕ → Option ℤ → Option RetryPolicy → Db → Db × ℕ
unfolding reap_up_to
reap_failed_or_aborted others now limit policy db =
    let eff_policy = get_or policy default_policy in
    reap_up_to others now eff_policy (reap_limit_of eff_policy limit) db
