-- ===== src/Queue/Replay.antt =====
-- The dead-letter replays of `EpisodeQueue` (janus_graph/pipeline/queue.py):
-- `replay_dlq_episode`, `replay_dlq_batch` and `dlq_refusal_reason`.
use Prim.Native.Nat.{◌/◌}
use janus_graph.Base.{
  ℕ, zero, suc, Text, text_eq, lower, List, [], ◌∷◌, ◌++◌, Bool, true, false, not, ◌&&◌, ◌||◌,
  Option, none, some, ◌+◌, ◌==◌, any, find, filter, take, update, order_asc, is_none, get_or, leb,
  if◌then◌else◌,
}
use janus_graph.Base.Int.{ℤ, pos, negsuc}
use janus_graph.Queue.Schema.{queued, Row, DeadLetter, Db, is_done}
use janus_graph.Queue.Dedup.{has_id, update_guarded, requeue_guarded}
use janus_graph.Queue.Policy.{RetryPolicy, default_policy, mentions, permits}
use janus_graph.Queue.Marks.{has_episode_id, recovered}
use janus_graph.Queue.Reap.{second, Gaps, alone}
pub mod Selection

abbrev pub close_dead : ℕ → ℕ → Text → Db → Db
close_dead now attempts id db = record db {
  dead_letter = update (has_episode_id id) (recovered now attempts) db.dead_letter;
}

-- `extra_set` of the single replay.
abbrev pub fresh_attempt : ℕ → Row → Row
fresh_attempt now r = record r { attempt_count = 0; last_error = none; last_replay_at = some now }

-- The requeue is committed before the dead letter is closed.
unfoldable pub replay_row : Gaps → ℕ → DeadLetter → Db → Db × Bool
replay_row g now d db =
    let (after, requeued) =
      requeue_guarded g.before now (fresh_attempt now) (d.episode_id ∷ []) db in
    elim requeued [
      | [] ↦ (after, false)
      | id ∷ ids ↦
          (close_dead now d.attempt_count d.episode_id (g.released d.episode_id after), true)
    ]

-- The two SELECTs on the dead letter count as one.
unfoldable pub replay_dlq_episode : Gaps → ℕ → Text → Option RetryPolicy → Db → Db × Bool
unfolding replay_row
replay_dlq_episode g now id policy db = elim (find (has_episode_id id) db.dead_letter) [
  | none ↦ (db, false)
  | some d ↦
      if permits (get_or policy default_policy) (some d.last_error)
      then replay_row g now d db
      else (db, false)
]

-- SQLite's LIKE: `%` stands for any text, `_` for any one character.
any_suffix : (Text → Bool) → Text → Bool
any_suffix matches [] = matches []
any_suffix matches (c ∷ s) = matches (c ∷ s) || any_suffix matches s

like : Text → Text → Bool
unfolding any_suffix
like [] [] = true
like [] (c ∷ s) = false
like (p ∷ pattern_rest) s =
    if p == b'%'
    then any_suffix (like pattern_rest) s
    else elim s [ [] ↦ false | c ∷ rest ↦ (p == b'_' || p == c) && like pattern_rest rest ]

-- `LOWER(last_error) LIKE LOWER('%class%')`, joined by OR; no class, no test.
matches_class : List Text → Text → Bool
unfolding like
matches_class [] error = true
matches_class (c ∷ classes) error =
    any (λ cls. like (lower (b'%' ∷ (cls ++ b'%' ∷ []))) (lower error)) (c ∷ classes)

-- `datetime(failed_at) <= datetime(now, '-N seconds')`, which drops the fractions of seconds.
is_old_enough : ℕ → ℕ → ℕ → Bool
is_old_enough now zero failed_at = true
is_old_enough now (suc n) failed_at = leb (failed_at / second + suc n) (now / second)

module _ (now : ℕ) (classes : List Text) (min_age_sec : ℕ) (policy : RetryPolicy) where
  -- The WHERE clause.
  pub is_replayable : DeadLetter → Bool
  unfolding matches_class is_old_enough
  is_replayable d =
      is_none d.recovered_at
      && matches_class classes d.last_error
      && is_old_enough now min_age_sec d.failed_at
      && permits policy (some d.last_error)

-- `LIMIT ?`: below zero there is no limit.
abbrev pub sql_limit {ℓ} : {A : Type ℓ} → ℤ → List A → List A
sql_limit (pos n) xs = take n xs
sql_limit (negsuc n) xs = xs

abbrev pub replayed_row : ℕ → Row → Row
replayed_row now r = record r {
  status = queued;
  attempt_count = 0;
  last_error = none;
  enqueued_at = now;
  updated_at = now;
  last_replay_at = some now;
}

-- `WHERE id = ? AND status != 'done'`
abbrev pub is_undone : Text → Row → Bool
is_undone id r = text_eq r.id id && not (is_done r.status)

-- The body of the loop: the new state, whether the row counts as replayed, and the gaps of the rows
-- that follow. The requeue commits with the RELEASE of its savepoint; the UPDATE of the dead letter
-- opens the transaction that the method commits at its end.
unfoldable pub replay_one : Gaps → ℕ → DeadLetter → Db → Db × Bool × Gaps
replay_one g now d db =
    let start = g.before d.episode_id db in
    elim (update_guarded (is_undone d.episode_id) (replayed_row now) start) [
      | none ↦ (start, false, g)
      | some db' ↦ (
        close_dead now d.attempt_count d.episode_id (g.released d.episode_id db'),
        any (is_undone d.episode_id) start.episodes,
        alone,
      )
    ]

unfoldable pub replay_rows : Gaps → ℕ → List DeadLetter → Db → Db × ℕ
unfolding replay_one
replay_rows g now [] db = (db, 0)
replay_rows g now (d ∷ rows) db =
    let (db', counted, rest) = replay_one g now d db in
    let (after, n) = replay_rows rest now rows db' in (after, if counted then n + 1 else n)

pub replay_selection : ℕ → ℤ → List Text → ℕ → RetryPolicy → Db → List DeadLetter
unfolding is_replayable
replay_selection now limit classes min_age_sec policy db = sql_limit limit (
    order_asc (λ d. d.failed_at)
      (filter (is_replayable now classes min_age_sec policy) db.dead_letter))

unfoldable pub replay_dlq_batch : Gaps → ℕ → ℤ → List Text → ℕ → Option RetryPolicy → Db → Db × ℕ
unfolding replay_rows replay_selection
replay_dlq_batch g now limit classes min_age_sec policy db =
    replay_rows g now
      (replay_selection now limit classes min_age_sec (get_or policy default_policy) db) db

-- The permanent code that a refusal names. `none`: not in the queue, or no refusal.
pub refusing_code : RetryPolicy → Text → Option Text
refusing_code policy error = elim policy.allowed_error_codes [
  | [] ↦ find (λ code. mentions code error) policy.permanent_error_codes
  | code ∷ codes ↦ none
]

pub dlq_refusal_reason : Text → Option RetryPolicy → Db → Option Text
unfolding refusing_code
dlq_refusal_reason id policy db = elim (find (has_episode_id id) db.dead_letter) [
  | none ↦ none
  | some d ↦ refusing_code (get_or policy default_policy) d.last_error
]
