-- ===== src/Queue/Valid/Recoveries.antt =====
-- The reapers and the replays of `EpisodeQueue` (janus_graph/pipeline/queue.py) keep the database
-- valid.
use janus_graph.Base.{
  ℕ, zero, suc, Text, List, [], ◌∷◌, map, ◌≡◌, refl, Option, some, Option-cases, Bool-cases, inl,
  inr, arith, find, leb, get_or, ◌+◌,
}
use janus_graph.Base.Int.{ℤ, pos, negsuc}
use janus_graph.Queue.Schema.{Row, DeadLetter, Db}
use janus_graph.Queue.Dedup.{has_id, in_scope, update_guarded, requeue_guarded}
use janus_graph.Queue.Policy.{RetryPolicy, default_policy, permits}
use janus_graph.Queue.Marks.{has_episode_id, recovered}
use janus_graph.Queue.Reap.{
  Gaps, alone, parked_row, retried_row, timeout_error, reap_row, reap_rows, stuck_rows, reap_up_to,
  reap_stuck_processing, reset_streak, reap_selection,
}
use janus_graph.Queue.Replay.{
  replay_dlq_episode, close_dead, fresh_attempt, replay_row, replayed_row, is_undone, replay_one,
  replay_rows,
}
use janus_graph.Queue.Valid.Tables.{IsValid, Keys-update}
use janus_graph.Queue.Valid.Operations.{abort_with-IsValid}
use janus_graph.Queue.Valid.Updates.{
  update_episode-IsValid, update_guarded-IsValid, requeue_guarded-IsValid,
}

abbrev pub Keeps : (Text → Db → Db) → Type 0
Keeps others = (id : Text) (d : Db) → IsValid d → IsValid (others id d)

-- What the other processes do in the gaps keeps the database valid.
abbrev pub KeepValid : Gaps → Type 0
KeepValid g = Keeps g.before × Keeps g.released

alone-KeepValid : KeepValid alone
alone-KeepValid = (λ id d v. v, λ id d v. v)

reap_row-IsValid :
    (g : Gaps) (now max_attempts : ℕ) (r : Row) (db : Db)
    → KeepValid g
    → IsValid db
    → IsValid (reap_row g now max_attempts r db).0 × KeepValid (reap_row g now max_attempts r db).1
unfolding reap_row in_scope
reap_row-IsValid g now max_attempts r db k v =
    let start = g.before r.id db in
    let started : IsValid start = k.0 r.id db v in
    let attempts = r.attempt_count + 1 in
    elim (Bool-cases (leb max_attempts attempts)) [
      | inl e ↦ rw e (
        abort_with-IsValid now r.id timeout_error r.payload_json attempts start started,
        alone-KeepValid,
      )
      | inr e ↦
          elim (Option-cases (update_guarded (has_id r.id) (retried_row now attempts) start)) [
            | inl f ↦
                rw (e, f)
                  (
                    update_episode-IsValid r.id (parked_row now) (g.released r.id start)
                        (λ s. ground arith) (λ s. refl) (k.1 r.id start started),
                    alone-KeepValid,
                  )
            | inr (after, f) ↦
                rw (e, f)
                  (
                    update_guarded-IsValid (has_id r.id) (retried_row now attempts) start
                        (λ s. refl) f started,
                    k,
                  )
          ]
    ]

reap_rows-IsValid :
    (g : Gaps) (now max_attempts : ℕ) (rows : List Row) (db : Db)
    → KeepValid g
    → IsValid db
    → IsValid (reap_rows g now max_attempts rows db)
unfolding reap_rows
reap_rows-IsValid g now max_attempts [] db k v = v
reap_rows-IsValid g now max_attempts (r ∷ rows) db k v =
    let step = reap_row-IsValid g now max_attempts r db k v in
    let next = reap_row g now max_attempts r db in
    reap_rows-IsValid next.1 now max_attempts rows next.0 step.1 step.0

pub reap_stuck-IsValid :
    (g : Gaps) (now : ℕ) (clock : Row → ℕ) (timeout_sec max_attempts : ℕ) (db : Db)
    → KeepValid g
    → IsValid db
    → IsValid (reap_stuck_processing g now clock timeout_sec max_attempts db).0
unfolding reap_stuck_processing
reap_stuck-IsValid g now clock timeout_sec max_attempts db =
    reap_rows-IsValid g now max_attempts (stuck_rows clock timeout_sec db) db

pub reap_up_to-IsValid :
    (others : Text → Db → Db) (now : ℕ) (policy : RetryPolicy) (limit : ℤ) (db : Db)
    → Keeps others
    → IsValid db
    → IsValid (reap_up_to others now policy limit db).0
unfolding reap_up_to
reap_up_to-IsValid others now policy (pos zero) db k v = v
reap_up_to-IsValid others now policy (pos (suc n)) db k v =
    requeue_guarded-IsValid others now reset_streak
      (map (λ r. r.id) (reap_selection policy (suc n) db)) db k (λ r. refl) v
reap_up_to-IsValid others now policy (negsuc n) db k v = v

pub close_dead-IsValid :
    (now attempts : ℕ) (id : Text) (db : Db) → IsValid db → IsValid (close_dead now attempts id db)
close_dead-IsValid now attempts id db v = record {
  keys = v.keys;
  dead_keys =
      Keys-update (λ d. d.episode_id) (has_episode_id id) (recovered now attempts) (λ d. refl)
        db.dead_letter v.dead_keys;
  index = v.index;
}

replay_row-IsValid :
    (g : Gaps) (now : ℕ) (d : DeadLetter) (db : Db)
    → KeepValid g
    → IsValid db
    → IsValid (replay_row g now d db).0
unfolding replay_row
replay_row-IsValid g now d db k v =
    let row = d.episode_id ∷ [] in
    go (requeue_guarded g.before now (fresh_attempt now) row db).1 refl
      (requeue_guarded-IsValid g.before now (fresh_attempt now) row db k.0 (λ r. refl) v)
  where
    go :
        (ids : List Text)
        → (requeue_guarded g.before now (fresh_attempt now) (d.episode_id ∷ []) db).1 ≡ ids
        → IsValid (requeue_guarded g.before now (fresh_attempt now) (d.episode_id ∷ []) db).0
        → IsValid (replay_row g now d db).0
    go [] e requeued = rw (e, replay_row) requeued
    go (id ∷ ids) e requeued =
        rw (e, replay_row)
          (close_dead-IsValid now d.attempt_count d.episode_id _ (k.1 d.episode_id _ requeued))

pub replay_episode-IsValid :
    (g : Gaps) (now : ℕ) (id : Text) (policy : Option RetryPolicy) (db : Db)
    → KeepValid g
    → IsValid db
    → IsValid (replay_dlq_episode g now id policy db).0
unfolding replay_dlq_episode
replay_episode-IsValid g now id policy db k v =
    elim (Option-cases (find (has_episode_id id) db.dead_letter)) [
      | inl e ↦ rw (e, replay_dlq_episode) v
      | inr (d, e) ↦
          elim (Bool-cases (permits (get_or policy default_policy) (some d.last_error))) [
            | inl f ↦ rw (e, f, replay_dlq_episode) (replay_row-IsValid g now d db k v)
            | inr f ↦ rw (e, f, replay_dlq_episode) v
          ]
    ]

replay_one-IsValid :
    (g : Gaps) (now : ℕ) (d : DeadLetter) (db : Db)
    → KeepValid g
    → IsValid db
    → IsValid (replay_one g now d db).0 × KeepValid (replay_one g now d db).2
unfolding replay_one
replay_one-IsValid g now d db k v =
    let start = g.before d.episode_id db in
    let started : IsValid start = k.0 d.episode_id db v in
    elim (Option-cases (update_guarded (is_undone d.episode_id) (replayed_row now) start)) [
      | inl e ↦ rw (e, replay_one) (started, k)
      | inr (after, e) ↦
          rw (e, replay_one)
            (
              close_dead-IsValid now d.attempt_count d.episode_id (g.released d.episode_id after) (
                  k.1 d.episode_id after (
                    update_guarded-IsValid (is_undone d.episode_id) (replayed_row now) start
                      (λ r. refl) e started)),
              alone-KeepValid,
            )
    ]

pub replay_rows-IsValid :
    (g : Gaps) (now : ℕ) (rows : List DeadLetter) (db : Db)
    → KeepValid g
    → IsValid db
    → IsValid (replay_rows g now rows db).0
unfolding replay_rows
replay_rows-IsValid g now [] db k v = v
replay_rows-IsValid g now (d ∷ rows) db k v =
    let step = replay_one-IsValid g now d db k v in
    let next = replay_one g now d db in replay_rows-IsValid next.2 now rows next.0 step.1 step.0
