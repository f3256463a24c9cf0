-- ===== src/Queue/Valid/Inserts.antt =====
-- `EpisodeQueue.enqueue` (janus_graph/pipeline/queue.py) keeps the database valid, whatever other
-- processes do to it between the duplicate check and the INSERT.
use janus_graph.Base.{
  Text, true, false, ◌≡◌, refl, Option, none, some, Option-cases, Bool-cases, inl, inr, ◌≢◌,
}
use janus_graph.Queue.Schema.{Gate, off, observe, enforce, Action, rejected, dict, Row, Db, Queue}
use janus_graph.Queue.Dedup.{find_active_duplicate, record_dedup_event}
use janus_graph.Queue.Enqueue.{
  Request, Ambient, episode_id_of, payload_of, hash_of, claim_tag, new_row, insert_fails,
  insert_sync, append_row, note, holder, returned, raised, duplicate_episode, Outcome,
  note_duplicate, enqueue_off, lost_race, enqueue_insert, enqueue_hashed, enqueue,
}
use janus_graph.Queue.Valid.Tables.{IsValid}
use janus_graph.Queue.Valid.Updates.{append_row-IsValid}

module _ (digest : Text → Text) (env : Ambient) (req : Request) where
  -- The row that the call wants to store: with mode `off` there is no legacy hash.
  abbrev pub wanted_row : Gate → Text → Row
  wanted_row off pid =
      new_row (episode_id_of env req) (dict (payload_of env req)) env.now none none
        (hash_of digest env req) off
  wanted_row mode pid =
      new_row (episode_id_of env req) (dict (payload_of env req)) env.now
        (some (hash_of digest env req)) (some (claim_tag pid)) (hash_of digest env req) mode

  abbrev pub stored : Gate → Queue → Queue
  stored mode q = record q { db = append_row (wanted_row mode q.pid) q.db }

  note-IsValid :
      (mode : Gate) (action : Action) (h : Text) (existing : Option Text) (id : Text) (q : Queue)
      → IsValid q.db
      → IsValid (note env mode action h existing id q).db
  unfolding note record_dedup_event
  note-IsValid mode action h existing id q v = record {
    keys = v.keys;
    dead_keys = v.dead_keys;
    index = v.index;
  }

  lost_race-IsValid :
      (mode : Gate) (existing : Option Text) (q : Queue)
      → IsValid q.db
      → IsValid (lost_race digest env req mode existing q).0.db
  unfolding lost_race
  lost_race-IsValid enforce existing q v = note-IsValid _ _ _ _ _ q v
  lost_race-IsValid off existing q v = note-IsValid _ _ _ _ _ q v
  lost_race-IsValid observe existing q v = note-IsValid _ _ _ _ _ q v

  note_duplicate-IsValid :
      (mode : Gate) (dup : Option Text) (q : Queue)
      → IsValid q.db
      → IsValid (note_duplicate digest env req mode dup q).db
  unfolding note_duplicate
  note_duplicate-IsValid mode none q v = v
  note_duplicate-IsValid mode (some id) q v = note-IsValid _ _ _ _ _ q v

  pub enqueue_off-IsValid : (q : Queue) → IsValid q.db → IsValid (enqueue_off digest env req q).0.db
  unfolding enqueue_off insert_sync
  enqueue_off-IsValid q v = elim (Bool-cases (insert_fails (wanted_row off q.pid) q.db)) [
    | inl e ↦ rw (e, enqueue_off, insert_sync) v
    | inr e ↦ rw (e, enqueue_off, insert_sync) (append_row-IsValid (wanted_row off q.pid) q.db e v)
  ]

  -- The refused INSERT, and the accepted one.
  pub enqueue_insert_refused :
      (mode : Gate) (dup : Option Text) (q : Queue)
      → mode ≢ off
      → insert_fails (wanted_row mode q.pid) q.db ≡ true
      → enqueue_insert digest env req mode dup q
        ≡ lost_race digest env req mode (holder (hash_of digest env req) q.db) q
  unfolding enqueue_insert insert_sync
  enqueue_insert_refused off dup q h e = absurd (h refl)
  enqueue_insert_refused observe dup q h e = rw (e, enqueue_insert, insert_sync)
  enqueue_insert_refused enforce dup q h e = rw (e, enqueue_insert, insert_sync)

  pub enqueue_insert_accepted :
      (mode : Gate) (dup : Option Text) (q : Queue)
      → mode ≢ off
      → insert_fails (wanted_row mode q.pid) q.db ≡ false
      → enqueue_insert digest env req mode dup q
        ≡ (note_duplicate digest env req mode dup (stored mode q), returned (episode_id_of env req))
  unfolding enqueue_insert insert_sync
  enqueue_insert_accepted off dup q h e = absurd (h refl)
  enqueue_insert_accepted observe dup q h e = rw (e, enqueue_insert, insert_sync)
  enqueue_insert_accepted enforce dup q h e = rw (e, enqueue_insert, insert_sync)

  pub enqueue_insert-IsValid :
      (mode : Gate) (dup : Option Text) (q : Queue)
      → mode ≢ off
      → IsValid q.db
      → IsValid (enqueue_insert digest env req mode dup q).0.db
  enqueue_insert-IsValid mode dup q h v =
      elim (Bool-cases (insert_fails (wanted_row mode q.pid) q.db)) [
        | inl e ↦
            rw (enqueue_insert_refused mode dup q h e)
              (lost_race-IsValid mode (holder (hash_of digest env req) q.db) q v)
        | inr e ↦ rw (enqueue_insert_accepted mode dup q h e) (
            note_duplicate-IsValid mode dup (stored mode q)
              (append_row-IsValid (wanted_row mode q.pid) q.db e v))
      ]

  enqueue_hashed-IsValid :
      (others : Db → Db) (mode : Gate) (q : Queue)
      → ((db : Db) → IsValid db → IsValid (others db))
      → mode ≢ off
      → IsValid q.db
      → IsValid (enqueue_hashed digest env req others mode q).0.db
  unfolding enqueue_hashed
  enqueue_hashed-IsValid others mode q keeps h v =
      let gap = keeps q.db v in
      elim (Option-cases (find_active_duplicate q.db (hash_of digest env req))) [
        | inl e ↦
            rw (e, enqueue_hashed)
              (enqueue_insert-IsValid mode none (record q { db = others q.db }) h gap)
        | inr (id, e) ↦ rw (e, enqueue_hashed) (go id mode h)
      ]
    where
      go :
          (id : Text) (m : Gate)
          → m ≢ off
          → IsValid
              (elim m as (λ _. Queue × Outcome Text) [
                | enforce ↦ (
                  note env enforce rejected
                      (hash_of digest env req)
                      (some id)
                      (episode_id_of env req)
                      q,
                  raised (duplicate_episode (some id) (some (hash_of digest env req))),
                )
                | other ↦
                    enqueue_insert digest env req other (some id) (record q { db = others q.db })
              ]).0.db
      go id off n = absurd (n refl)
      go id observe n =
          enqueue_insert-IsValid observe (some id) (record q { db = others q.db }) n (keeps q.db v)
      go id enforce n = note-IsValid _ _ _ _ _ q v

  -- Other processes may do anything that keeps the database valid.
  pub enqueue-IsValid :
      (others : Db → Db) (mode : Gate) (q : Queue)
      → ((db : Db) → IsValid db → IsValid (others db))
      → IsValid q.db
      → IsValid (enqueue digest env req others mode q).0.db
  unfolding enqueue
  enqueue-IsValid others off q keeps v = enqueue_off-IsValid q v
  enqueue-IsValid others observe q keeps v =
      enqueue_hashed-IsValid others observe q keeps (λ e. cc) v
  enqueue-IsValid others enforce q keeps v =
      enqueue_hashed-IsValid others enforce q keeps (λ e. cc) v
