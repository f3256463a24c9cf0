-- ===== src/Queue/Valid/Operations.antt =====
-- The marks and the claim of `EpisodeQueue` (janus_graph/pipeline/queue.py) keep the database valid.
use janus_graph.Base.{
  ℕ, Text, List, [], ◌∷◌, refl, Option, Option-cases, Bool-cases, inl, inr, arith, find, ◌+◌, ◌||◌,
}
use janus_graph.Queue.Schema.{Json, Row, Event, Db}
use janus_graph.Queue.Dedup.{has_id, in_scope, update_guarded, record_dedup_event}
use janus_graph.Queue.Marks
use janus_graph.Queue.Marks.{
  update_episode, has_episode_id, is_open_for, recovered, close_open, put_dead, dead_letter_row,
  empty_payload, done_row, failed_row, aborted_row, skipped_row, abort_with,
}
use janus_graph.Queue.Claim.{claim_state, claimed_row, claim_rows, id_among}
use janus_graph.Queue.Valid.Tables.{IsValid, Keys-update, put_dead-Keys}
use janus_graph.Queue.Valid.Updates.{update_episode-IsValid, update_guarded-IsValid}

pub mark_done-IsValid :
    (now : ℕ) (id : Text) (db : Db) → IsValid db → IsValid (Marks.mark_done now id db)
unfolding Marks.mark_done in_scope
mark_done-IsValid now id db v =
    let rest = update_episode-IsValid id (done_row now) db (λ r. ground arith) (λ r. refl) v in
    record {
      keys = rest.keys;
      dead_keys = elim (Option-cases (find (is_open_for id) db.dead_letter)) [
        | inl e ↦ rw (e, close_open) v.dead_keys
        | inr (d, e) ↦
            rw (e, close_open)
              (Keys-update (λ x. x.episode_id) (is_open_for id) (recovered now d.attempt_count)
                (λ x. refl) db.dead_letter v.dead_keys)
      ];
      index = rest.index;
    }

pub mark_failed-IsValid :
    (now : ℕ) (id error : Text) (db : Db) → IsValid db → IsValid (Marks.mark_failed now id error db)
unfolding Marks.mark_failed in_scope
mark_failed-IsValid now id error db v =
    update_episode-IsValid id (failed_row now error) db (λ r. ground arith) (λ r. refl) v

pub abort_with-IsValid :
    (now : ℕ) (id error : Text) (payload : Json) (attempts : ℕ) (db : Db)
    → IsValid db
    → IsValid (abort_with now id error payload attempts db)
unfolding abort_with in_scope
abort_with-IsValid now id error payload attempts db v =
    let rest =
      update_episode-IsValid id (aborted_row now error attempts) db (λ r. ground arith) (λ r. refl)
        v in
    record {
      keys = rest.keys;
      dead_keys =
          put_dead-Keys (dead_letter_row id payload error attempts now) db.dead_letter v.dead_keys;
      index = rest.index;
    }

pub mark_aborted-IsValid :
    (now : ℕ) (id error : Text) (db : Db)
    → IsValid db
    → IsValid (Marks.mark_aborted now id error db)
unfolding Marks.mark_aborted
mark_aborted-IsValid now id error db v = elim (Option-cases (find (has_id id) db.episodes)) [
  | inl e ↦ rw (e, Marks.mark_aborted) (abort_with-IsValid now id error empty_payload 1 db v)
  | inr (r, e) ↦
      rw (e, Marks.mark_aborted)
        (abort_with-IsValid now id error r.payload_json (r.attempt_count + 1) db v)
]

pub update_checkpoint-IsValid :
    (now : ℕ) (id checkpoint : Text) (db : Db)
    → IsValid db
    → IsValid (Marks.update_checkpoint now id checkpoint db)
unfolding Marks.update_checkpoint in_scope
update_checkpoint-IsValid now id checkpoint db v =
    update_episode-IsValid id _ db (λ r. ground arith) (λ r. refl) v

record_dedup_event-IsValid : (e : Event) (db : Db) → IsValid db → IsValid (record_dedup_event e db)
unfolding record_dedup_event
record_dedup_event-IsValid e db v = record {
  keys = v.keys;
  dead_keys = v.dead_keys;
  index = v.index;
}

pub mark_skipped_duplicate-IsValid :
    (now event_now : ℕ) (pid id : Text) (existing h : Option Text) (db : Db)
    → IsValid db
    → IsValid (Marks.mark_skipped_duplicate now event_now pid id existing h db)
unfolding Marks.mark_skipped_duplicate in_scope
mark_skipped_duplicate-IsValid now event_now pid id existing h db v =
    let marked =
      update_episode-IsValid id (skipped_row now existing) db (λ r. ground arith) (λ r. refl) v in
    elim (Bool-cases (Marks.is_truthy existing || Marks.is_truthy h)) [
      | inl e ↦ rw e (record_dedup_event-IsValid _ _ marked)
      | inr e ↦ rw e marked
    ]

pub claim_state-IsValid :
    (now : ℕ) (rows : List Row) (db : Db) → IsValid db → IsValid (claim_state now rows db)
unfolding claim_rows
claim_state-IsValid now [] db v = v
claim_state-IsValid now (r ∷ rows) db v =
    elim (Option-cases (update_guarded (id_among (r ∷ rows)) (claimed_row now) db)) [
      | inl e ↦ rw (e, claim_state, claim_rows) v
      | inr (after, e) ↦
          rw (e, claim_state, claim_rows)
            (update_guarded-IsValid (id_among (r ∷ rows)) (claimed_row now) db (λ s. refl) e v)
    ]
