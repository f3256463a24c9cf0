-- ===== src/Queue/History/Safety.antt =====
-- What every run of the queue database keeps (janus_graph/pipeline/queue.py, core/dedup.py).
use janus_graph.Base.{Text, List, [], ◌∷◌, refl, arith}
use janus_graph.Queue.Schema.{observe, enforce, Db}
use janus_graph.Queue.Dedup.{has_id, in_scope, record_dedup_event}
use janus_graph.Queue.Reap.{retried_row, parked_row, reset_streak}
use janus_graph.Queue.Replay.{is_undone, replayed_row, fresh_attempt}
use janus_graph.Queue.Valid.{IsValid}
use janus_graph.Queue.Valid.Operations
use janus_graph.Queue.Valid.Recoveries
use janus_graph.Queue.Valid.Openings
use janus_graph.Queue.Valid.Updates.{
  update_episode-IsValid, get_or-update_guarded-IsValid, requeue_guarded-IsValid,
}
use janus_graph.Queue.Adapter.Guarded.{insert_with_hash-IsValid}
use janus_graph.Queue.Valid.Inserts.{enqueue_off-IsValid, enqueue_insert-IsValid}
use janus_graph.Queue.History.{
  Op, backfill, create_index, insert_off, insert_observe, insert_enforce, insert_daemon, ledger,
  claim, done, failed, checkpoint, aborted, skipped, retry_stuck, park_stuck, reap, replay_single,
  replay, close_letter, seen_by, apply, run,
}

module _ (digest : Text → Text) where
  apply-IsValid : (op : Op) (db : Db) → IsValid db → IsValid (apply digest op db)
  unfolding apply record_dedup_event in_scope
  apply-IsValid (backfill updates) db v = Openings.backfill-IsValid digest updates db v
  apply-IsValid create_index db v = Openings.ensure_unique_index-IsValid db v
  apply-IsValid (insert_off pid env req) db v =
      enqueue_off-IsValid digest env req (seen_by pid db) v
  apply-IsValid (insert_observe pid env req dup) db v =
      enqueue_insert-IsValid digest env req observe dup (seen_by pid db) (λ e. cc) v
  apply-IsValid (insert_enforce pid env req dup) db v =
      enqueue_insert-IsValid digest env req enforce dup (seen_by pid db) (λ e. cc) v
  apply-IsValid (insert_daemon instance_id pid env req mode) db v =
      insert_with_hash-IsValid digest env req instance_id pid mode db v
  apply-IsValid (ledger e) db v = record { keys = v.keys; dead_keys = v.dead_keys; index = v.index }
  apply-IsValid (claim now rows) db v = Operations.claim_state-IsValid now rows db v
  apply-IsValid (done now id) db v = Operations.mark_done-IsValid now id db v
  apply-IsValid (failed now id error) db v = Operations.mark_failed-IsValid now id error db v
  apply-IsValid (checkpoint now id text) db v =
      Operations.update_checkpoint-IsValid now id text db v
  apply-IsValid (aborted now id error payload attempts) db v =
      Operations.abort_with-IsValid now id error payload attempts db v
  apply-IsValid (skipped now event_now pid id existing h) db v =
      Operations.mark_skipped_duplicate-IsValid now event_now pid id existing h db v
  apply-IsValid (retry_stuck now attempts id) db v =
      get_or-update_guarded-IsValid (has_id id) (retried_row now attempts) db (λ r. refl) v
  apply-IsValid (park_stuck now id) db v =
      update_episode-IsValid id (parked_row now) db (λ r. ground arith) (λ r. refl) v
  apply-IsValid (reap now id) db v =
      requeue_guarded-IsValid (λ _ d. d) now reset_streak (id ∷ []) db (λ i d w. w) (λ r. refl) v
  apply-IsValid (replay_single now id) db v =
      requeue_guarded-IsValid (λ _ d. d) now (fresh_attempt now) (id ∷ []) db (λ i d w. w)
        (λ r. refl) v
  apply-IsValid (replay now id) db v =
      get_or-update_guarded-IsValid (is_undone id) (replayed_row now) db (λ r. refl) v
  apply-IsValid (close_letter now attempts id) db v =
      Recoveries.close_dead-IsValid now attempts id db v

  -- Let any number of processes run these statements, of the queue or of the daemon's adapter, in
  -- any order, each with what it read at any time before: the backfill and the creation of the
  -- index at opening, the INSERTs, the UPDATE of a claim, the marks, and one by one the UPDATEs of
  -- the reapers and of the replays. On a valid database: no two episodes share an id, no two dead
  -- letters share an episode, and, where the UNIQUE index exists, no two active rows of gate
  -- `enforce` share a canonical hash.
  pub run-IsValid : (ops : List Op) (db : Db) → IsValid db → IsValid (run digest ops db)
  unfolding run
  run-IsValid [] db v = v
  run-IsValid (op ∷ ops) db v = run-IsValid ops (apply digest op db) (apply-IsValid op db v)
