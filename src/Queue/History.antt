-- ===== src/Queue/History.antt =====
-- Runs of the queue database of janus_graph/pipeline/queue.py, by both writers, the queue and the
-- daemon's adapter: any number of processes, whose statements interleave. Each `Op` is a piece of a
-- method that no other process can interrupt: one transaction, or one statement that commits. What
-- a method read before is an argument, so it may be as old as it likes. A duplicate check only
-- reads, so an enqueue is its INSERT; a claim is its UPDATE, for rows that were selected earlier;
-- an abort is the writes of `mark_aborted` and of the sweep over stuck rows; a reaper or a replay
-- is one UPDATE for each row, and a replay closes its dead letter in another step.
use janus_graph.Base.{ℕ, Text, List, [], ◌∷◌, Option, map, get_or}
use janus_graph.Queue.Schema.{Gate, off, observe, enforce, Json, Row, Event, Db, Queue}
use janus_graph.Queue.Dedup.{has_id, update_guarded, requeue_guarded, record_dedup_event}
use janus_graph.Queue.Enqueue.{Request, Ambient, enqueue_off, enqueue_insert}
use janus_graph.Queue.Claim.{claim_state}
use janus_graph.Queue.Marks.{
  update_episode, mark_done, mark_failed, abort_with, update_checkpoint, mark_skipped_duplicate,
}
use janus_graph.Queue.Reap.{retried_row, parked_row, reset_streak}
use janus_graph.Queue.Replay.{fresh_attempt, close_dead, is_undone, replayed_row}
use janus_graph.Queue.Opening.{write_hashes, ensure_unique_index}
use janus_graph.Queue.Adapter.{insert_with_hash}
pub mod Safety
pub mod Reached
pub mod Methods

pub data Op : Type 0 where
  backfill : List (Text × Text) → Op
  create_index : Op
  insert_off : (pid : Text) → Ambient → Request → Op
  insert_observe insert_enforce : (pid : Text) → Ambient → Request → Option Text → Op
  insert_daemon : (instance_id pid : Text) → Ambient → Request → Gate → Op
  ledger : Event → Op
  claim : ℕ → List Row → Op
  done : ℕ → Text → Op
  failed checkpoint : ℕ → Text → Text → Op
  aborted : (now : ℕ) (id error : Text) → Json → (attempts : ℕ) → Op
  skipped : (now event_now : ℕ) (pid id : Text) (existing payload_hash : Option Text) → Op
  retry_stuck : (now attempts : ℕ) → Text → Op
  park_stuck reap replay_single replay : ℕ → Text → Op
  close_letter : (now attempts : ℕ) → Text → Op

abbrev pub seen_by : Text → Db → Queue
seen_by pid db = record { db = db; dedup_hits = 0; pid = pid }

module _ (digest : Text → Text) where
  -- A transaction that ends in an IntegrityError is rolled back.
  unfoldable pub apply : Op → Db → Db
  apply (backfill updates) db = get_or (write_hashes digest updates db) db
  apply create_index db = ensure_unique_index db
  apply (insert_off pid env req) db = (enqueue_off digest env req (seen_by pid db)).0.db
  apply (insert_observe pid env req dup) db =
      (enqueue_insert digest env req observe dup (seen_by pid db)).0.db
  apply (insert_enforce pid env req dup) db =
      (enqueue_insert digest env req enforce dup (seen_by pid db)).0.db
  apply (insert_daemon instance_id pid env req mode) db =
      (insert_with_hash digest env req instance_id pid mode db).0
  apply (ledger e) db = record_dedup_event e db
  apply (claim now rows) db = claim_state now rows db
  apply (done now id) db = mark_done now id db
  apply (failed now id error) db = mark_failed now id error db
  apply (checkpoint now id text) db = update_checkpoint now id text db
  apply (aborted now id error payload attempts) db = abort_with now id error payload attempts db
  apply (skipped now event_now pid id existing h) db =
      mark_skipped_duplicate now event_now pid id existing h db
  apply (retry_stuck now attempts id) db =
      get_or (update_guarded (has_id id) (retried_row now attempts) db) db
  apply (park_stuck now id) db = update_episode id (parked_row now) db
  apply (reap now id) db = (requeue_guarded (λ _ d. d) now reset_streak (id ∷ []) db).0
  apply (replay_single now id) db =
      (requeue_guarded (λ _ d. d) now (fresh_attempt now) (id ∷ []) db).0
  apply (replay now id) db = get_or (update_guarded (is_undone id) (replayed_row now) db) db
  apply (close_letter now attempts id) db = close_dead now attempts id db

  unfoldable pub run : List Op → Db → Db
  run [] db = db
  run (op ∷ ops) db = run ops (apply op db)
