-- ===== src/Queue/Adapter.antt =====
-- janus_graph/daemon/episode_queue_adapter.py: the daemon's writer of the same tables. Other
-- processes may write between its duplicate check and its INSERT: `others`.
use janus_graph.Base.{
  false, Text, codes, List, [], ◌∷◌, ◌++◌, Bool, true, Option, none, some, take, count, is_none,
  not, ◌&&◌, ℕ, if◌then◌else◌,
}
use janus_graph.Queue.Schema.{
  Gate, off, observe, enforce, gate, Action, detected, rejected, Payload, dict, Row, Db,
}
use janus_graph.Queue.Dedup.{is_active, find_active_duplicate, record_dedup_event}
use janus_graph.Queue.Enqueue.{
  Request, Ambient, text_or, hash_of, new_row, insert_fails, append_row,
}
pub mod Guarded

-- `DaemonLockSettings.mode`
pub data LockMode : Type 0 where
  mcp_only daemon_only dual_with_lock : LockMode

-- How a call ends: an `EnqueueResult`, or one of the exceptions.
pub data Guarding : Type 0 where
  enqueued : (episode_id claimed_by : Text) → Guarding
  lock_mode_error integrity_error : Guarding
  duplicate_error : Text → Guarding

abbrev pub legacy_hash : Gate → Text → Option Text
legacy_hash off h = none
legacy_hash mode h = some h

-- A refused INSERT: an id that is found and not empty.
abbrev pub refusal : Option Text → Guarding
refusal (some (c ∷ id)) = duplicate_error (c ∷ id)
refusal _ = integrity_error

-- `digest` is that of the content address, `instance_id` the mark of the daemon.
module _ (digest : Text → Text) (env : Ambient) (req : Request) (instance_id pid : Text) where
  unfoldable pub daemon_row : Gate → Row
  unfolding new_row
  daemon_row mode =
      new_row env.uuid
        (dict (record {
          content = some req.content;
          content_is_no_text = false;
          group_id = some req.group_id;
          name = some (text_or req.name (codes "ep_" ++ take 8 env.uuid));
          source_description = some req.source_description;
        }))
        env.now (legacy_hash mode (hash_of digest env req)) (some instance_id)
        (hash_of digest env req) mode

  unfoldable pub insert_with_hash : Gate → Db → Db × Guarding
  unfolding daemon_row insert_fails
  insert_with_hash mode db =
      if insert_fails (daemon_row mode) db
      then (db, refusal (find_active_duplicate db (hash_of digest env req)))
      else (append_row (daemon_row mode) db, enqueued env.uuid instance_id)

  pub note_daemon : Gate → Action → Text → Db → Db
  unfolding record_dedup_event
  note_daemon mode action existing db =
      record_dedup_event
        (record {
          detected_at = env.event_now;
          mode = gate mode;
          action = action;
          payload_hash = some (hash_of digest env req);
          existing_episode_id = some existing;
          duplicate_episode_id = none;
          writer = codes "daemon:" ++ pid;
        })
        db

  -- The modes with a check, after its answer.
  unfoldable pub guard : (others : Db → Db) → Gate → Option Text → Db → Db × Guarding
  unfolding insert_with_hash note_daemon
  guard others mode none db = insert_with_hash mode (others db)
  guard others enforce (some id) db = (note_daemon enforce rejected id db, duplicate_error id)
  guard others mode (some id) db = insert_with_hash mode (others (note_daemon mode detected id db))

  unfoldable pub enqueue_guarded : (others : Db → Db) → LockMode → Gate → Db → Db × Guarding
  unfolding guard
  enqueue_guarded others mcp_only mode db = (db, lock_mode_error)
  enqueue_guarded others lock off db = insert_with_hash off db
  enqueue_guarded others lock mode db =
      guard others mode (find_active_duplicate db (hash_of digest env req)) db

-- `stats`, of which an error of the database is left out.
unfoldable pub claimed_active : Db → ℕ
claimed_active db = count (λ r. not (is_none r.claimed_by) && is_active r.status) db.episodes
