-- ===== src/Queue/Schema.antt =====
-- The tables of janus_graph/pipeline/queue.py (`SCHEMA` and the migrated columns) and the records
-- that its methods pass around. A timestamp is a number of microseconds: the ISO texts that
-- `_iso_now` writes are all in UTC, and their text order is the order in time.
use janus_graph.Base.{ℕ, Text, List, Bool, Option}

-- The `status` column.
pub data Status : Type 0 where
  queued processing done failed aborted skipped_duplicate : Status

-- `DEDUP_MODES`, and the `dedup_gate` column.
pub data Gate : Type 0 where
  off observe enforce : Gate

-- What `payload.get` finds under the four keys of a payload dictionary. Null under `content`, or
-- another value that is no text, is not the same as no content: `content` is none in both.
pub record Payload : Type 0 where
  pub content : Option Text
  pub content_is_no_text : Bool
  pub group_id : Option Text
  pub name : Option Text
  pub source_description : Option Text

-- A `payload_json` column: no JSON at all, JSON that is no dictionary, or a dictionary.
pub data Json : Type 0 where
  malformed not_dict : Json
  dict : Payload → Json

-- `started_at`: an instant, or a text that `datetime.fromisoformat` refuses.
pub data Stamp : Type 0 where
  at : ℕ → Stamp
  garbled : Stamp

-- A row of `episodes`. `none` is NULL; for `started_at` the empty text too.
pub record Row : Type 0 where
  pub id : Text
  pub status : Status
  pub payload_json : Json
  pub enqueued_at : ℕ
  pub started_at : Option Stamp
  pub finished_at : Option ℕ
  pub attempt_count : ℕ
  pub consecutive_failures : ℕ
  pub last_error : Option Text
  pub checkpoint : Option Text
  pub created_at : ℕ
  pub updated_at : ℕ
  pub last_replay_at : Option ℕ
  pub payload_hash : Option Text
  pub claimed_by : Option Text
  pub canonical_hash : Option Text
  pub dedup_gate : Option Gate

-- A row of `dead_letter`.
pub record DeadLetter : Type 0 where
  pub episode_id : Text
  pub payload_json : Json
  pub last_error : Text
  pub attempt_count : ℕ
  pub failed_at : ℕ
  pub recovered_at : Option ℕ
  pub recovered_attempts : Option ℕ

-- The `mode` and `action` columns of the ledger.
pub data EventMode : Type 0 where
  gate : Gate → EventMode
  backstop : EventMode

pub data Action : Type 0 where
  detected rejected backstop_skipped : Action

-- A row of `dedup_events`.
pub record Event : Type 0 where
  pub detected_at : ℕ
  pub mode : EventMode
  pub action : Action
  pub payload_hash : Option Text
  pub existing_episode_id : Option Text
  pub duplicate_episode_id : Option Text
  pub writer : Text

-- The database. `unique_index` tells whether the UNIQUE partial index could be created.
pub record Db : Type 0 where
  pub episodes : List Row
  pub dead_letter : List DeadLetter
  pub dedup_events : List Event
  pub unique_index : Bool

-- An `EpisodeQueue` object over its database, in a process with the given id.
pub record Queue : Type 0 where
  pub db : Db
  pub dedup_hits : ℕ
  pub pid : Text

-- `EpisodeRecord`, as `claim_next_batch` and `get_record` build it.
pub record EpisodeRecord : Type 0 where
  pub id : Text
  pub payload : Json
  pub status : Status
  pub enqueued_at : ℕ
  pub started_at : Option Stamp
  pub finished_at : Option ℕ
  pub attempt_count : ℕ
  pub consecutive_failures : ℕ
  pub last_error : Option Text
  pub checkpoint : Option Text
  pub created_at : Option ℕ
  pub updated_at : Option ℕ

abbrev pub is_queued : Status → Bool
is_queued queued = Bool.true
is_queued _ = Bool.false

abbrev pub is_processing : Status → Bool
is_processing processing = Bool.true
is_processing _ = Bool.false

abbrev pub is_done : Status → Bool
is_done done = Bool.true
is_done _ = Bool.false

abbrev pub is_failed : Status → Bool
is_failed failed = Bool.true
is_failed _ = Bool.false

-- `status IN ('failed', 'aborted')`
abbrev pub is_failure : Status → Bool
is_failure failed = Bool.true
is_failure aborted = Bool.true
is_failure _ = Bool.false

abbrev pub is_enforce : Gate → Bool
is_enforce enforce = Bool.true
is_enforce _ = Bool.false
