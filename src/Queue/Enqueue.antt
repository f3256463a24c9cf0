-- ===== src/Queue/Enqueue.antt =====
-- `EpisodeQueue.enqueue` of janus_graph/pipeline/queue.py with `_insert_sync` and
-- `_record_dedup_event_sync`. Other processes may write between the duplicate check and the
-- INSERT: `others` is what they do to the database there.
use janus_graph.Base.{
  ℕ, Text, codes, List, [], ◌∷◌, ◌++◌, Bool, true, false, ◌&&◌, ◌||◌, Option, none, some, any, take,
  ◌+◌, if◌then◌else◌,
}
use janus_graph.Hash.{canonical_payload_hash}
use janus_graph.Queue.Schema.{
  queued, Gate, off, observe, enforce, Payload, Json, dict, Row, gate, Action, detected, rejected,
  Event, Db, Queue,
}
use janus_graph.Queue.Dedup.{
  clash, has_id, find_active_duplicate, find_any_duplicate, record_dedup_event,
}
pub mod Outcomes
pub mod Racing

-- The arguments of one call. `episode_id` and `name` may be absent.
pub record Request : Type 0 where
  pub content : Text
  pub group_id : Text
  pub name : Option Text
  pub source_description : Text
  pub episode_id : Option Text

-- What the call reads from outside: two clock readings and a fresh uuid.
pub record Ambient : Type 0 where
  pub now : ℕ
  pub event_now : ℕ
  pub uuid : Text

pub data Error : Type 0 where
  duplicate_episode : Option Text → Option Text → Error
  integrity_error : Error

pub data Outcome (A : Type 0) : Type 0 where
  returned : A → Outcome A
  raised : Error → Outcome A

-- Python's `value or default`: an empty text is false.
abbrev pub text_or : Option Text → Text → Text
text_or (some (c ∷ s)) d = c ∷ s
text_or _ d = d

abbrev pub claim_tag : Text → Text
claim_tag pid = codes "mcp:" ++ pid

abbrev pub episode_id_of : Ambient → Request → Text
episode_id_of env req = text_or req.episode_id env.uuid

abbrev pub payload_of : Ambient → Request → Payload
payload_of env req = record {
  content = some req.content;
  content_is_no_text = false;
  group_id = some req.group_id;
  name = some (text_or req.name (codes "ep_" ++ take 8 (episode_id_of env req)));
  source_description = some req.source_description;
}

-- The columns that both INSERT statements give, and the defaults of the others.
unfoldable pub new_row :
    Text → Json → ℕ → (payload_hash claimed_by : Option Text) → Text → Gate → Row
new_row id payload_json now payload_hash claimed_by canonical_hash dedup_gate = record {
  id = id;
  status = queued;
  payload_json = payload_json;
  enqueued_at = now;
  started_at = none;
  finished_at = none;
  attempt_count = 0;
  consecutive_failures = 0;
  last_error = none;
  checkpoint = none;
  created_at = now;
  updated_at = now;
  last_replay_at = none;
  payload_hash = payload_hash;
  claimed_by = claimed_by;
  canonical_hash = some canonical_hash;
  dedup_gate = some dedup_gate;
}

-- The INSERT violates the primary key or the UNIQUE partial index.
unfoldable pub insert_fails : Row → Db → Bool
insert_fails r db = any (has_id r.id) db.episodes || (db.unique_index && any (clash r) db.episodes)

pub data Inserted : Type 0 where
  inserted : Db → Inserted
  race : Option Text → Inserted
  integrity : Inserted

abbrev pub append_row : Row → Db → Db
append_row r db = record db { episodes = db.episodes ++ r ∷ [] }

-- Who holds the hash, after the INSERT was refused.
pub holder : Text → Db → Option Text
holder h db = elim (find_active_duplicate db h) [
  | none ↦ find_any_duplicate db h
  | some id ↦ some id
]

unfoldable pub insert_sync :
    Text → Json → ℕ → Option Text → Gate → Text → (pid : Text) → Db → Inserted
unfolding new_row insert_fails holder
insert_sync id payload_json now none dedup_gate canonical_hash pid db =
    let r = new_row id payload_json now none none canonical_hash dedup_gate in
    if insert_fails r db then integrity else inserted (append_row r db)
insert_sync id payload_json now (some h) dedup_gate canonical_hash pid db =
    let r = new_row id payload_json now (some h) (some (claim_tag pid)) canonical_hash dedup_gate in
    if insert_fails r db then race (holder h db) else inserted (append_row r db)

unfoldable pub note : Ambient → Gate → Action → Text → Option Text → Text → Queue → Queue
note env mode action h existing id q = record q {
  dedup_hits = q.dedup_hits + 1;
  db =
      record_dedup_event
        (record {
          detected_at = env.event_now;
          mode = gate mode;
          action = action;
          payload_hash = some h;
          existing_episode_id = existing;
          duplicate_episode_id = some id;
          writer = claim_tag q.pid;
        })
        q.db;
}

module _ (digest : Text → Text) (env : Ambient) (req : Request) where
  abbrev pub hash_of : Text
  hash_of = canonical_payload_hash digest req.content req.group_id req.source_description

  -- The branch of mode `off`.
  unfoldable pub enqueue_off : Queue → Queue × Outcome Text
  enqueue_off q =
      elim (insert_sync (episode_id_of env req) (dict (payload_of env req)) env.now none off hash_of
        q.pid q.db) [
          | inserted db ↦ (record q { db = db }, returned (episode_id_of env req))
          | _ ↦ (q, raised integrity_error)
        ]

  -- `except DuplicateRaceError`
  unfoldable pub lost_race : Gate → Option Text → Queue → Queue × Outcome Text
  lost_race enforce existing q = (
    note env enforce rejected hash_of existing (episode_id_of env req) q,
    raised (duplicate_episode existing (some hash_of)),
  )
  lost_race mode existing q = (
    note env mode detected hash_of existing (episode_id_of env req) q,
    returned (episode_id_of env req),
  )

  -- The last step of mode `observe`: a duplicate that the check found is recorded.
  unfoldable pub note_duplicate : Gate → Option Text → Queue → Queue
  note_duplicate mode none q = q
  note_duplicate mode (some id) q =
      note env mode detected hash_of (some id) (episode_id_of env req) q

  -- The INSERT of the hashed path and what follows it.
  unfoldable pub enqueue_insert : Gate → Option Text → Queue → Queue × Outcome Text
  unfolding lost_race note_duplicate
  enqueue_insert mode duplicate_of q =
      elim (insert_sync (episode_id_of env req) (dict (payload_of env req)) env.now (some hash_of)
        mode hash_of q.pid q.db) [
          | inserted db ↦ (
            note_duplicate mode duplicate_of (record q { db = db }),
            returned (episode_id_of env req),
          )
          | race existing ↦ lost_race mode existing q
          | integrity ↦ (q, raised integrity_error)
        ]

  -- The pre-check of the hashed path, its rejection, and the INSERT after the gap.
  unfoldable pub enqueue_hashed : (others : Db → Db) → Gate → Queue → Queue × Outcome Text
  unfolding enqueue_insert
  enqueue_hashed others mode q =
      let q' = record q { db = others q.db } in
      elim (find_active_duplicate q.db hash_of) [
        | none ↦ enqueue_insert mode none q'
        | some id ↦ elim mode [
          | enforce ↦ (
            note env enforce rejected hash_of (some id) (episode_id_of env req) q,
            raised (duplicate_episode (some id) (some hash_of)),
          )
          | other ↦ enqueue_insert other (some id) q'
        ]
      ]

  unfoldable pub enqueue : (others : Db → Db) → Gate → Queue → Queue × Outcome Text
  unfolding enqueue_off enqueue_hashed
  enqueue others off q = enqueue_off q
  enqueue others mode q = enqueue_hashed others mode q
