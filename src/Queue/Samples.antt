-- ===== src/Queue/Samples.antt =====
-- A small queue database, for the tests of the queue (janus_graph/pipeline/queue.py).
use janus_graph.Base.{false, Text, codes, text_eq, [], ◌∷◌, true, none, some, refl, any}
use janus_graph.Queue.Schema.{
  queued, done, failed, enforce, Payload, dict, Row, DeadLetter, Db, Queue,
}
use janus_graph.Queue.Dedup.{in_scope, clash, distinct}
use janus_graph.Queue.Enqueue.{Request, Ambient}
use janus_graph.Queue.Valid.{IsValid}

abbrev pub digest : Text → Text
digest text = text

abbrev pub payload : Payload
payload = record {
  content = some (codes "hello");
  content_is_no_text = false;
  group_id = some (codes "g");
  name = some (codes "n");
  source_description = some (codes "s");
}

abbrev pub waiting : Row
waiting = record {
  id = codes "a";
  status = queued;
  payload_json = dict payload;
  enqueued_at = 2;
  started_at = none;
  finished_at = none;
  attempt_count = 0;
  consecutive_failures = 0;
  last_error = none;
  checkpoint = none;
  created_at = 2;
  updated_at = 2;
  last_replay_at = none;
  payload_hash = none;
  claimed_by = none;
  canonical_hash = some (codes "hello|g|s");
  dedup_gate = some enforce;
}

abbrev pub broken : Row
broken = record waiting {
  id = codes "b";
  status = failed;
  enqueued_at = 1;
  attempt_count = 1;
  last_error = some (codes "timeout");
  canonical_hash = some (codes "other");
}

abbrev pub finished : Row
finished = record waiting {
  id = codes "c";
  status = done;
  enqueued_at = 0;
  canonical_hash = some (codes "done|g|s");
}

abbrev pub dead : DeadLetter
dead = record {
  episode_id = codes "c";
  payload_json = dict payload;
  last_error = codes "Error code: 404";
  attempt_count = 2;
  failed_at = 3;
  recovered_at = none;
  recovered_attempts = none;
}

abbrev pub db : Db
db = record {
  episodes = waiting ∷ broken ∷ finished ∷ [];
  dead_letter = dead ∷ [];
  dedup_events = [];
  unique_index = true;
}

abbrev pub queue : Queue
queue = record { db = db; dedup_hits = 0; pid = codes "1" }

abbrev pub env : Ambient
env = record { now = 10; event_now = 11; uuid = codes "u" }

abbrev pub request : Request
request = record {
  content = codes "new";
  group_id = codes "g";
  name = none;
  source_description = codes "s";
  episode_id = none;
}

pub db-IsValid : IsValid db
unfolding text_eq distinct clash in_scope any
db-IsValid = record {
  keys = ((refl, (refl, tt)), ((refl, tt), (tt, tt)));
  dead_keys = (tt, tt);
  index = λ on. refl;
}
