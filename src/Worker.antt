-- ===== src/Worker.antt =====
-- janus_graph/pipeline/worker.py (`EpisodeWorker`) and janus_graph/pipeline/retry.py. Graphiti is
-- foreign: `Ingest` says what creating the client and `add_episode` do with a call.
use janus_graph.Base.{
  ℕ, zero, suc, Text, codes, text_eq, contains, List, [], ◌∷◌, ◌++◌, Bool, true, false, not, ◌&&◌,
  ◌||◌, Option, none, some, ◌+◌, ◌-◌, ◌*◌, ◌^◌, any, take, is_none, is_space, leb, if◌then◌else◌,
}
use Prim.Native.Nat.{min}
use janus_graph.Hash.{canonical_payload_hash}
use janus_graph.Queue.Schema.{Payload, Json, malformed, not_dict, dict, EpisodeRecord, Db}
use janus_graph.Queue.Enqueue.{text_or}
use janus_graph.Queue.Marks.{
  mark_done, mark_failed, mark_aborted, update_checkpoint, mark_skipped_duplicate,
}
use janus_graph.Queue.Reports.{find_ingested_duplicate}
pub mod Routing
pub mod Backstop
mod Examples

-- An exception: its class, whether it is a TypeError, ValueError or KeyError, and `str(exc)`.
pub record Exception : Type 0 where
  pub class_name : Text
  pub is_fatal : Bool
  pub message : Text

abbrev pub schema_signatures : List Text
schema_signatures =
    codes "ExtractedEdges()"
    ∷ codes "ExtractedEntities()"
    ∷ codes "entity_resolutions"
    ∷ codes "duplicate_facts"
    ∷ codes "SummarizedEntities"
    ∷ codes "argument after ** must be a mapping"
    ∷ []

-- In seconds, for whole-numbered bases and factors.
unfoldable pub compute_backoff_seconds : (attempt base factor : ℕ) → ℕ
compute_backoff_seconds attempt base factor = min (base * factor ^ (attempt - 1)) 300

is_schema_error : Exception → Bool
is_schema_error e =
    text_eq e.class_name (codes "ValidationError")
    || any (λ sig. contains e.message sig) schema_signatures

unfoldable pub should_retry : EpisodeRecord → Exception → ℕ → Bool
unfolding is_schema_error
should_retry r e max_attempts =
    not (leb max_attempts (r.attempt_count + 1)) && not e.is_fatal && not (is_schema_error e)

lstrip : Text → Text
lstrip [] = []
lstrip (c ∷ s) = if is_space c then lstrip s else c ∷ s

rstrip : Text → Text
rstrip [] = []
rstrip (c ∷ s) = elim (rstrip s) [ [] ↦ if is_space c then [] else c ∷ [] | d ∷ t ↦ c ∷ d ∷ t ]

pub strip : Text → Text
unfolding lstrip rstrip
strip s = rstrip (lstrip s)

unfoldable pub describe_exception : Exception → Text
unfolding strip
describe_exception e = elim (strip e.message) [
  | [] ↦ e.class_name ++ codes ": <no message>"
  | c ∷ s ↦ e.class_name ++ codes ": " ++ c ∷ s
]

pub send_to_dlq : ℕ → EpisodeRecord → Exception → Db → Db
send_to_dlq now r e db = mark_aborted now r.id (describe_exception e) db

-- What `add_episode` is called with, and the clock at the call of `datetime.now`.
pub record Call : Type 0 where
  pub name : Text
  episode_body : Text
  pub source_description : Text
  reference_time : ℕ
  pub group_id : Text

-- Creating the client and running the call: done, an exception, or cut off by the timeout.
pub data Ingest : Type 0 where
  ingested : Ingest
  failed_with timed_out : Exception → Ingest

-- How one ingestion ends: the new state with the call that was made, if any, or an exception.
pub data Ending : Type 0 where
  handled : Option Call → Ending
  raised : Exception → Ending

abbrev pub attribute_error : Exception
attribute_error = record {
  class_name = codes "AttributeError";
  is_fatal = false;
  message = codes "'list' object has no attribute 'get'";
}

-- What `content.strip()` raises on a value that is no text.
abbrev pub strip_error : Exception
strip_error = record {
  class_name = codes "AttributeError";
  is_fatal = false;
  message = codes "'NoneType' object has no attribute 'strip'";
}

-- `payload.get(key, default)`
abbrev pub get_text : Option Text → Text → Text
get_text none d = d
get_text (some s) d = s

-- The time in the record, if it has one; else the time of the ingestion.
abbrev pub reference_time_of : ℕ → EpisodeRecord → ℕ
reference_time_of now r = elim r.created_at [ none ↦ now | some t ↦ t ]

module _ (default_group : Text) (ingest : Call → Ingest) (now : ℕ) where
  pub call_of : EpisodeRecord → Payload → Call
  call_of r p = record {
    name = text_or p.name (codes "ep_" ++ take 8 r.id);
    episode_body = get_text p.content [];
    source_description = get_text p.source_description (codes "agent_interaction");
    reference_time = reference_time_of now r;
    group_id = text_or p.group_id default_group;
  }

  -- `_execute_ingestion` on a payload that is a dictionary.
  pub ingest_payload : EpisodeRecord → Payload → Db → Db × Ending
  unfolding call_of strip
  ingest_payload r p db =
      if p.content_is_no_text
      then (db, raised strip_error)
      else elim (strip (get_text p.content [])) [
        | [] ↦ (mark_done now r.id db, handled none)
        | c ∷ s ↦
            let started = update_checkpoint now r.id (codes "ingesting") db in
            elim (ingest (call_of r p)) [
              | ingested ↦ (mark_done now r.id started, handled (some (call_of r p)))
              | failed_with e ↦ (started, raised e)
              | timed_out e ↦ (started, raised e)
            ]
      ]

  pub execute_ingestion : EpisodeRecord → Db → Db × Ending
  unfolding ingest_payload
  execute_ingestion r db = elim r.payload [
    | dict p ↦ ingest_payload r p db
    | _ ↦ (db, raised attribute_error)
  ]

  -- Both `except` branches of `process_record`.
  pub route_failure : EpisodeRecord → Exception → Db → Db
  unfolding send_to_dlq
  route_failure r e db =
      if should_retry r e 3
      then mark_failed now r.id (describe_exception e) db
      else send_to_dlq now r e db

  pub settle : EpisodeRecord → Db × Ending → Db × Bool
  unfolding route_failure
  settle r (db, handled call) = (db, true)
  settle r (db, raised e) = (route_failure r e db, false)

  -- `_backstop_skip_if_ingested` once the settings enable it: the row that was ingested already.
  pub ingested_as : (Text → Text) → EpisodeRecord → Db → Option (Text × Text)
  ingested_as digest r db = elim r.payload [
    | dict p ↦ elim p.content [
      | none ↦ none
      | some content ↦ elim p.group_id [
        | none ↦ none
        | some group ↦ elim p.source_description [
          | none ↦ none
          | some source ↦
              let h = canonical_payload_hash digest content group source in
              elim (find_ingested_duplicate h db) [
                | none ↦ none
                | some id ↦ if text_eq id r.id then none else some (id, h)
              ]
        ]
      ]
    ]
    | _ ↦ none
  ]

  pub process_record :
      (Text → Text) → (backstop_enabled : Bool) → (pid : Text) → EpisodeRecord → Db → Db × Bool
  unfolding ingested_as execute_ingestion settle
  process_record digest false pid r db = settle r (execute_ingestion r db)
  process_record digest true pid r db = elim (ingested_as digest r db) [
    | some (id, h) ↦ (mark_skipped_duplicate now now pid r.id (some id) (some h) db, true)
    | none ↦ settle r (execute_ingestion r db)
  ]
