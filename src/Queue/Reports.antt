-- ===== src/Queue/Reports.antt =====
-- What `EpisodeQueue` reads without writing (janus_graph/pipeline/queue.py): `get_record`, the
-- counters, the dead-letter listing and the lookup of the backstop.
use janus_graph.Base.{
  ℕ, zero, suc, Text, text_eq, lower, contains, List, [], ◌∷◌, ◌++◌, map, Bool, true, false, not,
  ◌&&◌, ◌||◌, Option, none, some, ◌+◌, any, count, find, filter, take, length, order_desc, is_none,
  leb, ltb, if◌then◌else◌,
}
use janus_graph.Base.Int.{ℤ}
use mathlib.Core.Option
use janus_graph.Queue.Schema.{
  Status, queued, processing, done, failed, aborted, skipped_duplicate, Json, malformed, dict, Row,
  DeadLetter, Event, Db, Queue, EpisodeRecord, is_done, is_failure,
}
use janus_graph.Queue.Dedup.{is_active, has_id, hash_is, holds_hash, newest_id}
use janus_graph.Queue.Marks.{empty_payload, is_open_for}
use janus_graph.Queue.Policy.{mentions}
use janus_graph.Queue.Replay.{sql_limit}
pub mod Agreement

abbrev status_eq : Status → Status → Bool
status_eq queued queued = true
status_eq processing processing = true
status_eq done done = true
status_eq failed failed = true
status_eq aborted aborted = true
status_eq skipped_duplicate skipped_duplicate = true
status_eq _ _ = false

abbrev pub load_or_empty : Json → Json
load_or_empty malformed = empty_payload
load_or_empty j = j

full_record : Row → EpisodeRecord
full_record r = record {
  id = r.id;
  payload = load_or_empty r.payload_json;
  status = r.status;
  enqueued_at = r.enqueued_at;
  started_at = r.started_at;
  finished_at = r.finished_at;
  attempt_count = r.attempt_count;
  consecutive_failures = r.consecutive_failures;
  last_error = r.last_error;
  checkpoint = r.checkpoint;
  created_at = some r.created_at;
  updated_at = some r.updated_at;
}

unfoldable pub get_record : Text → Db → Option EpisodeRecord
unfolding full_record
get_record id db = Option.map full_record (find (has_id id) db.episodes)

-- The keys are the statuses that occur, and `dlq`.
pub record Stats : Type 0 where
  by_status : Status → Option ℕ
  pub dlq : ℕ

abbrev present : ℕ → Option ℕ
present zero = none
present (suc n) = some (suc n)

abbrev pub is_open : DeadLetter → Bool
is_open d = is_none d.recovered_at

pub get_stats : Db → Stats
get_stats db = record {
  by_status = λ s. present (count (λ r. status_eq r.status s) db.episodes);
  dlq = count is_open db.dead_letter;
}

unfoldable pub count_total : Db → ℕ
count_total db = length db.episodes

-- `MIN` and `MAX` of a column; NULL over no row.
abbrev pub smallest : List ℕ → Option ℕ
smallest [] = none
smallest (n ∷ ns) = elim (smallest ns) [ none ↦ some n | some m ↦ some (if leb n m then n else m) ]

abbrev pub largest : List ℕ → Option ℕ
largest [] = none
largest (n ∷ ns) = elim (largest ns) [ none ↦ some n | some m ↦ some (if leb m n then n else m) ]

-- `repeat_rate` is `repeated_turns / eligible`, and is left to the reader.
pub record Fairness : Type 0 where
  eligible : ℕ
  pub exhausted : ℕ
  repeated_turns : ℕ
  oldest_enqueued_at : Option ℕ
  newest_enqueued_at : Option ℕ

unfoldable pub reap_fairness_stats : ℕ → Db → Fairness
reap_fairness_stats max_attempts db =
    let rows = filter (λ r. is_failure r.status) db.episodes in
    record {
      eligible = length rows;
      exhausted = count (λ r. leb max_attempts r.attempt_count) rows;
      repeated_turns = count (λ r. not (is_none r.last_replay_at)) rows;
      oldest_enqueued_at = smallest (map (λ r. r.enqueued_at) rows);
      newest_enqueued_at = largest (map (λ r. r.enqueued_at) rows);
    }

-- `get_dedup_stats` without the configured mode.
pub record DedupStats : Type 0 where
  observed_hits : ℕ
  hashed_rows : ℕ
  canonical_rows : ℕ
  active_duplicates : ℕ
  backstop_skips : ℕ

abbrev pub same_payload_hash : Row → Row → Bool
same_payload_hash r s = elim r.payload_hash [ none ↦ false | some h ↦ hash_is h s.payload_hash ]

-- The groups of more than one row: each is counted at its last member.
groups_of_many : List Row → List Row → ℕ
groups_of_many seen [] = 0
groups_of_many seen (r ∷ rows) =
    (if any (same_payload_hash r) seen && not (any (same_payload_hash r) rows) then 1 else 0)
    + groups_of_many (r ∷ seen) rows

unfoldable pub get_dedup_stats : Db → DedupStats
unfolding groups_of_many
get_dedup_stats db = record {
  observed_hits = length db.dedup_events;
  hashed_rows = count (λ r. not (is_none r.payload_hash)) db.episodes;
  canonical_rows = count (λ r. not (is_none r.canonical_hash)) db.episodes;
  active_duplicates =
      groups_of_many []
        (filter (λ r. not (is_none r.payload_hash) && is_active r.status) db.episodes);
  backstop_skips = count (λ r. status_eq r.status skipped_duplicate) db.episodes;
}

unfoldable pub find_ingested_duplicate : Text → Db → Option Text
find_ingested_duplicate [] db = none
find_ingested_duplicate (c ∷ h) db =
    newest_id (filter (λ r. holds_hash (c ∷ h) r && is_done r.status) db.episodes)

-- `_dlq_class_predicate`
pub dlq_class_predicate : List Text → Text → Bool
dlq_class_predicate classes error = any (λ cls. mentions cls error) classes

abbrev pub open_filter : Option Bool → DeadLetter → Bool
open_filter none d = true
open_filter (some true) d = is_open d
open_filter (some false) d = not (is_open d)

abbrev pub class_filter : List Text → DeadLetter → Bool
class_filter [] d = true
class_filter (c ∷ classes) d = dlq_class_predicate (c ∷ classes) d.last_error

-- The character `…`.
abbrev pub ellipsis : Text
ellipsis = 8230 ∷ []

abbrev pub shorten : ℕ → DeadLetter → DeadLetter
shorten n d =
    if ltb n (length d.last_error)
    then record d { last_error = take n d.last_error ++ ellipsis }
    else d

abbrev pub shorten_all : Option ℕ → List DeadLetter → List DeadLetter
shorten_all (some (suc n)) rows = map (shorten (suc n)) rows
shorten_all _ rows = rows

unfoldable pub get_dlq_records :
    ℤ → List Text → (error_chars : Option ℕ) → (open_only : Option Bool) → Db → List DeadLetter
unfolding dlq_class_predicate
get_dlq_records limit classes error_chars open_only db = shorten_all error_chars (
    sql_limit limit (
      order_desc (λ d. d.failed_at)
        (filter (λ d. open_filter open_only d && class_filter classes d) db.dead_letter)))

-- One entry for each class, in the caller's order.
pub dlq_class_counts : List Text → Db → List (Text × ℕ)
dlq_class_counts classes db =
    map (λ cls. (cls, count (λ d. is_open d && mentions cls d.last_error) db.dead_letter)) classes

pub dlq_class_union_count : List Text → Db → ℕ
unfolding dlq_class_predicate
dlq_class_union_count [] db = 0
dlq_class_union_count (c ∷ classes) db =
    count (λ d. is_open d && dlq_class_predicate (c ∷ classes) d.last_error) db.dead_letter
