-- ===== src/Queue/Marks.antt =====
-- The methods of `EpisodeQueue` that settle one episode (janus_graph/pipeline/queue.py):
-- `mark_done`, `mark_failed`, `mark_aborted`, `update_checkpoint`, `mark_skipped_duplicate`.
-- None of them moves a row into the UNIQUE index, so their UPDATEs are not refused.
use janus_graph.Base.{
  false, ℕ, Text, codes, text_eq, List, [], ◌∷◌, ◌++◌, Bool, not, ◌&&◌, ◌||◌, Option, none, some,
  ◌+◌, find, filter, update, is_none, get_or, if◌then◌else◌,
}
use janus_graph.Queue.Schema.{
  done, failed, aborted, skipped_duplicate, Json, dict, Row, DeadLetter, EventMode, backstop,
  backstop_skipped, Db,
}
use janus_graph.Queue.Dedup.{has_id, record_dedup_event}
pub mod Ledger

abbrev pub update_episode : Text → (Row → Row) → Db → Db
update_episode id set db = record db { episodes = update (has_id id) set db.episodes }

abbrev pub has_episode_id : Text → DeadLetter → Bool
has_episode_id id d = text_eq d.episode_id id

-- `WHERE episode_id = ? AND recovered_at IS NULL`
abbrev pub is_open_for : Text → DeadLetter → Bool
is_open_for id d = text_eq d.episode_id id && is_none d.recovered_at

abbrev pub recovered : ℕ → ℕ → DeadLetter → DeadLetter
recovered now attempts d = record d { recovered_at = some now; recovered_attempts = some attempts }

-- The lookup of the open row and, if there is one, the UPDATE that closes it.
pub close_open : ℕ → Text → List DeadLetter → List DeadLetter
close_open now id dead = elim (find (is_open_for id) dead) [
  | none ↦ dead
  | some d ↦ update (is_open_for id) (recovered now d.attempt_count) dead
]

abbrev pub done_row : ℕ → Row → Row
done_row now r = record r {
  status = done;
  finished_at = some now;
  updated_at = now;
  consecutive_failures = 0;
}

unfoldable pub mark_done : ℕ → Text → Db → Db
unfolding close_open
mark_done now id db = record (update_episode id (done_row now) db) {
  dead_letter = close_open now id db.dead_letter;
}

abbrev pub failed_row : ℕ → Text → Row → Row
failed_row now error r = record r {
  status = failed;
  attempt_count = r.attempt_count + 1;
  consecutive_failures = r.consecutive_failures + 1;
  last_error = some error;
  updated_at = now;
}

unfoldable pub mark_failed : ℕ → Text → Text → Db → Db
mark_failed now id error db = update_episode id (failed_row now error) db

-- `INSERT OR REPLACE INTO dead_letter`: the old row goes, the new one stands last.
abbrev pub put_dead : DeadLetter → List DeadLetter → List DeadLetter
put_dead d dead = filter (λ e. not (text_eq e.episode_id d.episode_id)) dead ++ d ∷ []

abbrev pub dead_letter_row : Text → Json → Text → ℕ → ℕ → DeadLetter
dead_letter_row id payload error attempts now = record {
  episode_id = id;
  payload_json = payload;
  last_error = error;
  attempt_count = attempts;
  failed_at = now;
  recovered_at = none;
  recovered_attempts = none;
}

-- The text `{}`, for an id that no row has.
abbrev pub empty_payload : Json
empty_payload = dict (record {
  content = none;
  content_is_no_text = false;
  group_id = none;
  name = none;
  source_description = none;
})

abbrev pub aborted_row : ℕ → Text → ℕ → Row → Row
aborted_row now error attempts r = record r {
  status = aborted;
  attempt_count = attempts;
  last_error = some error;
  updated_at = now;
}

-- The two writes of `mark_aborted`, given the payload and the attempts of the current row.
unfoldable pub abort_with : ℕ → Text → Text → Json → ℕ → Db → Db
abort_with now id error payload attempts db =
    record (update_episode id (aborted_row now error attempts) db) {
      dead_letter = put_dead (dead_letter_row id payload error attempts now) db.dead_letter;
    }

unfoldable pub mark_aborted : ℕ → Text → Text → Db → Db
unfolding abort_with
mark_aborted now id error db = elim (find (has_id id) db.episodes) [
  | none ↦ abort_with now id error empty_payload 1 db
  | some r ↦ abort_with now id error r.payload_json (r.attempt_count + 1) db
]

unfoldable pub update_checkpoint : ℕ → Text → Text → Db → Db
update_checkpoint now id checkpoint db =
    update_episode id (λ r. record r { checkpoint = some checkpoint; updated_at = now }) db

-- `existing_episode_id or "unknown"`, and the truth of an optional text.
abbrev pub or_unknown : Option Text → Text
or_unknown (some (c ∷ s)) = c ∷ s
or_unknown _ = codes "unknown"

abbrev pub is_truthy : Option Text → Bool
is_truthy (some (c ∷ s)) = Bool.true
is_truthy _ = Bool.false

abbrev pub skipped_row : ℕ → Option Text → Row → Row
skipped_row now existing r = record r {
  status = skipped_duplicate;
  finished_at = some now;
  updated_at = now;
  last_error = some (codes "skipped: payload already ingested as " ++ or_unknown existing);
  consecutive_failures = 0;
}

unfoldable pub mark_skipped_duplicate :
    (now event_now : ℕ) (pid id : Text) (existing payload_hash : Option Text) → Db → Db
mark_skipped_duplicate now event_now pid id existing payload_hash db =
    let marked = update_episode id (skipped_row now existing) db in
    if is_truthy existing || is_truthy payload_hash
    then record_dedup_event
        (record {
          detected_at = event_now;
          mode = backstop;
          action = backstop_skipped;
          payload_hash = payload_hash;
          existing_episode_id = existing;
          duplicate_episode_id = some id;
          writer = codes "worker:" ++ pid;
        })
        marked
    else marked
