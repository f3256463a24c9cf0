-- ===== src/Queue/Claim.antt =====
-- `EpisodeQueue.claim_next_batch` of janus_graph/pipeline/queue.py. The SELECT runs outside the
-- transaction that the UPDATE opens, so other processes may write in between: `others`.
use janus_graph.Base.{
  false, ℕ, Text, codes, text_eq, List, [], ◌∷◌, map, Bool, Option, none, some, any, filter, take,
  order_asc, if◌then◌else◌,
}
use janus_graph.Base.Int.{ℤ, pos, is_positive}
use Prim.Native.Nat.{zero, suc}
use janus_graph.Queue.Schema.{
  processing, Payload, Json, malformed, not_dict, dict, Stamp, at, Row, Db, EpisodeRecord,
  is_queued,
}
use janus_graph.Queue.Dedup.{update_guarded}
pub mod Fifo
pub mod Exclusive

-- `limit if (limit is not None and limit > 0) else 20`
pub limit_val : Option ℤ → ℕ
limit_val (some (pos (suc n))) = suc n
limit_val _ = 20

-- The SELECT.
unfoldable pub next_queued : ℕ → Db → List Row
next_queued n db =
    take n (order_asc (λ r. r.enqueued_at) (filter (λ r. is_queued r.status) db.episodes))

-- `WHERE id IN (...)`
unfoldable pub id_among : List Row → Row → Bool
id_among rows r = any (λ s. text_eq s.id r.id) rows

abbrev pub claimed_row : ℕ → Row → Row
claimed_row now r = record r { status = processing; started_at = some (at now); updated_at = now }

-- `json.loads`, and the payload that stands in for a text that is no JSON.
abbrev pub load_payload : Json → Json
load_payload malformed = dict (record {
  content = some [];
  content_is_no_text = false;
  group_id = none;
  name = none;
  source_description = none;
})
load_payload j = j

unfoldable pub claimed_record : ℕ → Row → EpisodeRecord
claimed_record now r = record {
  id = r.id;
  payload = load_payload r.payload_json;
  status = processing;
  enqueued_at = r.enqueued_at;
  started_at = some (at now);
  finished_at = r.finished_at;
  attempt_count = r.attempt_count;
  consecutive_failures = r.consecutive_failures;
  last_error = r.last_error;
  checkpoint = r.checkpoint;
  created_at = none;
  updated_at = none;
}

-- `none` is an IntegrityError out of the UPDATE.
unfoldable pub claim_rows : ℕ → List Row → Db → Option (Db × List EpisodeRecord)
unfolding id_among claimed_record
claim_rows now [] db = some (db, [])
claim_rows now (r ∷ rows) db = elim (update_guarded (id_among (r ∷ rows)) (claimed_row now) db) [
  | none ↦ none
  | some db' ↦ some (db', map (claimed_record now) (r ∷ rows))
]

-- The state after the claim; an IntegrityError leaves it as it was.
abbrev pub claim_state : ℕ → List Row → Db → Db
claim_state now rows db = elim (claim_rows now rows db) [ none ↦ db | some result ↦ result.0 ]

unfoldable pub claim_next_batch :
    (others : Db → Db) → ℕ → Option ℤ → Db → Option (Db × List EpisodeRecord)
unfolding limit_val next_queued claim_rows
claim_next_batch others now limit db = claim_rows now (next_queued (limit_val limit) db) (others db)
