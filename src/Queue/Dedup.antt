-- ===== src/Queue/Dedup.antt =====
-- janus_graph/core/dedup.py: the statuses that block, the UNIQUE partial index, the duplicate
-- lookups, the ledger and the guarded requeue.
pub mod Unique
pub mod Lookup
pub mod Requeue
use janus_graph.Base.{
  ℕ, Text, text_eq, List, [], ◌∷◌, ◌++◌, Bool, true, false, not, ◌&&◌, ◌||◌, Option, none, some,
  any, filter, update, order_desc, head?, take, is_none, get_or, if◌then◌else◌,
}
use mathlib.Core.Option
use janus_graph.Queue.Schema.{
  Status, queued, processing, done, failed, aborted, skipped_duplicate, Gate, enforce, Row, Db,
  Event, EventMode, Action, is_enforce,
}

-- `ACTIVE_STATUSES`
abbrev pub is_active : Status → Bool
is_active queued = true
is_active processing = true
is_active _ = false

abbrev pub hash_is : Text → Option Text → Bool
hash_is h none = false
hash_is h (some k) = text_eq k h

abbrev pub gate_enforces : Option Gate → Bool
gate_enforces none = false
gate_enforces (some g) = is_enforce g

-- The predicate of `UNIQUE_INDEX_DDL`.
unfoldable pub in_scope : Row → Bool
in_scope r = not (is_none r.canonical_hash) && gate_enforces r.dedup_gate && is_active r.status

-- Two rows that the index cannot hold together.
unfoldable pub clash : Row → Row → Bool
clash r s = in_scope r && in_scope s && hash_is (get_or r.canonical_hash []) s.canonical_hash

-- The index holds: no two rows of the table clash.
unfoldable pub distinct : List Row → Bool
distinct [] = true
distinct (r ∷ rows) = not (any (clash r) rows) && distinct rows

-- `_DUP_MATCH_SQL` without its test of the status.
unfoldable pub holds_hash : Text → Row → Bool
holds_hash h r =
    hash_is h r.canonical_hash || (is_none r.canonical_hash && hash_is h r.payload_hash)

-- `ORDER BY created_at DESC LIMIT 1`
abbrev pub newest_id : List Row → Option Text
newest_id rows = Option.map (λ r. r.id) (head? (order_desc (λ r. r.created_at) rows))

unfoldable pub find_active_duplicate : Db → Text → Option Text
find_active_duplicate db [] = none
find_active_duplicate db (c ∷ h) =
    newest_id (filter (λ r. holds_hash (c ∷ h) r && is_active r.status) db.episodes)

unfoldable pub find_any_duplicate : Db → Text → Option Text
find_any_duplicate db [] = none
find_any_duplicate db (c ∷ h) = newest_id (filter (holds_hash (c ∷ h)) db.episodes)

unfoldable pub record_dedup_event : Event → Db → Db
record_dedup_event e db = record db { dedup_events = db.dedup_events ++ e ∷ [] }

-- `UPDATE episodes SET ... WHERE p`; `none` is `sqlite3.IntegrityError`.
unfoldable pub update_guarded : (Row → Bool) → (Row → Row) → Db → Option Db
update_guarded p set db =
    let rows = update p set db.episodes in
    if db.unique_index && not (distinct rows) then none else some (record db { episodes = rows })

-- `WHERE id = ?`
abbrev pub has_id : Text → Row → Bool
has_id id r = text_eq r.id id

abbrev pub requeued_row : ℕ → (Row → Row) → Row → Row
requeued_row now extra r = extra (record r { status = queued; enqueued_at = now; updated_at = now })

-- One savepoint for each id: a conflict leaves that row alone and the loop goes on. Outside a
-- transaction each RELEASE commits: `others id` is what other processes do before the UPDATE of the
-- row with that id.
unfoldable pub requeue_guarded :
    (others : Text → Db → Db) → ℕ → (Row → Row) → List Text → Db → Db × List Text
unfolding update_guarded
requeue_guarded others now extra [] db = (db, [])
requeue_guarded others now extra (id ∷ ids) db =
    let start = others id db in
    let next = update_guarded (has_id id) (requeued_row now extra) start in
    let (after, requeued) = requeue_guarded others now extra ids (get_or next start) in
    (after, if is_none next then requeued else id ∷ requeued)
