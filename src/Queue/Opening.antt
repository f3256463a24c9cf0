-- ===== src/Queue/Opening.antt =====
-- What opening the database does to the episodes (janus_graph/pipeline/queue.py, `_init_db_sync`):
-- the backfill of the canonical hashes and the creation of the UNIQUE partial index.
use janus_graph.Base.{
  Text, List, [], ◌∷◌, Bool, true, false, Option, none, some, if◌then◌else◌, ◌||◌,
}
use janus_graph.Hash.{canonical_payload_hash}
use janus_graph.Queue.Schema.{Json, malformed, not_dict, dict, Payload, Row, Db}
use janus_graph.Queue.Dedup.{distinct, has_id, update_guarded}
pub mod Backfill
pub mod Established

module _ (digest : Text → Text) where
  -- The hash of a payload whose three parts are there.
  pub recomputed : Json → Option Text
  recomputed (dict p) = elim p.content [
    | none ↦ none
    | some content ↦ elim p.group_id [
      | none ↦ none
      | some group ↦ elim p.source_description [
        | none ↦ none
        | some source ↦ some (canonical_payload_hash digest content group source)
      ]
    ]
  ]
  recomputed _ = none

  -- The parameters of the UPDATEs: a hash and an id for each row without a canonical hash.
  pub missing_hashes : List Row → List (Text × Text)
  unfolding recomputed
  missing_hashes [] = []
  missing_hashes (r ∷ rows) = elim r.canonical_hash [
    | some h ↦ missing_hashes rows
    | none ↦ elim (recomputed r.payload_json) [
      | none ↦ missing_hashes rows
      | some h ↦ (h, r.id) ∷ missing_hashes rows
    ]
  ]

  abbrev pub set_hash : Text → Row → Row
  set_hash h r = record r { canonical_hash = some h }

  -- `executemany`; `none` is an IntegrityError, which the method does not catch.
  unfoldable pub write_hashes : List (Text × Text) → Db → Option Db
  write_hashes [] db = some db
  write_hashes ((h, id) ∷ updates) db = elim (update_guarded (has_id id) (set_hash h) db) [
    | none ↦ none
    | some db' ↦ write_hashes updates db'
  ]

  unfoldable pub backfill_canonical_hash : Db → Option Db
  unfolding missing_hashes write_hashes
  backfill_canonical_hash db = write_hashes (missing_hashes db.episodes) db

-- `CREATE UNIQUE INDEX IF NOT EXISTS`; a refusal is only logged.
unfoldable pub ensure_unique_index : Db → Db
ensure_unique_index db = record db { unique_index = db.unique_index || distinct db.episodes }

unfoldable pub init_db : (Text → Text) → Db → Option Db
unfolding backfill_canonical_hash ensure_unique_index
init_db digest db = elim (backfill_canonical_hash digest db) [
  | none ↦ none
  | some db' ↦ some (ensure_unique_index db')
]
