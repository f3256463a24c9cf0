-- ===== src/Queue/Valid/Openings.antt =====
-- The opening of the queue (janus_graph/pipeline/queue.py, `_init_db_sync`) keeps the database valid.
use janus_graph.Base.{
  Text, List, [], ◌∷◌, ◌≡◌, refl, subst, Bool-cases, some, Option-cases, get_or, inl, inr, arith,
}
use janus_graph.Queue.Schema.{Db}
use janus_graph.Queue.Dedup.{has_id, update_guarded}
use janus_graph.Queue.Opening.{
  set_hash, write_hashes, missing_hashes, backfill_canonical_hash, ensure_unique_index, init_db,
}
use janus_graph.Queue.Valid.Tables.{IsValid}
use janus_graph.Queue.Valid.Updates.{update_guarded-IsValid}

pub ensure_unique_index-IsValid : (db : Db) → IsValid db → IsValid (ensure_unique_index db)
unfolding ensure_unique_index
ensure_unique_index-IsValid db v = record {
  keys = v.keys;
  dead_keys = v.dead_keys;
  index = λ on. elim (Bool-cases db.unique_index) [ inl e ↦ v.index e | inr e ↦ ground arith ];
}

module _ (digest : Text → Text) where
  write_hashes-IsValid :
      (updates : List (Text × Text)) (db after : Db)
      → write_hashes digest updates db ≡ some after
      → IsValid db
      → IsValid after
  unfolding write_hashes
  write_hashes-IsValid [] db after e v =
      let same : db ≡ after = ground arith in subst IsValid same v
  write_hashes-IsValid ((h, id) ∷ updates) db after e v =
      elim (Option-cases (update_guarded (has_id id) (set_hash digest h) db)) [
        | inl refused ↦ absurd (ground arith)
        | inr (next, f) ↦
            write_hashes-IsValid updates next after (ground arith)
              (update_guarded-IsValid (has_id id) (set_hash digest h) db (λ r. refl) f v)
      ]

  pub backfill-IsValid :
      (updates : List (Text × Text)) (db : Db)
      → IsValid db
      → IsValid (get_or (write_hashes digest updates db) db)
  backfill-IsValid updates db v = elim (Option-cases (write_hashes digest updates db)) [
    | inl e ↦ rw e v
    | inr (after, e) ↦ rw e (write_hashes-IsValid updates db after e v)
  ]

  pub init_db-IsValid :
      (db after : Db) → init_db digest db ≡ some after → IsValid db → IsValid after
  unfolding init_db backfill_canonical_hash
  init_db-IsValid db after e v =
      elim (Option-cases (write_hashes digest (missing_hashes digest db.episodes) db)) [
        | inl f ↦ absurd (ground arith)
        | inr (filled, f) ↦
            let same : ensure_unique_index filled ≡ after = ground arith in
            subst IsValid same
              (ensure_unique_index-IsValid filled (write_hashes-IsValid _ db filled f v))
      ]
