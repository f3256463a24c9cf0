-- ===== src/Queue/Opening/Established.antt =====
-- What the opening of the database (janus_graph/pipeline/queue.py, `_init_db_sync`) establishes.
use janus_graph.Base.{
  Text, List, [], ◌∷◌, map, true, ◌≡◌, refl, ap, subst, arith, some, update, All, All-map,
}
use janus_graph.Queue.Schema.{Row, Db}
use janus_graph.Queue.Dedup.{in_scope, distinct}
use janus_graph.Queue.Dedup.Unique.{Shrinks, distinct-update_selected}
use janus_graph.Queue.Valid.{Keys, IsValid}
use janus_graph.Queue.Opening.{backfill_canonical_hash, ensure_unique_index, init_db}
use janus_graph.Queue.Opening.Backfill.{Apart, filled, IsHashed, write_filled}

module _ (digest : Text → Text) where
  filled-id : (r : Row) → ((filled digest) r).id ≡ r.id
  unfolding filled
  filled-id r = ground arith

  filled-Shrinks : (r : Row) → (IsHashed digest) r → Shrinks ((filled digest) r) r
  unfolding filled in_scope
  filled-Shrinks r hashed scope = ground arith

  map-Keys : (rows : List Row) → Keys (λ r. r.id) rows → Keys (λ r. r.id) (map (filled digest) rows)
  map-Keys [] k = tt
  map-Keys (r ∷ rows) k = (rw (filled-id r) (map-Apart r.id rows k.0), map-Keys rows k.1)
    where
      map-Apart :
          (id : Text) (rows : List Row) → Apart id rows → Apart id (map (filled digest) rows)
      map-Apart id [] a = tt
      map-Apart id (y ∷ rows) a = (rw (filled-id y) a.0, map-Apart id rows a.1)

  update_all :
      (rows : List Row) → update (λ r. true) (filled digest) rows ≡ map (filled digest) rows
  unfolding update
  update_all [] = refl
  update_all (r ∷ rows) = ap (◌∷◌ ((filled digest) r)) (update_all rows)

  -- On a valid database in which every row of gate `enforce` has a canonical hash, opening succeeds:
  -- each row without a canonical hash has that of its own payload, if the payload is complete, and
  -- nothing else has changed; the result is valid, and the UNIQUE index exists exactly if no two
  -- active rows of gate `enforce` share a hash.
  pub init_db-filled :
      (db : Db)
      → IsValid db
      → All (IsHashed digest) db.episodes
      → (init_db digest db
          ≡ some (ensure_unique_index (record db { episodes = map (filled digest) db.episodes })))
        × IsValid (ensure_unique_index (record db { episodes = map (filled digest) db.episodes }))
        × ((ensure_unique_index
              (record db { episodes = map (filled digest) db.episodes })).unique_index
            ≡ distinct (map (filled digest) db.episodes))
  unfolding init_db backfill_canonical_hash ensure_unique_index
  init_db-filled db v hashed =
      let clean : db.unique_index ≡ true → distinct (map (filled digest) db.episodes) ≡ true = λ on.
        subst (λ rs. distinct rs ≡ true) (update_all db.episodes)
          (distinct-update_selected (λ r. true) (filled digest) db.episodes
            (All-map db.episodes (λ r h m. filled-Shrinks r h) hashed) (v.index on)) in
      (
        rw (write_filled digest [] db.episodes db v.keys v.index hashed, init_db),
        record {
          keys = map-Keys db.episodes v.keys;
          dead_keys = v.dead_keys;
          index = λ on. ground (arith, clean);
        },
        ground (arith, clean),
      )
