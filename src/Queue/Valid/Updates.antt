-- ===== src/Queue/Valid/Updates.antt =====
-- Each kind of statement of janus_graph/pipeline/queue.py keeps the database valid.
use janus_graph.Base.{
  ℕ, Text, List, [], ◌∷◌, Bool, true, false, ◌≡◌, some, update, All-of_any, Option-cases, get_or,
  subst, inl, inr, arith,
}
use janus_graph.Queue.Schema.{queued, Row, Db}
use janus_graph.Queue.Dedup.{distinct, has_id, update_guarded, requeue_guarded, requeued_row}
use janus_graph.Queue.Dedup.Unique.{Shrinks, distinct-update, distinct-append}
use janus_graph.Queue.Marks.{update_episode}
use janus_graph.Queue.Enqueue.{insert_fails, append_row}
use janus_graph.Queue.Valid.Tables.{IsValid, Keys-append, Keys-update}

-- An UPDATE that brings no row into the index.
pub update_episode-IsValid :
    (id : Text) (set : Row → Row) (db : Db)
    → ((r : Row) → Shrinks (set r) r)
    → ((r : Row) → (set r).id ≡ r.id)
    → IsValid db
    → IsValid (update_episode id set db)
update_episode-IsValid id set db shrinks same v = record {
  keys = Keys-update (λ r. r.id) (has_id id) set same db.episodes v.keys;
  dead_keys = v.dead_keys;
  index = λ on. distinct-update (has_id id) set db.episodes shrinks (v.index on);
}

-- An UPDATE that the index accepts.
pub update_guarded-eq-some :
    (p : Row → Bool) (set : Row → Row) (db : Db) {after : Db}
    → update_guarded p set db ≡ some after
    → (record db { episodes = update p set db.episodes } ≡ after)
      × (db.unique_index ≡ true → distinct (update p set db.episodes) ≡ true)
unfolding update_guarded
update_guarded-eq-some p set db e = (ground arith, ground arith)

pub update_guarded_accepts :
    (p : Row → Bool) (set : Row → Row) (db : Db)
    → (db.unique_index ≡ true → distinct (update p set db.episodes) ≡ true)
    → update_guarded p set db ≡ some (record db { episodes = update p set db.episodes })
unfolding update_guarded
update_guarded_accepts p set db fits = ground arith

pub update_guarded-IsValid :
    (p : Row → Bool) (set : Row → Row) (db : Db) {after : Db}
    → ((r : Row) → (set r).id ≡ r.id)
    → update_guarded p set db ≡ some after
    → IsValid db
    → IsValid after
update_guarded-IsValid p set db same e v =
    let (shape, fits) = update_guarded-eq-some p set db e in
    subst IsValid shape (record {
      keys = Keys-update (λ r. r.id) p set same db.episodes v.keys;
      dead_keys = v.dead_keys;
      index = fits;
    })

-- The state goes on as it was where the index refuses.
pub get_or-update_guarded-IsValid :
    (p : Row → Bool) (set : Row → Row) (db : Db)
    → ((r : Row) → (set r).id ≡ r.id)
    → IsValid db
    → IsValid (get_or (update_guarded p set db) db)
get_or-update_guarded-IsValid p set db same v = elim (Option-cases (update_guarded p set db)) [
  | inl e ↦ rw e v
  | inr (after, e) ↦ rw e (update_guarded-IsValid p set db same e v)
]

pub append_row-IsValid :
    (r : Row) (db : Db) → insert_fails r db ≡ false → IsValid db → IsValid (append_row r db)
unfolding insert_fails
append_row-IsValid r db free v = record {
  keys =
      Keys-append (λ r. r.id) db.episodes r v.keys
        (All-of_any (has_id r.id) db.episodes (ground arith));
  dead_keys = v.dead_keys;
  index = λ on. distinct-append db.episodes r (v.index on) (ground arith);
}

pub requeue_guarded-IsValid :
    (others : Text → Db → Db) (now : ℕ) (extra : Row → Row) (ids : List Text) (db : Db)
    → ((id : Text) (d : Db) → IsValid d → IsValid (others id d))
    → ((r : Row) → (extra r).id ≡ r.id)
    → IsValid db
    → IsValid (requeue_guarded others now extra ids db).0
unfolding requeue_guarded
requeue_guarded-IsValid others now extra [] db keeps same v = v
requeue_guarded-IsValid others now extra (id ∷ ids) db keeps same v =
    let start = others id db in
    requeue_guarded-IsValid others now extra ids
      (get_or (update_guarded (has_id id) (requeued_row now extra) start) start) keeps same
      (get_or-update_guarded-IsValid (has_id id) (requeued_row now extra) start
        (λ r. same (record r { status = queued; enqueued_at = now; updated_at = now }))
        (keeps id db v))
