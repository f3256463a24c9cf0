-- ===== src/Queue/Enqueue/Racing.antt =====
-- What mode `enforce` of `EpisodeQueue.enqueue` (janus_graph/pipeline/queue.py) gives to the caller
-- of a call that returned, whoever else writes.
use janus_graph.Base.{
  Text, text_eq_self, List, [], ◌∷◌, Bool, true, false, ◌&&◌, ◌≡◌, refl, arith, any, count,
  count-append,
}
use janus_graph.Queue.Schema.{enforce, Row, Db, Queue}
use janus_graph.Queue.Dedup.{in_scope, clash, hash_is}
use janus_graph.Queue.Valid.Inserts.{wanted_row}
use janus_graph.Queue.Enqueue.{Request, Ambient, hash_of, new_row, returned, insert_fails, enqueue}
use janus_graph.Queue.Enqueue.Outcomes.{enqueue_enforce-IsStored}

-- An active episode of gate `enforce` that holds the hash.
unfoldable pub holds_enforced : Text → Row → Bool
unfolding in_scope
holds_enforced h r = in_scope r && hash_is h r.canonical_hash

pub count-any : (p : Row → Bool) (rows : List Row) → any p rows ≡ false → count p rows ≡ 0
unfolding any count
count-any p [] h = refl
count-any p (r ∷ rows) h = ground (arith, count-any p rows (ground arith))

pub clash_free :
    (r : Row) (db : Db)
    → insert_fails r db ≡ false
    → db.unique_index ≡ true
    → any (clash r) db.episodes ≡ false
unfolding insert_fails
clash_free r db free index = ground arith

module _ (digest : Text → Text) (env : Ambient) (req : Request) where
  count-wanted :
      (pid : Text)
      → count (holds_enforced (hash_of digest env req)) (wanted_row digest env req enforce pid ∷ [])
        ≡ 1
  unfolding count holds_enforced in_scope new_row
  count-wanted pid = rw (text_eq_self (hash_of digest env req))

  count-others :
      (pid : Text) (db : Db)
      → any (clash (wanted_row digest env req enforce pid)) db.episodes ≡ false
      → count (holds_enforced (hash_of digest env req)) db.episodes ≡ 0
  unfolding clash holds_enforced in_scope new_row
  count-others pid db free = count-any (holds_enforced (hash_of digest env req)) db.episodes free

  -- If a call in mode `enforce` returns an id and the UNIQUE index exists at its INSERT, then exactly
  -- one active episode of gate `enforce` holds its hash afterwards, whatever other processes did
  -- between the duplicate check and the INSERT.
  pub enqueue_enforce-count :
      (others : Db → Db) (q : Queue) (id : Text)
      → (others q.db).unique_index ≡ true
      → (enqueue digest env req others enforce q).1 ≡ returned id
      → count
          (holds_enforced (hash_of digest env req))
          (enqueue digest env req others enforce q).0.db.episodes
        ≡ 1
  enqueue_enforce-count others q id index ret =
      let ((free, stored), looked) = enqueue_enforce-IsStored digest env req others q id ret in
      let wanted = wanted_row digest env req enforce q.pid in
      let holds = holds_enforced (hash_of digest env req) in
      rw (
        stored,
        count-append holds (others q.db).episodes (wanted ∷ []),
        count-wanted q.pid,
        count-others q.pid (others q.db) (clash_free wanted (others q.db) free index),
      )
