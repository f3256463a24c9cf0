-- ===== src/Queue/Adapter/Guarded.antt =====
-- What the daemon's writer (janus_graph/daemon/episode_queue_adapter.py) keeps and promises.
use janus_graph.Base.{
  Text, text_eq_self, [], ◌∷◌, true, false, ◌≡◌, sym, ap, ◌∙◌, arith, Option, none, some, count,
  count-append, any, Bool-cases, inl, inr,
}
use janus_graph.Queue.Schema.{Gate, enforce, Action, Db}
use janus_graph.Queue.Dedup.{in_scope, clash, find_active_duplicate, record_dedup_event}
use janus_graph.Queue.Enqueue.{Request, Ambient, hash_of, new_row, insert_fails}
use janus_graph.Queue.Enqueue.Racing.{holds_enforced, count-any, clash_free}
use janus_graph.Queue.Valid.{IsValid}
use janus_graph.Queue.Valid.Updates.{append_row-IsValid}
use janus_graph.Queue.Adapter.{
  LockMode, mcp_only, daemon_only, dual_with_lock, Guarding, enqueued, refusal, daemon_row,
  insert_with_hash, note_daemon, guard, enqueue_guarded,
}

-- One active episode of gate `enforce` holds the hash of the request.
abbrev pub IsAlone : (Text → Text) → Ambient → Request → Db → Type 0
IsAlone digest env req db = count (holds_enforced (hash_of digest env req)) db.episodes ≡ 1

module _ (digest : Text → Text) (env : Ambient) (req : Request) (instance_id pid : Text) where
  pub insert_with_hash-IsValid :
      (mode : Gate) (db : Db)
      → IsValid db
      → IsValid (insert_with_hash digest env req instance_id pid mode db).0
  unfolding insert_with_hash
  insert_with_hash-IsValid mode db v =
      let r = daemon_row digest env req instance_id pid mode in
      elim (Bool-cases (insert_fails r db)) [
        | inl e ↦ rw (e, insert_with_hash) v
        | inr e ↦ rw (e, insert_with_hash) (append_row-IsValid r db e v)
      ]

  note_daemon-IsValid :
      (mode : Gate) (action : Action) (id : Text) (db : Db)
      → IsValid db
      → IsValid (note_daemon digest env req instance_id pid mode action id db)
  unfolding note_daemon record_dedup_event
  note_daemon-IsValid mode action id db v = record {
    keys = v.keys;
    dead_keys = v.dead_keys;
    index = v.index;
  }

  module _ (others : Db → Db) where
    count-daemon_row :
        count
          (holds_enforced (hash_of digest env req))
          (daemon_row digest env req instance_id pid enforce ∷ [])
        ≡ 1
    unfolding count holds_enforced in_scope new_row daemon_row
    count-daemon_row = rw (text_eq_self (hash_of digest env req))

    count-others :
        (db : Db)
        → any (clash (daemon_row digest env req instance_id pid enforce)) db.episodes ≡ false
        → count (holds_enforced (hash_of digest env req)) db.episodes ≡ 0
    unfolding clash holds_enforced in_scope new_row daemon_row
    count-others db free = count-any (holds_enforced (hash_of digest env req)) db.episodes free

    refusal_never :
        (found : Option Text) (id claimed_by : Text) → refusal found ≡ enqueued id claimed_by → ⊥
    refusal_never none id claimed_by h = ground arith
    refusal_never (some []) id claimed_by h = ground arith
    refusal_never (some (c ∷ old)) id claimed_by h = ground arith

    insert_refused :
        (mode : Gate) (db : Db)
        → insert_fails (daemon_row digest env req instance_id pid mode) db ≡ true
        → insert_with_hash digest env req instance_id pid mode db
          ≡ (db, refusal (find_active_duplicate db (hash_of digest env req)))
    unfolding insert_with_hash
    insert_refused mode db e = rw (e, insert_with_hash)

    insert-IsAlone :
        (db : Db) (id claimed_by : Text)
        → db.unique_index ≡ true
        → (insert_with_hash digest env req instance_id pid enforce db).1 ≡ enqueued id claimed_by
        → IsAlone digest env req (insert_with_hash digest env req instance_id pid enforce db).0
    unfolding insert_with_hash
    insert-IsAlone db id claimed_by index ret =
        let r = daemon_row digest env req instance_id pid enforce in
        let holds = holds_enforced (hash_of digest env req) in
        elim (Bool-cases (insert_fails r db)) [
          | inl e ↦
              let lost = ap (λ (end : Db × Guarding). end.1) (insert_refused enforce db e) in
              absurd (
                refusal_never (find_active_duplicate db (hash_of digest env req)) id claimed_by
                  (sym lost ∙ ret))
          | inr e ↦ rw (
            e,
            insert_with_hash,
            count-append holds db.episodes (r ∷ []),
            count-daemon_row,
            count-others db (clash_free r db e index),
          )
        ]

    guard-IsAlone :
        (db : Db) (found : Option Text) (id claimed_by : Text)
        → (others db).unique_index ≡ true
        → (guard digest env req instance_id pid others enforce found db).1 ≡ enqueued id claimed_by
        → IsAlone digest env req (guard digest env req instance_id pid others enforce found db).0
    unfolding guard
    guard-IsAlone db none id claimed_by index ret =
        insert-IsAlone (others db) id claimed_by index ret
    guard-IsAlone db (some old) id claimed_by index ret = absurd (ground arith)

    -- If a call of the daemon in mode `enforce` returns an id and the UNIQUE index exists at its INSERT,
    -- then exactly one active episode of gate `enforce` holds its hash afterwards, whatever the other
    -- writers did between the duplicate check and the INSERT.
    pub enqueue_guarded-IsAlone :
        (lock : LockMode) (db : Db) (id claimed_by : Text)
        → (others db).unique_index ≡ true
        → (enqueue_guarded digest env req instance_id pid others lock enforce db).1
          ≡ enqueued id claimed_by
        → IsAlone digest env req
            (enqueue_guarded digest env req instance_id pid others lock enforce db).0
    unfolding enqueue_guarded
    enqueue_guarded-IsAlone mcp_only db id claimed_by index ret = absurd (ground arith)
    enqueue_guarded-IsAlone daemon_only db id claimed_by index ret =
        guard-IsAlone db (find_active_duplicate db (hash_of digest env req)) id claimed_by index ret
    enqueue_guarded-IsAlone dual_with_lock db id claimed_by index ret =
        guard-IsAlone db (find_active_duplicate db (hash_of digest env req)) id claimed_by index ret
