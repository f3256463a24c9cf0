-- ===== src/Queue/History/Reached.antt =====
-- Which states of the queue database (janus_graph/pipeline/queue.py) a run reaches: by an abort, by
-- the opening, and by the reapers in whatever gaps they meet.
use janus_graph.Base.{
  ℕ, zero, suc, Text, List, [], ◌∷◌, ◌++◌, map, ◌≡◌, refl, sym, ap, ◌∙◌, subst, Option-cases,
  Bool-cases, inl, inr, find, leb, get_or, ◌+◌,
}
use janus_graph.Base.Int.{ℤ, pos, negsuc}
use janus_graph.Queue.Schema.{Row, Db}
use janus_graph.Queue.Dedup.{has_id, update_guarded, requeue_guarded, requeued_row}
use janus_graph.Queue.Policy.{RetryPolicy}
use janus_graph.Queue.Marks.{mark_aborted, empty_payload}
use janus_graph.Queue.Opening.{write_hashes, missing_hashes, backfill_canonical_hash, init_db}
use janus_graph.Queue.Reap.{
  Gaps, alone, retried_row, timeout_error, reap_row, reap_rows, reap_up_to, reset_streak,
  reap_selection,
}
use janus_graph.Queue.History.{
  Op, backfill, create_index, aborted, retry_stuck, park_stuck, reap, apply, run,
}

module _ (digest : Text → Text) where
  -- Some run of the queue leads from the one state to the other.
  abbrev pub Reaches : Db → Db → Type 0
  Reaches db after = (ops : List Op) × (after ≡ run digest ops db)

  run-append :
      (ops more : List Op) (db : Db)
      → run digest (ops ++ more) db ≡ run digest more (run digest ops db)
  unfolding run
  run-append [] more db = refl
  run-append (op ∷ ops) more db = run-append ops more (apply digest op db)

  pub Reaches-trans : (a : Db) {b c : Db} → Reaches a b → Reaches b c → Reaches a c
  Reaches-trans a (ops, e) (more, f) =
      (ops ++ more, f ∙ ap (run digest more) e ∙ sym (run-append ops more a))

  pub by_op : (op : Op) (db : Db) → Reaches db (apply digest op db)
  unfolding run
  by_op op db = (op ∷ [], refl)

  pub by_none : (db : Db) → Reaches db db
  unfolding run
  by_none db = ([], refl)

  -- What other processes do is a run of the queue too.
  abbrev pub IsRun : (Text → Db → Db) → Type 0
  IsRun others = (id : Text) (db : Db) → Reaches db (others id db)

  abbrev pub AreRuns : Gaps → Type 0
  AreRuns g = IsRun g.before × IsRun g.released

  pub alone-AreRuns : AreRuns alone
  alone-AreRuns = (λ id db. by_none db, λ id db. by_none db)

  pub mark_aborted-Reaches :
      (now : ℕ) (id error : Text) (db : Db) → Reaches db (mark_aborted now id error db)
  unfolding mark_aborted apply
  mark_aborted-Reaches now id error db = elim (Option-cases (find (has_id id) db.episodes)) [
    | inl e ↦ rw (e, mark_aborted) (by_op (aborted now id error empty_payload 1) db)
    | inr (r, e) ↦
        rw (e, mark_aborted) (by_op (aborted now id error r.payload_json (r.attempt_count + 1)) db)
  ]

  pub init_db-Reaches : (db : Db) → Reaches db (get_or (init_db digest db) db)
  unfolding init_db backfill_canonical_hash apply
  init_db-Reaches db =
      let updates = missing_hashes digest db.episodes in
      elim (Option-cases (write_hashes digest updates db)) [
        | inl e ↦ rw (e, init_db) (by_none db)
        | inr (after, e) ↦
            rw (e, init_db)
              (Reaches-trans _
                (subst (λ o. Reaches db (get_or o db)) e (by_op (backfill updates) db))
                (by_op create_index after))
      ]

  reap_row-Reaches :
      (g : Gaps) (now max_attempts : ℕ) (r : Row) (db : Db)
      → AreRuns g
      → Reaches db (reap_row g now max_attempts r db).0
        × AreRuns (reap_row g now max_attempts r db).1
  unfolding reap_row apply
  reap_row-Reaches g now max_attempts r db k =
      let start = g.before r.id db in
      let attempts = r.attempt_count + 1 in
      elim (Bool-cases (leb max_attempts attempts)) [
        | inl e ↦ rw e (
          Reaches-trans _ (k.0 r.id db)
              (by_op (aborted now r.id timeout_error r.payload_json attempts) start),
          alone-AreRuns,
        )
        | inr e ↦
            elim (Option-cases (update_guarded (has_id r.id) (retried_row now attempts) start)) [
              | inl f ↦
                  rw (e, f)
                    (
                      Reaches-trans _ (k.0 r.id db) (
                          Reaches-trans _ (k.1 r.id start)
                            (by_op (park_stuck now r.id) (g.released r.id start))),
                      alone-AreRuns,
                    )
              | inr (after, f) ↦
                  rw (e, f)
                    (
                      Reaches-trans _ (k.0 r.id db) (
                          subst (λ o. Reaches start (get_or o start)) f
                            (by_op (retry_stuck now attempts r.id) start)),
                      k,
                    )
            ]
      ]

  pub reap_rows-Reaches :
      (g : Gaps) (now max_attempts : ℕ) (rows : List Row) (db : Db)
      → AreRuns g
      → Reaches db (reap_rows g now max_attempts rows db)
  unfolding reap_rows
  reap_rows-Reaches g now max_attempts [] db k = by_none db
  reap_rows-Reaches g now max_attempts (r ∷ rows) db k =
      let step = reap_row-Reaches g now max_attempts r db k in
      let next = reap_row g now max_attempts r db in
      Reaches-trans _ step.0 (reap_rows-Reaches next.1 now max_attempts rows next.0 step.1)

  -- `op` is the UPDATE of `requeue_guarded` with these columns.
  pub requeue-Reaches :
      (others : Text → Db → Db) (now : ℕ) (extra : Row → Row) (op : Text → Op) (ids : List Text)
      (db : Db)
      → ((id : Text) (d : Db)
          → apply digest (op id) d
            ≡ get_or (update_guarded (has_id id) (requeued_row now extra) d) d)
      → IsRun others
      → Reaches db (requeue_guarded others now extra ids db).0
  unfolding requeue_guarded
  requeue-Reaches others now extra op [] db same k = by_none db
  requeue-Reaches others now extra op (id ∷ ids) db same k =
      let start = others id db in
      let next = get_or (update_guarded (has_id id) (requeued_row now extra) start) start in
      Reaches-trans _ (k id db) (
        Reaches-trans _ (subst (Reaches start) (same id start) (by_op (op id) start))
          (requeue-Reaches others now extra op ids next same k))

  pub reap_up_to-Reaches :
      (others : Text → Db → Db) (now : ℕ) (policy : RetryPolicy) (limit : ℤ) (db : Db)
      → IsRun others
      → Reaches db (reap_up_to others now policy limit db).0
  unfolding reap_up_to apply requeue_guarded
  reap_up_to-Reaches others now policy (pos zero) db k = by_none db
  reap_up_to-Reaches others now policy (pos (suc n)) db k =
      requeue-Reaches others now reset_streak (reap now)
        (map (λ r. r.id) (reap_selection policy (suc n) db)) db (λ id d. refl) k
  reap_up_to-Reaches others now policy (negsuc n) db k = by_none db
