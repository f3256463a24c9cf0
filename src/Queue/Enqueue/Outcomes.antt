-- ===== src/Queue/Enqueue/Outcomes.antt =====
-- What a call of `EpisodeQueue.enqueue` (janus_graph/pipeline/queue.py) has done when it ends.
use janus_graph.Base.{
  Text, [], ◌∷◌, ◌++◌, true, false, ◌&&◌, ◌||◌, ◌≡◌, refl, sym, ap, subst, ◌∙◌, arith, Option, none,
  some, any, Option-cases, Bool-cases, inl, inr,
}
use janus_graph.Queue.Schema.{observe, enforce, rejected, Db, Queue}
use janus_graph.Queue.Dedup.{has_id, clash, find_active_duplicate, record_dedup_event}
use janus_graph.Queue.Valid.Inserts.{wanted_row, enqueue_insert_refused, enqueue_insert_accepted}
use janus_graph.Queue.Enqueue.{
  Request, Ambient, episode_id_of, hash_of, Outcome, returned, raised, insert_fails, note,
  note_duplicate, lost_race, enqueue_insert, enqueue_hashed, enqueue, new_row, duplicate_episode,
}

module _ (digest : Text → Text) (env : Ambient) (req : Request) where
  -- The INSERT of mode `observe`, whether it is refused or not.
  insert_observe :
      (dup : Option Text) (q : Queue)
      → (enqueue_insert digest env req observe dup q).1 ≡ returned (episode_id_of env req)
  unfolding lost_race
  insert_observe dup q =
      elim (Bool-cases (insert_fails (wanted_row digest env req observe q.pid) q.db)) [
        | inl e ↦ rw (enqueue_insert_refused digest env req observe dup q (λ o. cc) e)
        | inr e ↦ rw (enqueue_insert_accepted digest env req observe dup q (λ o. cc) e)
      ]

  -- In mode `observe` a call returns the id of its episode, whatever it found and whatever other
  -- processes do meanwhile: it never raises.
  pub enqueue_observe-returned :
      (others : Db → Db) (q : Queue)
      → (enqueue digest env req others observe q).1 ≡ returned (episode_id_of env req)
  unfolding enqueue enqueue_hashed
  enqueue_observe-returned others q =
      let q' = record q { db = others q.db } in
      elim (Option-cases (find_active_duplicate q.db (hash_of digest env req))) [
        | inl e ↦ simp (e, enqueue_hashed) (insert_observe none q')
        | inr (id, e) ↦ simp (e, enqueue_hashed) (insert_observe (some id) q')
      ]

  insert_fails_taken :
      (q : Queue)
      → any (has_id (episode_id_of env req)) q.db.episodes ≡ true
      → insert_fails (wanted_row digest env req observe q.pid) q.db ≡ true
  unfolding insert_fails new_row
  insert_fails_taken q taken =
      ap
        (λ b.
          b
          || (q.db.unique_index
              && any (clash (wanted_row digest env req observe q.pid)) q.db.episodes))
        taken

  refused_observe :
      (dup : Option Text) (q : Queue)
      → any (has_id (episode_id_of env req)) q.db.episodes ≡ true
      → (enqueue_insert digest env req observe dup q).0.db.episodes ≡ q.db.episodes
  unfolding lost_race note record_dedup_event
  refused_observe dup q taken =
      rw
        (enqueue_insert_refused digest env req observe dup q (λ o. cc) (insert_fails_taken q taken))

  -- In mode `observe`, if another process stores the id of the call's episode before the INSERT, the
  -- call returns that id as if it were its own, and it has stored no episode.
  pub enqueue_observe-lost :
      (others : Db → Db) (q : Queue)
      → any (has_id (episode_id_of env req)) (others q.db).episodes ≡ true
      → let end = enqueue digest env req others observe q in
        (end.1 ≡ returned (episode_id_of env req)) × (end.0.db.episodes ≡ (others q.db).episodes)
  unfolding enqueue enqueue_hashed
  enqueue_observe-lost others q taken =
      let q' = record q { db = others q.db } in
      (
        enqueue_observe-returned others q,
        elim (Option-cases (find_active_duplicate q.db (hash_of digest env req))) [
          | inl e ↦ simp (e, enqueue_hashed) (refused_observe none q' taken)
          | inr (id, e) ↦ simp (e, enqueue_hashed) (refused_observe (some id) q' taken)
        ],
      )

  -- The INSERT of mode `enforce` returned, so it stored its row in a table without a clash.
  abbrev pub IsStored : Db → Queue × Outcome Text → Text → Type 0
  IsStored before end pid =
      (insert_fails (wanted_row digest env req enforce pid) before ≡ false)
      × (end.0.db.episodes ≡ before.episodes ++ wanted_row digest env req enforce pid ∷ [])

  insert_enforce-IsStored :
      (q : Queue) (id : Text)
      → (enqueue_insert digest env req enforce none q).1 ≡ returned id
      → IsStored q.db (enqueue_insert digest env req enforce none q) q.pid
  unfolding lost_race note_duplicate
  insert_enforce-IsStored q id ret =
      elim (Bool-cases (insert_fails (wanted_row digest env req enforce q.pid) q.db)) [
        | inl e ↦
            let lost =
              ap (λ (r : Queue × Outcome Text). r.1)
                (enqueue_insert_refused digest env req enforce none q (λ o. cc) e) in
            absurd (ground arith)
        | inr e ↦ rw (enqueue_insert_accepted digest env req enforce none q (λ o. cc) e) (e, refl)
      ]

  enqueue_free :
      (others : Db → Db) (q : Queue)
      → find_active_duplicate q.db (hash_of digest env req) ≡ none
      → enqueue digest env req others enforce q
        ≡ enqueue_insert digest env req enforce none (record q { db = others q.db })
  unfolding enqueue enqueue_hashed
  enqueue_free others q e = rw (e, enqueue_hashed)

  enqueue_found :
      (others : Db → Db) (q : Queue) (id : Text)
      → find_active_duplicate q.db (hash_of digest env req) ≡ some id
      → enqueue digest env req others enforce q ≡ (
        note env enforce rejected (hash_of digest env req) (some id) (episode_id_of env req) q,
        raised (duplicate_episode (some id) (some (hash_of digest env req))),
      )
  unfolding enqueue enqueue_hashed
  enqueue_found others q id e = rw (e, enqueue_hashed)

  -- In mode `enforce`, if the call returns an id, then no active episode held the hash when it
  -- looked, its row clashed with none in the table at the INSERT, and that row, and no other change,
  -- is in the table now, whatever other processes did in between.
  pub enqueue_enforce-IsStored :
      (others : Db → Db) (q : Queue) (id : Text)
      → (enqueue digest env req others enforce q).1 ≡ returned id
      → IsStored (others q.db) (enqueue digest env req others enforce q) q.pid
        × (find_active_duplicate q.db (hash_of digest env req) ≡ none)
  enqueue_enforce-IsStored others q id ret =
      let q' = record q { db = others q.db } in
      elim (Option-cases (find_active_duplicate q.db (hash_of digest env req))) [
        | inl e ↦
            let same = enqueue_free others q e in
            (
              subst (λ end. IsStored (others q.db) end q.pid) (sym same)
                  (insert_enforce-IsStored q' id
                    (sym (ap (λ (r : Queue × Outcome Text). r.1) same) ∙ ret)),
              e,
            )
        | inr (old, e) ↦
            let refused = ap (λ (r : Queue × Outcome Text). r.1) (enqueue_found others q old e) in
            absurd (ground arith)
      ]
