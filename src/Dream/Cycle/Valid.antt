-- ===== src/Dream/Cycle/Valid.antt =====
-- What a run of the dream cycle (janus_graph/pipeline/dream.py) does to the queue's database.
use janus_graph.Base.{
  zero, suc, map, take, Option-cases, ℕ, Text, List, [], ◌∷◌, ◌≡◌, refl, Bool, Option, none, some,
  inl, inr,
}
use janus_graph.Base.Int.{pos, negsuc, ℤ}
use janus_graph.Queue.Schema.{DeadLetter, Db}
use janus_graph.Queue.Dedup.{update_guarded}
use janus_graph.Queue.Opening.{init_db}
use janus_graph.Queue.Policy.{RetryPolicy}
use janus_graph.Queue.Reap.{
  Gaps, reset_streak, reap_selection, reap_failed_or_aborted, reap_limit_of,
}
use janus_graph.Queue.Replay.{is_undone, replayed_row, replay_dlq_batch, replay_selection}
use janus_graph.Queue.Valid.{IsValid}
use janus_graph.Queue.Valid.Recoveries.{Keeps, KeepValid, reap_up_to-IsValid, replay_rows-IsValid}
use janus_graph.Queue.Valid.Openings.{init_db-IsValid}
use janus_graph.Queue.Valid.Updates.{update_guarded-IsValid, requeue_guarded-IsValid}
use janus_graph.Dream.Runs.{UndoEntry}
use janus_graph.Dream.Cycle.{
  DlqReplay, Phase4Fault, no_fault, at_fairness, at_health, at_reaping, at_replay, replay_letters,
  reap_first, replay_first, replay_letters_first, phase_4, DreamSettings, Meets, Dream, run_phases,
  run_dream_consolidation,
}
use janus_graph.Dream.Cycle.Audit.{after_opening-rule}

replay_first-IsValid :
    (rows : ℕ) (g : Gaps) (now : ℕ) (letters : List DeadLetter) (db : Db)
    → KeepValid g
    → IsValid db
    → IsValid (replay_first rows g now letters db)
unfolding replay_first
replay_first-IsValid zero g now letters db k v = v
replay_first-IsValid (suc n) g now [] db k v = v
replay_first-IsValid (suc n) g now (d ∷ letters) db k v =
    let start = g.before d.episode_id db in
    let started : IsValid start = k.0 d.episode_id db v in
    elim (Option-cases (update_guarded (is_undone d.episode_id) (replayed_row now) start)) [
      | inl e ↦ rw (e, replay_first) (replay_first-IsValid n g now letters start k started)
      | inr (after, e) ↦
          rw (e, replay_first)
            (k.1 d.episode_id after (
              update_guarded-IsValid (is_undone d.episode_id) (replayed_row now) start (λ r. refl) e
                started))
    ]

reap_first-IsValid :
    (rows : ℕ) (others : Text → Db → Db) (now : ℕ) (policy : RetryPolicy) (limit : ℤ) (db : Db)
    → Keeps others
    → IsValid db
    → IsValid (reap_first rows others now policy limit db)
unfolding reap_first
reap_first-IsValid rows others now policy (pos zero) db k v = v
reap_first-IsValid rows others now policy (pos (suc n)) db k v =
    requeue_guarded-IsValid others now reset_streak
      (take rows (map (λ r. r.id) (reap_selection policy (suc n) db))) db k (λ r. refl) v
reap_first-IsValid rows others now policy (negsuc n) db k v = v

reap-IsValid :
    (others : Text → Db → Db) (now : ℕ) (policy : RetryPolicy) (db : Db)
    → Keeps others
    → IsValid db
    → IsValid (reap_failed_or_aborted others now none (some policy) db).0
unfolding reap_failed_or_aborted
reap-IsValid others now policy db =
    reap_up_to-IsValid others now policy (reap_limit_of policy none) db

letters-IsValid :
    (g : Gaps) (now : ℕ) (policy : RetryPolicy) (dlq : Option DlqReplay) (db : Db)
    → KeepValid g
    → IsValid db
    → IsValid (replay_letters g now policy dlq db)
unfolding replay_dlq_batch
letters-IsValid g now policy none db k v = v
letters-IsValid g now policy (some c) db k v =
    replay_rows-IsValid g now (replay_selection now c.limit c.classes c.min_age_sec policy db) db k
      v

letters_first-IsValid :
    (rows : ℕ) (g : Gaps) (now : ℕ) (policy : RetryPolicy) (dlq : Option DlqReplay) (db : Db)
    → KeepValid g
    → IsValid db
    → IsValid (replay_letters_first rows g now policy dlq db)
unfolding replay_letters_first
letters_first-IsValid rows g now policy none db k v = v
letters_first-IsValid rows g now policy (some c) db k v =
    replay_first-IsValid rows g now (replay_selection now c.limit c.classes c.min_age_sec policy db)
      db k v

phase_4-IsValid :
    (cfg : DreamSettings) (m : Meets) (db : Db)
    → Keeps m.reap_others
    → KeepValid m.replay_gaps
    → IsValid db
    → IsValid (phase_4 cfg m db).0
unfolding phase_4
phase_4-IsValid cfg m db k g v = go m.phase_4 refl
  where
    reaped : Db
    reaped = (reap_failed_or_aborted m.reap_others m.reaped_at none (some cfg.policy) db).0

    reaped-IsValid : IsValid reaped
    reaped-IsValid = reap-IsValid m.reap_others m.reaped_at cfg.policy db k v

    replayed-IsValid :
        IsValid (replay_letters m.replay_gaps m.replayed_at cfg.policy cfg.dlq_replay reaped)
    replayed-IsValid =
        letters-IsValid m.replay_gaps m.replayed_at cfg.policy cfg.dlq_replay reaped g
          reaped-IsValid

    go : (f : Phase4Fault) → m.phase_4 ≡ f → IsValid (phase_4 cfg m db).0
    go no_fault e = rw (e, phase_4) replayed-IsValid
    go at_fairness e = rw (e, phase_4) reaped-IsValid
    go at_health e = rw (e, phase_4) replayed-IsValid
    go (at_reaping rows) e =
        rw (e, phase_4)
          (reap_first-IsValid rows m.reap_others m.reaped_at cfg.policy cfg.policy.reap_limit db k
            v)
    go (at_replay rows) e =
        rw (e, phase_4)
          (letters_first-IsValid rows m.replay_gaps m.replayed_at cfg.policy cfg.dlq_replay reaped g
            reaped-IsValid)

-- A run keeps the queue's database valid, with force or without: whether the opening raises, at
-- whatever row phase 4 fails, and whatever the other phases and the audit row meet, as long as what
-- other processes write in the gaps of phase 4 keeps it valid.
pub run_dream_consolidation-IsValid :
    (digest canonical_digest : Text → Text) (cfg : DreamSettings) (force : Bool) (gid run_id : Text)
    (log : List UndoEntry) (m : Meets) (d : Dream)
    → Keeps m.reap_others
    → KeepValid m.replay_gaps
    → IsValid d.db
    → IsValid (run_dream_consolidation digest canonical_digest cfg force gid run_id log m d).0.db
unfolding run_dream_consolidation run_phases
run_dream_consolidation-IsValid digest canonical_digest cfg force gid run_id log m d k g v =
    after_opening-rule (λ (x : Dream). IsValid x.db)
      (λ db. run_phases digest cfg force gid run_id log m (record d { db = db })) d
      (init_db canonical_digest d.db) v
      (λ db e. phase_4-IsValid cfg m db k g (init_db-IsValid canonical_digest d.db db e v))
