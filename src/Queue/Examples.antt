-- ===== src/Queue/Examples.antt =====
-- Tests of the queue (janus_graph/pipeline/queue.py): its theorems at one small database.
use janus_graph.Base.{
  All-map, All-Mem, arith, order_asc, insert_asc, codes, text_eq, List, [], ◌∷◌, map, true, false,
  none, some, ◌≡◌, refl, All, Pairs, any, count, filter, insert_desc, order_desc,
}
use janus_graph.Hash.{canonical_payload_hash, preimage}
use janus_graph.Queue.Schema.{observe, enforce, Db}
use janus_graph.Queue.Dedup.{
  distinct, in_scope, clash, holds_hash, find_active_duplicate, requeued_row,
}
use janus_graph.Queue.Dedup.Requeue.{Rewrites}
use janus_graph.Queue.Policy.{default_policy, permits}
use janus_graph.Queue.Policy.Codes.{meaning, permits-meaning}
use janus_graph.Queue.Enqueue.{
  hash_of, returned, new_row, insert_fails, insert_sync, note_duplicate, enqueue_insert,
  enqueue_hashed, enqueue, append_row, episode_id_of,
}
use janus_graph.Queue.Enqueue.Outcomes.{enqueue_observe-lost}
use janus_graph.Queue.Enqueue.Racing.{holds_enforced, enqueue_enforce-count}
use janus_graph.Queue.Valid.{IsValid}
use janus_graph.Queue.Valid.Inserts.{enqueue-IsValid}
use janus_graph.Queue.Claim.{
  claim_state, limit_val, next_queued, id_among, claimed_record, claim_next_batch,
}
use janus_graph.Queue.Claim.Fifo.{IsOldest, next_queued-IsOldest}
use janus_graph.Queue.Claim.Exclusive.{
  AreUntouched, claim-next_queued, claim_disjoint, claimed_twice,
}
use janus_graph.Queue.Reap.{Gaps, is_reapable, reset_streak, reap_failed_or_aborted}
use janus_graph.Queue.Reap.Selection.{reaped-IsReapable}
use janus_graph.Queue.Opening.{ensure_unique_index, init_db}
use janus_graph.Queue.Opening.Backfill.{filled}
use janus_graph.Queue.Opening.Established.{init_db-filled}
use janus_graph.Queue.Adapter.{
  daemon_only, enqueued, daemon_row, insert_with_hash, guard, enqueue_guarded,
}
use janus_graph.Queue.Adapter.Guarded.{IsAlone, enqueue_guarded-IsAlone}
use janus_graph.Queue.History.{
  done, Op, insert_enforce, insert_daemon, claim, failed, reap, create_index, run,
}
use janus_graph.Queue.History.Safety.{run-IsValid}
use janus_graph.Queue.Samples.{
  digest, waiting, broken, finished, db, queue, env, request, db-IsValid,
}

-- A database of an older version: a row without a canonical hash and a gate, and no index.
abbrev unhashed : Db
unhashed = record db {
  episodes = record waiting { canonical_hash = none; dedup_gate = none } ∷ broken ∷ finished ∷ [];
  unique_index = false;
}

unhashed-IsValid : IsValid unhashed
unhashed-IsValid = record {
  keys = db-IsValid.keys;
  dead_keys = db-IsValid.dead_keys;
  index = λ on. cc;
}

abbrev ops : List Op
ops =
    insert_enforce (codes "1") env request none
    ∷ insert_daemon (codes "d:2") (codes "2") (record env { uuid = codes "v" }) request enforce
    ∷ claim 12 (waiting ∷ [])
    ∷ failed 13 (codes "a") (codes "timeout")
    ∷ reap 14 (codes "a")
    ∷ create_index
    ∷ []

run-IsValid_example : IsValid (run digest ops db)
run-IsValid_example = run-IsValid digest ops db db-IsValid

-- Before each row another process marks it as done.
abbrev finishing : Gaps
finishing = record { before = λ id d. run digest (done 13 id ∷ []) d; released = λ id d. d }

enqueue-IsValid_example : IsValid (enqueue digest env request (λ d. d) enforce queue).0.db
enqueue-IsValid_example =
    enqueue-IsValid digest env request (λ d. d) enforce queue (λ d v. v) db-IsValid

stored_id : (enqueue digest env request (λ d. d) enforce queue).1 ≡ returned (codes "u")
unfolding enqueue enqueue_hashed enqueue_insert insert_sync insert_fails new_row clash in_scope
    holds_hash find_active_duplicate filter any text_eq canonical_payload_hash preimage
    note_duplicate order_desc insert_desc
stored_id = refl

enqueue_enforce-count_example :
    count
      (holds_enforced (hash_of digest env request))
      (enqueue digest env request (λ d. d) enforce queue).0.db.episodes
    ≡ 1
enqueue_enforce-count_example =
    enqueue_enforce-count digest env request (λ d. d) queue (codes "u") refl stored_id

-- Another process stores an episode under the same id.
abbrev intruder : Db → Db
intruder d = append_row (record finished { id = codes "u" }) d

enqueue_observe-lost_example :
    let end = enqueue digest env request intruder observe queue in
    (end.1 ≡ returned (episode_id_of env request)) × (end.0.db.episodes ≡ (intruder db).episodes)
unfolding any text_eq
enqueue_observe-lost_example = enqueue_observe-lost digest env request intruder queue refl

next_queued-IsOldest_example : IsOldest 1 (next_queued 1 db) db
next_queued-IsOldest_example = next_queued-IsOldest 1 db

claim-next_queued_example :
    claim_next_batch (λ d. d) 12 none db
    ≡ some (
      claim_state 12 (next_queued (limit_val none) db) db,
      map (claimed_record 12) (next_queued (limit_val none) db),
    )
claim-next_queued_example = claim-next_queued 12 none db db-IsValid

-- Another episode was enqueued after the claim.
abbrev enqueued_later : Db
enqueued_later =
    let claimed = claim_state 12 (next_queued 1 db) db in
    record claimed { episodes = record waiting { id = codes "z" } ∷ claimed.episodes }

later-AreUntouched :
    AreUntouched (next_queued 1 db) (claim_state 12 (next_queued 1 db) db) enqueued_later
unfolding id_among next_queued any text_eq filter order_asc insert_asc
later-AreUntouched = (
  λ h. absurd (ground (arith, h)),
  All-map (claim_state 12 (next_queued 1 db) db).episodes (λ r m h. m)
      (All-Mem (claim_state 12 (next_queued 1 db) db).episodes),
)

claim_disjoint_example :
    All (λ r. id_among (next_queued 1 db) r ≡ false) (next_queued 2 enqueued_later)
claim_disjoint_example = claim_disjoint 1 2 12 db enqueued_later db-IsValid later-AreUntouched

claimed_twice_example :
    (after : Db) × (claim_next_batch (λ d. d) 12 none db
      ≡ some (after, map (claimed_record 12) (next_queued (limit_val none) db)))
    × (last : Db) × (claim_next_batch (λ _. after) 13 none db
        ≡ some (last, map (claimed_record 13) (next_queued (limit_val none) db)))
claimed_twice_example = claimed_twice 12 13 none db db-IsValid

reaped-IsReapable_example :
    Pairs
      (Rewrites (λ r. is_reapable default_policy db r ≡ true) (requeued_row 12 reset_streak))
      db.episodes
      (reap_failed_or_aborted (λ _ d. d) 12 none none db).0.episodes
reaped-IsReapable_example = reaped-IsReapable 12 none none db db-IsValid

permits-meaning_example :
    (permits default_policy (some (codes "Error code: 404"))
      ≡ meaning [] default_policy.permanent_error_codes (codes "Error code: 404"))
    × (permits default_policy none ≡ true)
permits-meaning_example = permits-meaning default_policy (codes "Error code: 404")

init_db-filled_example :
    (init_db digest unhashed
      ≡ some (
          ensure_unique_index
            (record unhashed { episodes = map (filled digest) unhashed.episodes })))
    × IsValid
        (ensure_unique_index (record unhashed { episodes = map (filled digest) unhashed.episodes }))
    × ((ensure_unique_index
          (record unhashed { episodes = map (filled digest) unhashed.episodes })).unique_index
        ≡ distinct (map (filled digest) unhashed.episodes))
init_db-filled_example = init_db-filled digest unhashed unhashed-IsValid (refl, (refl, (refl, tt)))

guarded_id :
    (enqueue_guarded digest env request (codes "d:2") (codes "2") (λ d. d) daemon_only enforce db).1
    ≡ enqueued (codes "u") (codes "d:2")
unfolding enqueue_guarded guard insert_with_hash daemon_row insert_fails new_row clash in_scope
    holds_hash find_active_duplicate filter any text_eq canonical_payload_hash preimage order_desc
    insert_desc
guarded_id = refl

enqueue_guarded-IsAlone_example :
    IsAlone digest env request
      (enqueue_guarded digest env request
        (codes "d:2")
        (codes "2")
        (λ d. d)
        daemon_only
        enforce
        db).0
enqueue_guarded-IsAlone_example =
    enqueue_guarded-IsAlone digest env request (codes "d:2") (codes "2") (λ d. d) daemon_only db
      (codes "u") (codes "d:2") refl guarded_id
