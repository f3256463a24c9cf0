-- ===== src/Worker/Routing.antt =====
-- How a record ends in janus_graph/pipeline/worker.py.
use janus_graph.Base.{
  ℕ, Text, List, [], ◌∷◌, Bool, true, false, ◌≡◌, refl, subst, codes, ◌⊎◌, ◌+◌, arith, Option, none,
  some, ap, All, All-map, Option-cases, Bool-cases, inl, inr, find, map,
}
use janus_graph.Base.Int.{ℤ}
use janus_graph.Queue.Schema.{
  Status, done, failed, aborted, skipped_duplicate, Payload, Json, malformed, not_dict, dict, Row,
  EpisodeRecord, Db,
}
use janus_graph.Queue.Dedup.{has_id, update_guarded, record_dedup_event}
use janus_graph.Queue.Marks.{
  mark_done, mark_failed, mark_aborted, abort_with, update_checkpoint, mark_skipped_duplicate,
  skipped_row, done_row, failed_row, empty_payload,
}
use janus_graph.Queue.Marks.Ledger.{HasStatus, update-HasStatus}
use janus_graph.Queue.Claim.{
  claimed_record, claim_rows, claim_next_batch, id_among, claimed_row, next_queued, limit_val,
}
use janus_graph.Worker.{
  Exception, should_retry, describe_exception, send_to_dlq, strip, strip_error, Call, Ingest,
  ingested, failed_with, timed_out, get_text, reference_time_of, call_of, ingest_payload,
  execute_ingestion, route_failure, settle, ingested_as, process_record,
}

List-cases : (s : Text) → (s ≡ []) ⊎ ((c : ℕ) × (t : Text) × (s ≡ c ∷ t))
List-cases [] = inl refl
List-cases (c ∷ t) = inr (c, t, refl)

Ingest-cases :
    (i : Ingest)
    → (i ≡ ingested)
      ⊎ ((e : Exception) × (i ≡ failed_with e))
      ⊎ ((e : Exception) × (i ≡ timed_out e))
Ingest-cases ingested = inl refl
Ingest-cases (failed_with e) = inr (inl (e, refl))
Ingest-cases (timed_out e) = inr (inr (e, refl))

-- The statuses that go with a returned `True`, and with `False`.
abbrev pub fits : Bool → Status → Bool
fits true done = true
fits true skipped_duplicate = true
fits false failed = true
fits false aborted = true
fits _ _ = false

abbrev pub IsSettled : Text → Db × Bool → Type 0
IsSettled id (db, ok) = All (λ row. has_id id row ≡ true → fits ok row.status ≡ true) db.episodes

settled :
    (id : Text) (status : Status) (ok : Bool) (db : Db)
    → fits ok status ≡ true
    → HasStatus id status db.episodes
    → IsSettled id (db, ok)
settled id status ok db f h = All-map db.episodes (λ r k m. rw (k m) f) h

abort_with-HasStatus :
    (now : ℕ) (id error : Text) (payload : Json) (attempts : ℕ) (db : Db)
    → HasStatus id aborted (abort_with now id error payload attempts db).episodes
unfolding abort_with
abort_with-HasStatus now id error payload attempts db =
    update-HasStatus id aborted _ db.episodes (λ r. refl)

mark_aborted-HasStatus :
    (now : ℕ) (id error : Text) (db : Db)
    → HasStatus id aborted (mark_aborted now id error db).episodes
unfolding mark_aborted
mark_aborted-HasStatus now id error db = elim (Option-cases (find (has_id id) db.episodes)) [
  | inl e ↦ rw (e, mark_aborted) (abort_with-HasStatus now id error empty_payload 1 db)
  | inr (r, e) ↦
      rw (e, mark_aborted)
        (abort_with-HasStatus now id error r.payload_json (r.attempt_count + 1) db)
]

mark_skipped-HasStatus :
    (now : ℕ) (pid id : Text) (existing h : Option Text) (db : Db)
    → HasStatus id skipped_duplicate (mark_skipped_duplicate now now pid id existing h db).episodes
unfolding mark_skipped_duplicate record_dedup_event
mark_skipped-HasStatus now pid id existing h db =
    let k =
      update-HasStatus id skipped_duplicate (skipped_row now existing) db.episodes (λ r. refl) in
    ground (arith, k)

module _ (default_group : Text) (ingest : Call → Ingest) (now : ℕ) where
  mark_done-IsSettled : (id : Text) (db : Db) → IsSettled id (mark_done now id db, true)
  unfolding mark_done
  mark_done-IsSettled id db =
      settled id done true (mark_done now id db) refl
        (update-HasStatus id done (done_row now) db.episodes (λ r. refl))

  route_failure-IsSettled :
      (r : EpisodeRecord) (e : Exception) (db : Db)
      → IsSettled r.id (route_failure default_group ingest now r e db, false)
  unfolding route_failure mark_failed send_to_dlq
  route_failure-IsSettled r e db = elim (Bool-cases (should_retry r e 3)) [
    | inl t ↦
        simp (t, route_failure)
          (settled r.id failed false (mark_failed now r.id (describe_exception e) db) refl (
            update-HasStatus r.id failed (failed_row now (describe_exception e)) db.episodes
              (λ x. refl)))
    | inr t ↦
        simp (t, route_failure)
          (settled r.id aborted false (mark_aborted now r.id (describe_exception e) db) refl
            (mark_aborted-HasStatus now r.id (describe_exception e) db))
  ]

  ingested-IsSettled :
      (r : EpisodeRecord) (p : Payload) (db : Db)
      → IsSettled r.id
          (settle default_group ingest now r (ingest_payload default_group ingest now r p db))
  unfolding ingest_payload settle
  ingested-IsSettled r p db = elim (Bool-cases p.content_is_no_text) [
    | inl null ↦ simp (null, ingest_payload) (route_failure-IsSettled r strip_error db)
    | inr text ↦ elim (List-cases (strip (get_text p.content []))) [
      | inl blank ↦ simp (text, blank, ingest_payload) (mark_done-IsSettled r.id db)
      | inr (c, s, full) ↦
          let started_db = update_checkpoint now r.id (codes "ingesting") db in
          elim (Ingest-cases (ingest (call_of default_group ingest now r p))) [
            | inl ok ↦ simp (text, full, ok, ingest_payload) (mark_done-IsSettled r.id started_db)
            | inr (inl (e, bad)) ↦
                simp (text, full, bad, ingest_payload) (route_failure-IsSettled r e started_db)
            | inr (inr (e, bad)) ↦
                simp (text, full, bad, ingest_payload) (route_failure-IsSettled r e started_db)
          ]
    ]
  ]

  executed-IsSettled :
      (r : EpisodeRecord) (json : Json) (db : Db)
      → let r' : EpisodeRecord = record r { payload = json } in
        IsSettled r.id
          (settle default_group ingest now r' (execute_ingestion default_group ingest now r' db))
  unfolding execute_ingestion settle
  executed-IsSettled r malformed db =
      route_failure-IsSettled (record r { payload = malformed }) _ db
  executed-IsSettled r not_dict db = route_failure-IsSettled (record r { payload = not_dict }) _ db
  executed-IsSettled r (dict p) db = ingested-IsSettled (record r { payload = dict p }) p db

  -- Whatever the payload holds, whatever creating the client and the ingestion do, and with or
  -- without the backstop: when `process_record` ends, the rows of the record are done or skipped if
  -- it returned true, and failed or aborted if it returned false. None is left in processing.
  pub process_record-IsSettled :
      (digest : Text → Text) (backstop : Bool) (pid : Text) (r : EpisodeRecord) (db : Db)
      → IsSettled r.id (process_record default_group ingest now digest backstop pid r db)
  unfolding process_record
  process_record-IsSettled digest false pid r db = executed-IsSettled r r.payload db
  process_record-IsSettled digest true pid r db =
      elim (Option-cases (ingested_as default_group ingest now digest r db)) [
        | inl e ↦ simp (e, process_record) (executed-IsSettled r r.payload db)
        | inr ((id, h), e) ↦
            simp (e, process_record)
              (settled r.id skipped_duplicate true
                (mark_skipped_duplicate now now pid r.id (some id) (some h) db) refl
                (mark_skipped-HasStatus now pid r.id (some id) (some h) db))
      ]

-- A record without a time of its creation: the clock of the ingestion stands in.
abbrev pub IsUndated : EpisodeRecord → Type 0
IsUndated r = (r.created_at ≡ none) × ((t : ℕ) → reference_time_of t r ≡ t)

-- The records of these rows, each with the time at which its row was enqueued.
abbrev pub AreUndated : List Row → List EpisodeRecord → Type 0
AreUndated rows records =
    All IsUndated records × (map (λ x. x.enqueued_at) records ≡ map (λ r. r.enqueued_at) rows)

claimed-AreUndated : (now : ℕ) (rows : List Row) → AreUndated rows (map (claimed_record now) rows)
unfolding claimed_record
claimed-AreUndated now [] = (tt, refl)
claimed-AreUndated now (r ∷ rows) =
    let rest = claimed-AreUndated now rows in
    (((refl, λ t. refl), rest.0), ap (λ times. r.enqueued_at ∷ times) rest.1)

claim_rows-AreUndated :
    (now : ℕ) (rows : List Row) (db after : Db) (records : List EpisodeRecord)
    → claim_rows now rows db ≡ some (after, records)
    → AreUndated rows records
unfolding claim_rows
claim_rows-AreUndated now [] db after records e =
    let same : [] ≡ records = ground arith in subst (AreUndated []) same (tt, refl)
claim_rows-AreUndated now (r ∷ rows) db after records e =
    elim (Option-cases (update_guarded (id_among (r ∷ rows)) (claimed_row now) db)) [
      | inl refused ↦ absurd (ground arith)
      | inr (db', accepted) ↦
          let same : map (claimed_record now) (r ∷ rows) ≡ records = ground arith in
          subst (AreUndated (r ∷ rows)) same (claimed-AreUndated now (r ∷ rows))
    ]

-- Whatever happens between the SELECT and the UPDATE: the records that a claim hands out carry, in
-- order, the times at which the selected rows were enqueued, but `created_at` is none in each, so
-- the ingestion dates the episode with its own clock, whatever that clock shows.
pub claimed-reference_time :
    (others : Db → Db) (now : ℕ) (limit : Option ℤ) (db after : Db) (records : List EpisodeRecord)
    → claim_next_batch others now limit db ≡ some (after, records)
    → AreUndated (next_queued (limit_val limit) db) records
unfolding claim_next_batch
claimed-reference_time others now limit db after records e =
    claim_rows-AreUndated now (next_queued (limit_val limit) db) (others db) after records e
