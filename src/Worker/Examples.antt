-- ===== src/Worker/Examples.antt =====
-- Tests of the worker (janus_graph/pipeline/worker.py).
use janus_graph.Base.{codes, [], ◌∷◌, map, true, false, none}
use janus_graph.Queue.Schema.{processing, dict, Db, EpisodeRecord}
use janus_graph.Queue.Claim.{claim_state, claimed_record, next_queued, limit_val}
use janus_graph.Queue.Claim.Exclusive.{claim-next_queued}
use janus_graph.Queue.Samples.{digest, payload, waiting, finished, db, db-IsValid}
use janus_graph.Worker.{Exception, Call, Ingest, failed_with, process_record}
use janus_graph.Worker.Routing.{
  IsSettled, AreUndated, process_record-IsSettled, claimed-reference_time,
}

abbrev refused : Exception
refused = record {
  class_name = codes "ConnectionError";
  is_fatal = false;
  message = codes "refused";
}

abbrev failing : Call → Ingest
failing call = failed_with refused

abbrev claimed : EpisodeRecord
claimed = record {
  id = codes "a";
  payload = dict payload;
  status = processing;
  enqueued_at = 2;
  started_at = none;
  finished_at = none;
  attempt_count = 0;
  consecutive_failures = 0;
  last_error = none;
  checkpoint = none;
  created_at = none;
  updated_at = none;
}

process_record-IsSettled_example :
    IsSettled (codes "a") (process_record (codes "g") failing 20 digest true (codes "1") claimed db)
process_record-IsSettled_example =
    process_record-IsSettled (codes "g") failing 20 digest true (codes "1") claimed db

claimed-reference_time_example :
    AreUndated
      (next_queued (limit_val none) db)
      (map (claimed_record 12) (next_queued (limit_val none) db))
claimed-reference_time_example =
    claimed-reference_time (λ d. d) 12 none db (claim_state 12 (next_queued (limit_val none) db) db)
      (map (claimed_record 12) (next_queued (limit_val none) db))
      (claim-next_queued 12 none db db-IsValid)

-- The same content was ingested as the episode `c`.
abbrev ingested_before : Db
ingested_before = record db {
  episodes =
      record waiting { status = processing }
      ∷ record finished { canonical_hash = waiting.canonical_hash }
      ∷ [];
}
