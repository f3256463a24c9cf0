-- ===== src/Dream/Cycle.antt =====
-- `run_dream_consolidation` of janus_graph/pipeline/dream.py: the opening of the queue, the four
-- phases on the graph and on the queue, and the row of the run. Phase 1 only reads; of its
-- clustering the number of nodes is kept. Other processes write to the queue in the gaps of phase 4
-- only.
use janus_graph.Base.{
  map, take, length, get_or, ℕ, zero, suc, Text, List, [], ◌∷◌, ◌++◌, Bool, true, false, not, ◌&&◌,
  ◌||◌, Option, none, some, if◌then◌else◌,
}
use janus_graph.Base.Int.{ℤ, pos, negsuc}
use janus_graph.Queue.Schema.{DeadLetter, Db}
use janus_graph.Queue.Dedup.{update_guarded, requeue_guarded}
use janus_graph.Queue.Opening.{init_db}
use janus_graph.Queue.Policy.{RetryPolicy}
use janus_graph.Queue.Reap.{Gaps, reap_selection, reset_streak, reap_failed_or_aborted}
use janus_graph.Queue.Replay.{is_undone, replayed_row, replay_selection, replay_dlq_batch}
use janus_graph.Queue.Reports.{count_total}
use janus_graph.Dream.Similarity.{Score}
use janus_graph.Dream.Planner.{Node}
use janus_graph.Dream.Graph.{World}
use janus_graph.Dream.Clustering.{build_adjacency}
use janus_graph.Dream.Phase2
use janus_graph.Dream.Phase2.{Snapshot, load_graph_snapshot, run_phase2_dedup}
use janus_graph.Dream.Prune.{PruneStatus, Phase3, run_phase3_prune}
use janus_graph.Dream.Runs.{
  PhaseStatus, phase_skipped, phase_pending, phase_failed, phase_finished, phase_planned,
  phase_partial, RunStatus, completed, completed_with_failures, Phase, clustering, deduplication,
  orphan_pruning, dlq_repair, DreamRun, RunUpdate, UndoEntry, started_run, record_dream_run,
  update_dream_run, undo_writer,
}
pub mod Audit
pub mod Valid
pub mod Unread
mod Examples

-- `cfg.pipeline.dlq_replay`, when it is enabled.
pub record DlqReplay : Type 0 where
  pub limit : ℤ
  pub classes : List Text
  pub min_age_sec : ℕ

pub record DreamSettings : Type 0 where
  pub dedup_apply : Bool
  pub dedup_threshold : Score
  pub policy : RetryPolicy
  pub dlq_replay : Option DlqReplay

-- Where phase 4 raises. A failure in the middle of the reaping or of the replay comes after the
-- UPDATEs of so many rows.
pub data Phase4Fault : Type 0 where
  no_fault at_fairness at_health : Phase4Fault
  at_reaping at_replay : (rows : ℕ) → Phase4Fault

-- What the run meets: the readings of the clock, whether the graph can be opened for each of three
-- phases, which accesses to the queue's database raise, and what other processes do in the gaps.
pub record Meets : Type 0 where
  pub started_at : ℕ
  pub undo_at : ℕ
  pub reaped_at : ℕ
  pub replayed_at : ℕ
  pub completed_at : ℕ
  pub connected_1 : Bool
  pub connected_2 : Bool
  pub connected_3 : Bool
  pub insert_fails : Bool
  pub stats_fail : Bool
  pub undo_fails : Bool
  pub phase_4 : Phase4Fault
  pub reap_others : Text → Db → Db
  pub replay_gaps : Gaps
  pub final_stats_fail : Bool
  pub update_fails : Bool

pub record Dream : Type 0 where
  pub world : World
  pub db : Db
  pub runs : List DreamRun

-- The report of the run, as far as the row takes it.
pub record Results : Type 0 where
  pub status : RunStatus
  pub phase_1 : PhaseStatus
  pub phase_2 : PhaseStatus
  pub phase_3 : PhaseStatus
  pub phase_4 : PhaseStatus
  pub failed_phases : List Phase

-- The payload of phase 1: its status, and the number of nodes of its result, if it has one.
pub record ClusterPayload : Type 0 where
  pub status : PhaseStatus
  pub result : Option ℕ

-- What follows once the graph is open and the snapshot was read, or was not.
pub cluster_snapshot : World × Snapshot × Bool → World × ClusterPayload
cluster_snapshot (w, snap, true) = (w, record { status = phase_failed; result = none })
cluster_snapshot (w, snap, false) = (
  w,
  record {
    status = phase_finished;
    result = some (length (build_adjacency snap.entities snap.relations).nodes);
  },
)

pub run_phase1_cluster : Text → Bool → World → World × ClusterPayload
unfolding cluster_snapshot load_graph_snapshot
run_phase1_cluster gid true w = cluster_snapshot (load_graph_snapshot gid w)
run_phase1_cluster gid false w = (w, record { status = phase_skipped; result = none })

-- `_phase1_result`: a payload without a result counts as a partition of no nodes.
abbrev pub phase1_result : ClusterPayload → ℕ
phase1_result p = get_or p.result 0

abbrev pub cluster_report : ℕ → PhaseStatus
cluster_report zero = phase_skipped
cluster_report (suc n) = phase_finished

pub phase_1 : Text → Meets → World → World × PhaseStatus
unfolding run_phase1_cluster
phase_1 gid m w =
    if m.stats_fail
    then (w, phase_failed)
    else let (w', payload) = run_phase1_cluster gid m.connected_1 w in
      (w', cluster_report (phase1_result payload))

abbrev pub phase_2_status : Phase2.Status → PhaseStatus
phase_2_status Phase2.skipped = phase_skipped
phase_2_status Phase2.failed = phase_failed
phase_2_status Phase2.finished = phase_finished
phase_2_status Phase2.partial = phase_partial

abbrev pub phase_3_status : PruneStatus → PhaseStatus
phase_3_status PruneStatus.prune_skipped = phase_skipped
phase_3_status PruneStatus.prune_failed = phase_failed
phase_3_status PruneStatus.prune_done = phase_finished
phase_3_status PruneStatus.prune_planned = phase_planned
phase_3_status PruneStatus.prune_partial = phase_partial

abbrev pub replay_letters : Gaps → ℕ → RetryPolicy → Option DlqReplay → Db → Db
replay_letters g now policy none db = db
replay_letters g now policy (some d) db =
    (replay_dlq_batch g now d.limit d.classes d.min_age_sec (some policy) db).0

-- The reaping up to a failure: each requeue has been committed by itself.
pub reap_first : ℕ → (others : Text → Db → Db) → ℕ → RetryPolicy → ℤ → Db → Db
reap_first rows others now policy (pos (suc n)) db =
    let ids = map (λ r. r.id) (reap_selection policy (suc n) db) in
    (requeue_guarded others now reset_streak (take rows ids) db).0
reap_first rows others now policy _ db = db

-- The replay up to a failure: of the transaction that the first closed dead letter opens nothing
-- stays, but the requeue before it has been committed.
pub replay_first : ℕ → Gaps → ℕ → List DeadLetter → Db → Db
replay_first zero g now letters db = db
replay_first (suc n) g now [] db = db
replay_first (suc n) g now (d ∷ letters) db =
    let start = g.before d.episode_id db in
    let rest = replay_first n g now letters start in
    elim (update_guarded (is_undone d.episode_id) (replayed_row now) start) [
      | none ↦ rest
      | some db' ↦ g.released d.episode_id db'
    ]

pub replay_letters_first : ℕ → Gaps → ℕ → RetryPolicy → Option DlqReplay → Db → Db
unfolding replay_first
replay_letters_first rows g now policy none db = db
replay_letters_first rows g now policy (some d) db =
    replay_first rows g now (replay_selection now d.limit d.classes d.min_age_sec policy db) db

pub phase_4 : DreamSettings → Meets → Db → Db × PhaseStatus
unfolding reap_failed_or_aborted replay_dlq_batch reap_first replay_letters_first
phase_4 cfg m db =
    let reaped = (reap_failed_or_aborted m.reap_others m.reaped_at none (some cfg.policy) db).0 in
    let replayed = replay_letters m.replay_gaps m.replayed_at cfg.policy cfg.dlq_replay reaped in
    elim m.phase_4 [
      | no_fault ↦ (replayed, phase_finished)
      | at_reaping rows ↦ (
        reap_first rows m.reap_others m.reaped_at cfg.policy cfg.policy.reap_limit db,
        phase_failed,
      )
      | at_fairness ↦ (reaped, phase_failed)
      | at_replay rows ↦ (
        replay_letters_first rows m.replay_gaps m.replayed_at cfg.policy cfg.dlq_replay reaped,
        phase_failed,
      )
      | at_health ↦ (replayed, phase_failed)
    ]

abbrev pub is_failed : PhaseStatus → Bool
is_failed phase_failed = true
is_failed _ = false

abbrev pub named_if : Bool → Phase → List Phase
named_if true p = p ∷ []
named_if false p = []

abbrev pub results_of : PhaseStatus → PhaseStatus → PhaseStatus → PhaseStatus → Results
results_of p1 p2 p3 p4 = record {
  status =
      if is_failed p1 || is_failed p2 || is_failed p3 || is_failed p4
      then completed_with_failures
      else completed;
  phase_1 = p1;
  phase_2 = p2;
  phase_3 = p3;
  phase_4 = p4;
  failed_phases =
      named_if (is_failed p1) clustering
      ++ named_if (is_failed p2) deduplication
      ++ named_if (is_failed p3) orphan_pruning
      ++ named_if (is_failed p4) dlq_repair;
}

abbrev pub message_of : List Phase → Option (List Phase)
message_of [] = none
message_of (p ∷ phases) = some (p ∷ phases)

-- The rows of all statuses together are all the rows.
abbrev pub closing : Meets → Db → Results → RunUpdate
closing m db r = record {
  completed_at = some m.completed_at;
  status = some r.status;
  episodes_evaluated = some (if m.final_stats_fail then 0 else count_total db);
  phase_1_status = some r.phase_1;
  phase_2_status = some r.phase_2;
  phase_3_status = some r.phase_3;
  phase_4_status = some r.phase_4;
  error_message = message_of r.failed_phases;
}

-- The run on an open queue. `log` is the undo log at the start. What phase 2 adds to it is not
-- followed: the phase sees only what the writer answers.
pub run_phases :
    (digest : Text → Text)
    → DreamSettings
    → Bool
    → Text
    → Text
    → List UndoEntry
    → Meets
    → Dream
    → Dream × Results
unfolding phase_1 phase_4 run_phase2_dedup run_phase3_prune record_dream_run update_dream_run
    undo_writer
run_phases digest cfg force gid run_id log m d =
    let opened =
      if m.insert_fails
      then d.runs
      else record_dream_run (started_run run_id m.started_at) d.runs in
    let one = phase_1 gid m d.world in
    let two =
      run_phase2_dedup digest (undo_writer run_id m.undo_at log m.undo_fails) cfg.dedup_threshold
        (force || cfg.dedup_apply) gid m.connected_2 one.0 in
    let three = run_phase3_prune force gid m.connected_3 two.world in
    let four = phase_4 cfg m d.db in
    let results =
      results_of one.1 (phase_2_status two.status) (phase_3_status three.status) four.1 in
    (
      record {
        world = three.world;
        db = four.0;
        runs =
            if m.update_fails
            then opened
            else update_dream_run run_id (closing m four.0 results) opened;
      },
      results,
    )

-- Nothing catches what the opening of the queue raises, and then there is no report.
pub after_opening : (Db → Dream × Results) → Dream → Option Db → Dream × Option Results
after_opening phases d none = (d, none)
after_opening phases d (some db) = let (after, results) = phases db in (after, some results)

-- Opening the queue fills its canonical hashes and makes the index. The phases hash the contents of
-- episodes, the opening the payloads.
pub run_dream_consolidation :
    (digest canonical_digest : Text → Text)
    → DreamSettings
    → Bool
    → Text
    → Text
    → List UndoEntry
    → Meets
    → Dream
    → Dream × Option Results
unfolding run_phases after_opening
run_dream_consolidation digest canonical_digest cfg force gid run_id log m d =
    after_opening (λ db. run_phases digest cfg force gid run_id log m (record d { db = db })) d
      (init_db canonical_digest d.db)
