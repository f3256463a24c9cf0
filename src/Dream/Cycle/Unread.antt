-- ===== src/Dream/Cycle/Unread.antt =====
-- What the report of a run says of phase 1 when the graph could not be read
-- (janus_graph/pipeline/dream.py, dream_apply.py and dream_phases.py).
use janus_graph.Base.{
  ◌||◌, subst, any, sym, Text, List, ◌++◌, ◌≡◌, refl, Bool, true, false, none, some,
}
use janus_graph.Queue.Schema.{Db}
use janus_graph.Queue.Opening.{init_db}
use janus_graph.Dream.Graph.{World}
use janus_graph.Dream.Phase2.{Snapshot, load_graph_snapshot, run_phase2_dedup}
use janus_graph.Dream.Prune.{run_phase3_prune}
use janus_graph.Dream.Runs.{
  PhaseStatus, UndoEntry, undo_writer, phase_failed, phase_skipped, Phase, clustering,
  deduplication, orphan_pruning, dlq_repair,
}
use janus_graph.Dream.Cycle.{
  phase_2_status, phase_3_status, results_of, phase_4, DreamSettings, Meets, Dream, Results,
  cluster_snapshot, run_phase1_cluster, phase_1, is_failed, run_phases, named_if,
  run_dream_consolidation,
}
use janus_graph.Dream.Cycle.Audit.{after_opening-report}

-- A payload that reports a failure has no result.
cluster_snapshot-failed :
    (p : World × Snapshot × Bool)
    → (cluster_snapshot p).1.status ≡ phase_failed
    → (cluster_snapshot p).1.result ≡ none
unfolding cluster_snapshot
cluster_snapshot-failed (w, snap, true) h = refl
cluster_snapshot-failed (w, snap, false) h = cc

run_phase1_cluster-failed :
    (gid : Text) (connected : Bool) (w : World)
    → (run_phase1_cluster gid connected w).1.status ≡ phase_failed
    → (run_phase1_cluster gid connected w).1.result ≡ none
unfolding run_phase1_cluster
run_phase1_cluster-failed gid true w h = cluster_snapshot-failed (load_graph_snapshot gid w) h
run_phase1_cluster-failed gid false w h = refl

phase_1-unread :
    (gid : Text) (m : Meets) (w : World)
    → m.stats_fail ≡ false
    → (run_phase1_cluster gid m.connected_1 w).1.status ≡ phase_failed
    → (phase_1 gid m w).1 ≡ phase_skipped
unfolding phase_1
phase_1-unread gid m w counted failed =
    let empty = run_phase1_cluster-failed gid m.connected_1 w failed in rw (counted, empty) refl

abbrev pub is_clustering : Phase → Bool
is_clustering clustering = true
is_clustering _ = false

results_of-skipped :
    (p2 p3 p4 : PhaseStatus)
    → any is_clustering (results_of phase_skipped p2 p3 p4).failed_phases ≡ false
unfolding any
results_of-skipped p2 p3 p4 = go (is_failed p2) (is_failed p3) (is_failed p4)
  where
    go :
        (b2 b3 b4 : Bool)
        → any is_clustering
            (named_if b2 deduplication ++ named_if b3 orphan_pruning ++ named_if b4 dlq_repair)
          ≡ false
    go true true true = refl
    go true true false = refl
    go true false true = refl
    go true false false = refl
    go false true true = refl
    go false true false = refl
    go false false true = refl
    go false false false = refl

run_phases-unread :
    (digest : Text → Text) (cfg : DreamSettings) (force : Bool) (gid run_id : Text)
    (log : List UndoEntry) (m : Meets) (d : Dream)
    → (phase_1 gid m d.world).1 ≡ phase_skipped
    → let r = (run_phases digest cfg force gid run_id log m d).1 in
      (r.phase_1 ≡ phase_skipped) × (any is_clustering r.failed_phases ≡ false)
unfolding run_phases
run_phases-unread digest cfg force gid run_id log m d skipped =
    let one = phase_1 gid m d.world in
    let two =
      run_phase2_dedup digest (undo_writer run_id m.undo_at log m.undo_fails) cfg.dedup_threshold
        (force || cfg.dedup_apply) gid m.connected_2 one.0 in
    let three = run_phase3_prune force gid m.connected_3 two.world in
    (
      skipped,
      subst
          (λ p.
            any is_clustering
              (results_of p (phase_2_status two.status) (phase_3_status three.status)
                (phase_4 cfg m d.db).1).failed_phases
            ≡ false)
          (sym skipped)
          (results_of-skipped (phase_2_status two.status) (phase_3_status three.status)
            (phase_4 cfg m d.db).1),
    )

-- The queue opens and its count works. If phase 1 reports FAILED in its payload, the report of the
-- run still says that the phase was skipped, and it is not among the failed phases.
pub run_dream_consolidation-unread :
    (digest canonical_digest : Text → Text) (cfg : DreamSettings) (force : Bool) (gid run_id : Text)
    (log : List UndoEntry) (m : Meets) (d : Dream) (r : Results)
    → (run_dream_consolidation digest canonical_digest cfg force gid run_id log m d).1 ≡ some r
    → m.stats_fail ≡ false
    → (run_phase1_cluster gid m.connected_1 d.world).1.status ≡ phase_failed
    → (r.phase_1 ≡ phase_skipped) × (any is_clustering r.failed_phases ≡ false)
unfolding run_dream_consolidation
run_dream_consolidation-unread digest canonical_digest cfg force gid run_id log m d r h counted
      failed =
    let phases = λ (db : Db). run_phases digest cfg force gid run_id log m (record d { db = db }) in
    let (db, (same, report)) = after_opening-report phases d (init_db canonical_digest d.db) r h in
    subst
      (λ (x : Results). (x.phase_1 ≡ phase_skipped) × (any is_clustering x.failed_phases ≡ false))
      report
      (run_phases-unread digest cfg force gid run_id log m (record d { db = db })
        (phase_1-unread gid m d.world counted failed))
