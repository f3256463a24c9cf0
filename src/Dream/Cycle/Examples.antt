-- ===== src/Dream/Cycle/Examples.antt =====
-- Tests of phase 3 and of the run of the dream cycle (janus_graph/pipeline/dream.py).
use janus_graph.Base.{find, text_eq, codes, [], ◌∷◌, ◌≡◌, refl, arith, true, false, some, any}
use janus_graph.Dream.Graph.{World, statement, fails, has_entity}
use janus_graph.Dream.Prune.{run_phase3_prune}
use janus_graph.Dream.Prune.Spared.{run_phase3_prune-edges, run_phase3_prune-has_entity}
use janus_graph.Queue.Samples
use janus_graph.Queue.Valid.{IsValid}
use janus_graph.Dream.Runs.{has_run_id}
use janus_graph.Queue.Opening.{init_db, backfill_canonical_hash, write_hashes, ensure_unique_index}
use janus_graph.Dream.Runs.{phase_skipped}
use janus_graph.Dream.Cycle.{
  run_phase1_cluster, Dream, after_opening, run_phases, run_dream_consolidation,
}
use janus_graph.Dream.Cycle.Valid.{run_dream_consolidation-IsValid}
use janus_graph.Dream.Cycle.Unread.{is_clustering, run_dream_consolidation-unread}
use janus_graph.Dream.Cycle.Audit.{
  ended_run, run_dream_consolidation-dry, run_dream_consolidation-recorded,
}
use janus_graph.Dream.Clustering.{build_adjacency, ranked, propagate_labels}
use janus_graph.Dream.Clustering.Settled.{IsSettled, propagate_labels-IsSettled}
use janus_graph.Dream.Samples.{nodes, relation_edges}
use janus_graph.Dream.Samples.{graph, blank_world, settings, meets, dream}

run_phase3_prune-edges_example :
    ((run_phase3_prune true (codes "g") true blank_world).world.graph.mentions ≡ graph.mentions)
    × ((run_phase3_prune true (codes "g") true blank_world).world.graph.relations ≡ graph.relations)
run_phase3_prune-edges_example = run_phase3_prune-edges true (codes "g") true blank_world

run_phase3_prune-has_entity_example :
    has_entity (codes "b") (run_phase3_prune true (codes "g") true blank_world).world.graph ≡ true
unfolding any text_eq
run_phase3_prune-has_entity_example =
    run_phase3_prune-has_entity true (codes "g") true (codes "b") blank_world
      (
        (λ h. absurd (ground (arith, h))),
        ((λ h. absurd (ground (arith, h))), ((λ h. absurd (ground (arith, h))), ((λ h. refl), tt))),
      )
      refl

run_dream_consolidation-dry_example :
    (run_dream_consolidation
      (λ s. s)
      (λ s. s)
      settings
      false
      (codes "g")
      (codes "1")
      []
      meets
      dream).0.world.graph
    ≡ graph
run_dream_consolidation-dry_example =
    run_dream_consolidation-dry (λ s. s) (λ s. s) settings (codes "g") (codes "1") [] meets dream
      refl

run_dream_consolidation-IsValid_example :
    IsValid
      (run_dream_consolidation
        (λ s. s)
        (λ s. s)
        settings
        true
        (codes "g")
        (codes "1")
        []
        meets
        dream).0.db
run_dream_consolidation-IsValid_example =
    run_dream_consolidation-IsValid (λ s. s) (λ s. s) settings true (codes "g") (codes "1") [] meets
      dream (λ id d v. v) (λ id d v. v, λ id d v. v) Samples.db-IsValid

-- The sample is complete already, and its index exists.
opens : init_db (λ s. s) Samples.db ≡ some Samples.db
unfolding init_db backfill_canonical_hash write_hashes ensure_unique_index
opens = refl

reports :
    (w : World)
    → let d = record dream { world = w } in
      (run_dream_consolidation (λ s. s) (λ s. s) settings true (codes "g") (codes "1") [] meets d).1
      ≡ some (run_phases (λ s. s) settings true (codes "g") (codes "1") [] meets d).1
unfolding run_dream_consolidation after_opening
reports w = rw opens refl

run_dream_consolidation-recorded_example :
    let phases = run_phases (λ s. s) settings true (codes "g") (codes "1") [] meets dream in
    let after =
      run_dream_consolidation
        (λ s. s)
        (λ s. s)
        settings
        true
        (codes "g")
        (codes "1")
        []
        meets
        dream in
    find (has_run_id (codes "1")) after.0.runs
    ≡ some (ended_run (codes "1") meets after.0.db phases.1)
run_dream_consolidation-recorded_example =
    run_dream_consolidation-recorded (λ s. s) (λ s. s) settings true (codes "g") (codes "1") []
      meets dream (run_phases (λ s. s) settings true (codes "g") (codes "1") [] meets dream).1
      (reports dream.world) refl refl

abbrev unread : Dream
unread = record dream { world = record { graph = graph; answers = fails ∷ [] } }

run_dream_consolidation-unread_example :
    let r = (run_phases (λ s. s) settings true (codes "g") (codes "1") [] meets unread).1 in
    (r.phase_1 ≡ phase_skipped) × (any is_clustering r.failed_phases ≡ false)
unfolding run_phase1_cluster statement
run_dream_consolidation-unread_example =
    run_dream_consolidation-unread (λ s. s) (λ s. s) settings true (codes "g") (codes "1") [] meets
      unread (run_phases (λ s. s) settings true (codes "g") (codes "1") [] meets unread).1
      (reports unread.world) refl refl

propagate_labels-IsSettled_example :
    let adj = build_adjacency nodes relation_edges in
    IsSettled adj 1 (ranked 0 adj.nodes) 1_000 (propagate_labels adj 1 1_000)
propagate_labels-IsSettled_example =
    propagate_labels-IsSettled (build_adjacency nodes relation_edges) 1 1_000
