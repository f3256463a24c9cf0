-- ===== src/Dream/Cycle/Audit.antt =====
-- What a run of the dream cycle leaves behind (`run_dream_consolidation` of
-- janus_graph/pipeline/dream.py).
use janus_graph.Base.{
  arith, sym, Text, text_eq_self, List, [], ◌∷◌, ◌++◌, ◌≡◌, refl, ◌∙◌, Bool, true, false, not,
  Option, none, some, find, filter, update, Bool-cases, inl, inr, if_both, ap, if◌then◌else◌,
}
use mathlib.Core.Option
use janus_graph.Queue.Schema.{Db}
use janus_graph.Queue.Opening.{init_db}
use janus_graph.Queue.Reports.{count_total}
use janus_graph.Dream.Graph.{World}
use janus_graph.Dream.Phase2.{Snapshot, load_graph_snapshot, run_phase2_dedup}
use janus_graph.Dream.Phase2.Whole.{load-graph, run_phase2_dedup-dry}
use janus_graph.Dream.Prune.{
  Orphan, PrunePlan, prune_nodes, prune_snapshot, run_phase3_prune, plan_orphan_pruning,
  prunable_of,
}
use janus_graph.Dream.Runs.{
  PhaseStatus, DreamRun, UndoEntry, record_dream_run, update_dream_run, undo_writer, has_run_id,
  started_run, updated_run, or_kept,
}
use janus_graph.Dream.Cycle.{
  after_opening, DreamSettings, Meets, Dream, Results, cluster_snapshot, run_phase1_cluster,
  phase_1, run_phases, closing, message_of, run_dream_consolidation,
}

cluster_snapshot-world : (p : World × Snapshot × Bool) → (cluster_snapshot p).0 ≡ p.0
unfolding cluster_snapshot
cluster_snapshot-world (w, snap, true) = refl
cluster_snapshot-world (w, snap, false) = refl

run_phase1_cluster-graph :
    (gid : Text) (connected : Bool) (w : World)
    → (run_phase1_cluster gid connected w).0.graph ≡ w.graph
unfolding run_phase1_cluster
run_phase1_cluster-graph gid true w =
    ap (λ (v : World). v.graph) (cluster_snapshot-world (load_graph_snapshot gid w))
    ∙ load-graph gid w
run_phase1_cluster-graph gid false w = refl

-- Phase 1 only reads.
phase_1-graph : (gid : Text) (m : Meets) (w : World) → (phase_1 gid m w).0.graph ≡ w.graph
unfolding phase_1
phase_1-graph gid m w =
    if_both m.stats_fail (λ (p : World × PhaseStatus). p.0.graph ≡ w.graph) refl
      (run_phase1_cluster-graph gid m.connected_1 w)

prune_nodes-dry :
    (plan : PrunePlan) (orphans : List Orphan) (w : World)
    → (prune_nodes plan orphans false w).world ≡ w
unfolding prune_nodes
prune_nodes-dry plan [] w = refl
prune_nodes-dry plan (o ∷ orphans) w = refl

prune_snapshot-dry : (p : World × Snapshot × Bool) → (prune_snapshot false p).world ≡ p.0
unfolding prune_snapshot
prune_snapshot-dry (w, snap, true) = refl
prune_snapshot-dry (w, snap, false) =
    let plan = plan_orphan_pruning snap.entities snap.mentions snap.relations in
    prune_nodes-dry plan (prunable_of plan.candidates) w

run_phase3_prune-dry :
    (gid : Text) (connected : Bool) (w : World)
    → (run_phase3_prune false gid connected w).world.graph ≡ w.graph
unfolding run_phase3_prune
run_phase3_prune-dry gid false w = refl
run_phase3_prune-dry gid true w =
    ap (λ (v : World). v.graph) (prune_snapshot-dry (load_graph_snapshot gid w)) ∙ load-graph gid w

run_phases-dry :
    (digest : Text → Text) (cfg : DreamSettings) (gid run_id : Text) (log : List UndoEntry)
    (m : Meets) (d : Dream)
    → cfg.dedup_apply ≡ false
    → (run_phases digest cfg false gid run_id log m d).0.world.graph ≡ d.world.graph
unfolding run_phases
run_phases-dry digest cfg gid run_id log m d off =
    let writer = undo_writer run_id m.undo_at log m.undo_fails in
    let one = phase_1 gid m d.world in
    let two = run_phase2_dedup digest writer cfg.dedup_threshold false gid m.connected_2 one.0 in
    rw off (
      run_phase3_prune-dry gid m.connected_3 two.world
      ∙ run_phase2_dedup-dry digest writer cfg.dedup_threshold gid m.connected_2 one.0
      ∙ phase_1-graph gid m d.world)

pub after_opening-rule :
    (P : Dream → Type 0) (phases : Db → Dream × Results) (d : Dream) (o : Option Db)
    → P d
    → ((db : Db) → o ≡ some db → P (phases db).0)
    → P (after_opening phases d o).0
unfolding after_opening
after_opening-rule P phases d none h k = h
after_opening-rule P phases d (some db) h k = k db refl

-- A run that ends with a report has opened the queue.
pub after_opening-report :
    (phases : Db → Dream × Results) (d : Dream) (o : Option Db) (r : Results)
    → (after_opening phases d o).1 ≡ some r
    → (db : Db) × (((after_opening phases d o).0 ≡ (phases db).0) × ((phases db).1 ≡ r))
unfolding after_opening
after_opening-report phases d none r h = absurd (ground (arith, h))
after_opening-report phases d (some db) r h = (db, (refl, Option.some_inj.0 h))

-- A run without `force`, with `dedup_apply` off, leaves the graph as it is, whatever fails.
pub run_dream_consolidation-dry :
    (digest canonical_digest : Text → Text) (cfg : DreamSettings) (gid run_id : Text)
    (log : List UndoEntry) (m : Meets) (d : Dream)
    → cfg.dedup_apply ≡ false
    → (run_dream_consolidation digest canonical_digest cfg false gid run_id log m d).0.world.graph
      ≡ d.world.graph
unfolding run_dream_consolidation
run_dream_consolidation-dry digest canonical_digest cfg gid run_id log m d off =
    after_opening-rule (λ (x : Dream). x.world.graph ≡ d.world.graph)
      (λ db. run_phases digest cfg false gid run_id log m (record d { db = db })) d
      (init_db canonical_digest d.db) refl
      (λ db e. run_phases-dry digest cfg gid run_id log m (record d { db = db }) off)

find_last :
    {A : Type 0} (p : A → Bool) (f : A → A) (x : A) (xs : List A)
    → p x ≡ true
    → p (f x) ≡ true
    → find p (update p f (filter (λ y. not (p y)) xs ++ x ∷ [])) ≡ some (f x)
unfolding find update filter
find_last p f x [] h k = rw (h, k) refl
find_last p f x (y ∷ xs) h k = elim (Bool-cases (p y)) [
  | inl e ↦ rw e (find_last p f x xs h k)
  | inr e ↦ rw (e, e, e) (find_last p f x xs h k)
]

-- The row of a run that has ended.
abbrev pub ended_run : Text → Meets → Db → Results → DreamRun
ended_run run_id m db r = record {
  run_id = run_id;
  started_at = m.started_at;
  completed_at = some m.completed_at;
  status = r.status;
  episodes_evaluated = if m.final_stats_fail then 0 else count_total db;
  phase_1_status = r.phase_1;
  phase_2_status = r.phase_2;
  phase_3_status = r.phase_3;
  phase_4_status = r.phase_4;
  error_message = message_of r.failed_phases;
}

or_kept-none : {A : Type 0} (o : Option A) → or_kept o none ≡ o
or_kept-none none = refl
or_kept-none (some a) = refl

updated-ended :
    (run_id : Text) (m : Meets) (db : Db) (r : Results)
    → updated_run (closing m db r) (started_run run_id m.started_at) ≡ ended_run run_id m db r
updated-ended run_id m db r =
    ap (λ e. record (ended_run run_id m db r) { error_message = e })
      (or_kept-none (message_of r.failed_phases))

run_phases-recorded :
    (digest : Text → Text) (cfg : DreamSettings) (force : Bool) (gid run_id : Text)
    (log : List UndoEntry) (m : Meets) (d : Dream)
    → m.insert_fails ≡ false
    → m.update_fails ≡ false
    → let after = run_phases digest cfg force gid run_id log m d in
      find (has_run_id run_id) after.0.runs ≡ some (ended_run run_id m after.0.db after.1)
unfolding run_phases record_dream_run update_dream_run
run_phases-recorded digest cfg force gid run_id log m d fine written =
    let after = run_phases digest cfg force gid run_id log m d in
    rw (fine, written)
      (find_last (has_run_id run_id) (updated_run (closing m after.0.db after.1))
          (started_run run_id m.started_at) d.runs (text_eq_self run_id) (text_eq_self run_id)
        ∙ ap some (updated-ended run_id m after.0.db after.1))

-- If the queue opens and neither write of the row fails, the first row under the id of the run
-- holds afterwards its start, its end, the number of episodes, and the statuses and failed phases
-- that the report gives.
pub run_dream_consolidation-recorded :
    (digest canonical_digest : Text → Text) (cfg : DreamSettings) (force : Bool) (gid run_id : Text)
    (log : List UndoEntry) (m : Meets) (d : Dream) (r : Results)
    → (run_dream_consolidation digest canonical_digest cfg force gid run_id log m d).1 ≡ some r
    → m.insert_fails ≡ false
    → m.update_fails ≡ false
    → let after = run_dream_consolidation digest canonical_digest cfg force gid run_id log m d in
      find (has_run_id run_id) after.0.runs ≡ some (ended_run run_id m after.0.db r)
unfolding run_dream_consolidation
run_dream_consolidation-recorded digest canonical_digest cfg force gid run_id log m d r h fine
      written =
    let phases = λ (db : Db). run_phases digest cfg force gid run_id log m (record d { db = db }) in
    let (db, (same, report)) = after_opening-report phases d (init_db canonical_digest d.db) r h in
    let ended =
      run_phases-recorded digest cfg force gid run_id log m (record d { db = db }) fine written in
    rw (same, sym report) ended
