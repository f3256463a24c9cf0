-- ===== src/Dream/Phase2/Whole.antt =====
-- Phase 2 without `force` (`run_phase2_dedup` of janus_graph/pipeline/dedup_apply.py).
use janus_graph.Base.{
  ℕ, Text, List, [], ◌∷◌, map, ◌≡◌, refl, ap, ◌∙◌, Bool, true, false, Option, none, some,
}
use janus_graph.Base.{filter}
use janus_graph.Dream.Similarity.{Score}
use janus_graph.Dream.Redirect.{Map, resolve}
use janus_graph.Dream.Planner.{Merge}
use janus_graph.Dream.Plan.{DedupPlan, plan_dedup}
use janus_graph.Dream.Episodics.{EpisodicMerge, plan_episodic_exact_dups}
use janus_graph.Dream.Graph.{Mention, Graph, World, Answer, statement, member}
use janus_graph.Dream.Graph.Statements.{statement-rule}
use janus_graph.Dream.Phases.{victims_of}
use janus_graph.Dream.Apply.{apply_plan, apply_merges}
use janus_graph.Dream.Rewire.{episodic_redirect}
use janus_graph.Dream.Fold.{FoldCounters, FoldSession, trouble, survivor_read}
use janus_graph.Dream.Undo.{Writer}
use janus_graph.Dream.Episodic.{
  fold_start, counted_rows, fold_rows, survivors_read, victims_read, apply_episodic_plan,
}
use janus_graph.Dream.Phase2.{
  Snapshot, default_batch, entities_of, episodics_of, mentions_of, relations_of, read,
  load_graph_snapshot, merge_snapshot, with_snapshot, run_phase2_dedup,
}

read-graph : {A : Type 0} (f : Graph → List A) (w : World) → (read f w).0.graph ≡ w.graph
read-graph f w =
    statement-rule (λ p. p.0.graph ≡ w.graph) (λ g. (g, f g)) w (λ rest. refl) (λ rest. refl)
      (λ rest. refl)

pub load-graph : (gid : Text) (w : World) → (load_graph_snapshot gid w).0.graph ≡ w.graph
unfolding load_graph_snapshot
load-graph gid w =
    let a = read (entities_of gid) w in
    let b = read (episodics_of gid) a.0 in
    let c = read (mentions_of gid) b.0 in
    read-graph (relations_of gid) c.0
    ∙ read-graph (mentions_of gid) b.0
    ∙ read-graph (episodics_of gid) a.0
    ∙ read-graph (entities_of gid) w

apply_merges-dry :
    (merges : List Merge) (plan : DedupPlan) (batch : ℕ) (w : World)
    → (apply_merges merges plan false batch w).world ≡ w
unfolding apply_merges
apply_merges-dry [] plan batch w = refl
apply_merges-dry (g ∷ merges) plan batch w = refl

module _ (writer : Writer) (m : Map) (merges : List EpisodicMerge) (batch : ℕ) (start : Graph) where
  fold_rows-dry :
      (rows surv_rows : List Mention) (s : FoldSession)
      → s.world.graph ≡ start
      → (fold_rows writer m merges false batch rows surv_rows s).session.world.graph ≡ start
  unfolding fold_rows counted_rows
  fold_rows-dry rows surv_rows s h = h

  victims_read-dry :
      (c : FoldCounters) (p : World × Option (List Mention))
      → p.0.graph ≡ start
      → (victims_read writer m merges false batch c p).session.world.graph ≡ start
  unfolding victims_read survivors_read
  victims_read-dry c (w, none) h = h
  victims_read-dry c (w, some []) h = h
  victims_read-dry c (w, some (e ∷ rows)) h =
      statement-rule
        (λ p.
          (survivors_read writer m merges false batch (e ∷ rows) c p).session.world.graph ≡ start)
        (λ g. (g, filter (λ x. member x.src (map (λ k. resolve m k.0) m)) g.mentions)) w
        (λ rest. fold_rows-dry (e ∷ rows) [] (failed rest) h)
        (λ rest. fold_rows-dry (e ∷ rows) [] (failed rest) h)
        (λ rest.
          fold_rows-dry (e ∷ rows)
            (filter (λ x. member x.src (map (λ k. resolve m k.0) m)) w.graph.mentions)
            (record { world = record { graph = w.graph; answers = rest }; counters = c }) h)
    where
      failed : List Answer → FoldSession
      failed rest = trouble survivor_read (record { graph = w.graph; answers = rest }) c

apply_episodic_plan-dry :
    (writer : Writer) (merges : List EpisodicMerge) (batch : ℕ) (w : World)
    → (apply_episodic_plan writer merges false batch w).session.world.graph ≡ w.graph
unfolding apply_episodic_plan
apply_episodic_plan-dry writer [] batch w = refl
apply_episodic_plan-dry writer (g ∷ merges) batch w =
    let m = episodic_redirect [] (g ∷ merges) in
    let f : Graph → Graph × List Mention =
      λ k. (k, filter (λ x. member x.src (victims_of m)) k.mentions) in
    victims_read-dry writer m (g ∷ merges) batch w.graph (fold_start false m (g ∷ merges))
      (statement f w)
      (statement-rule (λ p. p.0.graph ≡ w.graph) f w (λ rest. refl) (λ rest. refl) (λ rest. refl))

module _ (digest : Text → Text) (writer : Writer) (threshold : Score) where
  merge_snapshot-dry :
      (snap : Snapshot) (w : World)
      → (merge_snapshot digest writer threshold false snap w).world.graph ≡ w.graph
  unfolding merge_snapshot apply_plan
  merge_snapshot-dry snap w =
      let plan = plan_dedup snap.entities snap.mentions snap.relations threshold in
      let applied = apply_plan plan false default_batch w in
      apply_episodic_plan-dry writer (plan_episodic_exact_dups digest snap.episodics) default_batch
        applied.world
      ∙ ap (λ (v : World). v.graph) (apply_merges-dry plan.merges plan default_batch w)

  with_snapshot-dry :
      (p : World × Snapshot × Bool)
      → (with_snapshot digest writer threshold false p).world.graph ≡ p.0.graph
  unfolding with_snapshot
  with_snapshot-dry (w, snap, true) = refl
  with_snapshot-dry (w, snap, false) = merge_snapshot-dry snap w

  -- Without `force` phase 2 leaves the graph as it is, whatever it plans and whatever statements
  -- fail.
  pub run_phase2_dedup-dry :
      (gid : Text) (connected : Bool) (w : World)
      → (run_phase2_dedup digest writer threshold false gid connected w).world.graph ≡ w.graph
  unfolding run_phase2_dedup
  run_phase2_dedup-dry gid false w = refl
  run_phase2_dedup-dry gid true w = with_snapshot-dry (load_graph_snapshot gid w) ∙ load-graph gid w
