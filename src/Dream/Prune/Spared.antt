-- ===== src/Dream/Prune/Spared.antt =====
-- What phase 3 leaves alone (`run_phase3_prune` of janus_graph/pipeline/dream_apply.py).
use janus_graph.Base.{
  ℕ, zero, suc, Text, text_eq, List, [], ◌∷◌, ◌≡◌, refl, ◌∙◌, map, arith, Bool, true, false, Option,
  none, some, get_or, count, filter, All, All-map, All-append, All-of, Bool-cases, inl, inr,
  any_of_All, All-zip, All-filter, filter_passes, subst, text_eq_sym, if_both, Option-cases,
  All-map_list,
}
use janus_graph.Dream.Planner.{Node}
use janus_graph.Dream.Plan.{Edge}
use janus_graph.Dream.Graph.{Entity, Graph, World, statement, has_entity, member}
use janus_graph.Dream.Graph.Statements.{statement-rule}
use janus_graph.Dream.Cleanup.{is_deletable, delete_nodes}
use janus_graph.Dream.Cleanup.Isolated.{mentions_stay, relations_stay, entity_stays}
use janus_graph.Dream.Phase2.{Snapshot, load_graph_snapshot, node_of, entities_of, in_group}
use janus_graph.Dream.Phase2.Whole.{load-graph}
use janus_graph.Dream.Prune.{
  Orphan, PrunePlan, PruneCounters, PruneSession, orphan_deleted, orphan_counted, existing_counted,
  delete_orphans, prune_nodes, prune_snapshot, prunable_of, find_orphan_candidates,
  plan_orphan_pruning, is_blank, orphan, orphan_here, orphans_among, referenced_uuids,
  run_phase3_prune, no_prune_counters,
}

abbrev snapshot_of : World × Snapshot × Bool → Snapshot
snapshot_of (w, snap, failed) = snap

-- What the deletion of one of the nodes keeps, the loop keeps. `C` holds of the uuids.
module _ (P : Graph → Type 0) (C : Text → Type 0)
    (keeps : (u : Text) (g : Graph) → C u → P g → P (delete_nodes (u ∷ []) g)) where
  orphan_counted-P :
      (u : Text) (c : PruneCounters) (p : World × Option ℕ)
      → C u
      → P p.0.graph
      → P (orphan_counted u c p).world.graph
  unfolding orphan_counted orphan_deleted
  orphan_counted-P u c (w, none) q h = h
  orphan_counted-P u c (w, some zero) q h = h
  orphan_counted-P u c (w, some (suc n)) q h =
      let gone = keeps u w.graph q h in
      statement-rule (λ p. P (orphan_deleted c p).world.graph) (λ g. (delete_nodes (u ∷ []) g, tt))
        w (λ rest. h) (λ rest. gone) (λ rest. gone)

  existing_counted-P :
      (u : Text) (c : PruneCounters) (p : World × Option ℕ)
      → C u
      → P p.0.graph
      → P (existing_counted u c p).world.graph
  unfolding existing_counted
  existing_counted-P u c (w, none) q h = h
  existing_counted-P u c (w, some zero) q h = h
  existing_counted-P u c (w, some (suc n)) q h =
      let f : Graph → Graph × ℕ =
        λ g. (g, count (λ x. is_deletable (u ∷ []) g x.uuid) g.entities) in
      orphan_counted-P u c (statement f w) q
        (statement-rule (λ p. P p.0.graph) f w (λ rest. h) (λ rest. h) (λ rest. h))

  delete_orphans-P :
      (uuids : List Text) (s : PruneSession)
      → All C uuids
      → P s.world.graph
      → P (delete_orphans uuids s).world.graph
  unfolding delete_orphans
  delete_orphans-P [] s q h = h
  delete_orphans-P (u ∷ uuids) s q h =
      let f : Graph → Graph × ℕ = λ g. (g, count (λ x. text_eq x.uuid u) g.entities) in
      delete_orphans-P uuids (existing_counted u s.counters (statement f s.world)) q.1 (
        existing_counted-P u s.counters (statement f s.world) q.0
          (statement-rule (λ p. P p.0.graph) f s.world (λ rest. h) (λ rest. h) (λ rest. h)))

  prune_nodes-P :
      (plan : PrunePlan) (orphans : List Orphan) (force : Bool) (w : World)
      → All C (map (λ o. o.uuid) orphans)
      → P w.graph
      → P (prune_nodes plan orphans force w).world.graph
  unfolding prune_nodes
  prune_nodes-P plan [] force w q h = h
  prune_nodes-P plan (o ∷ orphans) false w q h = h
  prune_nodes-P plan (o ∷ orphans) true w q h =
      delete_orphans-P (o.uuid ∷ map (λ x. x.uuid) orphans)
        (record { world = w; counters = no_prune_counters }) q h

  prune_snapshot-P :
      (force : Bool) (p : World × Snapshot × Bool)
      → (let snap = snapshot_of p in
          All C (
            map
              (λ o. o.uuid)
              (prunable_of (find_orphan_candidates snap.entities snap.mentions snap.relations))))
      → P p.0.graph
      → P (prune_snapshot force p).world.graph
  unfolding prune_snapshot plan_orphan_pruning
  prune_snapshot-P force (w, snap, true) q h = h
  prune_snapshot-P force (w, snap, false) q h =
      prune_nodes-P (plan_orphan_pruning snap.entities snap.mentions snap.relations)
        (prunable_of (find_orphan_candidates snap.entities snap.mentions snap.relations)) force w q
        h

-- Phase 3 deletes no edge, whatever statements fail.
pub run_phase3_prune-edges :
    (force : Bool) (gid : Text) (connected : Bool) (w : World)
    → ((run_phase3_prune force gid connected w).world.graph.mentions ≡ w.graph.mentions)
      × ((run_phase3_prune force gid connected w).world.graph.relations ≡ w.graph.relations)
unfolding run_phase3_prune
run_phase3_prune-edges force gid false w = (refl, refl)
run_phase3_prune-edges force gid true w =
    let Kept = λ (g : Graph). (g.mentions ≡ w.graph.mentions) × (g.relations ≡ w.graph.relations) in
    prune_snapshot-P Kept (λ u. Unit {0})
      (λ u g q h. (mentions_stay (u ∷ []) g ∙ h.0, relations_stay (u ∷ []) g ∙ h.1)) force
      (load_graph_snapshot gid w) (All-of _ (λ u. tt)) (rw (load-graph gid w) (refl, refl))

-- Under the uuid there is text in the summary.
abbrev pub HoldsText : Text → Entity → Type 0
HoldsText u n = text_eq n.uuid u ≡ true → is_blank (get_or n.summary []) ≡ false

abbrev Spares : Text → Node → Type 0
Spares u n =
    (v : Text) → n.uuid ≡ some v → text_eq v u ≡ true → is_blank (get_or n.summary []) ≡ false

module _ (u : Text) where
  -- A candidate that may go has another uuid.
  abbrev Other : Orphan → Type 0
  Other o = o.prunable ≡ true → text_eq o.uuid u ≡ false

  orphan-Other :
      (v name summary : Text)
      → (text_eq v u ≡ true → is_blank summary ≡ false)
      → Other (orphan v name summary)
  orphan-Other v name summary h = elim (Bool-cases (is_blank summary)) [
    | inl blank ↦ rw blank (λ k. other blank)
    | inr held ↦ rw held (λ k. absurd (ground (arith, k)))
  ]
    where
      other : is_blank summary ≡ true → text_eq v u ≡ false
      other blank = elim (Bool-cases (text_eq v u)) [
        | inl same ↦ absurd (ground (arith, h same, blank))
        | inr e ↦ e
      ]

  here-Other : (refs : List Text) (n : Node) → Spares u n → All Other (orphan_here refs n)
  here-Other refs n h = elim (Option-cases n.uuid) [
    | inl e ↦ rw e tt
    | inr (v, e) ↦ rw e (
        if_both (member v refs) (All Other) tt
          (orphan-Other v (get_or n.name []) (get_or n.summary []) (h v e), tt))
  ]

  among-Other :
      (refs : List Text) (nodes : List Node)
      → All (Spares u) nodes
      → All Other (orphans_among refs nodes)
  unfolding orphans_among
  among-Other refs [] h = tt
  among-Other refs (n ∷ nodes) h =
      All-append Other (orphan_here refs n) (orphans_among refs nodes) (here-Other refs n h.0)
        (among-Other refs nodes h.1)

  prunable-other :
      (entities : List Node) (mentions relations : List Edge)
      → All (Spares u) entities
      → All
          (λ v. text_eq u v ≡ false)
          (map (λ o. o.uuid) (prunable_of (find_orphan_candidates entities mentions relations)))
  unfolding find_orphan_candidates
  prunable-other entities mentions relations h =
      let refs = referenced_uuids mentions relations in
      let found = orphans_among refs entities in
      All-map_list (λ v. text_eq u v ≡ false) (λ (o : Orphan). o.uuid) (prunable_of found)
        (All-zip (prunable_of found) (λ o k q. text_eq_sym u o.uuid ∙ q k)
          (filter_passes (λ o. o.prunable) found)
          (All-filter Other (λ o. o.prunable) found (among-Other refs entities h)))

  load-Spares :
      (gid : Text) (w : World)
      → All (HoldsText u) w.graph.entities
      → All (Spares u) (snapshot_of (load_graph_snapshot gid w)).entities
  unfolding load_graph_snapshot
  load-Spares gid w h =
      let spared =
        All-map_list (Spares u) node_of (filter (λ n. in_group gid n.group_id) w.graph.entities) (
          All-filter (λ n. Spares u (node_of n)) (λ n. in_group gid n.group_id) w.graph.entities
            (All-map w.graph.entities
              (λ n k v e same. k (subst (λ x. text_eq x u ≡ true) (cc) same)) h)) in
      statement-rule (λ p. All (Spares u) (get_or p.1 [])) (λ g. (g, entities_of gid g)) w
        (λ rest. tt) (λ rest. tt) (λ rest. spared)

-- Whatever statements fail, phase 3 keeps an entity if no entity with its uuid has a blank summary.
pub run_phase3_prune-has_entity :
    (force : Bool) (gid : Text) (connected : Bool) (u : Text) (w : World)
    → All (HoldsText u) w.graph.entities
    → has_entity u w.graph ≡ true
    → has_entity u (run_phase3_prune force gid connected w).world.graph ≡ true
unfolding run_phase3_prune
run_phase3_prune-has_entity force gid false u w spared h = h
run_phase3_prune-has_entity force gid true u w spared h =
    let p = load_graph_snapshot gid w in
    let snap = snapshot_of p in
    prune_snapshot-P (λ g. has_entity u g ≡ true) (λ v. text_eq u v ≡ false)
      (λ v g q k.
        entity_stays (v ∷ []) g u (rw (any_of_All (text_eq u) (v ∷ []) (q, tt)) (ground arith)) k)
      force p
      (prunable-other u snap.entities snap.mentions snap.relations (load-Spares u gid w spared))
      (rw (load-graph gid w) h)
