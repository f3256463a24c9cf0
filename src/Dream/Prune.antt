-- ===== src/Dream/Prune.antt =====
-- Phase 3 of the dream cycle: the planning of orphans in janus_graph/pipeline/dream_phases.py, and
-- `run_phase3_prune` of janus_graph/pipeline/dream_apply.py. The texts of the reasons are left out.
use janus_graph.Base.{
  ℕ, zero, suc, Text, text_eq, List, [], ◌∷◌, ◌++◌, ◌+◌, map, Bool, true, false, not, ◌&&◌, ◌||◌,
  Option, none, some, get_or, any, count, filter, length, ◌==◌, is_space, if◌then◌else◌,
}
use janus_graph.Dream.Planner.{Node}
use janus_graph.Dream.Plan.{Edge}
use janus_graph.Dream.Graph.{Graph, World, statement, member, if_truthy}
use janus_graph.Dream.Cleanup.{is_deletable, delete_nodes}
use janus_graph.Dream.Phase2.{Snapshot, load_graph_snapshot}
pub mod Spared

-- An entity that no edge of the snapshot names. One that may go has an empty summary.
pub record Orphan : Type 0 where
  pub uuid : Text
  pub name : Text
  pub summary : Text
  pub prunable : Bool

pub record PrunePlan : Type 0 where
  pub candidates : List Orphan
  pub protected : ℕ
  pub protected_chars : ℕ

-- `if v: out.add(str(v))`
abbrev pub listed : Option Text → List Text
listed v = elim (if_truthy v) [ none ↦ [] | some u ↦ u ∷ [] ]

-- The set as a list. The rows of a snapshot have no `source_node_uuid` and `target_node_uuid`.
pub referenced_uuids : List Edge → List Edge → List Text
referenced_uuids [] [] = []
referenced_uuids [] (r ∷ relations) =
    (listed r.src_uuid ++ listed r.dst_uuid) ++ referenced_uuids [] relations
referenced_uuids (m ∷ mentions) relations = listed m.dst_uuid ++ referenced_uuids mentions relations

-- `not summary.strip()`
abbrev pub is_blank : Text → Bool
is_blank s = not (any (λ c. not (is_space c)) s)

abbrev pub orphan : Text → Text → Text → Orphan
orphan uuid name summary =
    if is_blank summary
    then record { uuid = uuid; name = name; summary = []; prunable = true }
    else record { uuid = uuid; name = name; summary = summary; prunable = false }

abbrev pub orphan_here : List Text → Node → List Orphan
orphan_here refs n = elim n.uuid [
  | none ↦ []
  | some u ↦ if member u refs then [] else orphan u (get_or n.name []) (get_or n.summary []) ∷ []
]

pub orphans_among : List Text → List Node → List Orphan
orphans_among refs [] = []
orphans_among refs (n ∷ nodes) = orphan_here refs n ++ orphans_among refs nodes

pub find_orphan_candidates : List Node → List Edge → List Edge → List Orphan
unfolding orphans_among referenced_uuids
find_orphan_candidates entities mentions relations =
    orphans_among (referenced_uuids mentions relations) entities

pub protected_chars_of : List Orphan → ℕ
protected_chars_of [] = 0
protected_chars_of (o ∷ orphans) =
    (if o.prunable then 0 else length o.summary) + protected_chars_of orphans

pub plan_orphan_pruning : List Node → List Edge → List Edge → PrunePlan
unfolding find_orphan_candidates protected_chars_of
plan_orphan_pruning entities mentions relations =
    let found = find_orphan_candidates entities mentions relations in
    record {
      candidates = found;
      protected = count (λ o. not o.prunable) found;
      protected_chars = protected_chars_of found;
    }

abbrev pub prunable_of : List Orphan → List Orphan
prunable_of orphans = filter (λ o. o.prunable) orphans

-- The counters of `_delete_orphans`; of the errors their number is kept.
pub record PruneCounters : Type 0 where
  pub deleted : ℕ
  pub skipped_still_referenced : ℕ
  pub already_gone : ℕ
  pub errors : ℕ

pub record PruneSession : Type 0 where
  pub world : World
  pub counters : PruneCounters

abbrev pub prune_error : World → PruneCounters → PruneSession
prune_error w c = record { world = w; counters = record c { errors = c.errors + 1 } }

pub orphan_deleted : PruneCounters → World × Option (Unit {0}) → PruneSession
orphan_deleted c (w, none) = prune_error w c
orphan_deleted c (w, some _) = record { world = w; counters = record c { deleted = c.deleted + 1 } }

-- The DELETE asks again whether the node has an edge.
pub orphan_counted : Text → PruneCounters → World × Option ℕ → PruneSession
unfolding orphan_deleted delete_nodes
orphan_counted u c (w, none) = prune_error w c
orphan_counted u c (w, some zero) = record {
  world = w;
  counters = record c { skipped_still_referenced = c.skipped_still_referenced + 1 };
}
orphan_counted u c (w, some (suc n)) =
    orphan_deleted c (statement (λ g. (delete_nodes (u ∷ []) g, tt)) w)

pub existing_counted : Text → PruneCounters → World × Option ℕ → PruneSession
unfolding orphan_counted
existing_counted u c (w, none) = prune_error w c
existing_counted u c (w, some zero) = record {
  world = w;
  counters = record c { already_gone = c.already_gone + 1 };
}
existing_counted u c (w, some (suc n)) =
    orphan_counted u c
      (statement (λ g. (g, count (λ x. is_deletable (u ∷ []) g x.uuid) g.entities)) w)

pub delete_orphans : List Text → PruneSession → PruneSession
unfolding existing_counted
delete_orphans [] s = s
delete_orphans (u ∷ uuids) s = delete_orphans uuids (
    existing_counted u s.counters
      (statement (λ g. (g, count (λ x. text_eq x.uuid u) g.entities)) s.world))

pub data PruneStatus : Type 0 where
  prune_skipped prune_failed prune_done prune_planned prune_partial : PruneStatus

-- `counters` is there when the phase has written.
pub record Phase3 : Type 0 where
  pub status : PruneStatus
  pub world : World
  pub plan : Option PrunePlan
  pub counters : Option PruneCounters

abbrev pub no_prune_counters : PruneCounters
no_prune_counters = record {
  deleted = 0;
  skipped_still_referenced = 0;
  already_gone = 0;
  errors = 0;
}

abbrev pub report_prune : PrunePlan → PruneSession → Phase3
report_prune plan s = record {
  status =
      if s.counters.errors == 0 && s.counters.skipped_still_referenced == 0
      then prune_done
      else prune_partial;
  world = s.world;
  plan = some plan;
  counters = some s.counters;
}

unfoldable pub prune_nodes : PrunePlan → List Orphan → Bool → World → Phase3
unfolding delete_orphans
prune_nodes plan [] force w = record {
  status = prune_done;
  world = w;
  plan = some plan;
  counters = none;
}
prune_nodes plan (o ∷ orphans) false w = record {
  status = prune_planned;
  world = w;
  plan = some plan;
  counters = none;
}
prune_nodes plan (o ∷ orphans) true w = report_prune plan (
    delete_orphans (map (λ x. x.uuid) (o ∷ orphans))
      (record { world = w; counters = no_prune_counters }))

unfoldable pub prune_snapshot : Bool → World × Snapshot × Bool → Phase3
unfolding plan_orphan_pruning prune_nodes
prune_snapshot force (w, snap, true) = record {
  status = prune_failed;
  world = w;
  plan = none;
  counters = none;
}
prune_snapshot force (w, snap, false) =
    let plan = plan_orphan_pruning snap.entities snap.mentions snap.relations in
    prune_nodes plan (prunable_of plan.candidates) force w

-- `connected` tells whether `_graph` got a handle.
unfoldable pub run_phase3_prune : Bool → Text → Bool → World → Phase3
unfolding prune_snapshot load_graph_snapshot
run_phase3_prune force gid false w = record {
  status = prune_skipped;
  world = w;
  plan = none;
  counters = none;
}
run_phase3_prune force gid true w = prune_snapshot force (load_graph_snapshot gid w)
