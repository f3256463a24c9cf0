-- ===== src/Dream/Cleanup.antt =====
-- Phases C and D of `apply_plan` in janus_graph/pipeline/dedup_apply.py: duplicate relations go,
-- and then the victims that have no edge left.
use janus_graph.Base.{
  ℕ, zero, suc, Text, text_eq, List, [], ◌∷◌, ◌++◌, ◌+◌, ◌-◌, Bool, true, false, not, ◌&&◌, ◌||◌,
  Option, none, some, any, count, filter, length, take, ltb, ◌==◌, is_none, if◌then◌else◌,
}
use janus_graph.Dream.Groups.{group_by}
use janus_graph.Dream.Graph.{
  Mention, Relation, Entity, Graph, World, statement, member, is_isolated,
}
use janus_graph.Dream.Phases.{Counters, Session, report, dedupe_edges, node_delete}
pub mod Isolated

-- Grouping by a value that may be null puts the nulls together.
abbrev pub same_value : Option Text → Option Text → Bool
same_value none none = true
same_value (some s) (some t) = text_eq s t
same_value _ _ = false

abbrev pub same_triple : Relation → Relation → Bool
same_triple e f = text_eq e.src f.src && text_eq e.dst f.dst && same_value e.fact f.fact

-- `size(ids) - 1` over the groups in which more than one edge has a uuid.
pub surplus : List (List Relation) → ℕ
surplus [] = 0
surplus (group ∷ groups) =
    let ids = count (λ e. not (is_none e.uuid)) group in
    (if ltb 1 ids then ids - 1 else 0) + surplus groups

-- `FOREACH (x IN es[1..] | DELETE x)`: the first edge of each triple stays.
unfoldable pub first_edges : List Relation → List Relation
first_edges [] = []
first_edges (e ∷ es) = e ∷ filter (λ f. not (same_triple e f)) (first_edges es)

unfoldable pub dedupe : Graph → Graph
unfolding first_edges
dedupe g = record g { relations = first_edges g.relations }

unfoldable pub drop_duplicates : Counters → World × Option (Unit {0}) → Session
drop_duplicates c (w, none) = report dedupe_edges w c
drop_duplicates c (w, some _) = record { world = w; counters = c }

unfoldable pub counted_duplicates : Counters → World × Option ℕ → Session
unfolding drop_duplicates dedupe
counted_duplicates c (w, none) = report dedupe_edges w c
counted_duplicates c (w, some zero) = record {
  world = w;
  counters = record c { duplicate_edges_dropped = 0 };
}
counted_duplicates c (w, some (suc n)) =
    drop_duplicates (record c { duplicate_edges_dropped = suc n })
      (statement (λ g. (dedupe g, tt)) w)

unfoldable pub phase_c : Session → Session
unfolding counted_duplicates surplus
phase_c s =
    counted_duplicates s.counters
      (statement (λ g. (g, surplus (group_by same_triple g.relations))) s.world)

-- The nodes that a chunk of phase D names and that have no edge.
abbrev pub is_deletable : List Text → Graph → Text → Bool
is_deletable chunk g u = member u chunk && is_isolated g u

-- `DETACH DELETE v`, with the edges that it detaches.
unfoldable pub delete_nodes : List Text → Graph → Graph
delete_nodes chunk g = record g {
  entities = filter (λ n. not (is_deletable chunk g n.uuid)) g.entities;
  mentions = filter (λ e. not (is_deletable chunk g e.dst)) g.mentions;
  relations =
      filter (λ e. not (is_deletable chunk g e.src || is_deletable chunk g e.dst)) g.relations;
}

pub deleted_nodes : ℕ → Counters → World × Option (Unit {0}) → Session
deleted_nodes n c (w, none) = report node_delete w c
deleted_nodes n c (w, some _) = record {
  world = w;
  counters = record c { nodes_deleted = c.nodes_deleted + n };
}

pub counted_nodes : List Text → Counters → World × Option ℕ → Session
unfolding deleted_nodes delete_nodes
counted_nodes chunk c (w, none) = report node_delete w c
counted_nodes chunk c (w, some n) =
    deleted_nodes n c (statement (λ g. (delete_nodes chunk g, tt)) w)

pub delete_chunk : List Text → Session → Session
unfolding counted_nodes
delete_chunk chunk s =
    counted_nodes chunk s.counters
      (statement (λ g. (g, count (λ n. is_deletable chunk g n.uuid) g.entities)) s.world)

abbrev pub drop : ℕ → List Text → List Text
drop zero us = us
drop (suc n) [] = []
drop (suc n) (u ∷ us) = drop n us

-- `for start in range(0, len(victims), batch)`, on fuel.
pub delete_chunks : ℕ → ℕ → List Text → Session → Session
unfolding delete_chunk
delete_chunks zero batch victims s = s
delete_chunks (suc fuel) batch [] s = s
delete_chunks (suc fuel) batch (u ∷ us) s =
    delete_chunks fuel batch (drop batch (u ∷ us)) (delete_chunk (take batch (u ∷ us)) s)

-- A chunk takes a victim at least, so as many rounds as there are victims are enough.
unfoldable pub phase_d : ℕ → List Text → Session → Session
unfolding delete_chunks
phase_d batch victims s = delete_chunks (length victims) batch victims s
