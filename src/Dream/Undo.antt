-- ===== src/Dream/Undo.antt =====
-- The undo rows of `apply_episodic_plan` in janus_graph/pipeline/dedup_apply.py, and the deletion of
-- the victims, which wants them. The undo writer is a parameter: it is missing, or it raises, or it
-- answers with the number of rows that it stored.
use janus_graph.Base.{
  ℕ, zero, suc, Text, text_eq, List, [], ◌∷◌, ◌++◌, ◌+◌, ◌-◌, Bool, not, ◌&&◌, Option, none, some,
  any, count, filter, find, get_or, length, take, ltb, if◌then◌else◌,
}
use janus_graph.Dream.Redirect.{Map, lookup}
use janus_graph.Dream.Episodics.{EpisodicMerge}
use janus_graph.Dream.Graph.{Episodic, Graph, World, statement, member}
use janus_graph.Dream.Phases.{victims_of}
use janus_graph.Dream.Cleanup.{drop}
use janus_graph.Dream.Rewire.{VictimEdge}
use janus_graph.Dream.Fold.{
  FoldTrouble, FoldCounters, FoldSession, trouble, undo_build, undo_rows, undo_missing, undo_write,
  undo_short, node_delete,
}

-- An undo row: the node as it was, and its mentions as they were read; the text of the JSON, and
-- the group id that it gives to a mention without one, are left out.
pub record UndoRow : Type 0 where
  pub victim_uuid : Text
  pub survivor_uuid : Text
  pub node_snapshot : Episodic
  pub mentions : List VictimEdge

pub undo_row : Map → List VictimEdge → Text → Option Episodic → List UndoRow
undo_row m edges v none = []
undo_row m edges v (some n) =
    record {
      victim_uuid = v;
      survivor_uuid = get_or (lookup v m) [];
      node_snapshot = n;
      mentions = filter (λ e. text_eq e.src v) edges;
    }
    ∷ []

-- `_build_episodic_undo_rows`: a victim that is no longer in the graph has no row.
pub build_undo_rows : Map → List VictimEdge → List EpisodicMerge → List Episodic → List UndoRow
unfolding undo_row lookup
build_undo_rows m edges [] nodes = []
build_undo_rows m edges (g ∷ merges) nodes =
    undo_row m edges g.victim_uuid (find (λ n. text_eq n.uuid g.victim_uuid) nodes)
    ++ build_undo_rows m edges merges nodes

-- Phase D.
abbrev pub is_empty_victim : List Text → Graph → Text → Bool
is_empty_victim chunk g u = member u chunk && not (any (λ e. text_eq e.src u) g.mentions)

pub delete_episodics : List Text → Graph → Graph
delete_episodics chunk g = record g {
  episodics = filter (λ n. not (is_empty_victim chunk g n.uuid)) g.episodics;
  mentions = filter (λ e. not (is_empty_victim chunk g e.src)) g.mentions;
}

unfoldable pub episodics_deleted : ℕ → ℕ → FoldCounters → World × Option (Unit {0}) → FoldSession
episodics_deleted size n c (w, none) = trouble node_delete w c
episodics_deleted size n c (w, some _) = record {
  world = w;
  counters = record c {
    nodes_deleted = c.nodes_deleted + n;
    victims_not_empty = c.victims_not_empty + (size - n);
  };
}

unfoldable pub episodics_counted : List Text → FoldCounters → World × Option ℕ → FoldSession
unfolding episodics_deleted delete_episodics
episodics_counted chunk c (w, none) = trouble node_delete w c
episodics_counted chunk c (w, some n) =
    episodics_deleted (length chunk) n c (statement (λ g. (delete_episodics chunk g, tt)) w)

unfoldable pub delete_episodic_chunks : ℕ → ℕ → List Text → FoldSession → FoldSession
unfolding episodics_counted
delete_episodic_chunks zero batch victims s = s
delete_episodic_chunks (suc fuel) batch [] s = s
delete_episodic_chunks (suc fuel) batch (u ∷ us) s =
    let chunk = take batch (u ∷ us) in
    delete_episodic_chunks fuel batch (drop batch (u ∷ us)) (
      episodics_counted chunk s.counters
        (statement (λ g. (g, count (λ n. is_empty_victim chunk g n.uuid) g.episodics)) s.world))

-- `undo_writer`: missing, or what it answers to the rows, where `none` is an exception.
abbrev pub Writer : Type 0
Writer = Option (List UndoRow → Option ℕ)

abbrev pub stop : FoldTrouble → ℕ → FoldSession → FoldSession
stop t victims s = trouble t s.world (record s.counters { victims_not_empty = victims })

-- The nodes go only if the writer stored a row for each.
unfoldable pub written : ℕ → List Text → ℕ → FoldSession → FoldSession
unfolding delete_episodic_chunks
written batch victims n s =
    let counted = record s { counters = record s.counters { undo_rows_written = n } } in
    if ltb n (length victims)
    then stop undo_short (length victims) counted
    else delete_episodic_chunks (length victims) batch victims counted

unfoldable pub call_writer : Writer → List UndoRow → ℕ → List Text → FoldSession → FoldSession
unfolding written
call_writer none rows batch victims s = stop undo_missing (length victims) s
call_writer (some writer) rows batch victims s = elim (writer rows) [
  | none ↦ written batch victims 0 (trouble undo_write s.world s.counters)
  | some n ↦ written batch victims n s
]

unfoldable pub with_undo_rows : Writer → List UndoRow → ℕ → List Text → FoldSession → FoldSession
unfolding call_writer
with_undo_rows writer rows batch victims s =
    if ltb (length rows) (length victims)
    then stop undo_rows (length victims) s
    else call_writer writer rows batch victims s

unfoldable pub rows_built :
    Writer → List Text → ℕ → FoldCounters → World × Option (List UndoRow) → FoldSession
unfolding with_undo_rows
rows_built writer victims batch c (w, none) =
    with_undo_rows writer [] batch victims (trouble undo_build w c)
rows_built writer victims batch c (w, some rows) =
    with_undo_rows writer rows batch victims (record { world = w; counters = c })

-- The undo rows are read while the victims still exist.
unfoldable pub finish :
    Writer → Map → List VictimEdge → List EpisodicMerge → ℕ → FoldSession → FoldSession
unfolding rows_built build_undo_rows
finish writer m edges merges batch s =
    rows_built writer (victims_of m) batch s.counters
      (statement (λ g. (g, build_undo_rows m edges merges g.episodics)) s.world)

abbrev pub no_fold_counters : Bool → ℕ → FoldCounters
no_fold_counters apply merges = record {
  applied = apply;
  episodic_merges = merges;
  episodic_victims = 0;
  mentions_rewired = 0;
  mentions_moved = 0;
  mentions_dropped = 0;
  mentions_created = 0;
  mentions_intra_victim_dup = 0;
  survivor_dedupe_dropped = 0;
  mentions_accounted = 0;
  nodes_deleted = 0;
  victims_not_empty = 0;
  undo_rows_written = 0;
  errors = [];
}
