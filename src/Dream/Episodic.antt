-- ===== src/Dream/Episodic.antt =====
-- `apply_episodic_plan` of janus_graph/pipeline/dedup_apply.py.
use janus_graph.Base.{
  ℕ, Text, List, [], ◌∷◌, ◌++◌, ◌+◌, map, Bool, true, false, not, Option, none, some, filter, count,
  length, is_none, if◌then◌else◌,
}
use janus_graph.Dream.Redirect.{Map, resolve}
use janus_graph.Dream.Episodics.{EpisodicMerge}
use janus_graph.Dream.Graph.{Mention, Graph, World, statement, member}
use janus_graph.Dream.Phases.{victims_of}
use janus_graph.Dream.Rewire.{
  VictimEdge, Split, Sorted, episodic_redirect, edge_of, is_unresolved, split_pairs, sort_edges,
}
use janus_graph.Dream.Fold.{
  FoldCounters, FoldSession, trouble, times, victim_read, no_victim_rows, survivor_read, row_skip,
  no_survivor, drop_rows, rewire_rows,
}
use janus_graph.Dream.Undo.{Writer, finish, no_fold_counters}
pub mod Rules
pub mod Precondition

-- What a dry run announces beside the counters.
pub record Announcement : Type 0 where
  pub nodes_to_delete : ℕ
  pub mentions_to_delete : ℕ
  pub mentions_to_create : ℕ

pub record Folded : Type 0 where
  pub session : FoldSession
  pub announced : Option Announcement

abbrev pub done : FoldSession → Folded
done s = record { session = s; announced = none }

-- The writes, once the rows are sorted: redundant rows go, the others are moved, then the undo.
pub write_fold :
    Writer
    → Map
    → List EpisodicMerge
    → ℕ
    → Sorted
    → List VictimEdge
    → List Text
    → ℕ
    → FoldSession
    → FoldSession
unfolding drop_rows rewire_rows finish
write_fold writer m merges batch sorted unique repeated accounted s =
    let dropped = drop_rows ((sorted.to_drop ++ sorted.survivor_dedupe) ++ repeated) s in
    let local = record dropped {
      counters = record dropped.counters { mentions_rewired = 0; mentions_created = 0 };
    } in
    let moved = rewire_rows sorted.to_create local in
    let counted = record moved {
      counters = record moved.counters {
        mentions_moved = moved.counters.mentions_rewired;
        mentions_rewired = accounted;
        mentions_accounted = accounted;
      };
    } in
    finish writer m unique merges batch counted

abbrev pub victim_edges : List Mention → List VictimEdge
victim_edges rows = map edge_of (filter (λ e. not (is_unresolved e)) rows)

pub split_rows : List Mention → Split
unfolding split_pairs
split_rows rows = split_pairs [] (victim_edges rows)

pub sort_rows : Map → List Mention → List Mention → Sorted
unfolding split_rows sort_edges
sort_rows m rows surv_rows = sort_edges m surv_rows [] (split_rows rows).unique

-- The counters of the dry run, which the writes begin with.
unfoldable pub counted_rows : Map → List Mention → List Mention → FoldSession → FoldSession
unfolding sort_rows
counted_rows m rows surv_rows s =
    let split = split_rows rows in
    let sorted = sort_rows m rows surv_rows in
    record s {
      counters = record s.counters {
        mentions_rewired = length (victim_edges rows);
        mentions_moved = length sorted.to_create;
        mentions_dropped = length sorted.to_drop;
        mentions_created = length sorted.to_create;
        mentions_intra_victim_dup = length split.repeated;
        survivor_dedupe_dropped = length sorted.survivor_dedupe;
        mentions_accounted = length (victim_edges rows);
        errors =
            s.counters.errors
            ++ (times (count is_unresolved rows) row_skip ++ times sorted.unsorted no_survivor);
      };
    }

-- The rows of the victims, with those of the survivors.
unfoldable pub fold_rows :
    Writer
    → Map
    → List EpisodicMerge
    → Bool
    → ℕ
    → List Mention
    → List Mention
    → FoldSession
    → Folded
unfolding counted_rows write_fold
fold_rows writer m merges apply batch rows surv_rows s =
    let split = split_rows rows in
    let sorted = sort_rows m rows surv_rows in
    let counted = counted_rows m rows surv_rows s in
    if apply
    then done (
        write_fold writer m merges batch sorted split.unique split.repeated
          (length (victim_edges rows)) counted)
    else record {
      session = counted;
      announced = some (record {
        nodes_to_delete = length (victims_of m);
        mentions_to_delete = length sorted.to_drop + length sorted.survivor_dedupe;
        mentions_to_create = length sorted.to_create;
      });
    }

-- A failed read of the survivors' rows is noted, and counts as no rows.
unfoldable pub survivors_read :
    Writer
    → Map
    → List EpisodicMerge
    → Bool
    → ℕ
    → List Mention
    → FoldCounters
    → World × Option (List Mention)
    → Folded
unfolding fold_rows
survivors_read writer m merges apply batch rows c (w, none) =
    fold_rows writer m merges apply batch rows [] (trouble survivor_read w c)
survivors_read writer m merges apply batch rows c (w, some surv_rows) =
    fold_rows writer m merges apply batch rows surv_rows (record { world = w; counters = c })

unfoldable pub victims_read :
    Writer
    → Map
    → List EpisodicMerge
    → Bool
    → ℕ
    → FoldCounters
    → World × Option (List Mention)
    → Folded
unfolding survivors_read
victims_read writer m merges apply batch c (w, none) = done (trouble victim_read w c)
victims_read writer m merges apply batch c (w, some []) = done (trouble no_victim_rows w c)
victims_read writer m merges apply batch c (w, some (e ∷ rows)) =
    survivors_read writer m merges apply batch (e ∷ rows) c
      (statement (λ g. (g, filter (λ x. member x.src (map (λ k. resolve m k.0) m)) g.mentions)) w)

abbrev pub fold_start : Bool → Map → List EpisodicMerge → FoldCounters
fold_start apply m merges = record (no_fold_counters apply (length merges)) {
  episodic_victims = length (victims_of m);
}

unfoldable pub apply_episodic_plan : Writer → List EpisodicMerge → Bool → ℕ → World → Folded
unfolding victims_read episodic_redirect
apply_episodic_plan writer [] apply batch w =
    done (record { world = w; counters = no_fold_counters apply 0 })
apply_episodic_plan writer (g ∷ merges) apply batch w =
    let m = episodic_redirect [] (g ∷ merges) in
    victims_read writer m (g ∷ merges) apply batch (fold_start apply m (g ∷ merges))
      (statement (λ k. (k, filter (λ x. member x.src (victims_of m)) k.mentions)) w)
