-- ===== src/Dream/Phases.antt =====
-- Phases A and B of `apply_plan` in janus_graph/pipeline/dedup_apply.py, which move the edges of
-- the victims to the survivors. Each statement may raise, before or after
-- it takes effect. Of an error message its kind is kept.
use janus_graph.Base.{
  ℕ, zero, suc, Text, text_eq, codes, List, [], ◌∷◌, ◌++◌, map, ◌+◌, Bool, true, false, ◌&&◌, ◌||◌,
  Option, none, some, filter, if◌then◌else◌,
}
use janus_graph.Dream.Redirect.{Map, resolve}
use janus_graph.Dream.Graph.{
  Mention, Relation, World, statement, member, or_default, if_truthy, create_mention,
  delete_mention, create_relation, delete_relation,
}

pub data Trouble : Type 0 where
  mentions_read mentions_skip mentions_create mentions_move relations_read : Trouble
  selfloop_drop relations_move dedupe_edges node_delete : Trouble

-- The three numbers that a dry run announces.
pub record Announced : Type 0 where
  pub nodes_to_delete : ℕ
  pub mentions_to_move : ℕ
  pub relations_to_move : ℕ

pub record Counters : Type 0 where
  pub applied : Bool
  pub nodes_deleted : ℕ
  pub mentions_moved : ℕ
  pub relations_moved : ℕ
  pub self_loops_dropped : ℕ
  pub duplicate_edges_dropped : ℕ
  pub announced : Option Announced
  pub errors : List Trouble

-- The database and the counters while the phases run.
pub record Session : Type 0 where
  pub world : World
  pub counters : Counters

abbrev pub report : Trouble → World → Counters → Session
report t w c = record { world = w; counters = record c { errors = c.errors ++ t ∷ [] } }

abbrev pub is_empty : Text → Bool
is_empty [] = true
is_empty (c ∷ s) = false

-- Phase A, one row: the new edge first, and the old one goes only if the new one exists.
abbrev pub moved_mention : Map → Mention → Mention
moved_mention m e = record e {
  dst = resolve m e.dst;
  created_at = if_truthy e.created_at;
  group_id = some (or_default e.group_id (codes "graphiti_memory"));
}

unfoldable pub drop_old_mention : Counters → World × Option (Unit {0}) → Session
drop_old_mention c (w, none) = report mentions_move w c
drop_old_mention c (w, some _) = record {
  world = w;
  counters = record c { mentions_moved = c.mentions_moved + 1 };
}

unfoldable pub after_create : Mention → Counters → World × Option ℕ → Session
unfolding drop_old_mention
after_create e c (w, none) = report mentions_move w c
after_create e c (w, some zero) = report mentions_create w c
after_create e c (w, some (suc n)) =
    drop_old_mention c (statement (λ g. (delete_mention e.src e.dst e.uuid g, tt)) w)

unfoldable pub move_mention : Map → Mention → Session → Session
unfolding after_create
move_mention m e s =
    if is_empty e.src || is_empty e.dst
    then report mentions_skip s.world s.counters
    else if text_eq (resolve m e.dst) e.dst
    then s
    else after_create e s.counters (statement (create_mention (moved_mention m e)) s.world)

unfoldable pub move_mentions : Map → List Mention → Session → Session
unfolding move_mention
move_mentions m [] s = s
move_mentions m (e ∷ rows) s = move_mentions m rows (move_mention m e s)

-- Phase A: the read, and its rows.
unfoldable pub mention_rows : Map → Counters → World × Option (List Mention) → Session
unfolding move_mentions
mention_rows m c (w, none) = report mentions_read w c
mention_rows m c (w, some rows) = move_mentions m rows (record { world = w; counters = c })

abbrev pub victims_of : Map → List Text
victims_of m = map (λ e. e.0) m

unfoldable pub phase_a : Map → Session → Session
unfolding mention_rows
phase_a m s =
    mention_rows m s.counters
      (statement (λ g. (g, filter (λ e. member e.dst (victims_of m)) g.mentions)) s.world)

-- Phase B, one row.
abbrev pub moved_relation : Map → Relation → Relation
moved_relation m e = record e {
  src = resolve m e.src;
  dst = resolve m e.dst;
  source_node_uuid = some (resolve m e.src);
  target_node_uuid = some (resolve m e.dst);
  group_id = some (codes "graphiti_memory");
  created_at = if_truthy e.created_at;
  valid_at = if_truthy e.valid_at;
  reference_time = if_truthy e.reference_time;
}

unfoldable pub drop_self_loop : Counters → World × Option (Unit {0}) → Session
drop_self_loop c (w, none) = report selfloop_drop w c
drop_self_loop c (w, some _) = record { world = w; counters = c }

unfoldable pub drop_old_relation : Counters → World × Option (Unit {0}) → Session
drop_old_relation c (w, none) = report relations_move w c
drop_old_relation c (w, some _) = record {
  world = w;
  counters = record c { relations_moved = c.relations_moved + 1 };
}

-- Whether the CREATE matched both ends is not asked.
unfoldable pub after_create_relation : Relation → Counters → World × Option (Unit {0}) → Session
unfolding drop_old_relation
after_create_relation e c (w, none) = report relations_move w c
after_create_relation e c (w, some _) =
    drop_old_relation c (statement (λ g. (delete_relation e.src e.dst e.uuid g, tt)) w)

unfoldable pub move_relation : Map → Relation → Session → Session
unfolding drop_self_loop after_create_relation
move_relation m e s =
    if text_eq (resolve m e.src) e.src && text_eq (resolve m e.dst) e.dst
    then s
    else if text_eq (resolve m e.src) (resolve m e.dst)
    then drop_self_loop
        (record s.counters { self_loops_dropped = s.counters.self_loops_dropped + 1 })
        (statement (λ g. (delete_relation e.src e.dst e.uuid g, tt)) s.world)
    else after_create_relation e s.counters
        (statement (λ g. (create_relation (moved_relation m e) g, tt)) s.world)

unfoldable pub move_relations : Map → List Relation → Session → Session
unfolding move_relation
move_relations m [] s = s
move_relations m (e ∷ rows) s = move_relations m rows (move_relation m e s)

unfoldable pub relation_rows : Map → Counters → World × Option (List Relation) → Session
unfolding move_relations
relation_rows m c (w, none) = report relations_read w c
relation_rows m c (w, some rows) = move_relations m rows (record { world = w; counters = c })

unfoldable pub phase_b : Map → Session → Session
unfolding relation_rows
phase_b m s = relation_rows m s.counters (
    statement
      (λ g.
        (g, filter (λ e. member e.src (victims_of m) || member e.dst (victims_of m)) g.relations))
      s.world)
