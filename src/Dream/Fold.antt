-- ===== src/Dream/Fold.antt =====
-- The writes of `apply_episodic_plan` in janus_graph/pipeline/dedup_apply.py that move the mentions
-- of the victims to the survivors.
use janus_graph.Base.{
  ℕ, zero, suc, Text, codes, List, [], ◌∷◌, ◌++◌, ◌+◌, Bool, not, ◌||◌, Option, none, some, any,
  filter, length, is_none,
}
use janus_graph.Dream.Graph.{
  Mention, Graph, World, statement, uuid_is, or_default, if_truthy, create_mention, delete_mention,
}
use janus_graph.Dream.Rewire.{Rewired}

pub data FoldTrouble : Type 0 where
  victim_read no_victim_rows survivor_read row_skip no_survivor rows_drop : FoldTrouble
  row_create row_move undo_build undo_rows undo_missing undo_write undo_short node_delete :
      FoldTrouble

pub record FoldCounters : Type 0 where
  pub applied : Bool
  pub episodic_merges : ℕ
  pub episodic_victims : ℕ
  pub mentions_rewired : ℕ
  pub mentions_moved : ℕ
  pub mentions_dropped : ℕ
  pub mentions_created : ℕ
  pub mentions_intra_victim_dup : ℕ
  pub survivor_dedupe_dropped : ℕ
  pub mentions_accounted : ℕ
  pub nodes_deleted : ℕ
  pub victims_not_empty : ℕ
  pub undo_rows_written : ℕ
  pub errors : List FoldTrouble

pub record FoldSession : Type 0 where
  pub world : World
  pub counters : FoldCounters

abbrev pub trouble : FoldTrouble → World → FoldCounters → FoldSession
trouble t w c = record { world = w; counters = record c { errors = c.errors ++ t ∷ [] } }

abbrev pub times : ℕ → FoldTrouble → List FoldTrouble
times zero t = []
times (suc n) t = t ∷ times n t

-- `_delete_mentions_by_uuid`: a count, the DELETE and a count; nothing for an empty list.
unfoldable pub delete_uuids : List Text → Graph → Graph
delete_uuids uuids g = record g {
  mentions =
      filter (λ e. is_none e.uuid || not (any (λ u. uuid_is e.uuid (some u)) uuids)) g.mentions;
}

-- The statement after one that returned; an exception ends the sequence.
abbrev pub and_then : (World → World × Option ℕ) → World × Option ℕ → World × Option ℕ
and_then next (w, none) = (w, none)
and_then next (w, some n) = next w

abbrev pub count_mentions : World → World × Option ℕ
count_mentions w = statement (λ g. (g, length g.mentions)) w

unfoldable pub delete_mentions_by_uuid : List Text → World → World × Option ℕ
unfolding delete_uuids
delete_mentions_by_uuid [] w = (w, some 0)
delete_mentions_by_uuid (u ∷ us) w =
    and_then count_mentions
      (and_then (statement (λ g. (delete_uuids (u ∷ us) g, 0))) (count_mentions w))

unfoldable pub rows_dropped : FoldCounters → World × Option ℕ → FoldSession
rows_dropped c (w, none) = trouble rows_drop w c
rows_dropped c (w, some n) = record { world = w; counters = c }

unfoldable pub drop_rows : List Text → FoldSession → FoldSession
unfolding delete_mentions_by_uuid rows_dropped
drop_rows uuids s = rows_dropped s.counters (delete_mentions_by_uuid uuids s.world)

-- The edge that is made on the survivor, with the uuid of the old one.
abbrev pub rewired_mention : Rewired → Mention
rewired_mention r = record {
  uuid = some r.edge.edge_uuid;
  src = r.survivor;
  dst = r.edge.dst;
  created_at = if_truthy r.edge.created_at;
  group_id = some (or_default r.edge.group_id (codes "graphiti_memory"));
}

unfoldable pub drop_old_row : FoldCounters → World × Option (Unit {0}) → FoldSession
drop_old_row c (w, none) = trouble row_move w c
drop_old_row c (w, some _) = record {
  world = w;
  counters = record c { mentions_rewired = c.mentions_rewired + 1 };
}

unfoldable pub after_rewire : Rewired → FoldCounters → World × Option ℕ → FoldSession
unfolding drop_old_row
after_rewire r c (w, none) = trouble row_move w c
after_rewire r c (w, some zero) = trouble row_create w c
after_rewire r c (w, some (suc n)) =
    drop_old_row (record c { mentions_created = c.mentions_created + 1 })
      (statement (λ g. (delete_mention r.edge.src r.edge.dst (some r.edge.edge_uuid) g, tt)) w)

unfoldable pub rewire_rows : List Rewired → FoldSession → FoldSession
unfolding after_rewire
rewire_rows [] s = s
rewire_rows (r ∷ rows) s =
    rewire_rows rows
      (after_rewire r s.counters (statement (create_mention (rewired_mention r)) s.world))
